-- ===== src/Workflow/Contracts/Validated.antt =====
-- internal/domain/workflow/contracts.go beside validate.go: the contracts of a draft that was validated.
use req_flow.Prelude.{
  String, Bool, true, false, not, ◌&&◌, List, [], ◌∷◌, ◌++◌, Option, some, ◌≡◌, refl, arith,
  valid_identifier, is_blank, element_path, contains, ◌⧺◌, if◌then◌else◌, ℕ, suc, subst,
}
use req_flow.Json.{Json, RawMessage}
use req_flow.Workflow.Model.{
  FieldType, string_type, integer_type, number_type, boolean_type, date_type, datetime_type,
  object_type, array_type, other_type, FieldContract, field_contract, ItemContract, FieldContracts,
  no_fields, fields, field_key, DataContract, CapabilityDefinition, RuleBundle, WorkflowDraft,
  error,
}
use req_flow.Workflow.Validate.Issues.{
  ValidationMode, publish_mode, has_errors, add_if, is_empty_trimmed, required_severity,
}
use req_flow.Workflow.Validate.Index.{Catalog, index_definition}
use req_flow.Workflow.Validate.Fields.{
  is_array_type, is_object_type, lacks_items, valid_field_type, field_issues, enum_issues,
  validate_fields, validate_rest, validate_field, validate_data_contract,
}
use req_flow.Workflow.Validate.Decisions.{
  validate, validate_rules, issues_of, needed_sections, missing_sections,
}
use req_flow.Workflow.Validate.Publishable.{no_errors-append}
use req_flow.Workflow.Validate.Publication.{NoErrors-of-validate}
use req_flow.Workflow.Contracts.Defs.{lacks_fields, compile_data_contract}
use req_flow.Workflow.Contracts.Compilable.{
  Fits, IsCompilable, HasCompilable, AreCompilable, Succeeds,
}
use req_flow.Workflow.Contracts.Compiled.{compile_field_schema_iff}

abbrev pub Asks : FieldType → Type 0 → Type 0 → Type 0
Asks object_type I P = P
Asks array_type I P = I
Asks _ I P = Unit

-- The items of every array compile, at every depth of properties. The validation does not look at items.
unfoldable mutual
  pub HasItems : FieldContract → Type 0
  HasItems (field_contract key label description type required enum items properties) =
      Asks type (HasCompilable items) (HaveItems properties)

  pub HaveItems : FieldContracts → Type 0
  HaveItems no_fields = Unit
  HaveItems (fields f fs) = HasItems f × HaveItems fs

identifier-nonblank : (s : String) → valid_identifier s ≡ true → is_blank s ≡ false
unfolding valid_identifier
identifier-nonblank String.[] h = cc
identifier-nonblank (String.◌∷◌ c s) h = refl

Fits-of-Asks :
    (type : FieldType) (I P Q : Type 0)
    → valid_field_type type ≡ true
    → (is_object_type type ≡ true → P → Q)
    → Asks type I P
    → Fits type I Q
unfolding valid_field_type
Fits-of-Asks object_type I P Q v p h = p refl h
Fits-of-Asks array_type I P Q v p h = h
Fits-of-Asks (other_type s) I P Q v p h = cc
Fits-of-Asks string_type I P Q v p h = tt
Fits-of-Asks integer_type I P Q v p h = tt
Fits-of-Asks number_type I P Q v p h = tt
Fits-of-Asks boolean_type I P Q v p h = tt
Fits-of-Asks date_type I P Q v p h = tt
Fits-of-Asks datetime_type I P Q v p h = tt

no_error :
    (failed : Bool) (code path : String)
    → has_errors (add_if failed code path error) ≡ false
    → failed ≡ false
no_error true code path h = cc
no_error false code path h = refl

field_issues-passed :
    (mode : ValidationMode) (path key label description : String) (type : FieldType)
    (required : Bool) (enum : List String) (items : ItemContract) (properties : FieldContracts)
    (seen : Bool)
    → has_errors (
        field_issues mode path
          (field_contract key label description type required enum items properties)
          seen)
      ≡ false
    → (is_blank key ≡ false) × (valid_field_type type ≡ true) × (seen ≡ false)
unfolding field_issues
field_issues-passed mode path key label description type required enum items properties seen h =
    let named = add_if (not (valid_identifier key)) "field_key_invalid" (path ⧺ ".key") error in
    let labelled =
      add_if (is_empty_trimmed label) "field_label_required" (path ⧺ ".label")
        (required_severity mode) in
    let typed = add_if (not (valid_field_type type)) "field_type_invalid" (path ⧺ ".type") error in
    let fresh = add_if seen "field_key_duplicate" (path ⧺ ".key") error in
    let held =
      add_if (is_array_type type && lacks_items items) "array_items_required" (path ⧺ ".items")
        error in
    let (a, h1) = no_errors-append named (labelled ++ (typed ++ (fresh ++ held))) h in
    let (_, h2) = no_errors-append labelled (typed ++ (fresh ++ held)) h1 in
    let (b, h3) = no_errors-append typed (fresh ++ held) h2 in
    let (c, _) = no_errors-append fresh held h3 in
    let valid = no_error (not (valid_identifier key)) "field_key_invalid" (path ⧺ ".key") a in
    let known = no_error (not (valid_field_type type)) "field_type_invalid" (path ⧺ ".type") b in
    (
      identifier-nonblank key (ground arith),
      ground arith,
      no_error seen "field_key_duplicate" (path ⧺ ".key") c,
    )

mutual
  unfolding validate_fields IsCompilable HasItems

  pub validate_fields-AreCompilable :
      (fs : FieldContracts) (mode : ValidationMode) (base : String)
      → has_errors (validate_fields fs mode base) ≡ false
      → HaveItems fs
      → AreCompilable fs []
  validate_fields-AreCompilable no_fields mode base h w = tt
  validate_fields-AreCompilable (fields f fs) mode base h w =
      let (first, rest) =
        no_errors-append (validate_field f mode (element_path base 0) false)
          (validate_rest fs mode base 1 (field_key f ∷ [])) h in
      let (compiles, _) =
        validate_field-IsCompilable f mode (element_path base 0) false first w.0 in
      (compiles, (refl, validate_rest-AreCompilable fs mode base 1 (field_key f ∷ []) rest w.1))

  validate_rest-AreCompilable :
      (fs : FieldContracts) (mode : ValidationMode) (base : String) (i : ℕ) (seen : List String)
      → has_errors (validate_rest fs mode base i seen) ≡ false
      → HaveItems fs
      → AreCompilable fs seen
  validate_rest-AreCompilable no_fields mode base i seen h w = tt
  validate_rest-AreCompilable (fields f fs) mode base i seen h w =
      let (first, rest) =
        no_errors-append (validate_field f mode (element_path base i) (contains (field_key f) seen))
          (validate_rest fs mode base (suc i) (field_key f ∷ seen)) h in
      let (compiles, fresh) =
        validate_field-IsCompilable f mode (element_path base i) (contains (field_key f) seen) first
          w.0 in
      (
        compiles,
        (fresh, validate_rest-AreCompilable fs mode base (suc i) (field_key f ∷ seen) rest w.1),
      )

  validate_field-IsCompilable :
      (f : FieldContract) (mode : ValidationMode) (path : String) (seen : Bool)
      → has_errors (validate_field f mode path seen) ≡ false
      → HasItems f
      → IsCompilable f × (seen ≡ false)
  validate_field-IsCompilable
        (field_contract key label description type required enum items properties) mode path seen h
        w =
      let f = field_contract key label description type required enum items properties in
      let nested = validate_fields properties mode (path ⧺ ".properties") in
      let (own, more) =
        no_errors-append (field_issues mode path f seen)
          ((if is_object_type type then nested else []) ++ enum_issues path f) h in
      let (below, _) =
        no_errors-append (if is_object_type type then nested else []) (enum_issues path f) more in
      let (keyed, known, fresh) =
        field_issues-passed mode path key label description type required enum items properties seen
          own in
      (
        (
          keyed,
          Fits-of-Asks type (HasCompilable items) (HaveItems properties)
              (AreCompilable properties []) known
              (λ is_object held.
                validate_fields-AreCompilable properties mode (path ⧺ ".properties")
                  (subst (λ b. has_errors (if b then nested else []) ≡ false) is_object below) held)
              w,
        ),
        fresh,
      )

some_fields :
    (fs : FieldContracts) (base : String)
    → has_errors (validate_fields fs publish_mode base) ≡ false
    → lacks_fields fs ≡ false
unfolding validate_fields
some_fields no_fields base h = cc
some_fields (fields f fs) base h = refl

contracts-of-rules :
    (regex_compiles : String → Bool) (bundle : RuleBundle)
    (capabilities : List (String × CapabilityDefinition))
    → has_errors (validate_rules regex_compiles publish_mode bundle capabilities) ≡ false
    → has_errors (issues_of (validate_data_contract publish_mode) bundle.data_rules) ≡ false
unfolding validate_rules
contracts-of-rules regex_compiles bundle capabilities h =
    (no_errors-append (issues_of (validate_data_contract publish_mode) bundle.data_rules) _
      (no_errors-append (missing_sections publish_mode bundle (needed_sections capabilities [])) _
        h).1).0

fields-of-contract :
    (contract : DataContract)
    → has_errors (validate_data_contract publish_mode contract) ≡ false
    → has_errors
        (validate_fields contract.contract_fields publish_mode "rules.data_contract.fields")
      ≡ false
unfolding validate_data_contract
fields-of-contract contract h =
    (no_errors-append
      (validate_fields contract.contract_fields publish_mode "rules.data_contract.fields") _
      (no_errors-append
        (add_if (is_empty_trimmed contract.record_granularity) "record_granularity_required"
          "rules.data_contract.record_granularity" error)
        _ h).1).0

-- The data contract of a draft that is accepted for a publication compiles, if the items of every array in it compile
-- and every schema can be marshalled.
pub validate-compile_data_contract :
    (marshal : Json → Option RawMessage) (digest : RawMessage → String)
    (valid_config : CapabilityDefinition → RawMessage → Bool) (regex_compiles : String → Bool)
    (draft : WorkflowDraft) (catalog : Catalog) (contract : DataContract)
    → has_errors (validate valid_config regex_compiles draft catalog publish_mode) ≡ false
    → draft.rules.data_rules ≡ some contract
    → HaveItems contract.contract_fields
    → ((j : Json) → (raw : RawMessage) × (marshal j ≡ some raw))
    → Succeeds (compile_data_contract marshal digest contract)
unfolding compile_data_contract
validate-compile_data_contract marshal digest valid_config regex_compiles draft catalog contract h
      stated items total =
    let n = NoErrors-of-validate valid_config regex_compiles draft catalog publish_mode h in
    let contracts =
      contracts-of-rules regex_compiles draft.rules
        (index_definition valid_config draft catalog publish_mode).capabilities n.rules in
    let checked = fields-of-contract contract (
      subst (λ o. has_errors (issues_of (validate_data_contract publish_mode) o) ≡ false) stated
        contracts) in
    (compile_field_schema_iff marshal digest contract.contract_fields total).1 (
      some_fields contract.contract_fields "rules.data_contract.fields" checked,
      validate_fields-AreCompilable contract.contract_fields publish_mode
          "rules.data_contract.fields" checked items,
    )
