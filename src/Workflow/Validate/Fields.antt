-- ===== src/Workflow/Validate/Fields.antt =====
-- internal/domain/workflow/validate.go: `validateFields` and the checks of the contracts over fields.
use req_flow.Prelude.{
  ℕ, suc, String, Bool, true, false, not, ◌&&◌, List, [], ◌∷◌, ◌++◌, Option, none, some, ◌⧺◌,
  valid_identifier, element_path, insert, lookup, contains, is_empty, if◌then◌else◌, is_some,
}
use req_flow.Workflow.Model.{
  error, FieldType, string_type, object_type, array_type, other_type, FieldContract, field_contract,
  ItemContract, no_items, items_of, FieldContracts, no_fields, fields, field_key, field_required,
  DataContract,
}
use req_flow.Workflow.Validate.Issues.{
  ValidationMode, ValidationIssue, required_severity, add_if, is_empty_trimmed,
}

abbrev pub is_string_type : FieldType → Bool
is_string_type string_type = true
is_string_type _ = false

abbrev pub is_array_type : FieldType → Bool
is_array_type array_type = true
is_array_type _ = false

abbrev pub is_object_type : FieldType → Bool
is_object_type object_type = true
is_object_type _ = false

unfoldable pub valid_field_type : FieldType → Bool
valid_field_type (other_type s) = false
valid_field_type _ = true

abbrev pub lacks_items : ItemContract → Bool
lacks_items no_items = true
lacks_items (items_of f) = false

-- The issues of one field, but for those of its properties; `seen` holds the keys before it.
unfoldable pub field_issues : ValidationMode → String → FieldContract → Bool → List ValidationIssue
unfolding valid_field_type
field_issues mode path (field_contract key label description type required enum items properties)
      seen =
    add_if (not (valid_identifier key)) "field_key_invalid" (path ⧺ ".key") error
    ++ (add_if (is_empty_trimmed label) "field_label_required" (path ⧺ ".label")
          (required_severity mode)
        ++ (add_if (not (valid_field_type type)) "field_type_invalid" (path ⧺ ".type") error
            ++ (add_if seen "field_key_duplicate" (path ⧺ ".key") error
                ++ add_if (is_array_type type && lacks_items items) "array_items_required"
                    (path ⧺ ".items") error)))

unfoldable pub enum_issues : String → FieldContract → List ValidationIssue
enum_issues path (field_contract key label description type required enum items properties) =
    add_if (not (is_string_type type) && not (is_empty enum)) "enum_type_invalid" (path ⧺ ".enum")
      error

-- `validateFields`: `base` is the path of the list, and `seen` the keys of the fields before the rest.
unfoldable mutual
  unfolding field_issues enum_issues

  pub validate_fields : FieldContracts → ValidationMode → String → List ValidationIssue
  validate_fields no_fields mode base =
      add_if true "contract_fields_required" base (required_severity mode)
  validate_fields (fields f fs) mode base =
      validate_field f mode (element_path base 0) false
      ++ validate_rest fs mode base 1 (field_key f ∷ [])

  pub validate_rest :
      FieldContracts → ValidationMode → String → ℕ → List String → List ValidationIssue
  validate_rest no_fields mode base i seen = []
  validate_rest (fields f fs) mode base i seen =
      validate_field f mode (element_path base i) (contains (field_key f) seen)
      ++ validate_rest fs mode base (suc i) (field_key f ∷ seen)

  pub validate_field : FieldContract → ValidationMode → String → Bool → List ValidationIssue
  validate_field (field_contract key label description type required enum items properties) mode
        path seen =
      let nested = validate_fields properties mode (path ⧺ ".properties") in
      let f = field_contract key label description type required enum items properties in
      field_issues mode path f seen
      ++ ((if is_object_type type then nested else []) ++ enum_issues path f)

-- The map from keys to fields that `validateFields` returns.
unfoldable pub index_fields :
    FieldContracts → List (String × FieldContract) → List (String × FieldContract)
index_fields no_fields m = m
index_fields (fields f fs) m = index_fields fs (insert (field_key f) f m)

abbrev pub key_field_optional : Option FieldContract → Bool
key_field_optional none = false
key_field_optional (some f) = not (field_required f)

key_field_issues :
    List (String × FieldContract) → ℕ → List String → List String → List ValidationIssue
key_field_issues known i [] seen = []
key_field_issues known i (key ∷ keys) seen =
    let path = element_path "rules.data_contract.key_fields" i in
    add_if (not (is_some (lookup key known))) "key_field_not_found" path error
    ++ (add_if (key_field_optional (lookup key known)) "key_field_must_be_required" path error
        ++ (add_if (contains key seen) "key_field_duplicate" path error
            ++ key_field_issues known (suc i) keys (key ∷ seen)))

unfoldable pub validate_data_contract : ValidationMode → DataContract → List ValidationIssue
unfolding validate_fields index_fields key_field_issues
validate_data_contract mode contract =
    add_if (is_empty_trimmed contract.record_granularity) "record_granularity_required"
      "rules.data_contract.record_granularity" (required_severity mode)
    ++ (validate_fields contract.contract_fields mode "rules.data_contract.fields"
        ++ (add_if (is_empty contract.key_fields) "key_fields_required"
              "rules.data_contract.key_fields" (required_severity mode)
            ++ key_field_issues (index_fields contract.contract_fields []) 0 contract.key_fields
                []))
