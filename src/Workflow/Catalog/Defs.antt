-- ===== src/Workflow/Catalog/Defs.antt =====
-- internal/domain/workflow/catalog.go: the registration of capabilities and their lookup.
use req_flow.Prelude.{
  ℕ, suc, ◌+◌, String, Bool, true, false, not, ◌&&◌, ◌||◌, List, [], ◌∷◌, Option, none, some, ◌⧺◌,
  ◌==◌, lt_text, eqb, is_blank, trim_space, valid_identifier, valid_capability_kind, decimal,
  contains, has, lookup, insert, if◌then◌else◌, Result, ok, err, ◌>>=◌, ◌>>◌, refuse_if,
}
use req_flow.Prelude.Int.{ℤ, pos, negsuc, ltb_ℤ}
use req_flow.Json.{RawMessage, is_white}
use req_flow.Workflow.Model.{
  CapabilityRef, CapabilityDefinition, PortDefinition, PortRole, primary, side, other_role,
  RuleSection, data_contract, extraction, search_rules, output_contract, other_section,
}

pub data CatalogError : Type 0 where
  reference_invalid label_missing manual_completion_missing schema_invalid default_invalid
        default_refused :
      CatalogError
  requirement_invalid requirement_duplicate : CatalogError
  port_invalid port_duplicate primary_input_invalid output_side primary_output_multiple
        primary_count :
      CatalogError
  capability_duplicate : String → CatalogError

-- `%d` of a number that may be negative.
unfoldable pub decimal_ℤ : ℤ → String
decimal_ℤ (pos n) = decimal n
decimal_ℤ (negsuc n) = "-" ⧺ decimal (suc n)

unfoldable pub capability_key : CapabilityRef → String
unfolding decimal_ℤ
capability_key ref = ref.kind ⧺ "@" ⧺ decimal_ℤ ref.version

abbrev pub is_known_role : PortRole → Bool
is_known_role (other_role s) = false
is_known_role _ = true

abbrev pub is_primary_role : PortRole → Bool
is_primary_role primary = true
is_primary_role _ = false

abbrev pub is_side_role : PortRole → Bool
is_side_role side = true
is_side_role _ = false

-- `validatePort`: whether it returns nil.
unfoldable pub valid_port : PortDefinition → Bool
valid_port port =
    valid_identifier port.name
    && not (is_blank (trim_space port.label) || is_blank (trim_space port.resource_type))
    && is_known_role port.role

-- The key of a rule section, or nothing for a section that is not known.
abbrev pub section_key : RuleSection → Option String
section_key data_contract = some "data_contract"
section_key extraction = some "extraction"
section_key search_rules = some "search"
section_key output_contract = some "output_contract"
section_key (other_section s) = none

unfoldable pub check_requirements : List RuleSection → List String → Result CatalogError (Unit {0})
check_requirements [] seen = ok tt
check_requirements (section ∷ rest) seen = elim (section_key section) [
  | none ↦ err requirement_invalid
  | some key ↦
      if contains key seen then err requirement_duplicate else check_requirements rest (key ∷ seen)
]

-- The loops over the inputs and the outputs return the number of primary ports.
unfoldable pub check_inputs : List PortDefinition → List String → ℕ → Result CatalogError ℕ
unfolding valid_port
check_inputs [] seen count = ok count
check_inputs (port ∷ ports) seen count = do
  refuse_if (not (valid_port port)) port_invalid
  refuse_if (contains port.name seen) port_duplicate
  refuse_if (is_primary_role port.role && (not port.required || port.multiple))
      primary_input_invalid
  check_inputs ports (port.name ∷ seen) (if is_primary_role port.role then count + 1 else count)

unfoldable pub check_outputs : List PortDefinition → List String → ℕ → Result CatalogError ℕ
unfolding valid_port
check_outputs [] seen count = ok count
check_outputs (port ∷ ports) seen count = do
  refuse_if (not (valid_port port)) port_invalid
  refuse_if (contains port.name seen) port_duplicate
  refuse_if (is_side_role port.role) output_side
  refuse_if (is_primary_role port.role && port.multiple) primary_output_multiple
  check_outputs ports (port.name ∷ seen) (if is_primary_role port.role then count + 1 else count)

unfoldable pub check_ports : CapabilityDefinition → Result CatalogError (Unit {0})
unfolding check_inputs check_outputs
check_ports definition = do
  inputs ← check_inputs definition.inputs [] 0
  outputs ← check_outputs definition.outputs [] 0
  refuse_if (not (eqb inputs 1) || not (eqb outputs 1)) primary_count

-- `valid_schema` is whether `validateConfigSchema` returns nil, `valid_config` whether `ValidateCapabilityConfig`
-- does, and `decodes_object` whether `json.Unmarshal` gives a map that is not nil.
module _ (valid_schema : RawMessage → Bool)
    (valid_config : CapabilityDefinition → RawMessage → Bool)
    (decodes_object : RawMessage → Bool) where
  unfoldable pub valid_json_object : RawMessage → Bool
  valid_json_object raw = is_white raw || decodes_object raw

  unfoldable pub validate_capability : CapabilityDefinition → Result CatalogError (Unit {0})
  unfolding valid_json_object check_requirements check_ports
  validate_capability definition = do
    refuse_if
        (not (valid_capability_kind definition.ref.kind) || ltb_ℤ definition.ref.version (pos 1))
        reference_invalid
    refuse_if
        (is_blank (trim_space definition.label) || is_blank (trim_space definition.description))
        label_missing
    refuse_if (definition.requires_llm && not definition.manual_completion)
        manual_completion_missing
    refuse_if (not (valid_schema definition.config_schema)) schema_invalid
    refuse_if (not (valid_json_object definition.default_config)) default_invalid
    refuse_if (not (valid_config definition definition.default_config)) default_refused
    check_requirements definition.rule_requirements []
    check_ports definition

  -- The catalog is its map of definitions.
  unfoldable pub register :
      List CapabilityDefinition
      → List (String × CapabilityDefinition)
      → Result CatalogError (List (String × CapabilityDefinition))
  unfolding validate_capability
  register [] catalog = ok catalog
  register (definition ∷ rest) catalog = do
    validate_capability definition
    let key = capability_key definition.ref
    refuse_if (has key catalog) (capability_duplicate key)
    register rest (insert key definition catalog)

  unfoldable pub new_static_catalog :
      List CapabilityDefinition → Result CatalogError (List (String × CapabilityDefinition))
  unfolding register
  new_static_catalog definitions = register definitions []

unfoldable pub lookup_capability :
    List (String × CapabilityDefinition) → CapabilityRef → Option CapabilityDefinition
lookup_capability catalog ref = lookup (capability_key ref) catalog

-- The order of `Definitions`: by kind, then by version.
abbrev pub before_ref : CapabilityRef → CapabilityRef → Bool
before_ref a b = if a.kind == b.kind then ltb_ℤ a.version b.version else lt_text a.kind b.kind

-- `sort.Slice`, by insertion: the element comes before the first that is not before it.
unfoldable pub insert_definition :
    CapabilityDefinition → List CapabilityDefinition → List CapabilityDefinition
insert_definition d [] = d ∷ []
insert_definition d (x ∷ xs) =
    if before_ref x.ref d.ref then x ∷ insert_definition d xs else d ∷ x ∷ xs

unfoldable pub sort_definitions : List CapabilityDefinition → List CapabilityDefinition
unfolding insert_definition
sort_definitions [] = []
sort_definitions (d ∷ ds) = insert_definition d (sort_definitions ds)

-- The values of the map, in any order.
abbrev pub registered : List (String × CapabilityDefinition) → List CapabilityDefinition
registered [] = []
registered ((key, definition) ∷ catalog) = definition ∷ registered catalog

unfoldable pub catalog_definitions :
    List (String × CapabilityDefinition) → List CapabilityDefinition
unfolding sort_definitions
catalog_definitions catalog = sort_definitions (registered catalog)
