-- ===== src/Workflow/Validate/Rules.antt =====
-- internal/domain/workflow/validate.go: `validateExtraction`, `validateSearch` and the rules of the two DSLs.
use req_flow.Prelude.{
  ℕ, suc, String, Bool, true, false, not, ◌&&◌, ◌||◌, List, [], ◌∷◌, ◌++◌, Option, none, some,
  is_blank, ◌⧺◌, ◌==◌, valid_identifier, element_path, has, lookup, contains, is_empty, is_some,
  keys,
}
use req_flow.Prelude.Int.{ℤ, pos, ltb_ℤ, leb_ℤ}
use req_flow.Workflow.Model.{
  error, other_severity, IssueSeverity, FieldContract, field_type, FieldContracts, no_fields,
  fields, field_key, DataContract, NormalizationOperation, enum_alias, boolean_alias, date,
  unit_scale, split, concat, other_normalization, NormalizationRule, ValidationOperation,
  required_op, regex_op, range_op, length_op, one_of_op, compare_op, other_validation,
  ValidationRule, ExtractionSpec, WeightedField, SearchPreset, other_preset, SearchSpec,
}
use req_flow.Workflow.Validate.Issues.{
  ValidationMode, ValidationIssue, required_severity, add_if, fault, is_empty_trimmed,
}
use req_flow.Workflow.Validate.Fields.{index_fields, is_string_type}

-- The keys of the fields of the data contract, `fields[key]`.
abbrev pub contract_keys : FieldContracts → List String
contract_keys no_fields = []
contract_keys (fields f fs) = field_key f ∷ contract_keys fs

abbrev pub keys_of_contract : Option DataContract → List String
keys_of_contract none = []
keys_of_contract (some contract) = contract_keys contract.contract_fields

rule_identity_issues :
    ValidationMode
    → String
    → String
    → String
    → String
    → List String
    → List String
    → List ValidationIssue
rule_identity_issues mode path id description field known seen =
    add_if (not (valid_identifier id)) "rule_id_invalid" (path ⧺ ".id") error
    ++ (add_if (contains id seen) "rule_id_duplicate" (path ⧺ ".id") error
        ++ (add_if (is_empty_trimmed description) "rule_definition_incomplete"
              (path ⧺ ".description") (required_severity mode)
            ++ add_if (not (contains field known)) "rule_field_not_found" (path ⧺ ".field") error))

source_field_issues : String → ℕ → List String → List String → List ValidationIssue
source_field_issues path i known [] = []
source_field_issues path i known (source ∷ sources) =
    add_if (not (contains source known)) "rule_field_not_found"
      (element_path (path ⧺ ".source_fields") i) error
    ++ source_field_issues path (suc i) known sources

abbrev invalid_parameters : Bool → String → List ValidationIssue
invalid_parameters failed path = add_if failed "normalization_parameters_invalid" path error

normalization_issues :
    NormalizationOperation → String → NormalizationRule → List String → List ValidationIssue
unfolding source_field_issues
normalization_issues enum_alias path rule known =
    invalid_parameters (is_empty rule.aliases) (path ⧺ ".aliases")
normalization_issues boolean_alias path rule known =
    invalid_parameters (is_empty rule.true_values || is_empty rule.false_values) path
normalization_issues date path rule known =
    invalid_parameters (is_empty rule.layouts) (path ⧺ ".layouts")
normalization_issues unit_scale path rule known =
    invalid_parameters (is_empty rule.units) (path ⧺ ".units")
normalization_issues split path rule known =
    invalid_parameters (is_blank rule.separator) (path ⧺ ".separator")
normalization_issues concat path rule known =
    invalid_parameters (is_empty rule.source_fields) (path ⧺ ".source_fields")
    ++ source_field_issues path 0 known rule.source_fields
normalization_issues (other_normalization s) path rule known =
    fault "normalization_operation_invalid" (path ⧺ ".operation") ∷ []

unfoldable pub validate_normalization_rules :
    ValidationMode
    → String
    → List String
    → ℕ
    → List NormalizationRule
    → List String
    → List ValidationIssue
unfolding rule_identity_issues normalization_issues
validate_normalization_rules mode base known i [] seen = []
validate_normalization_rules mode base known i (rule ∷ rules) seen =
    let path = element_path base i in
    rule_identity_issues mode path rule.id rule.description rule.field known seen
    ++ (normalization_issues rule.operation path rule known
        ++ validate_normalization_rules mode base known (suc i) rules (rule.id ∷ seen))

abbrev pub bounds_crossed : Option ℤ → Option ℤ → Bool
bounds_crossed (some low) (some high) = ltb_ℤ high low
bounds_crossed _ _ = false

abbrev pub no_bounds : Option ℤ → Option ℤ → Bool
no_bounds low high = not (is_some low) && not (is_some high)

unfoldable pub valid_operator : String → Bool
valid_operator s = contains s ("eq" ∷ "ne" ∷ "lt" ∷ "lte" ∷ "gt" ∷ "gte" ∷ [])

abbrev pub is_invalid_severity : IssueSeverity → Bool
is_invalid_severity (other_severity s) = true
is_invalid_severity _ = false

abbrev invalid_check : Bool → String → List ValidationIssue
invalid_check failed path = add_if failed "validation_parameters_invalid" path error

-- `regex_compiles` is whether `regexp.Compile` accepts a pattern.
module _ (regex_compiles : String → Bool) where
  validation_issues :
      ValidationOperation → String → ValidationRule → List String → List ValidationIssue
  unfolding valid_operator
  validation_issues required_op path rule known = []
  validation_issues regex_op path rule known =
      invalid_check (is_blank rule.pattern_text || not (regex_compiles rule.pattern_text))
        (path ⧺ ".pattern")
  validation_issues range_op path rule known =
      invalid_check
        (no_bounds rule.minimum rule.maximum || bounds_crossed rule.minimum rule.maximum) path
  validation_issues length_op path rule known =
      invalid_check
        (no_bounds rule.min_length rule.max_length
          || bounds_crossed rule.min_length rule.max_length)
        path
  validation_issues one_of_op path rule known =
      invalid_check (is_empty rule.values) (path ⧺ ".values")
  validation_issues compare_op path rule known =
      add_if (not (contains rule.other_field known) || rule.other_field == rule.field)
        "rule_field_not_found" (path ⧺ ".other_field") error
      ++ invalid_check (not (valid_operator rule.operator)) (path ⧺ ".operator")
  validation_issues (other_validation s) path rule known =
      fault "validation_operation_invalid" (path ⧺ ".operation") ∷ []

  unfoldable pub validate_validation_rules :
      ValidationMode
      → String
      → List String
      → ℕ
      → List ValidationRule
      → List String
      → List ValidationIssue
  unfolding rule_identity_issues validation_issues
  validate_validation_rules mode base known i [] seen = []
  validate_validation_rules mode base known i (rule ∷ rules) seen =
      let path = element_path base i in
      rule_identity_issues mode path rule.id rule.description rule.field known seen
      ++ (add_if (is_invalid_severity rule.severity) "validation_severity_invalid"
            (path ⧺ ".severity") error
          ++ (validation_issues rule.operation path rule known
              ++ validate_validation_rules mode base known (suc i) rules (rule.id ∷ seen)))

  guide_issues : List String → List String → List ValidationIssue
  guide_issues known [] = []
  guide_issues known (key ∷ guides) =
      add_if (not (contains key known)) "field_guide_unknown_field"
        ("rules.extraction.field_guides." ⧺ key) error
      ++ guide_issues known guides

  unfoldable pub validate_extraction :
      ValidationMode → Option DataContract → ExtractionSpec → List ValidationIssue
  unfolding guide_issues validate_normalization_rules validate_validation_rules
  validate_extraction mode contract spec =
      let known = keys_of_contract contract in
      add_if (is_empty_trimmed spec.instruction) "extraction_instruction_required"
        "rules.extraction.instruction" (required_severity mode)
      ++ (guide_issues known (keys spec.field_guides)
          ++ (validate_normalization_rules mode "rules.extraction.normalization_rules" known 0
                spec.normalization_rules []
              ++ validate_validation_rules mode "rules.extraction.validation_rules" known 0
                  spec.validation_rules []))

abbrev pub fields_of_contract : Option DataContract → List (String × FieldContract)
fields_of_contract none = []
fields_of_contract (some contract) = index_fields contract.contract_fields []

abbrev pub is_other_preset : SearchPreset → Bool
is_other_preset (other_preset s) = true
is_other_preset _ = false

weighted_issues :
    List (String × FieldContract) → ℕ → List WeightedField → List String → List ValidationIssue
weighted_issues known i [] seen = []
weighted_issues known i (weighted ∷ rest) seen =
    let path = element_path "rules.search.lexical_fields" i in
    add_if (not (has weighted.field known)) "search_field_not_found" (path ⧺ ".field") error
    ++ (add_if (leb_ℤ weighted.weight (pos 0)) "search_weight_invalid" (path ⧺ ".weight") error
        ++ (add_if (contains weighted.field seen) "search_field_duplicate" (path ⧺ ".field") error
            ++ weighted_issues known (suc i) rest (weighted.field ∷ seen)))

abbrev pub is_not_text : Option FieldContract → Bool
is_not_text none = false
is_not_text (some f) = not (is_string_type (field_type f))

unfoldable pub validate_search_field_list :
    String
    → List (String × FieldContract)
    → Bool
    → ℕ
    → List String
    → List String
    → List ValidationIssue
validate_search_field_list base known text_only i [] seen = []
validate_search_field_list base known text_only i (value ∷ values) seen =
    let path = element_path base i in
    add_if (not (has value known)) "search_field_not_found" path error
    ++ (add_if (text_only && is_not_text (lookup value known)) "vector_field_type_invalid" path
          error
        ++ (add_if (contains value seen) "search_field_duplicate" path error
            ++ validate_search_field_list base known text_only (suc i) values (value ∷ seen)))

unfoldable pub validate_search :
    ValidationMode → Option DataContract → SearchSpec → List ValidationIssue
unfolding index_fields weighted_issues validate_search_field_list
validate_search mode contract spec =
    let known = fields_of_contract contract in
    add_if (is_other_preset spec.preset) "search_preset_invalid" "rules.search.preset" error
    ++ (weighted_issues known 0 spec.lexical_fields []
        ++ (validate_search_field_list "rules.search.vector_fields" known true 0 spec.vector_fields
              []
            ++ (validate_search_field_list "rules.search.filter_fields" known false 0
                  spec.filter_fields []
                ++ (add_if (is_empty spec.lexical_fields && is_empty spec.vector_fields)
                      "search_fields_required" "rules.search" (required_severity mode)
                    ++ (add_if
                          (leb_ℤ spec.chunk_size (pos 0)
                            || ltb_ℤ spec.chunk_overlap (pos 0)
                            || leb_ℤ spec.chunk_size spec.chunk_overlap)
                          "search_chunk_invalid" "rules.search" error
                        ++ add_if
                            (leb_ℤ spec.lexical_candidates (pos 0)
                              || leb_ℤ spec.vector_candidates (pos 0))
                            "search_candidates_invalid" "rules.search" error)))))
