-- ===== src/Workflow/Model/Rules.antt =====
-- internal/domain/workflow/model.go: the rule bundle of a workflow.
-- A float64 is an integer count of millionths: the program only compares these values.
use req_flow.Prelude.{String, Bool, List, Option, ℕ}
use req_flow.Prelude.Int.{ℤ}
use req_flow.Json.{Json, RawMessage}

abbrev pub Float64 : Type 0
Float64 = ℤ

pub data FieldType : Type 0 where
  string_type integer_type number_type boolean_type date_type datetime_type : FieldType
  object_type array_type : FieldType
  other_type : String → FieldType

-- A field holds a field (`items`) and a list of fields (`properties`), so the three types are one block.
mutual
  pub data FieldContract : Type 0 where
    field_contract :
        (key label description : String)
        → FieldType
        → Bool
        → List String
        → ItemContract
        → FieldContracts
        → FieldContract

  pub data ItemContract : Type 0 where
    no_items : ItemContract
    items_of : FieldContract → ItemContract

  pub data FieldContracts : Type 0 where
    no_fields : FieldContracts
    fields : FieldContract → FieldContracts → FieldContracts

abbrev pub field_key : FieldContract → String
field_key (field_contract k l d t r e i p) = k

abbrev pub field_type : FieldContract → FieldType
field_type (field_contract k l d t r e i p) = t

abbrev pub field_required : FieldContract → Bool
field_required (field_contract k l d t r e i p) = r

pub record DataContract : Type 0 where
  pub record_granularity : String
  pub key_fields : List String
  pub contract_fields : FieldContracts

pub record FieldGuide : Type 0 where
  pub description : String
  pub examples : List String
  pub evidence_only : Bool

pub data NormalizationOperation : Type 0 where
  enum_alias boolean_alias date unit_scale split concat : NormalizationOperation
  other_normalization : String → NormalizationOperation

pub record NormalizationRule : Type 0 where
  pub id : String
  pub description : String
  pub field : String
  pub operation : NormalizationOperation
  pub aliases : List (String × Json)
  pub true_values : List String
  pub false_values : List String
  pub layouts : List String
  pub units : List (String × Float64)
  pub separator : String
  pub source_fields : List String

pub data ValidationOperation : Type 0 where
  required_op regex_op range_op length_op one_of_op compare_op : ValidationOperation
  other_validation : String → ValidationOperation

pub data IssueSeverity : Type 0 where
  unset_severity warning error : IssueSeverity
  other_severity : String → IssueSeverity

pub record ValidationRule : Type 0 where
  pub id : String
  pub description : String
  pub field : String
  pub operation : ValidationOperation
  pub severity : IssueSeverity
  pub message : String
  pub pattern_text : String
  pub minimum : Option Float64
  pub maximum : Option Float64
  pub min_length : Option ℤ
  pub max_length : Option ℤ
  pub values : List Json
  pub other_field : String
  pub operator : String

pub record ExtractionSpec : Type 0 where
  pub instruction : String
  pub field_guides : List (String × FieldGuide)
  pub normalization_rules : List NormalizationRule
  pub validation_rules : List ValidationRule

pub record WeightedField : Type 0 where
  pub field : String
  pub weight : Float64

pub data SearchPreset : Type 0 where
  balanced precise semantic filter_focused : SearchPreset
  other_preset : String → SearchPreset

pub record SearchSpec : Type 0 where
  pub preset : SearchPreset
  pub lexical_fields : List WeightedField
  pub vector_fields : List String
  pub filter_fields : List String
  pub chunk_size : ℤ
  pub chunk_overlap : ℤ
  pub lexical_candidates : ℤ
  pub vector_candidates : ℤ

pub record OutputContract : Type 0 where
  pub output_fields : FieldContracts

pub data DecisionSource : Type 0 where
  observed inferred preset_decision user_confirmed user_defined : DecisionSource
  other_source : String → DecisionSource

pub data DecisionRisk : Type 0 where
  low high : DecisionRisk
  other_risk : String → DecisionRisk

pub record EvidenceRef : Type 0 where
  pub resource_id : String
  pub location : String
  pub quote : String

pub record RuleDecision : Type 0 where
  pub path : String
  pub value : RawMessage
  pub source : DecisionSource
  pub risk : DecisionRisk
  pub confidence : Float64
  pub reason : String
  pub evidence : List EvidenceRef
  pub confirmed_by : String
  pub confirmed_at : ℕ

pub record RuleBundle : Type 0 where
  pub data_rules : Option DataContract
  pub extraction_rules : Option ExtractionSpec
  pub search_spec : Option SearchSpec
  pub output_rules : Option OutputContract
  pub decisions : List RuleDecision
