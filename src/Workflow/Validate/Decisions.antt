-- ===== src/Workflow/Validate/Decisions.antt =====
-- internal/domain/workflow/validate.go: `validateRules`, `validateDecisions`, `validateAcceptanceCases`, `Validate`.
use req_flow.Prelude.{
  ℕ, suc, String, Bool, true, false, not, ◌&&◌, ◌||◌, List, [], ◌∷◌, ◌++◌, Option, none, some, ◌⧺◌,
  eqb, valid_identifier, element_path, insert, has, lookup, contains, is_empty, is_some,
  if◌then◌else◌,
}
use req_flow.Prelude.Int.{ℤ, pos, ltb_ℤ, eqb_ℤ}
use req_flow.Json.{RawMessage, is_white, is_valid_json}
use req_flow.Workflow.Model.{
  error, CapabilityDefinition, RuleSection, data_contract, extraction, search_rules,
  output_contract, other_section, DecisionSource, observed, inferred, other_source, DecisionRisk,
  high, other_risk, EvidenceRef, RuleDecision, RuleBundle, OutputContract, AcceptanceCase,
  WorkflowDraft,
}
use req_flow.Workflow.Validate.Issues.{
  ValidationMode, ValidationIssue, is_publish, required_severity, add_if, is_empty_trimmed,
  sort_issues,
}
use req_flow.Workflow.Validate.Index.{Catalog, validate_identity, index_definition}
use req_flow.Workflow.Validate.Connections.{Wiring, connect_all}
use req_flow.Workflow.Validate.Topology.{validate_coverage, validate_topology}
use req_flow.Workflow.Validate.Fields.{validate_fields, validate_data_contract}
use req_flow.Workflow.Validate.Rules.{validate_extraction, validate_search}

unfoldable pub has_rule_section : RuleBundle → RuleSection → Bool
has_rule_section bundle data_contract = is_some bundle.data_rules
has_rule_section bundle extraction = is_some bundle.extraction_rules
has_rule_section bundle search_rules = is_some bundle.search_spec
has_rule_section bundle output_contract = is_some bundle.output_rules
has_rule_section bundle (other_section s) = false

section_text : RuleSection → String
section_text data_contract = "data_contract"
section_text extraction = "extraction"
section_text search_rules = "search"
section_text output_contract = "output_contract"
section_text (other_section s) = s

-- The keys of `needed`: the sections that some capability requires, each once.
add_needed : List RuleSection → List (String × RuleSection) → List (String × RuleSection)
unfolding section_text
add_needed [] needed = needed
add_needed (section ∷ rest) needed = add_needed rest (insert (section_text section) section needed)

pub needed_sections :
    List (String × CapabilityDefinition) → List (String × RuleSection) → List (String × RuleSection)
unfolding add_needed
needed_sections [] needed = needed
needed_sections ((id, capability) ∷ rest) needed =
    needed_sections rest (add_needed capability.rule_requirements needed)

pub missing_sections :
    ValidationMode → RuleBundle → List (String × RuleSection) → List ValidationIssue
unfolding has_rule_section
missing_sections mode bundle [] = []
missing_sections mode bundle ((name, section) ∷ rest) =
    add_if (not (has_rule_section bundle section)) "required_rule_section_missing" ("rules." ⧺ name)
      (required_severity mode)
    ++ missing_sections mode bundle rest

abbrev pub is_other_source : DecisionSource → Bool
is_other_source (other_source s) = true
is_other_source _ = false

abbrev pub is_other_risk : DecisionRisk → Bool
is_other_risk (other_risk s) = true
is_other_risk _ = false

abbrev pub is_high : DecisionRisk → Bool
is_high high = true
is_high _ = false

-- Decisions that were observed or inferred carry evidence.
abbrev pub needs_evidence : DecisionSource → Bool
needs_evidence observed = true
needs_evidence inferred = true
needs_evidence _ = false

unfoldable pub evidence_issues : String → ℕ → List EvidenceRef → List ValidationIssue
evidence_issues path i [] = []
evidence_issues path i (evidence ∷ rest) =
    add_if (is_empty_trimmed evidence.resource_id || is_empty_trimmed evidence.location)
      "decision_evidence_invalid" (element_path (path ⧺ ".evidence") i) error
    ++ evidence_issues path (suc i) rest

-- A decision of high risk that a person has confirmed.
abbrev pub is_unconfirmed : RuleDecision → Bool
is_unconfirmed decision = is_empty_trimmed decision.confirmed_by || eqb decision.confirmed_at 0

-- The upper bound of a confidence, in millionths.
abbrev pub full_confidence : ℤ
full_confidence = pos 1_000_000

unfoldable pub decision_issues :
    ValidationMode → String → RuleDecision → Bool → List ValidationIssue
unfolding evidence_issues
decision_issues mode path decision seen =
    add_if (is_empty_trimmed decision.path || is_empty_trimmed decision.reason)
      "decision_incomplete" path (required_severity mode)
    ++ (add_if (is_white decision.value || not (is_valid_json decision.value))
          "decision_value_invalid" (path ⧺ ".value") error
        ++ (add_if (is_other_source decision.source || is_other_risk decision.risk)
              "decision_metadata_invalid" path error
            ++ (add_if
                  (ltb_ℤ decision.confidence (pos 0) || ltb_ℤ full_confidence decision.confidence)
                  "decision_confidence_invalid" (path ⧺ ".confidence") error
                ++ (add_if seen "decision_path_duplicate" (path ⧺ ".path") error
                    ++ ((if needs_evidence decision.source
                          then add_if (is_empty decision.evidence) "decision_evidence_required"
                              (path ⧺ ".evidence") (required_severity mode)
                            ++ evidence_issues path 0 decision.evidence
                          else [])
                        ++ add_if (is_high decision.risk && is_unconfirmed decision)
                            "high_risk_decision_unconfirmed" path (required_severity mode))))))

unfoldable pub decisions_issues :
    ValidationMode → ℕ → List RuleDecision → List (String × RuleDecision) → List ValidationIssue
unfolding decision_issues
decisions_issues mode i [] by_path = []
decisions_issues mode i (decision ∷ rest) by_path =
    decision_issues mode (element_path "rules.decisions" i) decision (has decision.path by_path)
    ++ decisions_issues mode (suc i) rest (insert decision.path decision by_path)

-- The map `byPath`: the last decision of each path.
unfoldable pub index_decisions :
    List RuleDecision → List (String × RuleDecision) → List (String × RuleDecision)
index_decisions [] by_path = by_path
index_decisions (decision ∷ rest) by_path =
    index_decisions rest (insert decision.path decision by_path)

abbrev pub lacks_confirmation : Option RuleDecision → Bool
lacks_confirmation none = true
lacks_confirmation (some decision) = not (is_high decision.risk) || is_unconfirmed decision

unfoldable pub require_confirmed_decision :
    ValidationMode → List (String × RuleDecision) → String → List ValidationIssue
require_confirmed_decision mode decisions path =
    add_if (lacks_confirmation (lookup path decisions)) "business_decision_required" path
      (required_severity mode)

unfoldable pub validate_decisions : ValidationMode → RuleBundle → List ValidationIssue
unfolding decisions_issues index_decisions require_confirmed_decision
validate_decisions mode bundle =
    let by_path = index_decisions bundle.decisions [] in
    decisions_issues mode 0 bundle.decisions []
    ++ (if is_some bundle.data_rules
        then require_confirmed_decision mode by_path "rules.data_contract.record_granularity"
          ++ require_confirmed_decision mode by_path "rules.data_contract.key_fields"
        else [])

abbrev pub issues_of {ℓ} :
    {A : Type ℓ} → (A → List ValidationIssue) → Option A → List ValidationIssue
issues_of check none = []
issues_of check (some a) = check a

unfoldable pub validate_rules :
    (String → Bool)
    → ValidationMode
    → RuleBundle
    → List (String × CapabilityDefinition)
    → List ValidationIssue
unfolding needed_sections missing_sections validate_data_contract validate_extraction
    validate_search validate_decisions
validate_rules regex_compiles mode bundle capabilities =
    missing_sections mode bundle (needed_sections capabilities [])
    ++ (issues_of (validate_data_contract mode) bundle.data_rules
        ++ (issues_of (validate_extraction regex_compiles mode bundle.data_rules)
              bundle.extraction_rules
            ++ (issues_of (validate_search mode bundle.data_rules) bundle.search_spec
                ++ (issues_of
                      (λ (output : OutputContract).
                        validate_fields output.output_fields mode "rules.output_contract.fields")
                      bundle.output_rules
                    ++ validate_decisions mode bundle))))

unfoldable pub case_issues : ℕ → List AcceptanceCase → List String → List ValidationIssue
case_issues i [] seen = []
case_issues i (test ∷ rest) seen =
    let path = element_path "acceptance_cases" i in
    add_if (not (valid_identifier test.id) || is_empty_trimmed test.name)
      "acceptance_case_identity_invalid" path error
    ++ (add_if (contains test.id seen) "acceptance_case_duplicate" (path ⧺ ".id") error
        ++ (add_if (not (is_valid_json test.input) || not (is_valid_json test.expectation))
              "acceptance_case_payload_invalid" path error
            ++ case_issues (suc i) rest (test.id ∷ seen)))

unfoldable pub passed_issues : ℤ → ℕ → List AcceptanceCase → List ValidationIssue
passed_issues revision i [] = []
passed_issues revision i (test ∷ rest) =
    let path = element_path "acceptance_cases" i in
    (if not test.last_passed
      then add_if true "acceptance_case_not_passed" path error
      else add_if
          (not (eqb_ℤ test.last_passed_revision revision) || is_empty_trimmed test.last_preview_id)
          "acceptance_case_result_stale" path error)
    ++ passed_issues revision (suc i) rest

unfoldable pub validate_acceptance_cases : ValidationMode → WorkflowDraft → List ValidationIssue
unfolding case_issues passed_issues
validate_acceptance_cases mode draft =
    case_issues 0 draft.acceptance_cases []
    ++ (if is_publish mode
        then add_if (is_empty draft.acceptance_cases) "acceptance_case_required" "acceptance_cases"
            error
          ++ passed_issues draft.revision 0 draft.acceptance_cases
        else [])

abbrev pub no_wiring : Wiring
no_wiring = record { seen = []; incoming = []; outgoing = []; node_edges = []; node_parents = [] }

-- The issues in the order in which the checks add them.
unfoldable pub collect_issues :
    (CapabilityDefinition → RawMessage → Bool)
    → (String → Bool)
    → WorkflowDraft
    → Catalog
    → ValidationMode
    → List ValidationIssue
unfolding validate_identity index_definition connect_all validate_coverage validate_topology
    validate_rules validate_acceptance_cases
collect_issues valid_config regex_compiles draft catalog mode =
    let index = index_definition valid_config draft catalog mode in
    let (wiring, connection_issues) = connect_all index 0 draft.connections no_wiring in
    validate_identity draft mode
    ++ (index.issues
        ++ (connection_issues
            ++ (validate_coverage mode draft index wiring
                ++ (validate_topology mode draft index wiring
                    ++ (validate_rules regex_compiles mode draft.rules index.capabilities
                        ++ validate_acceptance_cases mode draft)))))

unfoldable pub validate :
    (CapabilityDefinition → RawMessage → Bool)
    → (String → Bool)
    → WorkflowDraft
    → Catalog
    → ValidationMode
    → List ValidationIssue
unfolding collect_issues sort_issues
validate valid_config regex_compiles draft catalog mode =
    sort_issues (collect_issues valid_config regex_compiles draft catalog mode)
