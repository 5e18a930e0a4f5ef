-- ===== src/Workflow/Validate/Publication.antt =====
-- internal/domain/workflow/validate.go: `Validate` with mode `ValidatePublish`.
use req_flow.Prelude.{
  String, Bool, true, false, ◌&&◌, List, [], ◌++◌, ◌≡◌, sym, ◌∙◌, arith, is_empty, is_some, lookup,
  if◌then◌else◌, if◌then◌else◌,
}
use req_flow.Json.{RawMessage}
use req_flow.Workflow.Model.{WorkflowDraft, CapabilityDefinition, RuleBundle, OutputContract, error}
use req_flow.Workflow.Validate.Fields.{validate_fields, validate_data_contract}
use req_flow.Workflow.Validate.Rules.{validate_extraction, validate_search}
use req_flow.Workflow.Order.{node_ids}
use req_flow.Workflow.Validate.Issues.{
  ValidationMode, publish_mode, is_publish, ValidationIssue, has_errors, add_if,
}
use req_flow.Workflow.Validate.Index.{
  Catalog, validate_identity, index_nodes, index_ports, index_definition,
}
use req_flow.Workflow.Validate.Connections.{connect_all}
use req_flow.Workflow.Validate.Topology.{validate_coverage, validate_topology}
use req_flow.Workflow.Validate.Decisions.{
  validate_decisions, decisions_issues, index_decisions, require_confirmed_decision, validate_rules,
  missing_sections, needed_sections, issues_of, case_issues, passed_issues,
  validate_acceptance_cases, no_wiring, collect_issues, validate,
}
use req_flow.Workflow.Validate.Sorting.{has_errors-sort_issues}
use req_flow.Workflow.Validate.Publishable.{
  IsPublishable, IsConfirmed, case_ids, no_errors-append, case_issues-fresh, cases-IsPassed,
  confirmed, index_nodes-usable, AreFresh-Nodup,
}

last_no_errors :
    (xs ys : List ValidationIssue) → has_errors (xs ++ ys) ≡ false → has_errors ys ≡ false
last_no_errors xs ys h = (no_errors-append xs ys h).1

pub decisions-of-rules :
    (regex_compiles : String → Bool) (bundle : RuleBundle)
    (capabilities : List (String × CapabilityDefinition))
    → has_errors (validate_rules regex_compiles publish_mode bundle capabilities) ≡ false
    → has_errors (validate_decisions publish_mode bundle) ≡ false
unfolding validate_rules
decisions-of-rules regex_compiles bundle capabilities h =
    let missing = missing_sections publish_mode bundle (needed_sections capabilities []) in
    let contract = issues_of (validate_data_contract publish_mode) bundle.data_rules in
    let extraction =
      issues_of (validate_extraction regex_compiles publish_mode bundle.data_rules)
        bundle.extraction_rules in
    let search = issues_of (validate_search publish_mode bundle.data_rules) bundle.search_spec in
    let output =
      issues_of
        (λ (output : OutputContract).
          validate_fields output.output_fields publish_mode "rules.output_contract.fields")
        bundle.output_rules in
    let decisions = validate_decisions publish_mode bundle in
    let h1 =
      last_no_errors missing (contract ++ (extraction ++ (search ++ (output ++ decisions)))) h in
    let h2 = last_no_errors contract (extraction ++ (search ++ (output ++ decisions))) h1 in
    let h3 = last_no_errors extraction (search ++ (output ++ decisions)) h2 in
    last_no_errors output decisions (last_no_errors search (output ++ decisions) h3)

required-of-decisions :
    (bundle : RuleBundle)
    → has_errors (validate_decisions publish_mode bundle) ≡ false
    → is_some bundle.data_rules ≡ true
    → IsConfirmed
        (lookup "rules.data_contract.record_granularity" (index_decisions bundle.decisions []))
      × IsConfirmed (lookup "rules.data_contract.key_fields" (index_decisions bundle.decisions []))
unfolding validate_decisions
required-of-decisions bundle h given =
    let by_path = index_decisions bundle.decisions [] in
    let granularity_issues =
      require_confirmed_decision publish_mode by_path "rules.data_contract.record_granularity" in
    let key_issues =
      require_confirmed_decision publish_mode by_path "rules.data_contract.key_fields" in
    let last =
      last_no_errors (decisions_issues publish_mode 0 bundle.decisions [])
        (if is_some bundle.data_rules then granularity_issues ++ key_issues else []) h in
    let both : has_errors (granularity_issues ++ key_issues) ≡ false = ground arith in
    let (granularity, key_fields) =
      no_errors-append
        (require_confirmed_decision publish_mode by_path "rules.data_contract.record_granularity")
        (require_confirmed_decision publish_mode by_path "rules.data_contract.key_fields") both in
    (
      confirmed by_path "rules.data_contract.record_granularity" granularity,
      confirmed by_path "rules.data_contract.key_fields" key_fields,
    )

module _ (valid_config : CapabilityDefinition → RawMessage → Bool) (regex_compiles : String → Bool)
    (draft : WorkflowDraft) (catalog : Catalog) (mode : ValidationMode) where
  -- What the checks add, each without errors.
  pub record NoErrors : Type 0 where
    pub identity : has_errors (validate_identity draft mode) ≡ false
    pub index : has_errors (index_definition valid_config draft catalog mode).issues ≡ false
    pub connections :
        has_errors
          (connect_all
            (index_definition valid_config draft catalog mode)
            0
            draft.connections
            no_wiring).1
        ≡ false
    pub topology :
        has_errors (
          validate_topology mode draft
            (index_definition valid_config draft catalog mode)
            (connect_all
              (index_definition valid_config draft catalog mode)
              0
              draft.connections
              no_wiring).0)
        ≡ false
    pub rules :
        has_errors (
          validate_rules regex_compiles mode draft.rules
            (index_definition valid_config draft catalog mode).capabilities)
        ≡ false
    pub cases : has_errors (validate_acceptance_cases mode draft) ≡ false

  pub NoErrors-of-validate :
      has_errors (validate valid_config regex_compiles draft catalog mode) ≡ false → NoErrors
  unfolding validate collect_issues
  NoErrors-of-validate h =
      let index = index_definition valid_config draft catalog mode in
      let wired = connect_all index 0 draft.connections no_wiring in
      let rules_issues = validate_rules regex_compiles mode draft.rules index.capabilities in
      let cases_issues = validate_acceptance_cases mode draft in
      let coverage = validate_coverage mode draft index wired.0 in
      let topology = validate_topology mode draft index wired.0 in
      let all =
        sym (has_errors-sort_issues (collect_issues valid_config regex_compiles draft catalog mode))
        ∙ h in
      let (identity, h1) =
        no_errors-append (validate_identity draft mode)
          (index.issues ++ (wired.1 ++ (coverage ++ (topology ++ (rules_issues ++ cases_issues)))))
          all in
      let (indexed, h2) =
        no_errors-append index.issues
          (wired.1 ++ (coverage ++ (topology ++ (rules_issues ++ cases_issues)))) h1 in
      let (connected, h3) =
        no_errors-append wired.1 (coverage ++ (topology ++ (rules_issues ++ cases_issues))) h2 in
      let (covered, h4) =
        no_errors-append coverage (topology ++ (rules_issues ++ cases_issues)) h3 in
      let (shaped, h5) = no_errors-append topology (rules_issues ++ cases_issues) h4 in
      let (ruled, tested) = no_errors-append rules_issues cases_issues h5 in
      record {
        identity = identity;
        index = indexed;
        connections = connected;
        topology = shaped;
        rules = ruled;
        cases = tested;
      }

  pub nodes-of-index :
      has_errors (index_definition valid_config draft catalog mode).issues ≡ false
      → (has_errors (index_nodes valid_config mode catalog 0 draft.nodes [] []).issues ≡ false)
        × (is_empty draft.nodes && is_publish mode ≡ false)
  unfolding index_definition
  nodes-of-index h =
      let inputs = (index_ports "workflow_input" "inputs" 0 draft.inputs []).issues in
      let outputs = (index_ports "workflow_output" "outputs" 0 draft.outputs []).issues in
      let nodes = (index_nodes valid_config mode catalog 0 draft.nodes [] []).issues in
      let given =
        add_if (is_empty draft.nodes && is_publish mode) "workflow_nodes_required" "nodes" error in
      let h1 = last_no_errors inputs (outputs ++ (nodes ++ given)) h in
      let (indexed, named) =
        no_errors-append nodes given (last_no_errors outputs (nodes ++ given) h1) in
      (indexed, ground arith)

module _ (valid_config : CapabilityDefinition → RawMessage → Bool) (regex_compiles : String → Bool)
    (draft : WorkflowDraft) (catalog : Catalog) where
  cases-of-acceptance :
      has_errors (validate_acceptance_cases publish_mode draft) ≡ false
      → (has_errors (case_issues 0 draft.acceptance_cases []) ≡ false)
        × (is_empty draft.acceptance_cases ≡ false)
        × (has_errors (passed_issues draft.revision 0 draft.acceptance_cases) ≡ false)
  unfolding validate_acceptance_cases
  cases-of-acceptance h =
      let required =
        add_if (is_empty draft.acceptance_cases) "acceptance_case_required" "acceptance_cases"
          error in
      let passing = passed_issues draft.revision 0 draft.acceptance_cases in
      let (stated, rest) =
        no_errors-append (case_issues 0 draft.acceptance_cases []) (required ++ passing) h in
      let (given, passed) = no_errors-append required passing rest in (stated, ground arith, passed)

  Publishable-of-NoErrors :
      NoErrors valid_config regex_compiles draft catalog publish_mode
      → IsPublishable valid_config catalog draft
  unfolding validate_identity
  Publishable-of-NoErrors n =
      let (nodes, nodes_given) =
        nodes-of-index valid_config regex_compiles draft catalog publish_mode n.index in
      let (usable, fresh) =
        index_nodes-usable valid_config publish_mode catalog 0 draft.nodes [] [] nodes in
      let (stated, cases_given, passed) = cases-of-acceptance n.cases in
      let decisions =
        decisions-of-rules regex_compiles draft.rules
          (index_definition valid_config draft catalog publish_mode).capabilities n.rules in
      record {
        key_valid = ground (arith, n.identity);
        name_given = ground (arith, n.identity);
        workspace_given = ground (arith, n.identity);
        revision_valid = ground (arith, n.identity);
        nodes_given = ground (arith, nodes_given);
        nodes_usable = usable;
        nodes_distinct = AreFresh-Nodup (λ k. false) (node_ids draft.nodes) fresh;
        cases_given = cases_given;
        cases_passed = cases-IsPassed draft.revision 0 0 draft.acceptance_cases [] stated passed;
        cases_distinct =
            AreFresh-Nodup (λ k. false) (case_ids draft.acceptance_cases)
              (case_issues-fresh 0 draft.acceptance_cases [] stated);
        granularity_confirmed = λ given. (required-of-decisions draft.rules decisions given).0;
        key_fields_confirmed = λ given. (required-of-decisions draft.rules decisions given).1;
      }

-- A draft that `Validate` accepts for a publication, with no error among its issues, has a valid key, a name and a
-- workspace, nodes with valid and distinct identifiers whose capabilities are in the catalog and take their
-- configuration, acceptance cases that are distinct and that its current revision passed in a preview, and, where it
-- has a data contract, decisions of high risk that a person confirmed for the granularity and the key fields.
pub validate-IsPublishable :
    (valid_config : CapabilityDefinition → RawMessage → Bool) (regex_compiles : String → Bool)
    (draft : WorkflowDraft) (catalog : Catalog)
    → has_errors (validate valid_config regex_compiles draft catalog publish_mode) ≡ false
    → IsPublishable valid_config catalog draft
validate-IsPublishable valid_config regex_compiles draft catalog h =
    Publishable-of-NoErrors valid_config regex_compiles draft catalog
      (NoErrors-of-validate valid_config regex_compiles draft catalog publish_mode h)
