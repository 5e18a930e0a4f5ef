-- ===== src/Workflow/Validate/Examples.antt =====
-- internal/domain/workflow/validate.go and catalog.go, on a draft of two nodes.
use req_flow.Prelude.{
  All, String, Bool, true, false, ◌||◌, List, [], ◌∷◌, none, some, ◌≡◌, ◌≢◌, refl, trim_space,
  valid_identifier, valid_capability_kind, decimal, element_path, ok,
}
use req_flow.Prelude.Int.{pos}
use req_flow.Json.{RawMessage, end, document, object, is_white, is_valid_json}
use mathlib.Core.List.{Perm}
use req_flow.Workflow.Model.{
  WorkflowDraft, WorkflowNode, WorkflowPort, Connection, EndpointKind, node_output, node_input,
  workflow_input, workflow_output, CapabilityDefinition, PortDefinition, primary, AcceptanceCase,
}
use req_flow.Workflow.Order.{linear_order, IsLinearOrder}
use req_flow.Workflow.Catalog.{
  catalog_definitions, sort_definitions, insert_definition, decimal_ℤ, capability_key, valid_port,
  check_requirements, check_inputs, check_outputs, check_ports, valid_json_object,
  validate_capability, register, new_static_catalog, lookup_capability,
}
use req_flow.Workflow.Catalog.Built.{primaries, lookup_capability-valid}
use req_flow.Workflow.Validate.Issues.{
  publish_mode, draft_mode, has_errors, before, sort_issues, insert_issue, same_severity,
}
use req_flow.Workflow.Validate.Index.{
  Catalog, validate_identity, valid_workflow_port, index_ports, resolve_capability, index_nodes,
  index_definition,
}
use req_flow.Workflow.Validate.Connections.{
  endpoint_key, connection_key, resolve_workflow_port, resolve_node_port, resolve_source_kind,
  resolve_source, resolve_target_kind, resolve_target, link_nodes, connect_resolved, connect_ends,
  connect_one, connect_all,
}
use req_flow.Workflow.Validate.Topology.{
  validate_coverage, heads_of, visit_from, spent, walk_issues, head_issues, validate_topology,
}
use req_flow.Workflow.Validate.Decisions.{
  has_rule_section, validate_decisions, index_decisions, decisions_issues,
  require_confirmed_decision, validate_rules, case_issues, passed_issues, validate_acceptance_cases,
  collect_issues, validate,
}
use req_flow.Workflow.Catalog.Listed.{in_order, catalog_definitions-lookup}
use req_flow.Workflow.Validate.Sorting.{errors_lead, validate-sorted}
use req_flow.Workflow.Validate.Publishable.{IsPublishable}
use req_flow.Workflow.Validate.Publication.{validate-IsPublishable}
use req_flow.Workflow.Validate.Walking.{visit_from-ends}
use req_flow.Workflow.Validate.Ordered.{validate-linear_order}

abbrev port : String → String → PortDefinition
port name type = record {
  name = name;
  label = name;
  resource_type = type;
  role = primary;
  required = true;
  multiple = false;
  description = "";
}

abbrev pub empty_object : RawMessage
empty_object = document (object end)

abbrev pub capability : String → String → String → CapabilityDefinition
capability kind takes gives = record {
  ref = record { kind = kind; version = pos 1 };
  label = kind;
  description = kind;
  inputs = port "in" takes ∷ [];
  outputs = port "out" gives ∷ [];
  rule_requirements = [];
  config_schema = empty_object;
  default_config = empty_object;
  has_side_effects = false;
  requires_llm = false;
  manual_completion = false;
}

abbrev pub definitions : List CapabilityDefinition
definitions =
    capability "file.parse" "asset_set" "records"
    ∷ capability "dataset.save" "records" "dataset"
    ∷ []

abbrev pub built : List (String × CapabilityDefinition)
built =
    ("file.parse@1", capability "file.parse" "asset_set" "records")
    ∷ ("dataset.save@1", capability "dataset.save" "records" "dataset")
    ∷ []

abbrev pub accepts_config : CapabilityDefinition → RawMessage → Bool
accepts_config c raw = is_valid_json raw || is_white raw

abbrev pub compiles : String → Bool
compiles pattern_text = true

pub catalog_built :
    new_static_catalog is_valid_json accepts_config is_valid_json definitions ≡ ok built
unfolding new_static_catalog register validate_capability valid_json_object check_ports check_inputs
    check_outputs valid_port check_requirements capability_key decimal_ℤ decimal trim_space
    valid_identifier valid_capability_kind
catalog_built = refl

abbrev pub node : String → String → WorkflowNode
node id kind = record {
  id = id;
  name = id;
  capability = record { kind = kind; version = pos 1 };
  config = empty_object;
}

abbrev pub link : EndpointKind → String → String → EndpointKind → String → String → Connection
link from a p to b q = record {
  from = record { kind = from; node_id = a; port = p };
  to = record { kind = to; node_id = b; port = q };
}

abbrev workflow_port : String → String → WorkflowPort
workflow_port name type = record {
  name = name;
  label = name;
  resource_type = type;
  required = true;
  description = "";
}

abbrev passed_case : AcceptanceCase
passed_case = record {
  id = "small_file";
  name = "a small file";
  input = empty_object;
  expectation = empty_object;
  last_passed = true;
  last_passed_revision = pos 4;
  last_preview_id = "preview";
  last_run_at = 9;
}

abbrev pub imports : WorkflowDraft
imports = record {
  id = "d";
  workspace_id = "w";
  key = "import_orders";
  name = "orders";
  description = "";
  revision = pos 4;
  inputs = workflow_port "files" "asset_set" ∷ [];
  outputs = workflow_port "result" "dataset" ∷ [];
  nodes = node "save" "dataset.save" ∷ node "parse" "file.parse" ∷ [];
  connections =
      link node_output "parse" "out" node_input "save" "in"
      ∷ link workflow_input "" "files" node_input "parse" "in"
      ∷ link node_output "save" "out" workflow_output "" "result"
      ∷ [];
  rules = record {
    data_rules = none;
    extraction_rules = none;
    search_spec = none;
    output_rules = none;
    decisions = [];
  };
  acceptance_cases = passed_case ∷ [];
  created_at = 1;
  updated_at = 2;
}

abbrev catalog : Catalog
catalog = some (lookup_capability built)

imports_valid : validate accepts_config compiles imports catalog publish_mode ≡ []
unfolding validate collect_issues validate_identity index_definition index_ports valid_workflow_port
    index_nodes resolve_capability lookup_capability capability_key decimal_ℤ decimal element_path
    trim_space valid_identifier connect_all connect_one connect_ends connect_resolved link_nodes
    resolve_source resolve_target resolve_source_kind resolve_target_kind resolve_node_port
    resolve_workflow_port endpoint_key connection_key validate_coverage validate_topology heads_of
    head_issues visit_from walk_issues validate_rules has_rule_section validate_decisions
    decisions_issues index_decisions require_confirmed_decision validate_acceptance_cases
    case_issues passed_issues sort_issues insert_issue before same_severity
imports_valid = refl

-- Without its first connection the draft has errors in a publication, and only warnings before.
abbrev unconnected : WorkflowDraft
unconnected = record imports { connections = [] }

severities :
    (has_errors (validate accepts_config compiles unconnected catalog publish_mode) ≡ true)
    × (has_errors (validate accepts_config compiles unconnected catalog draft_mode) ≡ false)
unfolding validate collect_issues validate_identity index_definition index_ports valid_workflow_port
    index_nodes resolve_capability lookup_capability capability_key decimal_ℤ decimal element_path
    trim_space valid_identifier connect_all connect_one connect_ends connect_resolved link_nodes
    resolve_source resolve_target resolve_source_kind resolve_target_kind resolve_node_port
    resolve_workflow_port endpoint_key connection_key validate_coverage validate_topology heads_of
    head_issues visit_from walk_issues validate_rules has_rule_section validate_decisions
    decisions_issues index_decisions require_confirmed_decision validate_acceptance_cases
    case_issues passed_issues sort_issues insert_issue before same_severity
severities = (refl, refl)

pub no_errors : has_errors (validate accepts_config compiles imports catalog publish_mode) ≡ false
no_errors = rw imports_valid refl

validate-linear_order_example :
    (order : List String) × (linear_order imports ≡ ok order) × IsLinearOrder imports order
validate-linear_order_example =
    validate-linear_order is_valid_json is_valid_json accepts_config compiles definitions built
      imports catalog_built no_errors

validate-IsPublishable_example : IsPublishable accepts_config catalog imports
validate-IsPublishable_example =
    validate-IsPublishable accepts_config compiles imports catalog no_errors

validate-sorted_example :
    Perm
      (validate accepts_config compiles unconnected catalog publish_mode)
      (collect_issues accepts_config compiles unconnected catalog publish_mode)
    × (errors_lead (validate accepts_config compiles unconnected catalog publish_mode) ≡ true)
validate-sorted_example = validate-sorted accepts_config compiles unconnected catalog publish_mode

visit_from-ends_example : visit_from 4 (("a", "b") ∷ ("b", "a") ∷ []) "a" [] ≢ spent
visit_from-ends_example = visit_from-ends (("a", "b") ∷ ("b", "a") ∷ []) "a"

abbrev parse : CapabilityDefinition
parse = capability "file.parse" "asset_set" "records"

lookup_capability-valid_example :
    (capability_key parse.ref ≡ capability_key parse.ref)
    × (validate_capability is_valid_json accepts_config is_valid_json parse ≡ ok tt)
    × (accepts_config parse parse.default_config ≡ true)
    × (primaries parse.inputs ≡ 1)
    × (primaries parse.outputs ≡ 1)
unfolding lookup_capability capability_key decimal_ℤ decimal
lookup_capability-valid_example =
    lookup_capability-valid is_valid_json accepts_config is_valid_json definitions built parse.ref
      parse catalog_built refl

-- `Definitions` lists "dataset.save" before "file.parse".
catalog_definitions-lookup_example :
    Perm (catalog_definitions built) definitions
    × (in_order (catalog_definitions built) ≡ true)
    × All (λ d. lookup_capability built d.ref ≡ some d) (catalog_definitions built)
catalog_definitions-lookup_example =
    catalog_definitions-lookup is_valid_json accepts_config is_valid_json definitions built
      catalog_built

listed : catalog_definitions built ≡ capability "dataset.save" "records" "dataset" ∷ parse ∷ []
unfolding catalog_definitions sort_definitions insert_definition
listed = refl
