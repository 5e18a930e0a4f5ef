-- ===== src/Workflow/Revision/Examples.antt =====
-- internal/domain/workflow/revision.go: the revision of a draft of two nodes.
use req_flow.Prelude.{
  String, Bool, true, false, ◌&&◌, List, [], ◌∷◌, Option, none, some, arith, All, all,
  if◌then◌else◌, ◌≡◌, refl, ok, trim_space, valid_identifier, decimal, element_path, is_ok,
}
use req_flow.Prelude.Int.{pos}
use req_flow.Json.{is_valid_json}
use req_flow.Workflow.Model.{
  RuleBundle, CapabilityRef, CapabilityDefinition, AcceptanceCase, WorkflowRevision, ResolvedNode,
  node_output, node_input, workflow_input, workflow_output,
}
use req_flow.Workflow.Order.{
  linear_order, index_ids, connect, link_edge, link_one, link_all, chain, find_head, follow, walk,
  cover,
}
use req_flow.Workflow.Catalog.{decimal_ℤ, capability_key, lookup_capability}
use req_flow.Workflow.Validate.Issues.{
  publish_mode, has_errors, before, sort_issues, insert_issue, same_severity,
}
use req_flow.Workflow.Validate.Index.{
  validate_identity, valid_workflow_port, index_ports, resolve_capability, index_nodes,
  index_definition,
}
use req_flow.Workflow.Validate.Connections.{
  endpoint_key, connection_key, resolve_workflow_port, resolve_node_port, resolve_source_kind,
  resolve_source, resolve_target_kind, resolve_target, link_nodes, connect_resolved, connect_ends,
  connect_one, connect_all,
}
use req_flow.Workflow.Validate.Topology.{
  validate_coverage, heads_of, visit_from, walk_issues, head_issues, validate_topology,
}
use req_flow.Workflow.Validate.Decisions.{
  has_rule_section, validate_decisions, index_decisions, decisions_issues,
  require_confirmed_decision, validate_rules, case_issues, passed_issues, validate_acceptance_cases,
  collect_issues, validate,
}
use req_flow.Workflow.Validate.Examples.{
  capability, accepts_config, compiles, link, imports, definitions, built, catalog_built, no_errors,
  empty_object,
}
use req_flow.Workflow.Revision.Defs.{
  RevisionContent, build_revision, resolve_all, resolve_node, sort_connections, insert_connection,
  sort_cases, insert_case,
}
use req_flow.Workflow.Revision.Built.{IsRevisionOf, build_revision-IsRevisionOf}
use req_flow.Workflow.Revision.Written.{
  is_omittable, IsWritableCapability, IsWritableNode, IsWritableCase, AreWritableRules, IsWritable,
}
use req_flow.Workflow.Revision.Existing.{build_revision-exists}

abbrev same_rules : RuleBundle → Option RuleBundle
same_rules rules = some rules

abbrev key_as_hash : RevisionContent → Option String
key_as_hash content = some content.key

-- A hash that, as `json.Marshal` does, refuses content with a message that is no JSON.
abbrev node_written : ResolvedNode → Bool
node_written node =
    is_omittable node.capability.config_schema
    && is_omittable node.capability.default_config
    && is_omittable node.config

abbrev case_written : AcceptanceCase → Bool
case_written test = is_valid_json test.input && is_valid_json test.expectation

abbrev written_key : RevisionContent → Option String
written_key content =
    if all node_written content.nodes && all case_written content.acceptance_cases
    then some content.key
    else none

nodes_written :
    (nodes : List ResolvedNode) → All IsWritableNode nodes → all node_written nodes ≡ true
nodes_written [] w = refl
nodes_written (node ∷ nodes) w = ground (arith, nodes_written nodes w.1)

cases_written :
    (cases : List AcceptanceCase) → All IsWritableCase cases → all case_written cases ≡ true
cases_written [] w = refl
cases_written (test ∷ cases) w = ground (arith, cases_written cases w.1)

abbrev pub resolved : String → String → String → String → ResolvedNode
resolved id kind takes gives = record {
  id = id;
  name = id;
  capability = capability kind takes gives;
  config = empty_object;
}

abbrev pub imported : WorkflowRevision
imported = record {
  id = "r";
  workflow_id = "d";
  revision_no = pos 0;
  workspace_id = "w";
  key = "import_orders";
  name = "orders";
  description = "";
  inputs = imports.inputs;
  outputs = imports.outputs;
  nodes =
      resolved "parse" "file.parse" "asset_set" "records"
      ∷ resolved "save" "dataset.save" "records" "dataset"
      ∷ [];
  connections =
      link node_output "parse" "out" node_input "save" "in"
      ∷ link node_output "save" "out" workflow_output "" "result"
      ∷ link workflow_input "" "files" node_input "parse" "in"
      ∷ [];
  rules = imports.rules;
  acceptance_cases = imports.acceptance_cases;
  content_hash = "import_orders";
  published_by = "local-developer";
  published_at = 7;
}

imported_so :
    build_revision accepts_config compiles same_rules key_as_hash
      (lookup_capability built)
      imports
      "r"
      "local-developer"
      7
    ≡ ok imported
unfolding build_revision validate collect_issues validate_identity index_definition index_ports
    valid_workflow_port index_nodes resolve_capability lookup_capability capability_key decimal_ℤ
    decimal element_path trim_space valid_identifier connect_all connect_one connect_ends
    connect_resolved link_nodes resolve_source resolve_target resolve_source_kind
    resolve_target_kind resolve_node_port resolve_workflow_port endpoint_key connection_key
    validate_coverage validate_topology heads_of head_issues visit_from walk_issues validate_rules
    has_rule_section validate_decisions decisions_issues index_decisions require_confirmed_decision
    validate_acceptance_cases case_issues passed_issues sort_issues insert_issue before
    same_severity linear_order index_ids connect link_edge link_one link_all chain find_head follow
    walk cover resolve_all resolve_node sort_connections insert_connection sort_cases insert_case
imported_so = refl

build_revision-IsRevisionOf_example :
    (has_errors
        (validate accepts_config compiles imports (some (lookup_capability built)) publish_mode)
      ≡ false)
    × IsRevisionOf (lookup_capability built) imports imported
build_revision-IsRevisionOf_example =
    build_revision-IsRevisionOf accepts_config compiles same_rules key_as_hash
      (lookup_capability built) imports "r" "local-developer" 7 imported_so

abbrev copies_rules :
    (rules : RuleBundle)
    → AreWritableRules rules
    → (copied : RuleBundle) × (same_rules rules ≡ some copied) × AreWritableRules copied
copies_rules rules w = (rules, refl, w)

-- A `json.Marshal` that refuses content which cannot be written.
hashes_written :
    (content : RevisionContent)
    → IsWritable content
    → (text : String) × (written_key content ≡ some text)
hashes_written content (nodes, rules, cases) = (
  content.key,
  rw (nodes_written content.nodes nodes, cases_written content.acceptance_cases cases) refl,
)

configured :
    (ref : CapabilityRef) (capability : CapabilityDefinition)
    → lookup_capability built ref ≡ some capability
    → IsWritableCapability capability
unfolding lookup_capability
configured ref capability f = ground arith

build_revision-exists_example :
    is_ok (
      build_revision accepts_config compiles same_rules written_key
        (lookup_capability built)
        imports
        "r"
        "local-developer"
        7)
    ≡ true
unfolding trim_space
build_revision-exists_example =
    build_revision-exists is_valid_json is_valid_json accepts_config compiles same_rules written_key
      definitions built imports "r" "local-developer" 7 catalog_built no_errors (refl, refl, refl)
      ((refl, (refl, tt)), tt, (omega arith, tt)) configured copies_rules hashes_written
