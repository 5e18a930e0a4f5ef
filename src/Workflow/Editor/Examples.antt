-- ===== src/Workflow/Editor/Examples.antt =====
-- internal/app/workflow/draft_editor.go: commands on a draft of two nodes.
use req_flow.Prelude.{
  String, true, ◌∷◌, [], ◌++◌, List, some, ◌≡◌, refl, ok, trim_space, valid_identifier,
  valid_capability_kind, decimal, element_path, map, arith,
}
use req_flow.Prelude.Int.{pos, ◌≤ℤ◌, ◌<ℤ◌, int64_max}
use req_flow.Json.{is_valid_json}
use req_flow.Workflow.Model.{
  WorkflowDraft, CapabilityDefinition, node_output, node_input, workflow_input, workflow_output,
}
use req_flow.Workflow.Order.{
  linear_order, index_ids, connect, link_edge, link_one, link_all, chain, find_head, follow, walk,
  cover,
}
use req_flow.Workflow.Catalog.{
  decimal_ℤ, capability_key, valid_port, check_requirements, check_inputs, check_outputs,
  check_ports, valid_json_object, validate_capability, register, new_static_catalog,
  lookup_capability,
}
use req_flow.Workflow.Catalog.Built.{lookup_capability-valid}
use req_flow.Workflow.Validate.Issues.{
  publish_mode, has_errors, before, sort_issues, insert_issue, same_severity,
}
use req_flow.Workflow.Validate.Index.{
  validate_identity, valid_workflow_port, index_ports, resolve_capability, index_nodes,
  index_definition,
}
use req_flow.Workflow.Validate.Connections.{
  endpoint_key, connection_key, resolve_workflow_port, resolve_node_port, resolve_source_kind,
  resolve_source, resolve_target_kind, resolve_target, link_nodes, connect_resolved, connect_ends,
  connect_one, connect_all,
}
use req_flow.Workflow.Validate.Topology.{
  validate_coverage, heads_of, visit_from, walk_issues, head_issues, validate_topology,
}
use req_flow.Workflow.Validate.Decisions.{
  has_rule_section, validate_decisions, index_decisions, decisions_issues,
  require_confirmed_decision, validate_rules, case_issues, passed_issues, validate_acceptance_cases,
  collect_issues, validate,
}
use req_flow.Workflow.Validate.Indexing.{IsLinear}
use req_flow.Workflow.Validate.Examples.{capability, accepts_config, compiles, node, link, imports}
use req_flow.Workflow.Editor.Defs.{
  Editor, inserting, edit, clone_draft, finish_edit, validate_edit_result, invalidate_acceptance,
  touch, primary_port, source_type, target_type, node_port_type, find_node, require_port,
  bind_required_side_inputs, insert_side_inputs, stale_case, InsertBetweenCommand, plan_insert,
  insert_between, AppendAfterCommand, move_outputs, plan_append, append_after, PrependBeforeCommand,
  move_input, plan_prepend, prepend_before,
}
use req_flow.Workflow.Editor.Effects.{SameHeader, IsCopy, Rereads}
use req_flow.Workflow.Editor.Revisions.{IsTimely, edit-not_publishable, edit-IsTimely}
use req_flow.Workflow.Editor.Checked.{IsValidDraft, IsOneMore, edit-revision}
use req_flow.Workflow.Editor.Inserting.{insert_between-linear_order}
use req_flow.Workflow.Editor.Appending.{append_after-linear_order, prepend_before-linear_order}

abbrev definitions : List CapabilityDefinition
definitions =
    capability "file.parse" "asset_set" "records"
    ∷ capability "dataset.save" "records" "dataset"
    ∷ capability "record.clean" "records" "records"
    ∷ capability "dataset.search" "dataset" "dataset"
    ∷ capability "file.unpack" "asset_set" "asset_set"
    ∷ []

abbrev built : List (String × CapabilityDefinition)
built =
    ("file.parse@1", capability "file.parse" "asset_set" "records")
    ∷ ("dataset.save@1", capability "dataset.save" "records" "dataset")
    ∷ ("record.clean@1", capability "record.clean" "records" "records")
    ∷ ("dataset.search@1", capability "dataset.search" "dataset" "dataset")
    ∷ ("file.unpack@1", capability "file.unpack" "asset_set" "asset_set")
    ∷ []

catalog_built : new_static_catalog is_valid_json accepts_config is_valid_json definitions ≡ ok built
unfolding new_static_catalog register validate_capability valid_json_object check_ports check_inputs
    check_outputs valid_port check_requirements capability_key decimal_ℤ decimal trim_space
    valid_identifier valid_capability_kind
catalog_built = refl

abbrev editor : Editor
editor = record {
  find_capability = lookup_capability built;
  valid_config = accepts_config;
  regex_compiles = compiles;
  reread = λ d. some d;
  same_bytes = λ a b. true;
}

itself : (d : WorkflowDraft) → IsCopy d d
itself d = record {
  header = (refl, refl, refl, refl, refl, refl);
  revision = refl;
  inputs = refl;
  outputs = refl;
  connections = refl;
  nodes = refl;
  cases = refl;
}

copies : Rereads editor
copies d d' e = let same : d' ≡ d = ground arith in rw same (itself d)

linear : IsLinear (some editor.find_capability)
linear ref c found =
    let (key, valid, accepted, inputs, outputs) =
      lookup_capability-valid is_valid_json accepts_config is_valid_json definitions built ref c
        catalog_built found in
    (inputs, outputs)

imports_ordered : linear_order imports ≡ ok ("parse" ∷ "save" ∷ [])
unfolding linear_order index_ids connect link_edge link_one link_all chain find_head follow walk
    cover
imports_ordered = refl

abbrev cleaning : InsertBetweenCommand
cleaning = record {
  connection = link node_output "parse" "out" node_input "save" "in";
  node = node "clean" "record.clean";
  side_inputs = [];
}

abbrev cleaned : WorkflowDraft
cleaned = touch (record imports {
  nodes = node "save" "dataset.save" ∷ node "parse" "file.parse" ∷ node "clean" "record.clean" ∷ [];
  connections =
      link workflow_input "" "files" node_input "parse" "in"
      ∷ link node_output "save" "out" workflow_output "" "result"
      ∷ link node_output "parse" "out" node_input "clean" "in"
      ∷ link node_output "clean" "out" node_input "save" "in"
      ∷ [];
  acceptance_cases = map stale_case imports.acceptance_cases;
})

cleaned_so : insert_between editor imports cleaning ≡ ok cleaned
unfolding insert_between plan_insert validate collect_issues validate_identity index_definition
    index_ports valid_workflow_port index_nodes resolve_capability lookup_capability capability_key
    decimal_ℤ decimal element_path trim_space valid_identifier connect_all connect_one connect_ends
    connect_resolved link_nodes resolve_source resolve_target resolve_source_kind
    resolve_target_kind resolve_node_port resolve_workflow_port endpoint_key connection_key
    validate_coverage validate_topology heads_of head_issues visit_from walk_issues validate_rules
    has_rule_section validate_decisions decisions_issues index_decisions require_confirmed_decision
    validate_acceptance_cases case_issues passed_issues sort_issues insert_issue before
    same_severity finish_edit validate_edit_result invalidate_acceptance clone_draft primary_port
    source_type target_type node_port_type find_node require_port bind_required_side_inputs
    insert_side_inputs
cleaned_so = refl

insert_between-linear_order_example : linear_order cleaned ≡ ok ("parse" ∷ "clean" ∷ "save" ∷ [])
insert_between-linear_order_example =
    insert_between-linear_order editor imports cleaning ("parse" ∷ "save" ∷ []) copies
      imports_ordered cleaned_so

abbrev searching_after : AppendAfterCommand
searching_after = record {
  after_node_id = "save";
  node = node "find" "dataset.search";
  side_inputs = [];
}

abbrev searched : WorkflowDraft
searched = touch (record imports {
  nodes =
      node "save" "dataset.save" ∷ node "parse" "file.parse" ∷ node "find" "dataset.search" ∷ [];
  connections =
      link node_output "parse" "out" node_input "save" "in"
      ∷ link workflow_input "" "files" node_input "parse" "in"
      ∷ link node_output "find" "out" workflow_output "" "result"
      ∷ link node_output "save" "out" node_input "find" "in"
      ∷ [];
  acceptance_cases = map stale_case imports.acceptance_cases;
})

searched_so : append_after editor imports searching_after ≡ ok searched
unfolding append_after plan_append move_outputs validate collect_issues validate_identity
    index_definition index_ports valid_workflow_port index_nodes resolve_capability
    lookup_capability capability_key decimal_ℤ decimal element_path trim_space valid_identifier
    connect_all connect_one connect_ends connect_resolved link_nodes resolve_source resolve_target
    resolve_source_kind resolve_target_kind resolve_node_port resolve_workflow_port endpoint_key
    connection_key validate_coverage validate_topology heads_of head_issues visit_from walk_issues
    validate_rules has_rule_section validate_decisions decisions_issues index_decisions
    require_confirmed_decision validate_acceptance_cases case_issues passed_issues sort_issues
    insert_issue before same_severity finish_edit validate_edit_result invalidate_acceptance
    clone_draft primary_port source_type target_type node_port_type find_node require_port
    bind_required_side_inputs insert_side_inputs
searched_so = refl

append_after-linear_order_example :
    (linear_order searched ≡ ok ("parse" ∷ "save" ∷ "find" ∷ []))
    × ((others : List String) × ("parse" ∷ "save" ∷ [] ≡ others ++ "save" ∷ []))
append_after-linear_order_example =
    append_after-linear_order editor imports searching_after ("parse" ∷ "save" ∷ []) copies linear
      imports_ordered searched_so

abbrev unpacking : PrependBeforeCommand
unpacking = record {
  before_node_id = "parse";
  node = node "unpack" "file.unpack";
  side_inputs = [];
}

abbrev unpacked : WorkflowDraft
unpacked = touch (record imports {
  nodes = node "save" "dataset.save" ∷ node "parse" "file.parse" ∷ node "unpack" "file.unpack" ∷ [];
  connections =
      link node_output "parse" "out" node_input "save" "in"
      ∷ link workflow_input "" "files" node_input "unpack" "in"
      ∷ link node_output "save" "out" workflow_output "" "result"
      ∷ link node_output "unpack" "out" node_input "parse" "in"
      ∷ [];
  acceptance_cases = map stale_case imports.acceptance_cases;
})

unpacked_so : prepend_before editor imports unpacking ≡ ok unpacked
unfolding prepend_before plan_prepend move_input validate collect_issues validate_identity
    index_definition index_ports valid_workflow_port index_nodes resolve_capability
    lookup_capability capability_key decimal_ℤ decimal element_path trim_space valid_identifier
    connect_all connect_one connect_ends connect_resolved link_nodes resolve_source resolve_target
    resolve_source_kind resolve_target_kind resolve_node_port resolve_workflow_port endpoint_key
    connection_key validate_coverage validate_topology heads_of head_issues visit_from walk_issues
    validate_rules has_rule_section validate_decisions decisions_issues index_decisions
    require_confirmed_decision validate_acceptance_cases case_issues passed_issues sort_issues
    insert_issue before same_severity finish_edit validate_edit_result invalidate_acceptance
    clone_draft primary_port source_type target_type node_port_type find_node require_port
    bind_required_side_inputs insert_side_inputs
unpacked_so = refl

prepend_before-linear_order_example :
    (linear_order unpacked ≡ ok ("unpack" ∷ "parse" ∷ "save" ∷ []))
    × ((others : List String) × ("parse" ∷ "save" ∷ [] ≡ "parse" ∷ others))
prepend_before-linear_order_example =
    prepend_before-linear_order editor imports unpacking ("parse" ∷ "save" ∷ []) copies linear
      imports_ordered unpacked_so

edited_so : edit editor imports (inserting cleaning) ≡ ok cleaned
unfolding edit
edited_so = cleaned_so

timely : IsTimely imports
timely = (omega arith, (omega arith, tt))

below : imports.revision <ℤ pos int64_max
below = omega arith

edit-not_publishable_example :
    has_errors
      (validate accepts_config compiles cleaned (some (lookup_capability built)) publish_mode)
    ≡ true
edit-not_publishable_example =
    edit-not_publishable editor imports (inserting cleaning) copies timely below edited_so

edit-IsTimely_example :
    IsTimely cleaned × SameHeader imports cleaned × (imports.revision <ℤ cleaned.revision)
edit-IsTimely_example =
    edit-IsTimely editor imports (inserting cleaning) copies timely below edited_so

edit-revision_example :
    IsValidDraft editor cleaned
    × (pos 0 ≤ℤ cleaned.revision)
    × IsOneMore imports.revision cleaned.revision
    × ¬ (imports.revision ≡ pos int64_max)
edit-revision_example = edit-revision editor imports (inserting cleaning) copies refl edited_so
