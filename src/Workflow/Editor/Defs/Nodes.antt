-- ===== src/Workflow/Editor/Defs/Nodes.antt =====
-- internal/app/workflow/draft_editor.go: `CreateFromBlank`, `InsertBetween` and `RemoveAndBridge`.
use req_flow.Prelude.{
  String, Bool, true, false, not, ◌&&◌, ◌||◌, List, [], ◌∷◌, ◌++◌, Option, none, some, ◌==◌, leb,
  if◌then◌else◌, is_empty, length, Result, ok, ◌>>=◌, ◌>>◌, refuse_if,
}
use req_flow.Workflow.Model.{
  PortDefinition, WorkflowNode, WorkflowDraft, Connection, Endpoint, EndpointKind, workflow_output,
}
use req_flow.Workflow.Catalog.{is_primary_role}
use req_flow.Workflow.Order.{is_main, is_node_input, is_node_output}
use req_flow.Workflow.Editor.Defs.Ports.{
  Editor, EditError, not_blank, capability_missing, config_invalid, type_mismatch,
  not_main_connection, connection_missing, type_unresolved, port_missing, last_node, output_exposed,
  not_middle_node, require, clone_draft, contains_connection, without_connection, primary_port,
  port_or_zero, source_type, target_type, type_matches, input_of, output_of, into_node, out_of_node,
  wire, ensure_new_node, find_node, require_port, bind_required_side_inputs, insert_side_inputs,
  finish_edit,
}

pub record CreateFromBlankCommand : Type 0 where
  pub node : WorkflowNode
  pub input_port : String
  pub output_port : String
  pub side_inputs : List (String × String)

-- The draft that the command makes of the copy, before its last steps; likewise for the other commands.
unfoldable pub plan_create :
    Editor → WorkflowDraft → CreateFromBlankCommand → Result EditError WorkflowDraft
plan_create e next command = do
  refuse_if (not (is_empty next.nodes) || not (is_empty next.connections)) not_blank
  ensure_new_node next.nodes command.node
  capability ← require (e.find_capability command.node.capability) capability_missing
  input ← require_port is_primary_role capability.inputs command.input_port
  output ← require_port is_primary_role capability.outputs command.output_port
  refuse_if
      (not (type_matches (source_type e next (input_of command.input_port)) input.resource_type))
      type_mismatch
  refuse_if
      (not (type_matches (target_type e next (output_of command.output_port)) output.resource_type))
      type_mismatch
  refuse_if (not (e.valid_config capability command.node.config)) config_invalid
  connections ←
      bind_required_side_inputs e next command.node.id command.side_inputs capability.inputs (
        wire (input_of command.input_port) (into_node command.node.id input.name)
        ∷ wire (out_of_node command.node.id output.name) (output_of command.output_port)
        ∷ [])
  ok (record next { nodes = command.node ∷ []; connections = connections })

unfoldable pub create_from_blank :
    Editor → WorkflowDraft → CreateFromBlankCommand → Result EditError WorkflowDraft
create_from_blank e draft command = do
  next ← clone_draft e draft
  edited ← plan_create e next command
  finish_edit e edited

pub record InsertBetweenCommand : Type 0 where
  pub connection : Connection
  pub node : WorkflowNode
  pub side_inputs : List (String × String)

-- The connections behind the cut, for the ports that are found.
abbrev pub cut_connections :
    WorkflowDraft → InsertBetweenCommand → PortDefinition → PortDefinition → List Connection
cut_connections next command input output =
    without_connection command.connection next.connections
    ++ wire command.connection.from (into_node command.node.id input.name)
      ∷ wire (out_of_node command.node.id output.name) command.connection.to
      ∷ []

unfoldable pub plan_insert :
    Editor → WorkflowDraft → InsertBetweenCommand → Result EditError WorkflowDraft
plan_insert e next command = do
  refuse_if (not (is_main command.connection)) not_main_connection
  refuse_if (not (contains_connection next.connections command.connection)) connection_missing
  ensure_new_node next.nodes command.node
  capability ← require (e.find_capability command.node.capability) capability_missing
  input ← require (primary_port capability.inputs) port_missing
  output ← require (primary_port capability.outputs) port_missing
  from_type ← require (source_type e next command.connection.from) type_unresolved
  to_type ← require (target_type e next command.connection.to) type_unresolved
  refuse_if (not (from_type == input.resource_type) || not (output.resource_type == to_type))
      type_mismatch
  connections ←
      insert_side_inputs command.node.id command.side_inputs capability.inputs
        (cut_connections next command input output)
  ok (record next { nodes = next.nodes ++ command.node ∷ []; connections = connections })

unfoldable pub insert_between :
    Editor → WorkflowDraft → InsertBetweenCommand → Result EditError WorkflowDraft
insert_between e draft command = do
  next ← clone_draft e draft
  edited ← plan_insert e next command
  finish_edit e edited

abbrev pub is_output_kind : EndpointKind → Bool
is_output_kind workflow_output = true
is_output_kind _ = false

abbrev pub leaves_node : String → Endpoint → Bool
leaves_node id endpoint = is_node_output endpoint.kind && endpoint.node_id == id

abbrev pub enters_node : String → Endpoint → Bool
enters_node id endpoint = is_node_input endpoint.kind && endpoint.node_id == id

-- `endpointUsesNode`.
abbrev pub uses_node : String → Endpoint → Bool
uses_node id endpoint =
    endpoint.node_id == id && (is_node_input endpoint.kind || is_node_output endpoint.kind)

-- The loop that looks for the connections on both sides of the node: the last of each.
unfoldable pub find_bridge :
    String
    → String
    → String
    → List Connection
    → Option Connection
    → Option Connection
    → Result EditError (Option Connection × Option Connection)
find_bridge id input output [] incoming outgoing = ok (incoming, outgoing)
find_bridge id input output (c ∷ cs) incoming outgoing = do
  refuse_if (leaves_node id c.from && is_output_kind c.to.kind) output_exposed
  find_bridge id input output cs
      (if enters_node id c.to && c.to.port == input then some c else incoming)
      (if leaves_node id c.from && (c.from.port == output && is_node_input c.to.kind)
        then some c
        else outgoing)

abbrev pub without_uses : String → List Connection → List Connection
without_uses id [] = []
without_uses id (c ∷ cs) =
    if uses_node id c.from || uses_node id c.to then without_uses id cs else c ∷ without_uses id cs

-- The nodes but for the first with the identifier.
abbrev pub without_node : String → List WorkflowNode → List WorkflowNode
without_node id [] = []
without_node id (n ∷ ns) = if n.id == id then ns else n ∷ without_node id ns

unfoldable pub plan_remove : Editor → WorkflowDraft → String → Result EditError WorkflowDraft
unfolding find_bridge
plan_remove e next id = do
  refuse_if (leb (length next.nodes) 1) last_node
  (node, capability) ← find_node e next.nodes id
  let input = port_or_zero (primary_port capability.inputs)
  let output = port_or_zero (primary_port capability.outputs)
  (incoming', outgoing') ← find_bridge id input.name output.name next.connections none none
  incoming ← require incoming' not_middle_node
  outgoing ← require outgoing' not_middle_node
  from_type ← require (source_type e next incoming.from) type_unresolved
  to_type ← require (target_type e next outgoing.to) type_unresolved
  refuse_if (not (from_type == to_type)) type_mismatch
  ok (record next {
    nodes = without_node id next.nodes;
    connections = without_uses id next.connections ++ wire incoming.from outgoing.to ∷ [];
  })

unfoldable pub remove_and_bridge : Editor → WorkflowDraft → String → Result EditError WorkflowDraft
remove_and_bridge e draft id = do
  next ← clone_draft e draft
  edited ← plan_remove e next id
  finish_edit e edited
