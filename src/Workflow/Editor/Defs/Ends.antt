-- ===== src/Workflow/Editor/Defs/Ends.antt =====
-- internal/app/workflow/draft_editor.go: `AppendAfter` and `PrependBefore`.
use req_flow.Prelude.{
  String, Bool, true, false, not, ◌&&◌, ◌||◌, List, [], ◌∷◌, ◌++◌, map, ◌==◌, if◌then◌else◌, any,
  Result, ok, ◌>>=◌, ◌>>◌, refuse_if,
}
use req_flow.Workflow.Model.{
  PortDefinition, ResourceType, WorkflowPort, WorkflowNode, WorkflowDraft, Connection, EndpointKind,
  workflow_input,
}
use req_flow.Workflow.Order.{is_node_input}
use req_flow.Workflow.Editor.Defs.Ports.{
  Editor, EditError, capability_missing, type_mismatch, port_missing, not_tail, output_not_exposed,
  not_head, input_not_connected, require, clone_draft, primary_port, port_or_zero, into_node,
  out_of_node, wire, ensure_new_node, find_node, bind_required_side_inputs, finish_edit,
}
use req_flow.Workflow.Editor.Defs.Nodes.{is_output_kind, leaves_node, enters_node}

-- The connections and the workflow ports of the draft while an end moves, and whether it has moved.
pub record MovedEnd : Type 0 where
  pub connections : List Connection
  pub ports : List WorkflowPort
  pub moved : Bool

abbrev pub retype_port : String → ResourceType → WorkflowPort → WorkflowPort
retype_port name type port =
    if port.name == name then record port { resource_type = type } else port

pub record AppendAfterCommand : Type 0 where
  pub after_node_id : String
  pub node : WorkflowNode
  pub side_inputs : List (String × String)

-- A connection from the previous node's port to another node.
abbrev pub continues_from : String → String → Connection → Bool
continues_from id port c = leaves_node id c.from && (c.from.port == port && is_node_input c.to.kind)

-- A connection from the previous node's port to an output of the workflow.
abbrev pub exposes_from : String → String → Connection → Bool
exposes_from id port c = leaves_node id c.from && (c.from.port == port && is_output_kind c.to.kind)

-- The loop over the connections: those to the workflow's outputs leave the new node instead.
unfoldable pub move_outputs :
    String → String → String → PortDefinition → List Connection → List WorkflowPort → MovedEnd
move_outputs id port new_id output [] ports = record {
  connections = [];
  ports = ports;
  moved = false;
}
move_outputs id port new_id output (c ∷ cs) ports =
    let here = exposes_from id port c in
    let rest =
      move_outputs id port new_id output cs
        (if here then map (retype_port c.to.port output.resource_type) ports else ports) in
    record {
      connections =
          (if here then wire (out_of_node new_id output.name) c.to else c) ∷ rest.connections;
      ports = rest.ports;
      moved = here || rest.moved;
    }

unfoldable pub plan_append :
    Editor → WorkflowDraft → AppendAfterCommand → Result EditError WorkflowDraft
unfolding move_outputs
plan_append e next command = do
  ensure_new_node next.nodes command.node
  capability ← require (e.find_capability command.node.capability) capability_missing
  input ← require (primary_port capability.inputs) port_missing
  output ← require (primary_port capability.outputs) port_missing
  (previous, previous_capability) ← find_node e next.nodes command.after_node_id
  let previous_output = port_or_zero (primary_port previous_capability.outputs)
  refuse_if (not (previous_output.resource_type == input.resource_type)) type_mismatch
  refuse_if (any (continues_from previous.id previous_output.name) next.connections) not_tail
  let end =
      move_outputs previous.id previous_output.name command.node.id output next.connections
        next.outputs
  refuse_if (not end.moved) output_not_exposed
  connections ←
      bind_required_side_inputs e (record next { outputs = end.ports }) command.node.id
        command.side_inputs capability.inputs
        (end.connections
          ++ wire (out_of_node previous.id previous_output.name)
              (into_node command.node.id input.name)
            ∷ [])
  ok (record next {
    outputs = end.ports;
    nodes = next.nodes ++ command.node ∷ [];
    connections = connections;
  })

unfoldable pub append_after :
    Editor → WorkflowDraft → AppendAfterCommand → Result EditError WorkflowDraft
append_after e draft command = do
  next ← clone_draft e draft
  edited ← plan_append e next command
  finish_edit e edited

pub record PrependBeforeCommand : Type 0 where
  pub before_node_id : String
  pub node : WorkflowNode
  pub side_inputs : List (String × String)

abbrev pub is_input_kind : EndpointKind → Bool
is_input_kind workflow_input = true
is_input_kind _ = false

-- The loop over the connections: the workflow's input enters the new node instead.
unfoldable pub move_input :
    String
    → String
    → String
    → PortDefinition
    → List Connection
    → List WorkflowPort
    → Result EditError MovedEnd
move_input id port new_id input [] ports =
    ok (record { connections = []; ports = ports; moved = false })
move_input id port new_id input (c ∷ cs) ports = do
  let here = enters_node id c.to && c.to.port == port
  refuse_if (here && not (is_input_kind c.from.kind)) not_head
  rest ←
      move_input id port new_id input cs
        (if here then map (retype_port c.from.port input.resource_type) ports else ports)
  ok (record {
    connections =
        (if here then wire c.from (into_node new_id input.name) else c) ∷ rest.connections;
    ports = rest.ports;
    moved = here || rest.moved;
  })

unfoldable pub plan_prepend :
    Editor → WorkflowDraft → PrependBeforeCommand → Result EditError WorkflowDraft
unfolding move_input
plan_prepend e next command = do
  ensure_new_node next.nodes command.node
  capability ← require (e.find_capability command.node.capability) capability_missing
  let input = port_or_zero (primary_port capability.inputs)
  let output = port_or_zero (primary_port capability.outputs)
  (next_node, next_capability) ← find_node e next.nodes command.before_node_id
  let next_input = port_or_zero (primary_port next_capability.inputs)
  refuse_if (not (output.resource_type == next_input.resource_type)) type_mismatch
  end ← move_input next_node.id next_input.name command.node.id input next.connections next.inputs
  refuse_if (not end.moved) input_not_connected
  connections ←
      bind_required_side_inputs e (record next { inputs = end.ports }) command.node.id
        command.side_inputs capability.inputs
        (end.connections
          ++ wire (out_of_node command.node.id output.name) (into_node next_node.id next_input.name)
            ∷ [])
  ok (record next {
    inputs = end.ports;
    nodes = next.nodes ++ command.node ∷ [];
    connections = connections;
  })

unfoldable pub prepend_before :
    Editor → WorkflowDraft → PrependBeforeCommand → Result EditError WorkflowDraft
prepend_before e draft command = do
  next ← clone_draft e draft
  edited ← plan_prepend e next command
  finish_edit e edited
