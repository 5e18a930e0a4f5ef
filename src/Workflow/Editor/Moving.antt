-- ===== src/Workflow/Editor/Moving.antt =====
-- internal/app/workflow/draft_editor.go: what the ends that move leave of the edges between nodes.
use req_flow.Prelude.{
  String, true, not, ◌&&◌, List, [], ◌∷◌, ◌++◌, map, ◌≡◌, refl, ◌∙◌, arith, ◌==◌, eq_iff,
  if◌then◌else◌, find, some, contains, Bool-cases, inl, inr, ok, when_ok, when_passed, trim_space,
}
use mathlib.Core.List.{append-nil}
use req_flow.Workflow.Model.{
  WorkflowDraft, WorkflowNode, WorkflowPort, Connection, PortDefinition, CapabilityDefinition,
}
use req_flow.Workflow.Catalog.{is_side_role}
use req_flow.Workflow.Order.{node_ids, main_edges}
use req_flow.Workflow.Editor.Defs.{
  Editor, not_head, find_node, text_at, bind_required_side_inputs, wire, input_of, into_node,
  exposes_from, enters_node, is_input_kind, MovedEnd, move_outputs, move_input, retype_port,
}
use req_flow.Workflow.Editor.Splicing.{main_edges-append}

pub bind_required_side_inputs-main_edges :
    (e : Editor) (draft : WorkflowDraft) (id : String) (bindings : List (String × String))
    (ports : List PortDefinition) (connections : List Connection) {out : List Connection}
    → bind_required_side_inputs e draft id bindings ports connections ≡ ok out
    → main_edges out ≡ main_edges connections
unfolding bind_required_side_inputs
bind_required_side_inputs-main_edges e draft id bindings [] connections h = ground arith
bind_required_side_inputs-main_edges e draft id bindings (port ∷ ports) connections {out} h =
    elim (Bool-cases (is_side_role port.role && port.required)) [
      | inr skipped ↦
          bind_required_side_inputs-main_edges e draft id bindings ports connections
            (rw (bind_required_side_inputs, skipped) at h)
      | inl bound ↦
          let name = trim_space (text_at port.name bindings) in
          let more = connections ++ wire (input_of name) (into_node id port.name) ∷ [] in
          let rest : bind_required_side_inputs e draft id bindings ports more ≡ ok out =
            ground arith in
          bind_required_side_inputs-main_edges e draft id bindings ports more rest
          ∙ main_edges-append connections _
          ∙ append-nil (main_edges connections)
    ]

find-known :
    (id : String) (nodes : List WorkflowNode) (node : WorkflowNode)
    → find (λ (n : WorkflowNode). n.id == id) nodes ≡ some node
    → (node.id ≡ id) × (contains id (node_ids nodes) ≡ true)
find-known id [] node h = cc
find-known id (n ∷ nodes) node h = ground (arith, eq_iff n.id id, find-known id nodes node)

-- A node that is found has the identifier, and is one of the draft's.
pub find_node-known :
    (e : Editor) (nodes : List WorkflowNode) (id : String) {node : WorkflowNode}
    {capability : CapabilityDefinition}
    → find_node e nodes id ≡ ok (node, capability)
    → (node.id ≡ id) × (contains id (node_ids nodes) ≡ true)
unfolding find_node
find_node-known e nodes id {node} h = find-known id nodes node (ground arith)

-- The ends that move are no edges between nodes.
pub move_outputs-main_edges :
    (id port new_id : String) (output : PortDefinition) (cs : List Connection)
    (ports : List WorkflowPort)
    → main_edges (move_outputs id port new_id output cs ports).connections ≡ main_edges cs
unfolding move_outputs
move_outputs-main_edges id port new_id output [] ports = refl
move_outputs-main_edges id port new_id output (c ∷ cs) ports = ground (
  arith,
  move_outputs-main_edges id port new_id output cs (
      if exposes_from id port c
      then map (retype_port c.to.port output.resource_type) ports
      else ports),
)

pub move_input-main_edges :
    (id port new_id : String) (input : PortDefinition) (cs : List Connection)
    (ports : List WorkflowPort) {end : MovedEnd}
    → move_input id port new_id input cs ports ≡ ok end
    → main_edges end.connections ≡ main_edges cs
unfolding move_input
move_input-main_edges id port new_id input [] ports h = ground arith
move_input-main_edges id port new_id input (c ∷ cs) ports h =
    when_passed (enters_node id c.to && c.to.port == port && not (is_input_kind c.from.kind))
      not_head h
      (λ from_input h1.
        when_ok
          (move_input id port new_id input cs (
            if enters_node id c.to && c.to.port == port
            then map (retype_port c.from.port input.resource_type) ports
            else ports))
          h1
          (λ rest found done.
            let same = move_input-main_edges id port new_id input cs _ found in ground arith))
