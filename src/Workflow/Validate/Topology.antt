-- ===== src/Workflow/Validate/Topology.antt =====
-- internal/domain/workflow/validate.go: the end of `validateConnections`, and `validateTopology`.
use req_flow.Prelude.{
  ℕ, zero, suc, ◌-◌, String, true, not, ◌&&◌, List, [], ◌∷◌, ◌++◌, Option, none, some, is_blank,
  ◌⧺◌, lookup, has, contains, length, eqb, if◌then◌else◌, keys, is_empty,
}
use req_flow.Workflow.Model.{
  error, CapabilityDefinition, PortDefinition, WorkflowPort, WorkflowNode, WorkflowDraft, Endpoint,
  workflow_input, node_input, workflow_output,
}
use req_flow.Workflow.Order.{next_of}
use req_flow.Workflow.Validate.Issues.{ValidationMode, ValidationIssue, required_severity, add_if}
use req_flow.Workflow.Validate.Index.{Index}
use req_flow.Workflow.Validate.Connections.{Wiring, count_of, endpoint_key}

abbrev pub node_input_of : String → String → Endpoint
node_input_of node_id port = record { kind = node_input; node_id = node_id; port = port }

required_inputs :
    ValidationMode → List (String × ℕ) → String → List PortDefinition → List ValidationIssue
required_inputs mode incoming node_id [] = []
required_inputs mode incoming node_id (port ∷ ports) =
    add_if
      (port.required && eqb (count_of (endpoint_key (node_input_of node_id port.name)) incoming) 0)
      "required_input_unconnected" ("nodes." ⧺ node_id ⧺ ".inputs." ⧺ port.name)
      (required_severity mode)
    ++ required_inputs mode incoming node_id ports

required_of :
    ValidationMode → List (String × ℕ) → String → Option CapabilityDefinition → List ValidationIssue
required_of mode incoming node_id none = []
required_of mode incoming node_id (some capability) =
    required_inputs mode incoming node_id capability.inputs

unconnected_inputs :
    ValidationMode → Index → List (String × ℕ) → List WorkflowNode → List ValidationIssue
unconnected_inputs mode index incoming [] = []
unconnected_inputs mode index incoming (node ∷ nodes) =
    required_of mode incoming node.id (lookup node.id index.capabilities)
    ++ unconnected_inputs mode index incoming nodes

unused_inputs : ValidationMode → List (String × ℕ) → List WorkflowPort → List ValidationIssue
unused_inputs mode outgoing [] = []
unused_inputs mode outgoing (input ∷ inputs) =
    let key = endpoint_key (record { kind = workflow_input; node_id = ""; port = input.name }) in
    add_if (input.required && eqb (count_of key outgoing) 0) "workflow_input_unused"
      ("inputs." ⧺ input.name) (required_severity mode)
    ++ unused_inputs mode outgoing inputs

unconnected_outputs : ValidationMode → List (String × ℕ) → List WorkflowPort → List ValidationIssue
unconnected_outputs mode incoming [] = []
unconnected_outputs mode incoming (output ∷ outputs) =
    let key = endpoint_key (record { kind = workflow_output; node_id = ""; port = output.name }) in
    add_if (eqb (count_of key incoming) 0) "workflow_output_unconnected" ("outputs." ⧺ output.name)
      (required_severity mode)
    ++ unconnected_outputs mode incoming outputs

-- The three loops behind the one over the connections.
unfoldable pub validate_coverage :
    ValidationMode → WorkflowDraft → Index → Wiring → List ValidationIssue
unfolding required_inputs required_of unconnected_inputs unused_inputs unconnected_outputs
validate_coverage mode draft index w =
    unconnected_inputs mode index w.incoming draft.nodes
    ++ (unused_inputs mode w.outgoing draft.inputs
        ++ unconnected_outputs mode w.incoming draft.outputs)

-- The identifiers with no parent.
unfoldable pub heads_of : List (String × String) → List String → List String
heads_of parents [] = []
heads_of parents (id ∷ ids) =
    let rest = heads_of parents ids in if has id parents then rest else id ∷ rest

-- How the walk along the edges ends; `spent` is the model's own, where the fuel ran out.
pub data WalkEnd : Type 0 where
  arrived : List String → WalkEnd
  cycled spent : WalkEnd

unfoldable pub visit_from : ℕ → List (String × String) → String → List String → WalkEnd
visit_from zero edges current visited = spent
visit_from (suc fuel) edges current visited =
    let rest = visit_from fuel edges (next_of edges current) (current ∷ visited) in
    if is_blank current then arrived visited else if contains current visited then cycled else rest

unfoldable pub walk_issues : ValidationMode → ℕ → WalkEnd → List ValidationIssue
walk_issues mode node_count (arrived visited) =
    add_if (not (eqb (length visited) node_count)) "linear_chain_disconnected" "connections"
      (required_severity mode)
walk_issues mode node_count cycled = add_if true "linear_cycle_forbidden" "connections" error
walk_issues mode node_count spent = []

-- The walk starts at the one head. Each round adds an identifier that an edge leads to, or the head.
unfoldable pub head_issues : ValidationMode → Index → Wiring → List String → List ValidationIssue
unfolding visit_from walk_issues
head_issues mode index w (head ∷ []) =
    walk_issues mode (length index.nodes)
      (visit_from (suc (suc (length w.node_edges))) w.node_edges head [])
head_issues mode index w _ =
    add_if true "linear_chain_head_invalid" "connections" (required_severity mode)

unfoldable pub validate_topology :
    ValidationMode → WorkflowDraft → Index → Wiring → List ValidationIssue
unfolding heads_of head_issues
validate_topology mode draft index w =
    if is_empty draft.nodes
    then []
    else add_if (not (eqb (length w.node_edges) (length draft.nodes - 1))) "linear_chain_incomplete"
        "connections" (required_severity mode)
      ++ head_issues mode index w (heads_of w.node_parents (keys index.nodes))
