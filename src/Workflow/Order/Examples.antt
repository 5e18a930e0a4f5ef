-- ===== src/Workflow/Order/Examples.antt =====
-- internal/domain/workflow/revision.go, `LinearOrder`, on drafts of three nodes.
use req_flow.Prelude.{String, List, [], ◌∷◌, none, ◌≡◌, refl, ◌↔◌, ok, err}
use req_flow.Prelude.Int.{pos}
use req_flow.Json.{malformed}
use mathlib.Core.List.Perm
use mathlib.Core.List.{perm_middle}
use req_flow.Workflow.Model.{
  WorkflowDraft, WorkflowNode, Connection, EndpointKind, node_output, node_input, workflow_input,
}
use req_flow.Workflow.Order.Defs.{
  linear_order, index_ids, connect, link_edge, link_one, link_all, chain, find_head, follow, walk,
  cover, IsLinearOrder, many_predecessors, chain_incomplete, exhausted,
}
use req_flow.Workflow.Order.Complete.{linear_order_iff}
use req_flow.Workflow.Order.Ends.{linear_order_ends, linear_order_perm}

abbrev node : String → WorkflowNode
node id = record {
  id = id;
  name = id;
  capability = record { kind = id; version = pos 1 };
  config = malformed;
}

abbrev edge : EndpointKind → String → String → Connection
edge kind a b = record {
  from = record { kind = kind; node_id = a; port = "out" };
  to = record { kind = node_input; node_id = b; port = "in" };
}

abbrev draft_of : List WorkflowNode → List Connection → WorkflowDraft
draft_of nodes connections = record {
  id = "d";
  workspace_id = "w";
  key = "k";
  name = "n";
  description = "";
  revision = pos 1;
  inputs = [];
  outputs = [];
  nodes = nodes;
  connections = connections;
  rules = record {
    data_rules = none;
    extraction_rules = none;
    search_spec = none;
    output_rules = none;
    decisions = [];
  };
  acceptance_cases = [];
  created_at = 0;
  updated_at = 0;
}

abbrev three_nodes : List WorkflowNode
three_nodes = node "save" ∷ node "read" ∷ node "clean" ∷ []

abbrev main_line : List Connection
main_line =
    edge node_output "clean" "save"
    ∷ edge workflow_input "" "clean"
    ∷ edge node_output "read" "clean"
    ∷ []

abbrev three : WorkflowDraft
three = draft_of three_nodes main_line

abbrev expected : List String
expected = "read" ∷ "clean" ∷ "save" ∷ []

three_ordered : linear_order three ≡ ok expected
unfolding linear_order index_ids connect link_edge link_one link_all chain find_head follow walk
    cover
three_ordered = refl

two_predecessors :
    linear_order (draft_of three_nodes (edge node_output "read" "save" ∷ main_line))
    ≡ err (many_predecessors "save")
unfolding linear_order index_ids connect link_edge link_one link_all chain find_head follow walk
    cover
two_predecessors = refl

apart : linear_order (draft_of three_nodes []) ≡ err chain_incomplete
unfolding linear_order index_ids connect link_edge link_one link_all chain find_head follow walk
    cover
apart = refl

linear_order_iff_example : (linear_order three ≡ ok expected) ↔ IsLinearOrder three expected
linear_order_iff_example = linear_order_iff three expected

linear_order_ends_example : linear_order three ≡ err exhausted → ⊥
linear_order_ends_example = linear_order_ends three

linear_order_perm_example :
    linear_order (draft_of (node "read" ∷ node "save" ∷ node "clean" ∷ []) main_line) ≡ ok expected
linear_order_perm_example =
    linear_order_perm three (draft_of (node "read" ∷ node "save" ∷ node "clean" ∷ []) main_line)
      expected (Perm.symm (perm_middle (node "read" ∷ []) (node "clean" ∷ [])))
      (Perm.refl main_line) three_ordered
