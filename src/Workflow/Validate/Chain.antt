-- ===== src/Workflow/Validate/Chain.antt =====
-- internal/domain/workflow/validate.go, `validateTopology`: when it adds no error, its walk is a linear order.
use req_flow.Prelude.{
  ℕ, suc, ◌-◌, String, true, false, not, List, [], ◌∷◌, some, ◌≡◌, ◌≢◌, refl, ap, subst, arith, eqb,
  All, length, is_empty, contains, has, lookup, keys, inr, perm_of_subset,
}
use mathlib.Core.List.Perm
use mathlib.Core.List.{Nodup, Perm}
use req_flow.Workflow.Model.{WorkflowDraft, WorkflowNode, CapabilityDefinition, error}
use req_flow.Workflow.Order.{IsLinearOrder, node_ids, main_edges, pairs}
use req_flow.Workflow.Order.Pairs.{firsts-pairs, length-pairs, Nodup-butlast, Nodup-of_firsts}
use req_flow.Workflow.Order.Loops.{IsWithin, Walked}
use req_flow.Workflow.Order.Sound.{Walked-pairs, Walked-named, Walked-within}
use req_flow.Workflow.Validate.Issues.{publish_mode, has_errors, has_errors-append, add_if}
use req_flow.Workflow.Validate.Index.{Index}
use req_flow.Workflow.Validate.Connections.{Wiring}
use req_flow.Workflow.Validate.Topology.{
  WalkEnd, arrived, cycled, spent, heads_of, visit_from, walk_issues, head_issues,
  validate_topology,
}
use req_flow.Workflow.Validate.Resolving.{IsPortOf}
use req_flow.Workflow.Validate.Tracing.{IsTraced}
use req_flow.Workflow.Validate.Walking.{visit_from-ends}

walk-arrived :
    (count : ℕ) (end : WalkEnd)
    → end ≢ spent
    → has_errors (walk_issues publish_mode count end) ≡ false
    → (visited : List String) × (end ≡ arrived visited) × (length visited ≡ count)
unfolding walk_issues
walk-arrived count (arrived visited) n h = (visited, refl, ground arith)
walk-arrived count cycled n h = cc
walk-arrived count spent n h = absurd (n refl)

pub head-found :
    (index : Index) (w : Wiring) (heads : List String)
    → has_errors (head_issues publish_mode index w heads) ≡ false
    → (head : String) × (visited : List String) × (heads ≡ head ∷ [])
      × (visit_from (suc (suc (length w.node_edges))) w.node_edges head [] ≡ arrived visited)
      × (length visited ≡ length index.nodes)
unfolding head_issues
head-found index w [] h = cc
head-found index w (head ∷ []) h =
    let (visited, e, l) =
      walk-arrived (length index.nodes)
        (visit_from (suc (suc (length w.node_edges))) w.node_edges head [])
        (visit_from-ends w.node_edges head) h in
    (head, visited, refl, e, l)
head-found index w (a ∷ b ∷ heads) h = cc

pub topology-facts :
    (draft : WorkflowDraft) (index : Index) (w : Wiring)
    → is_empty draft.nodes ≡ false
    → has_errors (validate_topology publish_mode draft index w) ≡ false
    → (length w.node_edges ≡ length draft.nodes - 1)
      × (has_errors (head_issues publish_mode index w (heads_of w.node_parents (keys index.nodes)))
          ≡ false)
unfolding validate_topology
topology-facts draft index w given h =
    let own = head_issues publish_mode index w (heads_of w.node_parents (keys index.nodes)) in
    ground (
      arith,
      has_errors-append
          (add_if (not (eqb (length w.node_edges) (length draft.nodes - 1)))
            "linear_chain_incomplete" "connections" error)
          own,
    )

pub heads_of-within :
    (parents : List (String × String)) (ids : List String) (k : String)
    → contains k (heads_of parents ids) ≡ true
    → contains k ids ≡ true
unfolding heads_of
heads_of-within parents [] k h = h
heads_of-within parents (id ∷ ids) k h = ground (arith, heads_of-within parents ids k)

has-of-lookup :
    {V : Type 0} (k : String) (m : List (String × V)) {v : V} → lookup k m ≡ some v → has k m ≡ true
has-of-lookup k [] f = cc
has-of-lookup k ((j, w) ∷ m) {v} f = ground (arith, has-of-lookup k m {v = v})

pub length-keys : {V : Type 0} (m : List (String × V)) → length (keys m) ≡ length m
length-keys [] = refl
length-keys (e ∷ m) = ap suc (length-keys m)

pub length-node_ids : (ns : List WorkflowNode) → length (node_ids ns) ≡ length ns
length-node_ids [] = refl
length-node_ids (n ∷ ns) = ap suc (length-node_ids ns)

pub IsWithin-of-traced :
    (capabilities : List (String × CapabilityDefinition)) (seen ids : List String)
    (es : List (String × String))
    → ((k : String) → has k capabilities ≡ true → contains k ids ≡ true)
    → All (IsTraced capabilities seen) es
    → All (IsWithin ids) es
unfolding IsTraced IsPortOf
IsWithin-of-traced capabilities seen ids [] known h = tt
IsWithin-of-traced capabilities seen ids ((a, b) ∷ es) known
      ((p, q, (c, port, f, n, r), (d, port', g, n', r'), s), h) =
    (
      (known a (has-of-lookup a capabilities f), known b (has-of-lookup b capabilities g)),
      IsWithin-of-traced capabilities seen ids es known h,
    )

inhabited_of_length :
    (order ids : List String) (k : String)
    → length order ≡ length ids
    → contains k ids ≡ true
    → is_empty order ≡ false
inhabited_of_length [] [] k l m = cc
inhabited_of_length [] (id ∷ ids) k l m = absurd (omega (arith, l))
inhabited_of_length (a ∷ order) ids k l m = refl

-- A walk that visits every node, along edges that are no more than it takes, is a linear order.
pub IsLinearOrder-of-walk :
    (draft : WorkflowDraft) (edges : List (String × String)) (head : String) (order : List String)
    → edges ≡ main_edges draft.connections
    → All (IsWithin (node_ids draft.nodes)) edges
    → contains head (node_ids draft.nodes) ≡ true
    → Walked edges head order
    → Nodup order
    → length order ≡ length (node_ids draft.nodes)
    → length edges ≡ length (node_ids draft.nodes) - 1
    → IsLinearOrder draft order
IsLinearOrder-of-walk draft edges head order e within known walked d l m = record {
  every_node =
      perm_of_subset d
        (Walked-within (node_ids draft.nodes) edges head order within (inr known) walked)
        (omega (arith, l));
  distinct = d;
  named = Walked-named edges head order walked;
  inhabited = inhabited_of_length order (node_ids draft.nodes) head l known;
  neighbours =
      subst (λ es. Perm es (pairs order)) e
        (Perm.symm (
          perm_of_subset
            (Nodup-of_firsts (pairs order) (rw (firsts-pairs order) (Nodup-butlast order d)))
            (Walked-pairs edges head order walked) (omega (arith, length-pairs order, l, m))));
}
