-- ===== src/Workflow/Order/Complete.antt =====
-- internal/domain/workflow/revision.go, `LinearOrder`: it finds the linear order wherever there is one.
use req_flow.Prelude.{
  ℕ, suc, ◌-◌, String, false, List, [], ◌∷◌, ◌≡◌, ◌↔◌, refl, ap, ◌∙◌, arith, eq_iff, length,
  contains, has, is_blank, is_blank_iff, is_empty, ok, contains_of_mem, contains_of_not-mem,
  length_of_perm,
}
use mathlib.Core.Logic.Or
use mathlib.Core.List.Perm
use mathlib.Core.List.{Mem, Nodup, Perm, mem-cons, mem-cons_self, Nodup-cons, Nodup-nil, append-nil}
use req_flow.Workflow.Model.{WorkflowDraft, WorkflowNode}
use req_flow.Workflow.Order.Defs.{
  Links, index_ids, link_all, find_head, walk, cover, follow, chain, connect, linear_order,
  node_ids, main_edges, pairs, IsLinearOrder,
}
use req_flow.Workflow.Order.Pairs.{
  firsts, seconds, butlast, firsts-pairs, seconds-pairs, length-pairs, Nodup-butlast, firsts-perm,
  seconds-perm, mem_pairs, has-eq-contains-firsts,
}
use req_flow.Workflow.Order.Loops.{
  index_ids-perm, index_ids-Nodup, IsWithin, IsLinked, link_all-IsLinked,
}
use req_flow.Workflow.Order.Progress.{
  index_ids_ok, link_all_ok, find_head_ok, final, final_not-mem, Walked-of-pairs, walk_ok,
}
use req_flow.Workflow.Order.Sound.{no_links, no_links-IsLinked, linear_order-IsLinearOrder}

linear_order_stages :
    (draft : WorkflowDraft) (ids : List String) (links : Links) (head : String)
    (order : List String)
    → is_empty draft.nodes ≡ false
    → index_ids draft.nodes [] ≡ ok ids
    → link_all ids draft.connections no_links ≡ ok links
    → length links.next ≡ length ids - 1
    → find_head links.parent ids "" ≡ ok head
    → is_blank head ≡ false
    → walk (suc (length ids)) links.next head [] ≡ ok order
    → length order ≡ length ids
    → linear_order draft ≡ ok order
unfolding linear_order connect chain follow cover
linear_order_stages draft ids links head order e1 e2 e3 e4 e5 e6 e7 e8 = ground arith

nodes_exist : (ns : List WorkflowNode) {n : ℕ} → suc n ≡ length (node_ids ns) → is_empty ns ≡ false
nodes_exist [] h = absurd (omega arith)
nodes_exist (n ∷ ns) h = refl

module _ (draft : WorkflowDraft) (x : String) (xs : List String)
    (spec : IsLinearOrder draft (x ∷ xs)) where
  nodes-Nodup : Nodup (node_ids draft.nodes)
  nodes-Nodup = Perm.nodup spec.every_node spec.distinct

  module _ (ids : List String) (indexed : index_ids draft.nodes [] ≡ ok ids) where
    ids-perm : Perm ids (x ∷ xs)
    ids-perm =
        Perm.trans
          (rw (append-nil (node_ids draft.nodes)) at (index_ids-perm draft.nodes [] indexed))
          (Perm.symm spec.every_node)

    ends-IsWithin : (e : String × String) → Mem e (main_edges draft.connections) → IsWithin ids e
    ends-IsWithin (a, b) m =
        let both = mem_pairs (x ∷ xs) (Perm.subset spec.neighbours (a, b) m) in
        (
          contains_of_mem a ids (Perm.subset (Perm.symm ids-perm) a both.0),
          contains_of_mem b ids (Perm.subset (Perm.symm ids-perm) b both.1),
        )

    links_exist : (links : Links) × (link_all ids draft.connections no_links ≡ ok links)
    links_exist =
        link_all_ok ids draft.connections no_links (no_links-IsLinked ids)
          (rw append-nil (
            Perm.nodup (Perm.symm (firsts-perm spec.neighbours))
              (rw (firsts-pairs (x ∷ xs)) (Nodup-butlast (x ∷ xs) spec.distinct))))
          (rw append-nil (
            Perm.nodup (Perm.symm (seconds-perm spec.neighbours))
              (rw (seconds-pairs (x ∷ xs)) (Nodup-cons.0 spec.distinct).1)))
          ends-IsWithin

    module _ (links : Links) (linked : link_all ids draft.connections no_links ≡ ok links) where
      links-IsLinked : IsLinked ids links × Perm links.next (pairs (x ∷ xs))
      links-IsLinked =
          let (w, p) =
            link_all-IsLinked ids draft.connections no_links (no_links-IsLinked ids) linked in
          (w, Perm.trans (rw (append-nil (main_edges draft.connections)) at p) spec.neighbours)

      next_firsts : Perm (firsts links.next) (butlast (x ∷ xs))
      next_firsts = rw (firsts-pairs (x ∷ xs)) at (firsts-perm links-IsLinked.1)

      next_seconds : Perm (seconds links.next) xs
      next_seconds = rw (seconds-pairs (x ∷ xs)) at (seconds-perm links-IsLinked.1)

      has_parent : (k : String) → has k links.parent ≡ contains k (seconds links.next)
      has_parent k =
          has-eq-contains-firsts k links.parent ∙ ap (contains k) links-IsLinked.0.mirrored

      head_found : find_head links.parent ids "" ≡ ok x
      head_found =
          find_head_ok links.parent ids x (index_ids-Nodup draft.nodes [] Nodup-nil indexed)
            (Perm.subset (Perm.symm ids-perm) x mem-cons_self)
            (has_parent x
              ∙ contains_of_not-mem x (seconds links.next)
                  (λ m. (Nodup-cons.0 spec.distinct).0 (Perm.subset next_seconds x m)))
            (λ k m other.
              has_parent k
              ∙ contains_of_mem k (seconds links.next) (
                  Perm.subset (Perm.symm next_seconds) k (
                    Or.elim (hlevel) (mem-cons.0 (Perm.subset ids-perm k m)) (λ e. absurd (other e))
                      (λ l. l))))

      order_walked : walk (suc (length ids)) links.next x [] ≡ ok (x ∷ xs)
      order_walked =
          walk_ok (suc (length ids)) links.next x [] (x ∷ xs)
            (Walked-of-pairs links.next x xs links-IsLinked.0.one_next
              (Perm.subset (Perm.symm links-IsLinked.1))
              (has-eq-contains-firsts (final x xs) links.next
                ∙ contains_of_not-mem (final x xs) (firsts links.next) (λ m.
                  final_not-mem x xs spec.distinct (Perm.subset next_firsts (final x xs) m)))
              spec.named)
            spec.distinct (omega (arith, length_of_perm ids-perm))

      found : linear_order draft ≡ ok (x ∷ xs)
      found =
          linear_order_stages draft ids links x (x ∷ xs)
            (nodes_exist draft.nodes (length_of_perm spec.every_node)) indexed linked
            (omega (
              arith,
              length_of_perm links-IsLinked.1,
              length_of_perm ids-perm,
              length-pairs (x ∷ xs),
            ))
            head_found (ground (arith, is_blank_iff x, eq_iff x "", spec.named)) order_walked
            (omega (arith, length_of_perm ids-perm))

linear_order_found :
    (draft : WorkflowDraft) (order : List String)
    → IsLinearOrder draft order
    → linear_order draft ≡ ok order
linear_order_found draft [] spec = absurd (cc spec.inhabited)
linear_order_found draft (x ∷ xs) spec =
    let (ids, indexed) =
      index_ids_ok draft.nodes [] (rw append-nil (nodes-Nodup draft x xs spec)) in
    let (links, linked) = links_exist draft x xs spec ids indexed in
    found draft x xs spec ids indexed links linked

-- `LinearOrder` succeeds exactly on the drafts that have a linear order, and returns that order: every node once, all
-- of them named, and the connections between nodes are, each once, from a node to the one behind it.
pub linear_order_iff :
    (draft : WorkflowDraft) (order : List String)
    → (linear_order draft ≡ ok order) ↔ IsLinearOrder draft order
linear_order_iff draft order =
    (linear_order-IsLinearOrder draft order, linear_order_found draft order)
