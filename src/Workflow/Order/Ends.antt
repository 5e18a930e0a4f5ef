-- ===== src/Workflow/Order/Ends.antt =====
-- internal/domain/workflow/revision.go, `LinearOrder`: the walk ends on every draft, and the order in which nodes and
-- connections are listed, or in which Go ranges over its maps, does not matter.
use req_flow.Prelude.{
  ℕ, zero, suc, ◌+◌, ◌<◌, String, true, List, [], ◌∷◌, ◌++◌, map, Option, none, some, ◌≡◌, ◌≢◌, ◌⊎◌,
  refl, ap, arith, length, length-append, contains, Bool-cases, inl, inr, is_blank, is_blank_iff,
  All, Result, ok, err, ◌>>=◌, mem_of_contains, not-mem_of_contains, length_le_of_subset,
  Nodup-snoc, if◌then◌else◌,
}
use mathlib.Core.Logic.Or
use mathlib.Core.List.Perm
use mathlib.Core.List.{
  Mem, Nodup, Nodup-nil, Perm, Subset, mem-append, mem-cons, not-mem-nil, filter_map,
}
use req_flow.Workflow.Model.{WorkflowDraft, WorkflowNode, Connection}
use req_flow.Workflow.Order.Defs.{
  OrderError, exhausted, Links, is_main, index_ids, link_edge, link_one, link_all, find_head,
  next_of, walk, cover, follow, chain, connect, linear_order, node_ids, main_edges,
}
use req_flow.Workflow.Order.Loops.{IsWithin, IsLinked, link_all-IsLinked}
use req_flow.Workflow.Order.Sound.{no_links, no_links-IsLinked, next_of-within, find_head-found}
use req_flow.Workflow.Order.Complete.{linear_order_iff}

Subset-snoc :
    {xs ids : List String} {x : String} → Subset xs ids → Mem x ids → Subset (xs ++ x ∷ []) ids
Subset-snoc s h k m =
    Or.elim (hlevel) (mem-append.0 m) (s k)
      (λ last. Or.elim (hlevel) (mem-cons.0 last) (λ e. rw e h) (λ l. absurd (not-mem-nil l)))

walk_ends :
    (fuel : ℕ) (ids : List String) (next : List (String × String)) (current : String)
    (done : List String)
    → All (IsWithin ids) next
    → (is_blank current ≡ true) ⊎ (contains current ids ≡ true)
    → Nodup done
    → Subset done ids
    → length ids < fuel + length done
    → walk fuel next current done ≢ err exhausted
unfolding walk
walk_ends zero ids next current done w c d s l = absurd (omega (arith, length_le_of_subset d s))
walk_ends (suc fuel) ids next current done w c d s l = elim (Bool-cases (is_blank current)) [
  | inl ended ↦ ground (arith, ended)
  | inr more ↦ elim (Bool-cases (contains current done)) [
    | inl again ↦ ground (arith, again)
    | inr new ↦
        let inside : contains current ids ≡ true = ground (arith, c) in
        let onward =
          walk_ends fuel ids next (next_of next current) (done ++ current ∷ []) w
            (next_of-within ids next current w)
            (Nodup-snoc done d (not-mem_of_contains current done new))
            (Subset-snoc s (mem_of_contains current ids inside))
            (omega (arith, length-append done (current ∷ []))) in
        ground (arith, onward, new)
  ]
]

index_ids_ends : (ns : List WorkflowNode) (seen : List String) → index_ids ns seen ≢ err exhausted
unfolding index_ids
index_ids_ends [] seen = ground arith
index_ids_ends (n ∷ ns) seen = ground (arith, index_ids_ends ns (n.id ∷ seen))

link_all_ends :
    (ids : List String) (cs : List Connection) (l : Links) → link_all ids cs l ≢ err exhausted
unfolding link_all link_one link_edge
link_all_ends ids [] l = ground arith
link_all_ends ids (c ∷ cs) l = step (link_one ids c l) refl (link_all_ends ids cs)
  where
    step :
        (r : Result OrderError Links)
        → link_one ids c l ≡ r
        → ((l' : Links) → link_all ids cs l' ≢ err exhausted)
        → (r >>= link_all ids cs) ≢ err exhausted
    step (ok l') e h = h l'
    step (err x) e h = ground arith

find_head_ends :
    (parent : List (String × String)) (ids : List String) (head : String)
    → find_head parent ids head ≢ err exhausted
unfolding find_head
find_head_ends parent [] head = ground arith
find_head_ends parent (id ∷ ids) head =
    ground (arith, find_head_ends parent ids head, find_head_ends parent ids id)

bind_ends :
    {A B : Type 0} (m : Result OrderError A) (f : A → Result OrderError B)
    → m ≢ err exhausted
    → ((a : A) → m ≡ ok a → f a ≢ err exhausted)
    → (m >>= f) ≢ err exhausted
bind_ends (ok a) f h k = k a refl
bind_ends (err e) f h k = λ x. h (cc)

cover_ends : (ids order : List String) → cover ids order ≢ err exhausted
unfolding cover
cover_ends ids order = ground arith

follow_ends :
    (ids : List String) (links : Links) (head : String)
    → IsLinked ids links
    → (is_blank head ≡ true) ⊎ (contains head ids ≡ true)
    → follow ids links head ≢ err exhausted
unfolding follow
follow_ends ids links head w c =
    let after =
      bind_ends (walk (suc (length ids)) links.next head []) (cover ids)
        (walk_ends (suc (length ids)) ids links.next head [] w.within c Nodup-nil
          (λ k m. absurd (not-mem-nil m)) (omega arith))
        (λ order e. cover_ends ids order) in
    ground (arith, after)

chain_ends :
    (ids : List String) (links : Links) → IsLinked ids links → chain ids links ≢ err exhausted
unfolding chain
chain_ends ids links w =
    let after =
      bind_ends (find_head links.parent ids "") (follow ids links)
        (find_head_ends links.parent ids "")
        (λ head e.
          follow_ends ids links head w
            (ground (arith, is_blank_iff head, find_head-found links.parent ids "" e))) in
    ground (arith, after)

connect_ends : (cs : List Connection) (ids : List String) → connect cs ids ≢ err exhausted
unfolding connect
connect_ends cs ids =
    bind_ends (link_all ids cs no_links) (chain ids) (link_all_ends ids cs no_links) (λ links e.
      chain_ends ids links (link_all-IsLinked ids cs no_links (no_links-IsLinked ids) e).0)

-- On every draft the walk along the chain ends within as many rounds as there are nodes and one more: the model never
-- runs out of its fuel, so `LinearOrder` returns an order or one of its own errors, also where connections form a
-- cycle.
pub linear_order_ends : (draft : WorkflowDraft) → linear_order draft ≢ err exhausted
unfolding linear_order
linear_order_ends draft =
    let after =
      bind_ends (index_ids draft.nodes []) (connect draft.connections)
        (index_ids_ends draft.nodes []) (λ ids e. connect_ends draft.connections ids) in
    ground (arith, after)

node_ids-eq-map : (ns : List WorkflowNode) → node_ids ns ≡ map (λ n. n.id) ns
node_ids-eq-map [] = refl
node_ids-eq-map (n ∷ ns) = ap (◌∷◌ n.id) (node_ids-eq-map ns)

edge_of : Connection → Option (String × String)
edge_of c = if is_main c then some (c.from.node_id, c.to.node_id) else none

main_edges-eq-filter_map : (cs : List Connection) → main_edges cs ≡ filter_map edge_of cs
unfolding filter_map edge_of
main_edges-eq-filter_map [] = refl
main_edges-eq-filter_map (c ∷ cs) = ground (arith, main_edges-eq-filter_map cs)

-- The linear order does not depend on the order in which a draft lists its nodes and its connections.
pub linear_order_perm :
    (draft draft' : WorkflowDraft) (order : List String)
    → Perm draft.nodes draft'.nodes
    → Perm draft.connections draft'.connections
    → linear_order draft ≡ ok order
    → linear_order draft' ≡ ok order
linear_order_perm draft draft' order p q h =
    let spec = (linear_order_iff draft order).0 h in
    (linear_order_iff draft' order).1 (record {
      every_node =
          Perm.trans spec.every_node (
            rw (node_ids-eq-map draft.nodes, node_ids-eq-map draft'.nodes)
              (Perm.map (λ n. n.id) p));
      distinct = spec.distinct;
      named = spec.named;
      inhabited = spec.inhabited;
      neighbours =
          Perm.trans
            (rw
              (
                main_edges-eq-filter_map draft.connections,
                main_edges-eq-filter_map draft'.connections,
              )
              (Perm.filter_map edge_of (Perm.symm q)))
            spec.neighbours;
    })
