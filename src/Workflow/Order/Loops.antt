-- ===== src/Workflow/Order/Loops.antt =====
-- internal/domain/workflow/revision.go, `LinearOrder`: what each of its loops establishes.
use req_flow.Prelude.{
  ℕ, zero, suc, String, true, false, List, [], ◌∷◌, ◌++◌, ◌≡◌, refl, sym, ap, ◌∙◌, arith, contains,
  has, Bool-cases, inl, inr, is_blank, All, Result, ok, >>=-eq-ok, not-mem_of_contains, Nodup-snoc,
}
use mathlib.Core.List.Perm
use mathlib.Core.List.{Nodup, Perm, Nodup-cons, perm_middle, append-nil, append_assoc}
use req_flow.Workflow.Model.{WorkflowNode, Connection}
use req_flow.Workflow.Order.Defs.{
  Links, is_main, index_ids, link_edge, link_one, link_all, next_of, walk, node_ids, main_edges,
}
use req_flow.Workflow.Order.Pairs.{firsts, seconds, has-eq-contains-firsts}

pub ok-injective : {E A : Type 0} {a b : A} → ◌≡◌ {A = Result E A} (ok a) (ok b) → a ≡ b
ok-injective e = cc

pub index_ids-perm :
    (ns : List WorkflowNode) (seen : List String) {ids : List String}
    → index_ids ns seen ≡ ok ids
    → Perm ids (node_ids ns ++ seen)
unfolding index_ids
index_ids-perm [] seen {ids} h = rw (ok-injective {a = seen} {b = ids} h) (Perm.refl ids)
index_ids-perm (n ∷ ns) seen h = elim (Bool-cases (contains n.id seen)) [
  | inl old ↦ ground arith
  | inr new ↦
      Perm.trans (index_ids-perm ns (n.id ∷ seen) (ground arith)) (perm_middle (node_ids ns) seen)
]

pub index_ids-Nodup :
    (ns : List WorkflowNode) (seen : List String) {ids : List String}
    → Nodup seen
    → index_ids ns seen ≡ ok ids
    → Nodup ids
unfolding index_ids
index_ids-Nodup [] seen {ids} d h = rw (← ok-injective {a = seen} {b = ids} h) d
index_ids-Nodup (n ∷ ns) seen d h = elim (Bool-cases (contains n.id seen)) [
  | inl old ↦ ground arith
  | inr new ↦
      index_ids-Nodup ns (n.id ∷ seen) (Nodup-cons.1 (not-mem_of_contains n.id seen new, d))
        (ground arith)
]

-- Both ends of an edge are nodes.
abbrev pub IsWithin : List String → String × String → Type 0
IsWithin ids e = (contains e.0 ids ≡ true) × (contains e.1 ids ≡ true)

-- What the loop over the connections keeps: no node has two successors or two predecessors.
pub record IsLinked (ids : List String) (l : Links) : Type 0 where
  pub one_next : Nodup (firsts l.next)
  pub one_parent : Nodup (seconds l.next)
  pub mirrored : firsts l.parent ≡ seconds l.next
  pub within : All (IsWithin ids) l.next

pub link_edge-next :
    (ids : List String) (a b : String) (l : Links) {l' : Links}
    → link_edge ids a b l ≡ ok l'
    → (has a l.next ≡ false)
      × (has b l.parent ≡ false)
      × IsWithin ids (a, b)
      × (l' ≡ record { next = (a, b) ∷ l.next; parent = (b, a) ∷ l.parent })
unfolding link_edge
link_edge-next ids a b l h = ground arith

pub link_edge-IsLinked :
    (ids : List String) (a b : String) (l : Links) {l' : Links}
    → IsLinked ids l
    → link_edge ids a b l ≡ ok l'
    → IsLinked ids l' × (l'.next ≡ (a, b) ∷ l.next)
link_edge-IsLinked ids a b l {l'} w h =
    let (fresh_a, fresh_b, ends, e) = link_edge-next ids a b l h in
    rw e (
      record {
        one_next = Nodup-cons.1 (
          not-mem_of_contains a (firsts l.next) (rw (← has-eq-contains-firsts a l.next) fresh_a),
          w.one_next,
        );
        one_parent = Nodup-cons.1 (
          not-mem_of_contains b (seconds l.next)
              (rw (← w.mirrored, ← has-eq-contains-firsts b l.parent) fresh_b),
          w.one_parent,
        );
        mirrored = ap (◌∷◌ b) w.mirrored;
        within = (ends, w.within);
      },
      refl,
    )

pub link_all-IsLinked :
    (ids : List String) (cs : List Connection) (l : Links) {l' : Links}
    → IsLinked ids l
    → link_all ids cs l ≡ ok l'
    → IsLinked ids l' × Perm l'.next (main_edges cs ++ l.next)
unfolding link_all link_one
link_all-IsLinked ids [] l {l'} w h =
    let e = ok-injective {a = l} {b = l'} h in (rw (← e) w, rw e (Perm.refl l'.next))
link_all-IsLinked ids (c ∷ cs) l {l'} w h = elim (Bool-cases (is_main c)) [
  | inl main ↦
      let (l1, first, rest) =
        >>=-eq-ok (link_edge ids c.from.node_id c.to.node_id l) (link_all ids cs) (ground arith) in
      let (w1, e) = link_edge-IsLinked ids c.from.node_id c.to.node_id l w first in
      let (w2, p) = link_all-IsLinked ids cs l1 w1 rest in
      (w2, rw main (Perm.trans p (rw e (perm_middle (main_edges cs) l.next))))
  | inr other ↦ rw other (link_all-IsLinked ids cs l w (ground arith))
]

-- The identifiers that the walk still visits, from `current` on.
abbrev pub Walked : List (String × String) → String → List String → Type 0
Walked next current [] = is_blank current ≡ true
Walked next current (x ∷ xs) =
    (current ≡ x) × (is_blank x ≡ false) × Walked next (next_of next x) xs

pub walk-Walked :
    (fuel : ℕ) (next : List (String × String)) (current : String) (done : List String)
    {order : List String}
    → Nodup done
    → walk fuel next current done ≡ ok order
    → (rest : List String) × (order ≡ done ++ rest) × Walked next current rest × Nodup order
unfolding walk
walk-Walked zero next current done d h = cc
walk-Walked (suc fuel) next current done {order} d h = elim (Bool-cases (is_blank current)) [
  | inl ended ↦
      let e : done ≡ order = ground arith in ([], sym e ∙ sym (append-nil done), ended, rw (← e) d)
  | inr more ↦ elim (Bool-cases (contains current done)) [
    | inl again ↦ absurd (ground arith)
    | inr new ↦
        let (rest, e, w, n) =
          walk-Walked fuel next (next_of next current) (done ++ current ∷ [])
            (Nodup-snoc done d (not-mem_of_contains current done new)) (ground arith) in
        (current ∷ rest, e ∙ append_assoc done (current ∷ []) rest, (refl, more, w), n)
  ]
]
