-- ===== src/Workflow/Order/Progress.antt =====
-- internal/domain/workflow/revision.go, `LinearOrder`: none of its loops fails on a linear order.
use req_flow.Prelude.{
  ℕ, zero, suc, ◌<◌, String, true, false, List, [], ◌∷◌, ◌++◌, ◌≡◌, ◌≢◌, refl, sym, ap, ◌∙◌, subst,
  arith, ◌==◌, eq_iff, length, contains, has, Bool-cases, inl, inr, is_blank_iff, ok,
  contains_of_not-mem,
}
use mathlib.Core.HLevel.{⊥_prop}
use mathlib.Core.Logic.Or
use mathlib.Core.List.Perm
use mathlib.Core.List.{
  Mem, Nodup, Subset, mem-cons, mem-cons_self, mem-cons_of_mem, not-mem-nil, mem-append, Nodup-cons,
  perm_middle, append-nil, append_assoc,
}
use req_flow.Workflow.Model.{WorkflowNode, Connection}
use req_flow.Workflow.Order.Defs.{
  Links, is_main, index_ids, link_edge, link_one, link_all, find_head, next_of, walk, node_ids,
  main_edges, pairs,
}
use req_flow.Workflow.Order.Pairs.{
  firsts, seconds, butlast, lookup_of_mem, has-eq-contains-firsts, lookup_absent,
}
use req_flow.Workflow.Order.Loops.{IsWithin, IsLinked, link_edge-IsLinked, Walked}

pub index_ids_ok :
    (ns : List WorkflowNode) (seen : List String)
    → Nodup (node_ids ns ++ seen)
    → (ids : List String) × (index_ids ns seen ≡ ok ids)
unfolding index_ids
index_ids_ok [] seen d = (seen, refl)
index_ids_ok (n ∷ ns) seen d =
    let (new, rest) = Nodup-cons.0 d in
    let absent = contains_of_not-mem n.id seen (λ m. new (mem-append.1 (Or.inr m))) in
    rw absent (
      index_ids_ok ns (n.id ∷ seen)
        (Perm.nodup (Perm.symm (perm_middle (node_ids ns) seen)) (Nodup-cons.1 (new, rest))))

link_edge_ok :
    (ids : List String) (a b : String) (l : Links)
    → has a l.next ≡ false
    → has b l.parent ≡ false
    → IsWithin ids (a, b)
    → link_edge ids a b l ≡ ok (record { next = (a, b) ∷ l.next; parent = (b, a) ∷ l.parent })
unfolding link_edge
link_edge_ok ids a b l p q w = ground arith

absent_of_Nodup :
    (a : String) (xs ys : List String) → Nodup (a ∷ (xs ++ ys)) → contains a ys ≡ false
absent_of_Nodup a xs ys d =
    contains_of_not-mem a ys (λ m. (Nodup-cons.0 d).0 (mem-append.1 (Or.inr m)))

pub link_all_ok :
    (ids : List String) (cs : List Connection) (l : Links)
    → IsLinked ids l
    → Nodup (firsts (main_edges cs) ++ firsts l.next)
    → Nodup (seconds (main_edges cs) ++ seconds l.next)
    → ((e : String × String) → Mem e (main_edges cs) → IsWithin ids e)
    → (l' : Links) × (link_all ids cs l ≡ ok l')
unfolding link_all link_one
link_all_ok ids [] l w d1 d2 within = (l, refl)
link_all_ok ids (c ∷ cs) l w d1 d2 within = elim (Bool-cases (is_main c)) [
  | inl main ↦
      let a = c.from.node_id in
      let b = c.to.node_id in
      let e1 : Nodup (a ∷ (firsts (main_edges cs) ++ firsts l.next)) = rw main at d1 in
      let e2 : Nodup (b ∷ (seconds (main_edges cs) ++ seconds l.next)) = rw main at d2 in
      let ends : IsWithin ids (a, b) = within (a, b) (rw main mem-cons_self) in
      let new_a = absent_of_Nodup a (firsts (main_edges cs)) (firsts l.next) e1 in
      let new_b = absent_of_Nodup b (seconds (main_edges cs)) (seconds l.next) e2 in
      let linked =
        link_edge_ok ids a b l (has-eq-contains-firsts a l.next ∙ new_a)
          (has-eq-contains-firsts b l.parent ∙ ap (contains b) w.mirrored ∙ new_b) ends in
      let l1 : Links = record { next = (a, b) ∷ l.next; parent = (b, a) ∷ l.parent } in
      let (l2, rest) =
        link_all_ok ids cs l1 (link_edge-IsLinked ids a b l w linked).0
          (Perm.nodup (Perm.symm (perm_middle (firsts (main_edges cs)) (firsts l.next))) e1)
          (Perm.nodup (Perm.symm (perm_middle (seconds (main_edges cs)) (seconds l.next))) e2)
          (λ e m. within e (rw main (mem-cons_of_mem (a, b) m))) in
      (l2, rw main (rw linked rest))
  | inr other ↦
      let (l1, rest) =
        link_all_ok ids cs l w (rw other at d1) (rw other at d2) (λ e m. within e (rw other m)) in
      (l1, rw other rest)
]

find_head_later :
    (parent : List (String × String)) (ids : List String) (head : String)
    → ((k : String) → Mem k ids → has k parent ≡ true)
    → find_head parent ids head ≡ ok head
unfolding find_head
find_head_later parent [] head h = refl
find_head_later parent (id ∷ ids) head h =
    ground (
      arith,
      h id mem-cons_self,
      find_head_later parent ids head (λ k m. h k (mem-cons_of_mem id m)),
    )

pub find_head_ok :
    (parent : List (String × String)) (ids : List String) (head : String)
    → Nodup ids
    → Mem head ids
    → has head parent ≡ false
    → ((k : String) → Mem k ids → k ≢ head → has k parent ≡ true)
    → find_head parent ids "" ≡ ok head
unfolding find_head
find_head_ok parent [] head d m n h = absurd (not-mem-nil m)
find_head_ok parent (id ∷ ids) head d m n h = elim (Bool-cases (id == head)) [
  | inl same ↦
      let e = (eq_iff id head).0 same in
      let rest = find_head_later parent ids head (λ k l.
        h k (mem-cons_of_mem id l) (λ k_head. (Nodup-cons.0 d).0 (rw (e ∙ sym k_head) l))) in
      ground (arith, e, n, rest)
  | inr other ↦
      let differ : id ≢ head = λ e. ground (arith, eq_iff id head) in
      let later : Mem head ids =
        Or.elim (hlevel) (mem-cons.0 m) (λ e. absurd (differ (sym e))) (λ l. l) in
      ground (
        arith,
        h id mem-cons_self differ,
        find_head_ok parent ids head (Nodup-cons.0 d).1 later n (λ k l. h k (mem-cons_of_mem id l)),
      )
]

-- The last of a list with a first element.
abbrev pub final : String → List String → String
final x [] = x
final x (y ∷ r) = final y r

mem-final : (x : String) (xs : List String) → Mem (final x xs) (x ∷ xs)
mem-final x [] = mem-cons_self
mem-final x (y ∷ r) = mem-cons_of_mem x (mem-final y r)

pub final_not-mem :
    (x : String) (xs : List String) → Nodup (x ∷ xs) → ¬ Mem (final x xs) (butlast (x ∷ xs))
final_not-mem x [] d m = not-mem-nil m
final_not-mem x (y ∷ r) d m =
    Or.elim ⊥_prop (mem-cons.0 m)
      (λ e. (Nodup-cons.0 d).0 (subst (λ k. Mem k (y ∷ r)) e (mem-final y r)))
      (final_not-mem y r (Nodup-cons.0 d).1)

pub Walked-of-pairs :
    (next : List (String × String)) (x : String) (xs : List String)
    → Nodup (firsts next)
    → Subset (pairs (x ∷ xs)) next
    → has (final x xs) next ≡ false
    → contains "" (x ∷ xs) ≡ false
    → Walked next x (x ∷ xs)
Walked-of-pairs next x [] d s n b =
    (refl, ground (arith, is_blank_iff x, eq_iff x ""), rw (lookup_absent x next n, next_of) refl)
Walked-of-pairs next x (y ∷ r) d s n b =
    let step = lookup_of_mem x y next d (s (x, y) mem-cons_self) in
    (
      refl,
      ground (arith, is_blank_iff x, eq_iff x ""),
      rw (step, next_of)
          (Walked-of-pairs next y r d (λ e m. s e (mem-cons_of_mem (x, y) m)) n (ground arith)),
    )

pub walk_ok :
    (fuel : ℕ) (next : List (String × String)) (current : String) (done rest : List String)
    → Walked next current rest
    → Nodup (done ++ rest)
    → length rest < fuel
    → walk fuel next current done ≡ ok (done ++ rest)
unfolding walk
walk_ok zero next current done rest w d l = absurd (omega arith)
walk_ok (suc fuel) next current done [] w d l = rw (w, append-nil) refl
walk_ok (suc fuel) next current done (x ∷ rest) w d l =
    let fresh : contains x done ≡ false =
      contains_of_not-mem x done
        (λ m. (Nodup-cons.0 (Perm.nodup (perm_middle done rest) d)).0 (mem-append.1 (Or.inl m))) in
    let onward =
      walk_ok fuel next (next_of next x) (done ++ x ∷ []) rest w.2 (rw append_assoc d)
        (omega arith) in
    let e : done ++ x ∷ rest ≡ (done ++ x ∷ []) ++ rest = sym (append_assoc done (x ∷ []) rest) in
    rw e (ground (arith, onward, w, fresh))
