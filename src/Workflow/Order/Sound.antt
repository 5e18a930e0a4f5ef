-- ===== src/Workflow/Order/Sound.antt =====
-- internal/domain/workflow/revision.go, `LinearOrder`: what it returns is a linear order, and the walk always ends.
use req_flow.Prelude.{
  suc, ◌-◌, String, true, false, List, [], ◌∷◌, some, ◌≡◌, ◌⊎◌, refl, sym, ap, ◌∙◌, arith, ◌==◌,
  eq_iff, length, contains, lookup, has, Bool-cases, inl, inr, is_blank, is_blank_iff, is_empty,
  All, ok, ◌>>=◌, >>=-eq-ok, mem_of_contains, perm_of_subset,
}
use mathlib.Core.Logic.Or
use mathlib.Core.List.Perm
use mathlib.Core.List.{Nodup, Perm, Subset, mem-cons, not-mem-nil, Nodup-nil, append-nil}
use req_flow.Workflow.Model.{WorkflowDraft, Connection}
use req_flow.Workflow.Order.Defs.{
  Links, index_ids, link_all, find_head, next_of, walk, cover, follow, chain, connect, linear_order,
  node_ids, main_edges, pairs, IsLinearOrder,
}
use req_flow.Workflow.Order.Pairs.{
  behind, firsts-pairs, length-pairs, Nodup-butlast, Nodup-of_firsts, mem_of_lookup,
}
use req_flow.Workflow.Order.Loops.{
  index_ids-perm, index_ids-Nodup, IsWithin, IsLinked, link_all-IsLinked, Walked, walk-Walked,
}

abbrev pub no_links : Links
no_links = record { next = []; parent = [] }

-- The values of a call that succeeds.
pub record Passes (draft : WorkflowDraft) (order : List String) : Type 0 where
  pub ids : List String
  pub links : Links
  pub head : String
  pub indexed : index_ids draft.nodes [] ≡ ok ids
  pub linked : link_all ids draft.connections no_links ≡ ok links
  pub counted : length links.next ≡ length ids - 1
  pub headed : find_head links.parent ids "" ≡ ok head
  pub head_named : is_blank head ≡ false
  pub walked : walk (suc (length ids)) links.next head [] ≡ ok order
  pub covered : length order ≡ length ids

unfold_linear_order :
    (draft : WorkflowDraft) {order : List String}
    → linear_order draft ≡ ok order
    → (index_ids draft.nodes [] >>= connect draft.connections) ≡ ok order
unfolding linear_order
unfold_linear_order draft h = ground arith

unfold_connect :
    (cs : List Connection) (ids : List String) {order : List String}
    → connect cs ids ≡ ok order
    → (link_all ids cs no_links >>= chain ids) ≡ ok order
unfolding connect
unfold_connect cs ids h = h

unfold_chain :
    (ids : List String) (links : Links) {order : List String}
    → chain ids links ≡ ok order
    → (length links.next ≡ length ids - 1)
      × ((find_head links.parent ids "" >>= follow ids links) ≡ ok order)
unfolding chain
unfold_chain ids links h = ground arith

unfold_follow :
    (ids : List String) (links : Links) (head : String) {order : List String}
    → follow ids links head ≡ ok order
    → (is_blank head ≡ false)
      × ((walk (suc (length ids)) links.next head [] >>= cover ids) ≡ ok order)
unfolding follow
unfold_follow ids links head h = ground arith

unfold_cover :
    (ids found : List String) {order : List String}
    → cover ids found ≡ ok order
    → (length found ≡ length ids) × (found ≡ order)
unfolding cover
unfold_cover ids found h = ground arith

linear_order-Passes :
    (draft : WorkflowDraft) {order : List String}
    → linear_order draft ≡ ok order
    → Passes draft order
linear_order-Passes draft {order} h =
    let (ids, indexed, h1) =
      >>=-eq-ok (index_ids draft.nodes []) (connect draft.connections)
        (unfold_linear_order draft h) in
    let (links, linked, h2) =
      >>=-eq-ok (link_all ids draft.connections no_links) (chain ids)
        (unfold_connect draft.connections ids h1) in
    let (counted, h3) = unfold_chain ids links h2 in
    let (head, headed, h4) = >>=-eq-ok (find_head links.parent ids "") (follow ids links) h3 in
    let (head_named, h5) = unfold_follow ids links head h4 in
    let (found, walked, h6) =
      >>=-eq-ok (walk (suc (length ids)) links.next head []) (cover ids) h5 in
    let (covered, e) = unfold_cover ids found h6 in
    record {
      ids = ids;
      links = links;
      head = head;
      indexed = indexed;
      linked = linked;
      counted = counted;
      headed = headed;
      head_named = head_named;
      walked = walked ∙ ap ok e;
      covered = ap length (sym e) ∙ covered;
    }

pub find_head-found :
    (parent : List (String × String)) (ids : List String) (head : String) {h : String}
    → find_head parent ids head ≡ ok h
    → (h ≡ head) ⊎ (contains h ids ≡ true)
unfolding find_head
find_head-found parent [] head e = ground arith
find_head-found parent (id ∷ ids) head {h} e = elim (Bool-cases (has id parent)) [
  | inl behind ↦ ground (arith, find_head-found parent ids head {h = h})
  | inr first ↦ elim (Bool-cases (is_blank head)) [
    | inl none_yet ↦ ground (arith, find_head-found parent ids id {h = h}, eq_iff id h)
    | inr another ↦ ground arith
  ]
]

next_of-lookup :
    (next : List (String × String)) (a b : String)
    → next_of next a ≡ b
    → is_blank b ≡ false
    → lookup a next ≡ some b
next_of-lookup next a b e n = ground (arith, is_blank_iff b)

-- Each step of the walk follows an edge.
pub Walked-pairs :
    (next : List (String × String)) (current : String) (xs : List String)
    → Walked next current xs
    → Subset (pairs xs) next
Walked-pairs next current [] w e m = absurd (not-mem-nil m)
Walked-pairs next current (x ∷ []) w e m = absurd (not-mem-nil m)
Walked-pairs next current (x ∷ y ∷ r) w e m =
    Or.elim (hlevel) (mem-cons.0 m)
      (λ here. rw here (mem_of_lookup x next (next_of-lookup next x y w.2.0 w.2.1)))
      (Walked-pairs next (next_of next x) (y ∷ r) w.2 e)

pub Walked-named :
    (next : List (String × String)) (current : String) (xs : List String)
    → Walked next current xs
    → contains "" xs ≡ false
Walked-named next current [] w = refl
Walked-named next current (x ∷ xs) w =
    ground (arith, eq_iff x "", is_blank_iff x, Walked-named next (next_of next x) xs w.2)

pub next_of-within :
    (ids : List String) (next : List (String × String)) (a : String)
    → All (IsWithin ids) next
    → (is_blank (next_of next a) ≡ true) ⊎ (contains (next_of next a) ids ≡ true)
next_of-within ids [] a w = inl refl
next_of-within ids ((b, c) ∷ next) a w = elim (Bool-cases (b == a)) [
  | inl same ↦ rw (same, next_of) (inr w.0.1)
  | inr other ↦ rw (other, next_of) (next_of-within ids next a w.1)
]

pub Walked-within :
    (ids : List String) (next : List (String × String)) (current : String) (xs : List String)
    → All (IsWithin ids) next
    → (is_blank current ≡ true) ⊎ (contains current ids ≡ true)
    → Walked next current xs
    → Subset xs ids
Walked-within ids next current [] w c k x m = absurd (not-mem-nil m)
Walked-within ids next current (y ∷ xs) w c k x m =
    Or.elim (hlevel) (mem-cons.0 m) (λ here. rw here (mem_of_contains y ids (ground (arith, k, c))))
      (Walked-within ids next (next_of next y) xs w (next_of-within ids next y w) k.2 x)

pub Walked-inhabited :
    (next : List (String × String)) (current : String) (xs : List String)
    → Walked next current xs
    → is_blank current ≡ false
    → is_empty xs ≡ false
Walked-inhabited next current [] w n = cc
Walked-inhabited next current (x ∷ xs) w n = refl

pub no_links-IsLinked : (ids : List String) → IsLinked ids no_links
no_links-IsLinked ids = record {
  one_next = Nodup-nil;
  one_parent = Nodup-nil;
  mirrored = refl;
  within = tt;
}

module _ (draft : WorkflowDraft) {order : List String} (p : Passes draft order) where
  ids-Nodup : Nodup p.ids
  ids-Nodup = index_ids-Nodup draft.nodes [] Nodup-nil p.indexed

  ids-perm : Perm p.ids (node_ids draft.nodes)
  ids-perm = rw (append-nil (node_ids draft.nodes)) at (index_ids-perm draft.nodes [] p.indexed)

  links-IsLinked : IsLinked p.ids p.links × Perm p.links.next (main_edges draft.connections)
  links-IsLinked =
      let (linked, perm) =
        link_all-IsLinked p.ids draft.connections no_links (no_links-IsLinked p.ids) p.linked in
      (linked, rw (append-nil (main_edges draft.connections)) at perm)

  order-Walked : Walked p.links.next p.head order × Nodup order
  order-Walked =
      let (rest, e, w, d) =
        walk-Walked (suc (length p.ids)) p.links.next p.head [] Nodup-nil p.walked in
      (rw (← e) at w, d)

  order-perm : Perm order p.ids
  order-perm =
      perm_of_subset order-Walked.1
        (Walked-within p.ids p.links.next p.head order links-IsLinked.0.within
          (ground (arith, is_blank_iff p.head, find_head-found p.links.parent p.ids "" p.headed))
          order-Walked.0)
        (omega (arith, p.covered))

  order-inhabited : is_empty order ≡ false
  order-inhabited = Walked-inhabited p.links.next p.head order order-Walked.0 p.head_named

  pairs-perm : Perm (pairs order) p.links.next
  pairs-perm =
      perm_of_subset
        (Nodup-of_firsts (pairs order)
          (rw (firsts-pairs order) (Nodup-butlast order order-Walked.1)))
        (Walked-pairs p.links.next p.head order order-Walked.0)
        (omega (arith, length-pairs order, p.counted, p.covered))

-- When `LinearOrder` succeeds, its result is a linear order of the draft: every node stands in it once and has a name,
-- and the connections between nodes are, each once, from a node to the one behind it.
pub linear_order-IsLinearOrder :
    (draft : WorkflowDraft) (order : List String)
    → linear_order draft ≡ ok order
    → IsLinearOrder draft order
linear_order-IsLinearOrder draft order h =
    let p : Passes draft order = linear_order-Passes draft h in
    record {
      every_node = Perm.trans (order-perm draft p) (ids-perm draft p);
      distinct = (order-Walked draft p).1;
      named = Walked-named p.links.next p.head order (order-Walked draft p).0;
      inhabited = order-inhabited draft p;
      neighbours = Perm.symm (Perm.trans (pairs-perm draft p) (links-IsLinked draft p).1);
    }
