-- ===== src/Workflow/Editor/Extending.antt =====
-- internal/app/workflow/draft_editor.go: a draft with one more node at an end of its linear order.
use req_flow.Prelude.{
  String, false, List, [], ◌∷◌, ◌++◌, ◌≡◌, refl, sym, ◌∙◌, ap, contains, is_empty, contains_of_mem,
  not-mem_of_contains, contains_of_not-mem, String-set,
}
use mathlib.Core.Logic.Or
use mathlib.Core.List.Perm
use mathlib.Core.List.{
  Mem, Nodup, Perm, mem-cons, mem-cons_self, mem-cons_of_mem, not-mem-nil, Nodup-cons, append-nil,
  perm_middle,
}
use req_flow.Workflow.Model.{WorkflowDraft}
use req_flow.Workflow.Order.{node_ids, main_edges, pairs, IsLinearOrder}
use req_flow.Workflow.Order.Pairs.{
  firsts, seconds, butlast, behind, firsts-pairs, seconds-pairs, firsts-perm, seconds-perm,
}
use req_flow.Workflow.Validate.Tracing.{firsts-append, seconds-append}

snoc-perm : {A : Type 0} (xs : List A) (x : A) → Perm (xs ++ x ∷ []) (x ∷ xs)
snoc-perm xs x = rw (append-nil xs) at (perm_middle {a = x} xs [])

not-mem-snoc : {A : Type 0} (xs : List A) (x : A) → Nodup (xs ++ x ∷ []) → ¬ Mem x xs
not-mem-snoc xs x d = (Nodup-cons.0 (Perm.nodup (snoc-perm xs x) d)).0

-- A member that is not before the last is the last, and one that is not behind the first is the first.
last_of :
    (a : String) (xs : List String)
    → Mem a xs
    → ¬ Mem a (butlast xs)
    → (ys : List String) × (xs ≡ ys ++ a ∷ [])
last_of a [] m h = absurd (not-mem-nil m)
last_of a (x ∷ []) m h =
    let e : a ≡ x =
      Or.elim (hlevel String-set) (mem-cons.0 m) (λ e. e) (λ l. absurd (not-mem-nil l)) in
    ([], rw e refl)
last_of a (x ∷ y ∷ r) m h =
    let later : Mem a (y ∷ r) =
      Or.elim (hlevel) (mem-cons.0 m) (λ e. absurd (h (rw e mem-cons_self))) (λ l. l) in
    let (ys, e) = last_of a (y ∷ r) later (λ l. h (mem-cons_of_mem x l)) in (x ∷ ys, ap (◌∷◌ x) e)

first_of :
    (a : String) (xs : List String)
    → Mem a xs
    → ¬ Mem a (behind xs)
    → (ys : List String) × (xs ≡ a ∷ ys)
first_of a [] m h = absurd (not-mem-nil m)
first_of a (x ∷ r) m h =
    let e : a ≡ x = Or.elim (hlevel String-set) (mem-cons.0 m) (λ e. e) (λ l. absurd (h l)) in
    (r, rw e refl)

pairs-snoc :
    (ys : List String) (a n : String)
    → pairs ((ys ++ a ∷ []) ++ n ∷ []) ≡ pairs (ys ++ a ∷ []) ++ (a, n) ∷ []
pairs-snoc [] a n = refl
pairs-snoc (y ∷ []) a n = refl
pairs-snoc (y ∷ z ∷ r) a n = ap (◌∷◌ (y, z)) (pairs-snoc (z ∷ r) a n)

snoc-inhabited : (xs : List String) (n : String) → is_empty (xs ++ n ∷ []) ≡ false
snoc-inhabited [] n = refl
snoc-inhabited (x ∷ xs) n = refl

-- The draft with one more node, and one more edge.
pub record IsExtended (next edited : WorkflowDraft) (n : String) (edge : String × String)
    : Type 0 where
  pub new : contains n (node_ids next.nodes) ≡ false
  pub nodes : node_ids edited.nodes ≡ node_ids next.nodes ++ n ∷ []
  pub edges : main_edges edited.connections ≡ main_edges next.connections ++ edge ∷ []

module _ (next edited : WorkflowDraft) (n a : String) (order : List String)
    (spec : IsLinearOrder next order) (named : contains "" (node_ids edited.nodes) ≡ false)
    (known : Mem a order) where
  extended_nodes :
      {edge : String × String}
      → IsExtended next edited n edge
      → Perm (n ∷ order) (node_ids edited.nodes)
  extended_nodes x =
      rw (x.nodes)
        (Perm.trans (Perm.cons n spec.every_node) (Perm.symm (snoc-perm (node_ids next.nodes) n)))

  extended_distinct : {edge : String × String} → IsExtended next edited n edge → Nodup (n ∷ order)
  extended_distinct x = Nodup-cons.1 (
    (λ m. cc (contains_of_mem n (node_ids next.nodes) (Perm.subset spec.every_node n m), x.new)),
    spec.distinct,
  )

  order_named : (xs : List String) → Perm xs (node_ids edited.nodes) → contains "" xs ≡ false
  order_named xs p =
      contains_of_not-mem "" xs
        (λ m. not-mem_of_contains "" (node_ids edited.nodes) named (Perm.subset p "" m))

  -- A new edge from a node that no other edge leaves: that node is the last, and the new node is behind it.
  pub appended-IsLinearOrder :
      IsExtended next edited n (a, n)
      → Nodup (firsts (main_edges edited.connections))
      → IsLinearOrder edited (order ++ n ∷ [])
        × ((others : List String) × (order ≡ others ++ a ∷ []))
  appended-IsLinearOrder x once =
      let alone : ¬ Mem a (firsts (main_edges next.connections)) =
        not-mem-snoc (firsts (main_edges next.connections)) a
          (rw (x.edges, firsts-append (main_edges next.connections) a n) at once) in
      let firsts_same : Perm (firsts (main_edges next.connections)) (butlast order) =
        rw (firsts-pairs order) at (firsts-perm spec.neighbours) in
      let (ys, e) = last_of a order known (λ m. alone (Perm.subset (Perm.symm firsts_same) a m)) in
      let all_nodes : Perm (order ++ n ∷ []) (node_ids edited.nodes) =
        Perm.trans (snoc-perm order n) (extended_nodes x) in
      (
        record {
          every_node = all_nodes;
          distinct = Perm.nodup (Perm.symm (snoc-perm order n)) (extended_distinct x);
          named = order_named (order ++ n ∷ []) all_nodes;
          inhabited = snoc-inhabited order n;
          neighbours = rw (x.edges) (
              rw
                (← (
                  ap (λ o. pairs (o ++ n ∷ [])) e
                  ∙ pairs-snoc ys a n
                  ∙ ap (λ o. pairs o ++ (a, n) ∷ []) (sym e)))
                at (Perm.append_right ((a, n) ∷ []) spec.neighbours));
        },
        (ys, e),
      )

  -- A new edge to a node that no other edge enters: that node is the first, and the new node is before it.
  pub prepended-IsLinearOrder :
      IsExtended next edited n (n, a)
      → Nodup (seconds (main_edges edited.connections))
      → IsLinearOrder edited (n ∷ order) × ((others : List String) × (order ≡ a ∷ others))
  prepended-IsLinearOrder x once =
      let alone : ¬ Mem a (seconds (main_edges next.connections)) =
        not-mem-snoc (seconds (main_edges next.connections)) a
          (rw (x.edges, seconds-append (main_edges next.connections) n a) at once) in
      let seconds_same : Perm (seconds (main_edges next.connections)) (behind order) =
        rw (seconds-pairs order) at (seconds-perm spec.neighbours) in
      let (ys, e) =
        first_of a order known (λ m. alone (Perm.subset (Perm.symm seconds_same) a m)) in
      (
        record {
          every_node = extended_nodes x;
          distinct = extended_distinct x;
          named = order_named (n ∷ order) (extended_nodes x);
          inhabited = refl;
          neighbours = rw (x.edges) (
              rw (← (ap (λ o. pairs (n ∷ o)) e ∙ ap (λ o. (n, a) ∷ pairs o) (sym e))) at (
                Perm.trans (snoc-perm (main_edges next.connections) (n, a))
                  (Perm.cons (n, a) spec.neighbours)));
        },
        (ys, e),
      )
