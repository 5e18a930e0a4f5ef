-- ===== src/Workflow/Editor/Splicing.antt =====
-- internal/app/workflow/draft_editor.go: the orders of nodes, and the edges between nodes, that the commands make.
use req_flow.Prelude.{
  String, true, ◌||◌, List, [], ◌∷◌, ◌++◌, ◌≡◌, refl, sym, ◌∙◌, ap, arith, ◌==◌, eq_iff,
  if◌then◌else◌, contains, Bool-cases, String-set, inl, inr,
}
use mathlib.Core.Logic.Or
use mathlib.Core.List.Perm
use mathlib.Core.List.{
  Mem, Nodup, Perm, mem-cons, mem-cons_self, mem-cons_of_mem, not-mem-nil, Nodup-cons,
}
use req_flow.Workflow.Model.{
  WorkflowNode, Connection, EndpointKind, workflow_input, workflow_output, node_input, node_output,
  other_endpoint,
}
use req_flow.Workflow.Order.{is_main, is_node_input, is_node_output, node_ids, main_edges, pairs}
use req_flow.Workflow.Order.Pairs.{mem_pairs}
use req_flow.Workflow.Editor.Defs.{
  same_kind, same_connection, contains_connection, without_connection, has_node,
}

-- The order with a new node behind one of its nodes.
abbrev pub insert_behind : String → String → List String → List String
insert_behind a n [] = []
insert_behind a n (x ∷ xs) = if x == a then x ∷ n ∷ xs else x ∷ insert_behind a n xs

module _ (a n : String) where
  pub insert_behind-perm : (xs : List String) → Mem a xs → Perm (insert_behind a n xs) (n ∷ xs)
  insert_behind-perm [] m = absurd (not-mem-nil m)
  insert_behind-perm (x ∷ xs) m = elim (Bool-cases (x == a)) [
    | inl same ↦ rw same (Perm.swap n x xs)
    | inr other ↦
        let later : Mem a xs =
          Or.elim (hlevel) (mem-cons.0 m) (λ e. absurd (ground (arith, eq_iff x a, sym e)))
            (λ l. l) in
        rw other (Perm.trans (Perm.cons x (insert_behind-perm xs later)) (Perm.swap n x xs))
  ]

  pairs-insert_behind :
      (x y : String) (r : List String)
      → pairs (x ∷ insert_behind a n (y ∷ r)) ≡ (x, y) ∷ pairs (insert_behind a n (y ∷ r))
  pairs-insert_behind x y r = elim (Bool-cases (y == a)) [
    | inl same ↦ rw same refl
    | inr other ↦ rw other refl
  ]

  -- The edge behind the node becomes two, by way of the new one.
  pub pairs_split :
      (b : String) (xs : List String)
      → Nodup xs
      → Mem (a, b) (pairs xs)
      → (rest : List (String × String)) × Perm (pairs xs) ((a, b) ∷ rest)
        × Perm (pairs (insert_behind a n xs)) ((a, n) ∷ (n, b) ∷ rest)
  pairs_split b [] d m = absurd (not-mem-nil m)
  pairs_split b (x ∷ []) d m = absurd (not-mem-nil m)
  pairs_split b (x ∷ y ∷ r) d m = elim (Bool-cases (x == a)) [
    | inl same ↦
        let e : x ≡ a = (eq_iff x a).0 same in
        let here : b ≡ y =
          Or.elim (hlevel String-set) (mem-cons.0 m) (λ p. ap (λ q. q.1) p)
            (λ l. absurd ((Nodup-cons.0 d).0 (rw e (mem_pairs (y ∷ r) l).0))) in
        rw same ((pairs (y ∷ r), rw (e, here) Perm.rfl, rw (e, here) Perm.rfl))
    | inr other ↦
        let later : Mem (a, b) (pairs (y ∷ r)) =
          Or.elim (hlevel) (mem-cons.0 m)
            (λ p. absurd (ground (arith, eq_iff x a, ap (λ q. q.0) p))) (λ l. l) in
        let (rest, p, q) = pairs_split b (y ∷ r) (Nodup-cons.0 d).1 later in
        rw (other, pairs-insert_behind x y r)
          (
            (x, y) ∷ rest,
            Perm.trans (Perm.cons (x, y) p) (Perm.swap (a, b) (x, y) rest),
            Perm.trans (Perm.cons (x, y) q) (
                Perm.trans (Perm.swap (a, n) (x, y) ((n, b) ∷ rest))
                  (Perm.cons (a, n) (Perm.swap (n, b) (x, y) rest))),
          )
  ]

-- An edge between nodes of a connection that the command names.
abbrev edge : Connection → String × String
edge c = (c.from.node_id, c.to.node_id)

same_output :
    (k l : EndpointKind) → is_node_output l ≡ true → same_kind k l ≡ true → is_node_output k ≡ true
same_output node_output l m s = refl
same_output k node_output m s = ground arith
same_output k workflow_input m s = cc
same_output k workflow_output m s = cc
same_output k node_input m s = cc
same_output k (other_endpoint t) m s = cc

same_input :
    (k l : EndpointKind) → is_node_input l ≡ true → same_kind k l ≡ true → is_node_input k ≡ true
same_input node_input l m s = refl
same_input k node_input m s = ground arith
same_input k workflow_input m s = cc
same_input k workflow_output m s = cc
same_input k node_output m s = cc
same_input k (other_endpoint t) m s = cc

same_connection-main :
    (c d : Connection)
    → is_main d ≡ true
    → same_connection c d ≡ true
    → (is_main c ≡ true) × (edge c ≡ edge d)
same_connection-main c d m s = (
  ground (arith, same_output c.from.kind d.from.kind, same_input c.to.kind d.to.kind),
  ap (λ a. (a, c.to.node_id)) (ground (arith, eq_iff c.from.node_id d.from.node_id))
      ∙ ap (λ b. (d.from.node_id, b)) (ground (arith, eq_iff c.to.node_id d.to.node_id)),
)

module _ (c : Connection) (m : is_main c ≡ true) where
  pub edge-of_contains :
      (cs : List Connection) → contains_connection cs c ≡ true → Mem (edge c) (main_edges cs)
  edge-of_contains [] h = cc
  edge-of_contains (d ∷ cs) h = elim (Bool-cases (same_connection d c)) [
    | inl same ↦ let (main, e) = same_connection-main d c m same in rw (main, ← e) mem-cons_self
    | inr other ↦
        let later = edge-of_contains cs (ground arith) in
        elim (Bool-cases (is_main d)) [
          | inl main ↦ rw main (mem-cons_of_mem (edge d) later)
          | inr minor ↦ rw minor later
        ]
  ]

  without-absent :
      (cs : List Connection)
      → ¬ Mem (edge c) (main_edges cs)
      → main_edges (without_connection c cs) ≡ main_edges cs
  without-absent [] h = refl
  without-absent (d ∷ cs) h = elim (Bool-cases (same_connection d c)) [
    | inl same ↦
        let (main, e) = same_connection-main d c m same in absurd (h (rw (main, ← e) mem-cons_self))
    | inr other ↦ elim (Bool-cases (is_main d)) [
      | inl main ↦
          rw (other, main)
            (ap (◌∷◌ (edge d)) (without-absent cs (λ l. h (rw main (mem-cons_of_mem (edge d) l)))))
      | inr minor ↦ rw (other, minor) (without-absent cs (λ l. h (rw minor l)))
    ]
  ]

  -- Where an edge stands once, the cut takes that one away.
  pub without_connection-perm :
      (cs : List Connection)
      → Nodup (main_edges cs)
      → contains_connection cs c ≡ true
      → Perm (main_edges cs) (edge c ∷ main_edges (without_connection c cs))
  without_connection-perm [] d h = cc
  without_connection-perm (x ∷ cs) d h = elim (Bool-cases (same_connection x c)) [
    | inl same ↦
        let (main, e) = same_connection-main x c m same in
        let d' : Nodup (edge c ∷ main_edges cs) = rw (main, e) at d in
        rw (same, main, without-absent cs (Nodup-cons.0 d').0, e) Perm.rfl
    | inr other ↦ elim (Bool-cases (is_main x)) [
      | inl main ↦
          let d' : Nodup (edge x ∷ main_edges cs) = rw main at d in
          rw (other, main)
            (Perm.trans
              (Perm.cons (edge x) (without_connection-perm cs (Nodup-cons.0 d').1 (ground arith)))
              (Perm.swap (edge c) (edge x) _))
      | inr minor ↦ rw (other, minor) (without_connection-perm cs (rw minor at d) (ground arith))
    ]
  ]

pub main_edges-append :
    (cs ds : List Connection) → main_edges (cs ++ ds) ≡ main_edges cs ++ main_edges ds
main_edges-append [] ds = refl
main_edges-append (c ∷ cs) ds = elim (Bool-cases (is_main c)) [
  | inl main ↦ rw main (ap (◌∷◌ (edge c)) (main_edges-append cs ds))
  | inr minor ↦ rw minor (main_edges-append cs ds)
]

pub node_ids-append : (ns ms : List WorkflowNode) → node_ids (ns ++ ms) ≡ node_ids ns ++ node_ids ms
node_ids-append [] ms = refl
node_ids-append (n ∷ ns) ms = ap (◌∷◌ n.id) (node_ids-append ns ms)

pub has_node-eq-contains :
    (id : String) (ns : List WorkflowNode) → has_node id ns ≡ contains id (node_ids ns)
has_node-eq-contains id [] = refl
has_node-eq-contains id (n ∷ ns) = ap (λ b. n.id == id || b) (has_node-eq-contains id ns)
