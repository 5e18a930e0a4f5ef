-- ===== src/Workflow/RunStore/Moving.antt =====
-- internal/infra/repository/workflow_runtime_repo.go: what a statement that changes node runs leaves of them.
use req_flow.Prelude.{
  ◌≤◌, String, Bool, true, false, ◌||◌, List, [], ◌∷◌, Option, none, some, ◌≡◌, refl, sym, ◌∙◌, ap,
  arith, eq_iff, find, is_some, is_blank, Bool-cases, inl, inr, All, ◌⊎◌, leb,
}
use mathlib.Core.List.{Mem, Nodup, mem-cons_self, mem-cons_of_mem, Nodup-cons}
use req_flow.Workflow.Run.{NodeRunStatus, node_succeeded}
use req_flow.Workflow.RunStore.Defs.{
  NodeRow, is_node_running, update_rows, node_with_id, first_by_ordinal, lower,
}

-- A node run has a lease exactly while it runs, and an owner at most then.
abbrev pub IsLeased : NodeRow → Type 0
IsLeased n =
    (is_some n.lease_until ≡ is_node_running n.status)
    × (is_node_running n.status || is_blank n.lease_owner ≡ true)

abbrev pub is_succeeded : NodeRunStatus → Bool
is_succeeded node_succeeded = true
is_succeeded _ = false

-- What no transaction undoes: a node run stays what it is and where it is, its attempts are counted on, its success is
-- final, and its lease is in order if it was.
pub record IsMove (n n' : NodeRow) : Type 0 where
  pub id : n'.id ≡ n.id
  pub run_id : n'.run_id ≡ n.run_id
  pub node_id : n'.node_id ≡ n.node_id
  pub ordinal : n'.ordinal ≡ n.ordinal
  pub attempt : n.attempt ≤ n'.attempt
  pub final : is_succeeded n.status ≡ true → is_succeeded n'.status ≡ true
  pub leased : IsLeased n → IsLeased n'

-- Row by row.
unfoldable pub AreMoves : List NodeRow → List NodeRow → Type 0
AreMoves [] [] = Unit
AreMoves [] (m ∷ ms) = ⊥
AreMoves (n ∷ ns) [] = ⊥
AreMoves (n ∷ ns) (m ∷ ms) = IsMove n m × AreMoves ns ms

abbrev pub node_run_ids : List NodeRow → List String
node_run_ids [] = []
node_run_ids (n ∷ ns) = n.id ∷ node_run_ids ns

pub IsMove-refl : (n : NodeRow) → IsMove n n
IsMove-refl n = record {
  id = refl;
  run_id = refl;
  node_id = refl;
  ordinal = refl;
  attempt = omega arith;
  final = λ s. s;
  leased = λ l. l;
}

IsMove-trans : (a b c : NodeRow) → IsMove a b → IsMove b c → IsMove a c
IsMove-trans a b c p q = record {
  id = q.id ∙ p.id;
  run_id = q.run_id ∙ p.run_id;
  node_id = q.node_id ∙ p.node_id;
  ordinal = q.ordinal ∙ p.ordinal;
  attempt = omega (arith, p.attempt, q.attempt);
  final = λ s. q.final (p.final s);
  leased = λ l. q.leased (p.leased l);
}

pub AreMoves-refl : (ns : List NodeRow) → AreMoves ns ns
unfolding AreMoves
AreMoves-refl [] = tt
AreMoves-refl (n ∷ ns) = (IsMove-refl n, AreMoves-refl ns)

pub AreMoves-trans : (xs ys zs : List NodeRow) → AreMoves xs ys → AreMoves ys zs → AreMoves xs zs
unfolding AreMoves
AreMoves-trans [] [] zs p q = q
AreMoves-trans [] (b ∷ ys) zs p q = absurd p
AreMoves-trans (a ∷ xs) [] zs p q = absurd p
AreMoves-trans (a ∷ xs) (b ∷ ys) [] p q = absurd q
AreMoves-trans (a ∷ xs) (b ∷ ys) (c ∷ zs) p q =
    (IsMove-trans a b c p.0 q.0, AreMoves-trans xs ys zs p.1 q.1)

pub AreMoves-ids : (ns ms : List NodeRow) → AreMoves ns ms → node_run_ids ms ≡ node_run_ids ns
unfolding AreMoves
AreMoves-ids [] [] h = refl
AreMoves-ids [] (m ∷ ms) h = absurd h
AreMoves-ids (n ∷ ns) [] h = absurd h
AreMoves-ids (n ∷ ns) (m ∷ ms) h =
    ap (λ k. k ∷ node_run_ids ms) (h.0.id) ∙ ap (◌∷◌ n.id) (AreMoves-ids ns ms h.1)

pub update_rows-AreMoves :
    (where_ : NodeRow → Bool) (set : NodeRow → NodeRow) (ns : List NodeRow)
    → All (λ (n : NodeRow). where_ n ≡ true → IsMove n (set n)) ns
    → AreMoves ns (update_rows where_ set ns)
unfolding AreMoves
update_rows-AreMoves where_ set [] h = tt
update_rows-AreMoves where_ set (n ∷ ns) h = (
  elim (Bool-cases (where_ n)) [
    | inl hit ↦ rw hit (h.0 hit)
    | inr missed ↦ rw missed (IsMove-refl n)
  ],
  update_rows-AreMoves where_ set ns h.1,
)

pub every : (P : NodeRow → Type 0) (ns : List NodeRow) → ((n : NodeRow) → P n) → All P ns
every P [] h = tt
every P (n ∷ ns) h = (h n, every P ns h)

-- A row of the table, by its place.
abbrev pub IsAmong : NodeRow → List NodeRow → Type 0
IsAmong n [] = ⊥
IsAmong n (k ∷ ns) = (n ≡ k) ⊎ IsAmong n ns

among-id : (n : NodeRow) (ns : List NodeRow) → IsAmong n ns → Mem n.id (node_run_ids ns)
among-id n [] m = absurd m
among-id n (k ∷ ns) m = elim m [
  | inl e ↦ rw (ap (λ (r : NodeRow). r.id) e) mem-cons_self
  | inr l ↦ mem-cons_of_mem k.id (among-id n ns l)
]

other_rows :
    (P : NodeRow → Type 0) (id : String) (ns : List NodeRow)
    → ¬ Mem id (node_run_ids ns)
    → All (λ (n : NodeRow). node_with_id id n ≡ true → P n) ns
other_rows P id [] h = tt
other_rows P id (k ∷ ns) h = (
  (λ hit. absurd (h (rw ((eq_iff k.id id).0 hit) mem-cons_self))),
  other_rows P id ns (λ m. h (mem-cons_of_mem k.id m)),
)

-- The one row with the identifier of a row.
pub only_row :
    (P : NodeRow → Type 0) (node : NodeRow) (ns : List NodeRow)
    → Nodup (node_run_ids ns)
    → IsAmong node ns
    → P node
    → All (λ (n : NodeRow). node_with_id node.id n ≡ true → P n) ns
only_row P node [] d m p = tt
only_row P node (k ∷ ns) d m p = elim m [
  | inl e ↦ (
    (λ hit. rw (← e) p),
    other_rows P node.id ns (λ l. (Nodup-cons.0 d).0 (rw (ap (λ (r : NodeRow). r.id) e) at l)),
  )
  | inr later ↦ (
    (λ hit.
        absurd ((Nodup-cons.0 d).0 (rw ((eq_iff k.id node.id).0 hit) (among-id node ns later)))),
    only_row P node ns (Nodup-cons.0 d).1 later p,
  )
]

pub find-IsAmong :
    (q : NodeRow → Bool) (ns : List NodeRow) {node : NodeRow}
    → find q ns ≡ some node
    → IsAmong node ns × (q node ≡ true)
find-IsAmong q [] h = cc
find-IsAmong q (k ∷ ns) {node} h = elim (Bool-cases (q k)) [
  | inl hit ↦ let e : node ≡ k = ground arith in (inl e, ap q e ∙ hit)
  | inr missed ↦ let (m, p) = find-IsAmong q ns (ground arith) in (inr m, p)
]

lower-cases : (k : NodeRow) (o : Option NodeRow) → (lower k o ≡ k) ⊎ (o ≡ some (lower k o))
lower-cases k none = inl refl
lower-cases k (some other) = elim (Bool-cases (leb k.ordinal other.ordinal)) [
  | inl le ↦ inl (rw le refl)
  | inr gt ↦ inr (rw gt refl)
]

pub first_by_ordinal-IsAmong :
    (q : NodeRow → Bool) (ns : List NodeRow) {node : NodeRow}
    → first_by_ordinal q ns ≡ some node
    → IsAmong node ns × (q node ≡ true)
unfolding first_by_ordinal
first_by_ordinal-IsAmong q [] h = cc
first_by_ordinal-IsAmong q (k ∷ ns) {node} h = elim (Bool-cases (q k)) [
  | inr missed ↦ let (m, p) = first_by_ordinal-IsAmong q ns (ground arith) in (inr m, p)
  | inl hit ↦
      let lowest : node ≡ lower k (first_by_ordinal q ns) = ground arith in
      elim (lower-cases k (first_by_ordinal q ns)) [
        | inl e ↦ (inl (lowest ∙ e), ap q (lowest ∙ e) ∙ hit)
        | inr e ↦
            let (m, p) = first_by_ordinal-IsAmong q ns (e ∙ ap some (sym lowest)) in (inr m, p)
      ]
]
