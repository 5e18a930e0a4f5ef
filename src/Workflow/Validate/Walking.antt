-- ===== src/Workflow/Validate/Walking.antt =====
-- internal/domain/workflow/validate.go, `validateTopology`: the walk along the edges ends, and what it visits.
use req_flow.Prelude.{
  ℕ, zero, suc, ◌+◌, ◌<◌, String, true, false, List, [], ◌∷◌, ◌++◌, ◌≡◌, ◌≢◌, ◌⊎◌, refl, sym, ap,
  subst, arith, ◌==◌, eq_iff, is_blank, length, contains, Bool-cases, inl, inr, mem_of_contains,
  not-mem_of_contains, length_le_of_subset,
}
use mathlib.Core.Logic.Or
use mathlib.Core.List.Perm
use mathlib.Core.List.{Nodup, Subset, Nodup-cons, Nodup-nil, mem-cons, not-mem-nil, perm_middle}
use req_flow.Workflow.Order.{next_of}
use req_flow.Workflow.Order.Pairs.{seconds}
use req_flow.Workflow.Order.Loops.{Walked}
use req_flow.Workflow.Validate.Topology.{arrived, spent, visit_from}

-- A text that ends the walk, or one of the identifiers.
abbrev pub IsStop : List String → String → Type 0
IsStop ids k = (is_blank k ≡ true) ⊎ (contains k ids ≡ true)

visit_from_ends :
    (fuel : ℕ) (ids : List String) (edges : List (String × String)) (current : String)
    (visited : List String)
    → ((k : String) → IsStop ids (next_of edges k))
    → IsStop ids current
    → Nodup visited
    → Subset visited ids
    → length ids < fuel + length visited
    → visit_from fuel edges current visited ≢ spent
unfolding visit_from
visit_from_ends zero ids edges current visited n c d s l =
    absurd (omega (arith, length_le_of_subset d s))
visit_from_ends (suc fuel) ids edges current visited n c d s l =
    elim (Bool-cases (is_blank current)) [
      | inl ended ↦ ground arith
      | inr more ↦ elim (Bool-cases (contains current visited)) [
        | inl again ↦ ground arith
        | inr new ↦
            let known : contains current ids ≡ true = ground arith in
            let later =
              visit_from_ends fuel ids edges (next_of edges current) (current ∷ visited) n
                (n current) (Nodup-cons.1 (not-mem_of_contains current visited new, d))
                (λ k m.
                  Or.elim (hlevel) (mem-cons.0 m) (λ e. rw e (mem_of_contains current ids known))
                    (s k))
                (omega arith) in
            ground (arith, later)
      ]
    ]

IsStop-more :
    (a b : String) (ids : List String) (k : String) → IsStop (a ∷ ids) k → IsStop (a ∷ b ∷ ids) k
IsStop-more a b ids k h = ground arith

next_of-skip :
    (a b : String) (edges : List (String × String)) (k : String)
    → (a == k) ≡ false
    → next_of ((a, b) ∷ edges) k ≡ next_of edges k
next_of-skip a b edges k other = rw (other, next_of) refl

next_of-seconds :
    (head : String) (edges : List (String × String)) (k : String)
    → IsStop (head ∷ seconds edges) (next_of edges k)
next_of-seconds head [] k = inl refl
next_of-seconds head ((a, b) ∷ edges) k = elim (Bool-cases (a == k)) [
  | inl same ↦ rw (same, next_of) (inr (ground (arith, eq_iff b b)))
  | inr other ↦
      subst (IsStop (head ∷ b ∷ seconds edges)) (sym (next_of-skip a b edges k other))
        (IsStop-more head b (seconds edges) (next_of edges k) (next_of-seconds head edges k))
]

length-seconds : (edges : List (String × String)) → length (seconds edges) ≡ length edges
length-seconds [] = refl
length-seconds (e ∷ edges) = ap suc (length-seconds edges)

-- On every set of edges, cycles among them, the walk from a node ends within two rounds more than there are edges.
pub visit_from-ends :
    (edges : List (String × String)) (head : String)
    → visit_from (suc (suc (length edges))) edges head [] ≢ spent
visit_from-ends edges head =
    visit_from_ends (suc (suc (length edges))) (head ∷ seconds edges) edges head []
      (next_of-seconds head edges) (inr (ground (arith, eq_iff head head))) Nodup-nil
      (λ k m. absurd (not-mem-nil m)) (omega (arith, length-seconds edges))

-- What a walk that arrives has visited.
pub visit_from-Walked :
    (fuel : ℕ) (edges : List (String × String)) (current : String) (done : List String)
    {visited : List String}
    → Nodup done
    → visit_from fuel edges current done ≡ arrived visited
    → (rest : List String) × Walked edges current rest
      × Nodup (rest ++ done)
      × (length visited ≡ length rest + length done)
unfolding visit_from
visit_from-Walked zero edges current done d h = cc
visit_from-Walked (suc fuel) edges current done {visited} d h =
    elim (Bool-cases (is_blank current)) [
      | inl ended ↦ ([], ended, d, ground arith)
      | inr more ↦ elim (Bool-cases (contains current done)) [
        | inl again ↦ absurd (ground arith)
        | inr new ↦
            let (rest, w, n, l) =
              visit_from-Walked fuel edges (next_of edges current) (current ∷ done)
                {visited = visited} (Nodup-cons.1 (not-mem_of_contains current done new, d))
                (ground arith) in
            (current ∷ rest, (refl, more, w), Perm.nodup (perm_middle rest done) n, omega arith)
      ]
    ]
