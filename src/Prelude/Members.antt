-- ===== src/Prelude/Members.antt =====
-- Members of lists: the Boolean test on texts and the library's `Mem`, `Nodup` and `Perm`, with native lengths.
use Prim.Native.Nat.{suc, ◌≤◌}
use Prim.Native.String.{String}
use mathlib.Core.Path.{◌≡◌, refl, sym, ◌∙◌, ap}
use mathlib.Core.Logic.{inl, inr}
use mathlib.Core.Logic.Or
use mathlib.Core.HLevel.{hedberg}
use mathlib.Core.Bool.{true, false}
use mathlib.Core.List
use mathlib.Core.List.{
  List, [], ◌∷◌, ◌++◌, map, Mem, Nodup, Perm, Subset, mem-cons_self, mem-cons_of_mem, mem-cons,
  not-mem-nil, Nodup-cons, perm_middle, append-nil,
}
use mathlib.Core.List.Nodup
use mathlib.Core.List.Subperm
use mathlib.Core.List.Perm
use native.Mathlib.Bridge.{from_ℕ, from_le, from_le⁻¹}
use native.Mathlib.Omega.{arith}
use text.Mathlib.Text.{◌==◌}
use text.Mathlib.TextEquality.{eq_iff}
use req_flow.Prelude.Tests.{Bool-cases}
use req_flow.Prelude.Lists.{length}
use req_flow.Prelude.Assoc.{contains}

pub string_discrete : Discrete String
string_discrete a b = elim (Bool-cases (a == b)) [
  | inl same ↦ yes ((eq_iff a b).0 same)
  | inr other ↦ no (λ e. ground (arith, eq_iff a b))
]

pub String-set : IsSet String
String-set = hedberg string_discrete

pub mem_of_contains : (k : String) (xs : List String) → contains k xs ≡ true → Mem k xs
mem_of_contains k [] h = cc
mem_of_contains k (x ∷ xs) h = elim (Bool-cases (x == k)) [
  | inl same ↦ rw ((eq_iff x k).0 same) mem-cons_self
  | inr other ↦ mem-cons_of_mem x (mem_of_contains k xs (ground arith))
]

pub contains_of_mem : (k : String) (xs : List String) → Mem k xs → contains k xs ≡ true
contains_of_mem k [] m = absurd (not-mem-nil m)
contains_of_mem k (x ∷ xs) m =
    Or.elim (hlevel) (mem-cons.0 m) (λ (same : k ≡ x). ground (arith, eq_iff x k))
      (λ later. ground (arith, contains_of_mem k xs later))

pub not-mem_of_contains : (k : String) (xs : List String) → contains k xs ≡ false → ¬ Mem k xs
not-mem_of_contains k xs h m = cc (contains_of_mem k xs m)

pub contains_of_not-mem : (k : String) (xs : List String) → ¬ Mem k xs → contains k xs ≡ false
contains_of_not-mem k xs h = elim (Bool-cases (contains k xs)) [
  | inl e ↦ absurd (h (mem_of_contains k xs e))
  | inr e ↦ e
]

module _ {ℓ} {A : Type ℓ} where
  from_ℕ-length : (xs : List A) → from_ℕ (List.length xs) ≡ length xs
  from_ℕ-length [] = refl
  from_ℕ-length (x ∷ xs) = ap suc (from_ℕ-length xs)

  -- Distinct elements of a list that is no longer are all of its elements.
  pub perm_of_subset :
      {xs ys : List A} → Nodup xs → Subset xs ys → length ys ≤ length xs → Perm xs ys
  perm_of_subset {xs} {ys} d s le =
      Subperm.perm_of_length_le (Nodup.subperm d s)
        (from_le⁻¹ _ _ (rw (from_ℕ-length xs, from_ℕ-length ys) le))

  pub length_of_perm : {xs ys : List A} → Perm xs ys → length xs ≡ length ys
  length_of_perm {xs} {ys} p =
      sym (from_ℕ-length xs) ∙ ap from_ℕ (Perm.length-eq p) ∙ from_ℕ-length ys

  pub length_le_of_subset : {xs ys : List A} → Nodup xs → Subset xs ys → length xs ≤ length ys
  length_le_of_subset {xs} {ys} d s =
      rw (← from_ℕ-length xs, ← from_ℕ-length ys) (from_le (Subperm.length-le (Nodup.subperm d s)))

  -- One more element at the end.
  pub Nodup-snoc : (xs : List A) {x : A} → Nodup xs → ¬ Mem x xs → Nodup (xs ++ x ∷ [])
  Nodup-snoc xs {x} d new =
      Perm.nodup (Perm.symm (perm_middle xs []))
        (Nodup-cons.1 ((λ m. new (rw append-nil at m)), rw append-nil d))
