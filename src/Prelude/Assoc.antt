-- ===== src/Prelude/Assoc.antt =====
-- Go's `map[string]V` and `map[string]bool` as association lists and lists of keys, newest first.
use Prim.Native.String.{String}
use mathlib.Core.Path.{◌≡◌, refl}
use mathlib.Core.Bool.{Bool, false, ◌||◌}
use mathlib.Core.Option.{Option, none, some}
use mathlib.Core.List.{List, [], ◌∷◌, ◌++◌}
use native.Mathlib.Omega.{arith}
use text.Mathlib.TextEquality.{eq_iff}
use req_flow.Prelude.Tests.{if◌then◌else◌}
use req_flow.Prelude.Text.{◌==◌}

-- `set[k]` of a `map[string]bool`.
abbrev pub contains : String → List String → Bool
contains k [] = false
contains k (x ∷ xs) = x == k || contains k xs

module _ {ℓ} {V : Type ℓ} where
  -- `m[k]` with its second result.
  abbrev pub lookup : String → List (String × V) → Option V
  lookup k [] = none
  lookup k ((j, v) ∷ m) = if j == k then some v else lookup k m

  abbrev pub keys : List (String × V) → List String
  keys [] = []
  keys ((j, v) ∷ m) = j ∷ keys m

  -- `_, exists := m[k]`
  abbrev pub has : String → List (String × V) → Bool
  has k [] = false
  has k ((j, v) ∷ m) = j == k || has k m

  -- `m[k] = v`
  abbrev pub insert : String → V → List (String × V) → List (String × V)
  insert k v [] = (k, v) ∷ []
  insert k v ((j, w) ∷ m) = if j == k then (k, v) ∷ m else (j, w) ∷ insert k v m

  pub has-eq-contains : (k : String) (m : List (String × V)) → has k m ≡ contains k (keys m)
  has-eq-contains k [] = refl
  has-eq-contains k ((j, v) ∷ m) = ground (arith, has-eq-contains k m)

  pub lookup-insert :
      (k j : String) (v : V) (m : List (String × V))
      → lookup j (insert k v m) ≡ (if k == j then some v else lookup j m)
  lookup-insert k j v [] = refl
  lookup-insert k j v ((i, w) ∷ m) =
      ground (arith, eq_iff k j, eq_iff i k, eq_iff i j, lookup-insert k j v m)

  pub has-insert :
      (k j : String) (v : V) (m : List (String × V)) → has j (insert k v m) ≡ (k == j || has j m)
  has-insert k j v [] = ground arith
  has-insert k j v ((i, w) ∷ m) =
      ground (arith, eq_iff i k, eq_iff i j, eq_iff k j, has-insert k j v m)

  pub insert-absent :
      (k : String) (v : V) (m : List (String × V))
      → has k m ≡ false
      → insert k v m ≡ m ++ ((k, v) ∷ [])
  insert-absent k v [] h = refl
  insert-absent k v ((j, u) ∷ m) h = ground (arith, insert-absent k v m)
