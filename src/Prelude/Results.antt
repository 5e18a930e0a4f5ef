-- ===== src/Prelude/Results.antt =====
-- A Go function that returns an error beside its value: `err e` for a non-nil error.
use mathlib.Core.Path.{◌≡◌, refl}
use mathlib.Core.Bool.{Bool, true, false}

pub data Result (E : Type 0) (A : Type 0) : Type 0 where
  ok : A → Result E A
  err : E → Result E A

infixl 5 ◌>>=◌ ◌>>◌
abbrev pub ◌>>=◌ : {E A B : Type 0} → Result E A → (A → Result E B) → Result E B
err e >>= f = err e
ok a >>= f = f a

abbrev pub ◌>>◌ : {E B : Type 0} → Result E (Unit {0}) → Result E B → Result E B
m >> k = m >>= λ _. k

-- `if failed { return e }`
abbrev pub refuse_if : {E : Type 0} → Bool → E → Result E (Unit {0})
refuse_if true e = err e
refuse_if false e = ok tt

abbrev pub is_ok : {E A : Type 0} → Result E A → Bool
is_ok (ok a) = true
is_ok (err e) = false

-- The value where there is one, else what was there before.
abbrev pub or_keep : {E A : Type 0} → A → Result E A → A
or_keep a (ok b) = b
or_keep a (err e) = a

-- The parts of a chain that succeeds.
module _ {E A B : Type 0} where
  pub >>=-eq-ok :
      (first : Result E A) (then : A → Result E B) {out : B}
      → (first >>= then) ≡ ok out
      → (value : A) × (first ≡ ok value) × (then value ≡ ok out)
  >>=-eq-ok (err e) then h = cc
  >>=-eq-ok (ok value) then h = (value, refl, h)

  -- The same for a longer chain, step by step.
  pub when_ok :
      {P : Type 0} (first : Result E A) {then : A → Result E B} {out : B}
      → (first >>= then) ≡ ok out
      → ((value : A) → first ≡ ok value → then value ≡ ok out → P)
      → P
  when_ok (err e) h k = cc
  when_ok (ok value) h k = k value refl h

pub when_passed :
    {E B P : Type 0} (failed : Bool) (error : E) {rest : Result E B} {out : B}
    → (refuse_if failed error >> rest) ≡ ok out
    → (failed ≡ false → rest ≡ ok out → P)
    → P
when_passed true error h k = cc
when_passed false error h k = k refl h

-- What holds before, and after a success, holds either way.
pub or_keep_ind :
    {E A : Type 0} (P : A → Type 0) (a : A) (r : Result E A)
    → P a
    → ((b : A) → r ≡ ok b → P b)
    → P (or_keep a r)
or_keep_ind P a (ok b) before after = after b refl
or_keep_ind P a (err e) before after = before
