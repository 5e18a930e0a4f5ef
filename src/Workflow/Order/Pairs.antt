-- ===== src/Workflow/Order/Pairs.antt =====
-- Neighbours in a list, and the two ends of the edges that make a chain.
use req_flow.Prelude.{
  String, false, List, [], ◌∷◌, map, none, some, ◌≡◌, refl, ap, arith, ◌==◌, eq_iff, length,
  contains, lookup, has, Bool-cases, inl, inr, String-set, ◌-◌,
}
use mathlib.Core.Logic.Or
use mathlib.Core.List.Perm
use mathlib.Core.List.{
  Mem, Nodup, Perm, mem-cons, mem-cons_self, mem-cons_of_mem, not-mem-nil, Nodup-cons, Nodup-nil,
}
use req_flow.Workflow.Order.Defs.{pairs}

abbrev pub firsts : List (String × String) → List String
firsts [] = []
firsts ((a, b) ∷ es) = a ∷ firsts es

abbrev pub seconds : List (String × String) → List String
seconds [] = []
seconds ((a, b) ∷ es) = b ∷ seconds es

-- All but the last, and all but the first.
abbrev pub butlast : List String → List String
butlast [] = []
butlast (a ∷ []) = []
butlast (a ∷ b ∷ r) = a ∷ butlast (b ∷ r)

abbrev pub behind : List String → List String
behind [] = []
behind (a ∷ r) = r

pub firsts-pairs : (xs : List String) → firsts (pairs xs) ≡ butlast xs
firsts-pairs [] = refl
firsts-pairs (a ∷ []) = refl
firsts-pairs (a ∷ b ∷ r) = ap (◌∷◌ a) (firsts-pairs (b ∷ r))

pub seconds-pairs : (xs : List String) → seconds (pairs xs) ≡ behind xs
seconds-pairs [] = refl
seconds-pairs (a ∷ []) = refl
seconds-pairs (a ∷ b ∷ r) = ap (◌∷◌ b) (seconds-pairs (b ∷ r))

pub length-pairs : (xs : List String) → length (pairs xs) ≡ length xs - 1
length-pairs [] = omega arith
length-pairs (a ∷ []) = omega arith
length-pairs (a ∷ b ∷ r) = omega (arith, length-pairs (b ∷ r))

pub mem-butlast : {k : String} (xs : List String) → Mem k (butlast xs) → Mem k xs
mem-butlast [] m = m
mem-butlast (a ∷ []) m = absurd (not-mem-nil m)
mem-butlast (a ∷ b ∷ r) m =
    Or.elim (hlevel) (mem-cons.0 m) (λ e. rw e mem-cons_self)
      (λ later. mem-cons_of_mem a (mem-butlast (b ∷ r) later))

pub Nodup-butlast : (xs : List String) → Nodup xs → Nodup (butlast xs)
Nodup-butlast [] d = d
Nodup-butlast (a ∷ []) d = Nodup-nil
Nodup-butlast (a ∷ b ∷ r) d =
    Nodup-cons.1
      ((λ m. (Nodup-cons.0 d).0 (mem-butlast (b ∷ r) m)), Nodup-butlast (b ∷ r) (Nodup-cons.0 d).1)

-- Edges whose first ends differ are different edges.
mem-firsts : {a b : String} (es : List (String × String)) → Mem (a, b) es → Mem a (firsts es)
mem-firsts [] m = absurd (not-mem-nil m)
mem-firsts ((c, d) ∷ es) m =
    Or.elim (hlevel) (mem-cons.0 m) (λ e. rw (ap (λ p. p.0) e) mem-cons_self)
      (λ later. mem-cons_of_mem c (mem-firsts es later))

pub Nodup-of_firsts : (es : List (String × String)) → Nodup (firsts es) → Nodup es
Nodup-of_firsts [] d = Nodup-nil
Nodup-of_firsts ((a, b) ∷ es) d =
    Nodup-cons.1
      ((λ m. (Nodup-cons.0 d).0 (mem-firsts es m)), Nodup-of_firsts es (Nodup-cons.0 d).1)

pub mem_of_lookup :
    (a : String) {b : String} (es : List (String × String)) → lookup a es ≡ some b → Mem (a, b) es
mem_of_lookup a [] h = cc
mem_of_lookup a {b} ((c, d) ∷ es) h = elim (Bool-cases (c == a)) [
  | inl same ↦
      let e : ◌≡◌ {A = String × String} (a, b) (c, d) = ground (arith, eq_iff c a) in
      rw e mem-cons_self
  | inr other ↦ mem-cons_of_mem (c, d) (mem_of_lookup a es (ground arith))
]

pub lookup_of_mem :
    (a b : String) (es : List (String × String))
    → Nodup (firsts es)
    → Mem (a, b) es
    → lookup a es ≡ some b
lookup_of_mem a b [] d m = absurd (not-mem-nil m)
lookup_of_mem a b ((c, e) ∷ es) d m =
    Or.elim (hlevel String-set) (mem-cons.0 m)
      (λ (same : (a, b) ≡ (c, e)). ground (arith, eq_iff c a, same))
      (λ later. elim (Bool-cases (c == a)) [
        | inl same ↦ absurd ((Nodup-cons.0 d).0 (rw ((eq_iff c a).0 same) (mem-firsts es later)))
        | inr other ↦ rw other (lookup_of_mem a b es (Nodup-cons.0 d).1 later)
      ])

pub has-eq-contains-firsts :
    (a : String) (es : List (String × String)) → has a es ≡ contains a (firsts es)
has-eq-contains-firsts a [] = refl
has-eq-contains-firsts a ((c, d) ∷ es) = ground (arith, has-eq-contains-firsts a es)

pub lookup_absent :
    (a : String) (es : List (String × String)) → has a es ≡ false → lookup a es ≡ none
lookup_absent a [] h = refl
lookup_absent a ((c, d) ∷ es) h = ground (arith, lookup_absent a es)

firsts-eq-map : (es : List (String × String)) → firsts es ≡ map (λ e. e.0) es
firsts-eq-map [] = refl
firsts-eq-map ((a, b) ∷ es) = ap (◌∷◌ a) (firsts-eq-map es)

seconds-eq-map : (es : List (String × String)) → seconds es ≡ map (λ e. e.1) es
seconds-eq-map [] = refl
seconds-eq-map ((a, b) ∷ es) = ap (◌∷◌ b) (seconds-eq-map es)

pub firsts-perm : {es fs : List (String × String)} → Perm es fs → Perm (firsts es) (firsts fs)
firsts-perm {es} {fs} p = rw (firsts-eq-map es, firsts-eq-map fs) (Perm.map (λ e. e.0) p)

pub seconds-perm : {es fs : List (String × String)} → Perm es fs → Perm (seconds es) (seconds fs)
seconds-perm {es} {fs} p = rw (seconds-eq-map es, seconds-eq-map fs) (Perm.map (λ e. e.1) p)

pub mem_pairs : {a b : String} (xs : List String) → Mem (a, b) (pairs xs) → Mem a xs × Mem b xs
mem_pairs [] m = absurd (not-mem-nil m)
mem_pairs (x ∷ []) m = absurd (not-mem-nil m)
mem_pairs {a} {b} (x ∷ y ∷ r) m =
    Or.elim (hlevel) (mem-cons.0 m)
      (λ e. (
        rw (ap (λ p. p.0) e) mem-cons_self,
        rw (ap (λ p. p.1) e) (mem-cons_of_mem x mem-cons_self),
      ))
      (λ later.
        let both = mem_pairs (y ∷ r) later in (mem-cons_of_mem x both.0, mem-cons_of_mem x both.1))
