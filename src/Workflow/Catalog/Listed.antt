-- ===== src/Workflow/Catalog/Listed.antt =====
-- internal/domain/workflow/catalog.go: `Definitions` beside `NewStaticCatalog` and `Lookup`.
use Prim.Native.Nat.{compare as compare_ℕ, Ordering}
use Prim.Native.String.{compare, then as in_turn}
use Prim.Native.String.compare
use Prim.Native.Char.{code}
use text.Mathlib.Text.{is_lt}
use req_flow.Prelude.{
  ℕ, String, Bool, true, false, not, ◌&&◌, ◌||◌, List, [], ◌∷◌, ◌++◌, some, ◌≡◌, refl, sym, ◌∙◌, ap,
  arith, eq_iff, ◌==◌, lt_text, All, has, lookup, insert-absent, Bool-cases, inl, inr, ok, when_ok,
  when_passed, subst,
}
use mathlib.Core.List.Perm
use mathlib.Core.List.{Perm, append-nil, append_assoc}
use req_flow.Json.{RawMessage}
use req_flow.Workflow.Model.{CapabilityRef, CapabilityDefinition}
use req_flow.Workflow.Catalog.Defs.{
  capability_duplicate, capability_key, validate_capability, register, new_static_catalog,
  lookup_capability, before_ref, insert_definition, sort_definitions, registered,
  catalog_definitions,
}

then_asym :
    (m n : ℕ) (p q : Ordering)
    → (is_lt p ≡ true → is_lt q ≡ false)
    → is_lt (in_turn (compare_ℕ m n) p) ≡ true
    → is_lt (in_turn (compare_ℕ n m) q) ≡ false
then_asym m n p q h l = ground arith

lt_text-asym : (s t : String) → lt_text s t ≡ true → lt_text t s ≡ false
lt_text-asym String.[] String.[] h = ground arith
lt_text-asym String.[] (String.◌∷◌ d t) h = rw (compare.cons-nil d t) refl
lt_text-asym (String.◌∷◌ c s) String.[] h = ground (arith, compare.cons-nil c s)
lt_text-asym (String.◌∷◌ c s) (String.◌∷◌ d t) h = rw (compare.cons-cons d c t s) (
    then_asym (code c) (code d) (compare s t) (compare t s) (lt_text-asym s t)
      (rw (compare.cons-cons c d s t) at h))

before_ref-asym : (a b : CapabilityRef) → before_ref a b ≡ true → before_ref b a ≡ false
before_ref-asym a b h =
    ground (arith, eq_iff a.kind b.kind, eq_iff b.kind a.kind, lt_text-asym a.kind b.kind)

-- No definition stands behind one that comes after it.
abbrev pub follows : CapabilityRef → List CapabilityDefinition → Bool
follows a [] = true
follows a (d ∷ ds) = not (before_ref d.ref a)

abbrev pub in_order : List CapabilityDefinition → Bool
in_order [] = true
in_order (d ∷ ds) = follows d.ref ds && in_order ds

insert_definition-in_order :
    (d : CapabilityDefinition) (ds : List CapabilityDefinition)
    → in_order ds ≡ true
    → in_order (insert_definition d ds) ≡ true
unfolding insert_definition
insert_definition-in_order d [] h = refl
insert_definition-in_order d (x ∷ []) h = ground (arith, before_ref-asym x.ref d.ref)
insert_definition-in_order d (x ∷ y ∷ r) h =
    ground (arith, before_ref-asym x.ref d.ref, insert_definition-in_order d (y ∷ r))

sort_definitions-in_order : (ds : List CapabilityDefinition) → in_order (sort_definitions ds) ≡ true
unfolding sort_definitions
sort_definitions-in_order [] = refl
sort_definitions-in_order (d ∷ ds) =
    insert_definition-in_order d (sort_definitions ds) (sort_definitions-in_order ds)

insert_definition-perm :
    (d : CapabilityDefinition) (ds : List CapabilityDefinition)
    → Perm (insert_definition d ds) (d ∷ ds)
unfolding insert_definition
insert_definition-perm d [] = Perm.rfl
insert_definition-perm d (x ∷ xs) = elim (Bool-cases (before_ref x.ref d.ref)) [
  | inl later ↦ rw later (Perm.trans (Perm.cons x (insert_definition-perm d xs)) (Perm.swap d x xs))
  | inr first ↦ rw first Perm.rfl
]

sort_definitions-perm : (ds : List CapabilityDefinition) → Perm (sort_definitions ds) ds
unfolding sort_definitions
sort_definitions-perm [] = Perm.rfl
sort_definitions-perm (d ∷ ds) =
    Perm.trans (insert_definition-perm d (sort_definitions ds))
      (Perm.cons d (sort_definitions-perm ds))

All-insert_definition :
    (P : CapabilityDefinition → Type 0) (d : CapabilityDefinition) (ds : List CapabilityDefinition)
    → P d
    → All P ds
    → All P (insert_definition d ds)
unfolding insert_definition
All-insert_definition P d [] p ps = (p, tt)
All-insert_definition P d (x ∷ xs) p ps = elim (Bool-cases (before_ref x.ref d.ref)) [
  | inl later ↦ rw later (ps.0, All-insert_definition P d xs p ps.1)
  | inr first ↦ rw first (p, ps)
]

All-sort_definitions :
    (P : CapabilityDefinition → Type 0) (ds : List CapabilityDefinition)
    → All P ds
    → All P (sort_definitions ds)
unfolding sort_definitions
All-sort_definitions P [] ps = tt
All-sort_definitions P (d ∷ ds) ps =
    All-insert_definition P d (sort_definitions ds) ps.0 (All-sort_definitions P ds ps.1)

-- A catalog whose keys are distinct.
abbrev pub IsDistinct : List (String × CapabilityDefinition) → Type 0
IsDistinct [] = Unit
IsDistinct ((key, definition) ∷ m) = (has key m ≡ false) × IsDistinct m

has-snoc :
    (j k : String) (v : CapabilityDefinition) (m : List (String × CapabilityDefinition))
    → has j (m ++ ((k, v) ∷ [])) ≡ (has j m || k == j)
has-snoc j k v [] = ground arith
has-snoc j k v ((i, w) ∷ m) = ground (arith, has-snoc j k v m)

IsDistinct-snoc :
    (k : String) (v : CapabilityDefinition) (m : List (String × CapabilityDefinition))
    → IsDistinct m
    → has k m ≡ false
    → IsDistinct (m ++ ((k, v) ∷ []))
IsDistinct-snoc k v [] d h = (refl, tt)
IsDistinct-snoc k v ((j, w) ∷ m) d h = (
  ground (arith, has-snoc j k v m, eq_iff j k, eq_iff k j),
  IsDistinct-snoc k v m d.1 (ground arith),
)

-- An entry is found under the key of its own reference.
abbrev pub IsFoundIn : List (String × CapabilityDefinition) → CapabilityDefinition → Type 0
IsFoundIn m d = lookup (capability_key d.ref) m ≡ some d

-- Each entry stands under the key of its reference.
abbrev pub AreKeyed : List (String × CapabilityDefinition) → Type 0
AreKeyed [] = Unit
AreKeyed ((key, definition) ∷ m) = (key ≡ capability_key definition.ref) × AreKeyed m

found_later :
    (j : String) (w : CapabilityDefinition) (m sub : List (String × CapabilityDefinition))
    → has j sub ≡ false
    → AreKeyed sub
    → All (IsFoundIn m) (registered sub)
    → All (IsFoundIn ((j, w) ∷ m)) (registered sub)
found_later j w m [] h k f = tt
found_later j w m ((i, v) ∷ sub) h k f = (
  ground (arith, eq_iff j i, eq_iff j (capability_key v.ref), k.0),
  found_later j w m sub (ground arith) k.1 f.1,
)

all_found :
    (m : List (String × CapabilityDefinition))
    → IsDistinct m
    → AreKeyed m
    → All (IsFoundIn m) (registered m)
all_found [] d k = tt
all_found ((j, w) ∷ m) d k = (
  ground (arith, eq_iff j (capability_key w.ref), k.0),
  found_later j w m m d.0 k.1 (all_found m d.1 k.1),
)

AreKeyed-snoc :
    (v : CapabilityDefinition) (m : List (String × CapabilityDefinition))
    → AreKeyed m
    → AreKeyed (m ++ ((capability_key v.ref, v) ∷ []))
AreKeyed-snoc v [] k = (refl, tt)
AreKeyed-snoc v ((j, w) ∷ m) k = (k.0, AreKeyed-snoc v m k.1)

registered-snoc :
    (k : String) (v : CapabilityDefinition) (m : List (String × CapabilityDefinition))
    → registered (m ++ ((k, v) ∷ [])) ≡ registered m ++ (v ∷ [])
registered-snoc k v [] = refl
registered-snoc k v ((j, w) ∷ m) = ap (◌∷◌ w) (registered-snoc k v m)

module _ (valid_schema : RawMessage → Bool)
    (valid_config : CapabilityDefinition → RawMessage → Bool)
    (decodes_object : RawMessage → Bool) where
  register-IsDistinct :
      (definitions : List CapabilityDefinition) (catalog : List (String × CapabilityDefinition))
      {built : List (String × CapabilityDefinition)}
      → IsDistinct catalog
      → AreKeyed catalog
      → register valid_schema valid_config decodes_object definitions catalog ≡ ok built
      → IsDistinct built × AreKeyed built × (registered built ≡ registered catalog ++ definitions)
  unfolding register
  register-IsDistinct [] catalog {built} d k h =
      let same : built ≡ catalog = ground arith in
      rw same (d, k, sym (append-nil (registered catalog)))
  register-IsDistinct (definition ∷ rest) catalog {built} d k h =
      let key = capability_key definition.ref in
      when_ok (validate_capability valid_schema valid_config decodes_object definition) h (λ _ _ h1.
        when_passed (has key catalog) (capability_duplicate key) h1 (λ fresh h2.
          let grown = insert-absent key definition catalog fresh in
          let (d', k', all_of) =
            register-IsDistinct rest (catalog ++ ((key, definition) ∷ [])) {built = built}
              (IsDistinct-snoc key definition catalog d fresh) (AreKeyed-snoc definition catalog k)
              (rw grown at h2) in
          (
            d',
            k',
            all_of
                ∙ ap (λ ds. ds ++ rest) (registered-snoc key definition catalog)
                ∙ append_assoc (registered catalog) (definition ∷ []) rest,
          )))

  -- `Definitions` returns the definitions that the catalog was built of, each once, by kind and then by version, and
  -- `Lookup` finds each of them under its own reference.
  pub catalog_definitions-lookup :
      (definitions : List CapabilityDefinition) (built : List (String × CapabilityDefinition))
      → new_static_catalog valid_schema valid_config decodes_object definitions ≡ ok built
      → Perm (catalog_definitions built) definitions
        × (in_order (catalog_definitions built) ≡ true)
        × All (λ d. lookup_capability built d.ref ≡ some d) (catalog_definitions built)
  unfolding new_static_catalog catalog_definitions lookup_capability
  catalog_definitions-lookup definitions built h =
      let (d, k, all_of) = register-IsDistinct definitions [] {built = built} tt tt h in
      (
        subst (λ ds. Perm (sort_definitions (registered built)) ds) all_of
            (sort_definitions-perm (registered built)),
        sort_definitions-in_order (registered built),
        All-sort_definitions (IsFoundIn built) (registered built) (all_found built d k),
      )
