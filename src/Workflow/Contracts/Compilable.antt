-- ===== src/Workflow/Contracts/Compilable.antt =====
-- internal/domain/workflow/contracts.go: which fields can be compiled, without the compilation.
use req_flow.Prelude.{
  String, false, ◌||◌, List, [], ◌∷◌, ◌≡◌, refl, sym, ◌∙◌, ap, ◌==◌, is_blank, has, insert,
  has-insert, contains, Result, ok, when_ok, when_passed,
}
use req_flow.Workflow.Model.{
  FieldType, string_type, integer_type, number_type, boolean_type, date_type, datetime_type,
  object_type, array_type, other_type, FieldContract, field_contract, ItemContract, no_items,
  items_of, FieldContracts, no_fields, fields, field_key,
}
use req_flow.Workflow.Contracts.Defs.{
  ContractError, key_empty, nested_duplicate, Schema, schema_object, with_text, compile_type,
  add_required, compile_field, compile_items, compile_properties,
}

-- What a type asks of the items and of the properties: an array has items that compile, an object has properties that
-- do, and a type that is none of the known ones does not compile.
abbrev pub Fits : FieldType → Type 0 → Type 0 → Type 0
Fits object_type I P = P
Fits array_type I P = I
Fits (other_type s) I P = ⊥
Fits _ I P = Unit

-- A field compiles that has a key and fits its type; the keys of a list of fields are distinct, `seen` being those
-- before the rest.
unfoldable mutual
  pub IsCompilable : FieldContract → Type 0
  IsCompilable (field_contract key label description type required enum items properties) =
      (is_blank key ≡ false) × Fits type (HasCompilable items) (AreCompilable properties [])

  pub HasCompilable : ItemContract → Type 0
  HasCompilable no_items = ⊥
  HasCompilable (items_of f) = IsCompilable f

  pub AreCompilable : FieldContracts → List String → Type 0
  AreCompilable no_fields seen = Unit
  AreCompilable (fields f fs) seen =
      IsCompilable f
      × ((contains (field_key f) seen ≡ false) × AreCompilable fs (field_key f ∷ seen))

abbrev pub Succeeds : {A : Type 0} → Result ContractError A → Type 0
Succeeds {A} r = (a : A) × (r ≡ ok a)

-- The keys of a map are those that were seen.
abbrev pub HasKeys : Schema → List String → Type 0
HasKeys m seen = (k : String) → has k m ≡ contains k seen

pub HasKeys-insert :
    (m : Schema) (seen : List String) (f : FieldContract) (compiled : Schema)
    → HasKeys m seen
    → HasKeys (insert (field_key f) (schema_object compiled) m) (field_key f ∷ seen)
HasKeys-insert m seen f compiled h k =
    has-insert (field_key f) k (schema_object compiled) m ∙ ap (λ b. field_key f == k || b) (h k)

compile_type-Succeeds :
    (type : FieldType) {I P : Type 0} (nested : Result ContractError (Schema × List String))
    (inner : Result ContractError Schema) (m : Schema)
    → (P → Succeeds nested)
    → (I → Succeeds inner)
    → Fits type I P
    → Succeeds (compile_type type nested inner m)
unfolding compile_type
compile_type-Succeeds string_type nested inner m p i h = (_, refl)
compile_type-Succeeds integer_type nested inner m p i h = (_, refl)
compile_type-Succeeds number_type nested inner m p i h = (_, refl)
compile_type-Succeeds boolean_type nested inner m p i h = (_, refl)
compile_type-Succeeds date_type nested inner m p i h = (_, refl)
compile_type-Succeeds datetime_type nested inner m p i h = (_, refl)
compile_type-Succeeds object_type nested inner m p i h = let (compiled, e) = p h in rw e (_, refl)
compile_type-Succeeds array_type nested inner m p i h = let (items, e) = i h in rw e (_, refl)
compile_type-Succeeds (other_type s) nested inner m p i h = absurd h

compile_type-Fits :
    (type : FieldType) {I P : Type 0} (nested : Result ContractError (Schema × List String))
    (inner : Result ContractError Schema) (m : Schema)
    → (Succeeds nested → P)
    → (Succeeds inner → I)
    → Succeeds (compile_type type nested inner m)
    → Fits type I P
unfolding compile_type
compile_type-Fits object_type nested inner m p i (out, h) =
    when_ok nested h (λ compiled e rest. p (compiled, e))
compile_type-Fits array_type nested inner m p i (out, h) =
    when_ok inner h (λ items e rest. i (items, e))
compile_type-Fits (other_type s) nested inner m p i (out, h) = cc
compile_type-Fits string_type nested inner m p i h = tt
compile_type-Fits integer_type nested inner m p i h = tt
compile_type-Fits number_type nested inner m p i h = tt
compile_type-Fits boolean_type nested inner m p i h = tt
compile_type-Fits date_type nested inner m p i h = tt
compile_type-Fits datetime_type nested inner m p i h = tt

mutual
  unfolding IsCompilable compile_field

  pub compile_field-Succeeds : (f : FieldContract) → IsCompilable f → Succeeds (compile_field f)
  compile_field-Succeeds (field_contract key label description type required enum items properties)
        h =
      let (typed, e) =
        compile_type-Succeeds type (compile_properties properties [] []) (compile_items items)
          (with_text "description" description (with_text "title" label []))
          (λ p. compile_properties-Succeeds properties [] [] [] (λ k. refl) p)
          (λ i. compile_items-Succeeds items i) h.1 in
      rw (h.0, e) (_, refl)

  compile_items-Succeeds : (i : ItemContract) → HasCompilable i → Succeeds (compile_items i)
  compile_items-Succeeds no_items h = absurd h
  compile_items-Succeeds (items_of f) h = compile_field-Succeeds f h

  compile_properties-Succeeds :
      (fs : FieldContracts) (properties : Schema) (required seen : List String)
      → HasKeys properties seen
      → AreCompilable fs seen
      → Succeeds (compile_properties fs properties required)
  compile_properties-Succeeds no_fields properties required seen k h = (_, refl)
  compile_properties-Succeeds (fields f fs) properties required seen k h =
      let (compiled, e) = compile_field-Succeeds f h.0 in
      let fresh = k (field_key f) ∙ h.1.0 in
      rw (e, fresh)
        (compile_properties-Succeeds fs (insert (field_key f) (schema_object compiled) properties)
          (add_required f required) (field_key f ∷ seen)
          (HasKeys-insert properties seen f compiled k) h.1.1)

mutual
  unfolding IsCompilable compile_field

  pub IsCompilable-of-compile : (f : FieldContract) → Succeeds (compile_field f) → IsCompilable f
  IsCompilable-of-compile (field_contract key label description type required enum items properties)
        (out, h) =
      let nested = compile_properties properties [] [] in
      let inner = compile_items items in
      let described = with_text "description" description (with_text "title" label []) in
      when_passed (is_blank key) key_empty h (λ keyed h1.
        when_ok (compile_type type nested inner described) h1 (λ typed e rest. (
          keyed,
          compile_type-Fits type nested inner described
              (λ p. AreCompilable-of-compile properties [] [] [] (λ k. refl) p)
              (λ i. HasCompilable-of-compile items i) (typed, e),
        )))

  HasCompilable-of-compile : (i : ItemContract) → Succeeds (compile_items i) → HasCompilable i
  HasCompilable-of-compile no_items (out, h) = cc
  HasCompilable-of-compile (items_of f) h = IsCompilable-of-compile f h

  AreCompilable-of-compile :
      (fs : FieldContracts) (properties : Schema) (required seen : List String)
      → HasKeys properties seen
      → Succeeds (compile_properties fs properties required)
      → AreCompilable fs seen
  AreCompilable-of-compile no_fields properties required seen k h = tt
  AreCompilable-of-compile (fields f fs) properties required seen k (out, h) =
      when_ok (compile_field f) h (λ compiled e h1.
        when_passed (has (field_key f) properties) (nested_duplicate (field_key f)) h1 (λ fresh h2.
          (
            IsCompilable-of-compile f (compiled, e),
            (
              sym (k (field_key f)) ∙ fresh,
              AreCompilable-of-compile fs (insert (field_key f) (schema_object compiled) properties)
                  (add_required f required) (field_key f ∷ seen)
                  (HasKeys-insert properties seen f compiled k) (out, h2),
            ),
          )))
