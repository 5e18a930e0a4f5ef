-- ===== src/Workflow/Contracts/Compiled.antt =====
-- internal/domain/workflow/contracts.go: `compileFieldSchema`, when it succeeds and what it returns.
use req_flow.Prelude.{
  String, false, List, [], ◌∷◌, ◌++◌, Option, none, some, ◌≡◌, refl, sym, ◌∙◌, ap, arith, has,
  insert, insert-absent, if◌then◌else◌, Bool-cases, inl, inr, ◌↔◌, Result, ok, err, when_ok,
  when_passed,
}
use mathlib.Core.List.{append-nil, append_assoc}
use req_flow.Json.{Json, RawMessage}
use req_flow.Workflow.Model.{
  FieldContract, FieldContracts, no_fields, fields, field_key, field_required,
}
use req_flow.Workflow.Contracts.Defs.{
  ContractError, contract_empty, field_duplicate, Schema, schema_object, object_schema,
  add_required, compile_field, within, compile_fields, lacks_fields, marshalled,
  compile_field_schema,
}
use req_flow.Workflow.Contracts.Compilable.{
  AreCompilable, Succeeds, HasKeys, HasKeys-insert, compile_field-Succeeds, IsCompilable-of-compile,
}

within-ok :
    {A : Type 0} (key : String) (r : Result ContractError A) {a : A}
    → within key r ≡ ok a
    → r ≡ ok a
within-ok key (ok b) h = h
within-ok key (err e) h = cc

marshalled-ok : (o : Option RawMessage) {raw : RawMessage} → marshalled o ≡ ok raw → o ≡ some raw
marshalled-ok none h = cc
marshalled-ok (some bytes) h = ground arith

compile_fields-Succeeds :
    (fs : FieldContracts) (properties : Schema) (required seen : List String)
    → HasKeys properties seen
    → AreCompilable fs seen
    → Succeeds (compile_fields fs properties required)
unfolding compile_fields AreCompilable
compile_fields-Succeeds no_fields properties required seen k h = (_, refl)
compile_fields-Succeeds (fields f fs) properties required seen k h =
    let (compiled, e) = compile_field-Succeeds f h.0 in
    let fresh = k (field_key f) ∙ h.1.0 in
    rw (e, fresh)
      (compile_fields-Succeeds fs (insert (field_key f) (schema_object compiled) properties)
        (add_required f required) (field_key f ∷ seen) (HasKeys-insert properties seen f compiled k)
        h.1.1)

AreCompilable-of-fields :
    (fs : FieldContracts) (properties : Schema) (required seen : List String)
    → HasKeys properties seen
    → Succeeds (compile_fields fs properties required)
    → AreCompilable fs seen
unfolding compile_fields AreCompilable
AreCompilable-of-fields no_fields properties required seen k h = tt
AreCompilable-of-fields (fields f fs) properties required seen k (out, h) =
    when_ok (within (field_key f) (compile_field f)) h (λ compiled e h1.
      when_passed (has (field_key f) properties) (field_duplicate (field_key f)) h1 (λ fresh h2. (
        IsCompilable-of-compile f (compiled, within-ok (field_key f) (compile_field f) e),
        (
          sym (k (field_key f)) ∙ fresh,
          AreCompilable-of-fields fs (insert (field_key f) (schema_object compiled) properties)
              (add_required f required) (field_key f ∷ seen)
              (HasKeys-insert properties seen f compiled k) (out, h2),
        ),
      )))

-- The keys of the required fields, in the order of the fields.
abbrev pub required_keys : FieldContracts → List String
required_keys no_fields = []
required_keys (fields f fs) =
    if field_required f then field_key f ∷ required_keys fs else required_keys fs

-- The properties are the fields' own schemas under the fields' keys, in their order.
unfoldable pub AreSchemasOf : FieldContracts → Schema → Type 0
AreSchemasOf no_fields [] = Unit
AreSchemasOf no_fields (p ∷ ps) = ⊥
AreSchemasOf (fields f fs) [] = ⊥
AreSchemasOf (fields f fs) ((key, schema) ∷ ps) =
    (key ≡ field_key f)
    × (((compiled : Schema) × (compile_field f ≡ ok compiled) × (schema ≡ schema_object compiled))
        × AreSchemasOf fs ps)

required-split :
    (f : FieldContract) (required : List String) (fs : FieldContracts)
    → add_required f required ++ required_keys fs ≡ required ++ required_keys (fields f fs)
required-split f required fs = elim (Bool-cases (field_required f)) [
  | inl must ↦ rw must (append_assoc required (field_key f ∷ []) (required_keys fs))
  | inr optional ↦ rw optional refl
]

compile_fields-AreSchemasOf :
    (fs : FieldContracts) (properties : Schema) (required : List String)
    {out : Schema × List String}
    → compile_fields fs properties required ≡ ok out
    → (added : Schema) × (out ≡ (properties ++ added, required ++ required_keys fs))
      × AreSchemasOf fs added
unfolding compile_fields AreSchemasOf
compile_fields-AreSchemasOf no_fields properties required {out} h =
    ([], rw (append-nil properties, append-nil required) (ground arith), tt)
compile_fields-AreSchemasOf (fields f fs) properties required {out} h =
    when_ok (within (field_key f) (compile_field f)) h (λ compiled e h1.
      when_passed (has (field_key f) properties) (field_duplicate (field_key f)) h1 (λ fresh h2.
        let schema = schema_object compiled in
        let (added, e', same) =
          compile_fields-AreSchemasOf fs (insert (field_key f) schema properties)
            (add_required f required) h2 in
        let grown : insert (field_key f) schema properties ++ added
            ≡ properties ++ ((field_key f, schema) ∷ added) =
          ap (λ (m : Schema). m ++ added) (insert-absent (field_key f) schema properties fresh)
          ∙ append_assoc properties ((field_key f, schema) ∷ []) added in
        (
          (field_key f, schema) ∷ added,
          e'
              ∙ ap (λ (m : Schema). (m, add_required f required ++ required_keys fs)) grown
              ∙ ap (λ (r : List String). (properties ++ ((field_key f, schema) ∷ added), r))
                  (required-split f required fs),
          (refl, ((compiled, within-ok (field_key f) (compile_field f) e, refl), same)),
        )))

module _ (marshal : Json → Option RawMessage) (digest : RawMessage → String) where
  -- Where every schema can be marshalled, a contract compiles exactly if it has a field and every field, at every
  -- depth, has a key that no field beside it has, a known type, and, where it is an array, items that compile.
  pub compile_field_schema_iff :
      (fs : FieldContracts)
      → ((j : Json) → (raw : RawMessage) × (marshal j ≡ some raw))
      → Succeeds (compile_field_schema marshal digest fs)
        ↔ ((lacks_fields fs ≡ false) × AreCompilable fs [])
  unfolding compile_field_schema
  compile_field_schema_iff fs total = (
    (λ (out, h). when_passed (lacks_fields fs) contract_empty h (λ some_field h1.
        when_ok (compile_fields fs [] []) h1 (λ compiled e rest.
          (some_field, AreCompilable-of-fields fs [] [] [] (λ k. refl) (compiled, e))))),
    (λ (some_field, h).
        let (compiled, e) = compile_fields-Succeeds fs [] [] [] (λ k. refl) h in
        let (raw, e') = total (schema_object (object_schema compiled [])) in
        rw (some_field, e, e') (_, refl)),
  )

  -- A contract is compiled to the object schema with the schema of each field under the field's key, in order, and the
  -- keys of the required fields, and the hash is that of its bytes.
  pub compile_field_schema-AreSchemasOf :
      (fs : FieldContracts) {raw : RawMessage} {hash : String}
      → compile_field_schema marshal digest fs ≡ ok (raw, hash)
      → (properties : Schema) × AreSchemasOf fs properties
        × (marshal (schema_object (object_schema (properties, required_keys fs) [])) ≡ some raw)
        × (hash ≡ digest raw)
  unfolding compile_field_schema
  compile_field_schema-AreSchemasOf fs {raw} {hash} h =
      when_passed (lacks_fields fs) contract_empty h (λ some_field h1.
        when_ok (compile_fields fs [] []) h1 (λ compiled e h2.
          when_ok (marshalled (marshal (schema_object (object_schema compiled [])))) h2
            (λ bytes made h3.
              let (properties, same, schemas) = compile_fields-AreSchemasOf fs [] [] e in
              let same_bytes : bytes ≡ raw = ground arith in
              let written : marshal (schema_object (object_schema compiled [])) ≡ some bytes =
                marshalled-ok (marshal (schema_object (object_schema compiled []))) made in
              (
                properties,
                schemas,
                ap (λ c. marshal (schema_object (object_schema c []))) (sym same)
                    ∙ written
                    ∙ ap some same_bytes,
                ground arith,
              ))))
