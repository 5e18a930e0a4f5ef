-- ===== src/Workflow/Contracts/Defs.antt =====
-- internal/domain/workflow/contracts.go: `CompileDataContract`, `CompileOutputContract` and the compilation of fields.
-- A `map[string]any` is an association list of JSON values. `json.Marshal`, which sorts the keys, and the SHA-256 of a
-- text are parameters.
use req_flow.Prelude.{
  String, Bool, true, false, List, [], ◌∷◌, ◌++◌, Option, none, some, is_blank, ◌==◌, has, insert,
  if◌then◌else◌, Result, ok, err, ◌>>=◌, ◌>>◌, refuse_if,
}
use req_flow.Json.{
  Json, boolean, text, array, object, Items, nil, cons, Members, end, member, RawMessage,
}
use req_flow.Workflow.Model.{
  FieldType, string_type, integer_type, number_type, boolean_type, date_type, datetime_type,
  object_type, array_type, other_type, FieldContract, field_contract, ItemContract, no_items,
  items_of, FieldContracts, no_fields, fields, field_key, field_required, DataContract,
  OutputContract,
}

pub data ContractError : Type 0 where
  contract_empty key_empty items_missing marshal_failed : ContractError
  type_unsupported field_duplicate nested_duplicate : String → ContractError
  in_field : String → ContractError → ContractError

-- `map[string]any`
abbrev pub Schema : Type 0
Schema = List (String × Json)

abbrev pub schema_members : Schema → Members
schema_members [] = end
schema_members ((k, v) ∷ m) = member k v (schema_members m)

abbrev pub schema_object : Schema → Json
schema_object m = object (schema_members m)

abbrev pub text_items : List String → Items
text_items [] = nil
text_items (s ∷ ss) = cons (text s) (text_items ss)

-- `delete(m, k)`
abbrev pub delete : String → Schema → Schema
delete k [] = []
delete k ((j, v) ∷ m) = if j == k then delete k m else (j, v) ∷ delete k m

-- `if len(values) > 0 { m[key] = values }`
abbrev pub with_texts : String → List String → Schema → Schema
with_texts key [] m = m
with_texts key (s ∷ ss) m = insert key (array (text_items (s ∷ ss))) m

abbrev pub with_text : String → String → Schema → Schema
with_text key value m = if is_blank value then m else insert key (text value) m

-- The object of the schemas of fields: `type`, `properties`, `additionalProperties` and `required`.
unfoldable pub object_schema : Schema × List String → Schema → Schema
object_schema (properties, required) m = with_texts "required" required (
    insert "additionalProperties" (boolean false)
      (insert "properties" (schema_object properties) (insert "type" (text "object") m)))

-- The switch over the type of a field, with what its properties and its items are compiled to.
unfoldable pub compile_type :
    FieldType
    → Result ContractError (Schema × List String)
    → Result ContractError Schema
    → Schema
    → Result ContractError Schema
unfolding object_schema
compile_type string_type nested inner m = ok (insert "type" (text "string") m)
compile_type integer_type nested inner m = ok (insert "type" (text "integer") m)
compile_type number_type nested inner m = ok (insert "type" (text "number") m)
compile_type boolean_type nested inner m = ok (insert "type" (text "boolean") m)
compile_type date_type nested inner m =
    ok (insert "format" (text "date") (insert "type" (text "string") m))
compile_type datetime_type nested inner m =
    ok (insert "format" (text "date-time") (insert "type" (text "string") m))
compile_type object_type nested inner m = nested >>= λ compiled. ok (object_schema compiled m)
compile_type array_type nested inner m = inner >>= λ items.
    ok (insert "items" (schema_object (delete "title" items)) (insert "type" (text "array") m))
compile_type (other_type s) nested inner m = err (type_unsupported s)

abbrev pub add_required : FieldContract → List String → List String
add_required f required = if field_required f then required ++ (field_key f ∷ []) else required

-- The loop over the properties has the map and the required keys that it has built so far.
unfoldable mutual
  unfolding compile_type

  pub compile_field : FieldContract → Result ContractError Schema
  compile_field (field_contract key label description type required enum items properties) =
      let nested = compile_properties properties [] [] in
      let inner = compile_items items in
      let described = with_text "description" description (with_text "title" label []) in
      refuse_if (is_blank key) key_empty
      >> (compile_type type nested inner described >>= λ typed. ok (with_texts "enum" enum typed))

  pub compile_items : ItemContract → Result ContractError Schema
  compile_items no_items = err items_missing
  compile_items (items_of f) = compile_field f

  pub compile_properties :
      FieldContracts → Schema → List String → Result ContractError (Schema × List String)
  compile_properties no_fields properties required = ok (properties, required)
  compile_properties (fields f fs) properties required = compile_field f >>= λ compiled.
      refuse_if (has (field_key f) properties) (nested_duplicate (field_key f))
      >> compile_properties fs (insert (field_key f) (schema_object compiled) properties)
          (add_required f required)

abbrev pub within : {A : Type 0} → String → Result ContractError A → Result ContractError A
within key (ok a) = ok a
within key (err e) = err (in_field key e)

-- The loop of `compileFieldSchema`.
unfoldable pub compile_fields :
    FieldContracts → Schema → List String → Result ContractError (Schema × List String)
unfolding compile_field
compile_fields no_fields properties required = ok (properties, required)
compile_fields (fields f fs) properties required =
    within (field_key f) (compile_field f) >>= λ compiled.
    refuse_if (has (field_key f) properties) (field_duplicate (field_key f))
    >> compile_fields fs (insert (field_key f) (schema_object compiled) properties)
        (add_required f required)

abbrev pub lacks_fields : FieldContracts → Bool
lacks_fields no_fields = true
lacks_fields (fields f fs) = false

abbrev pub marshalled : Option RawMessage → Result ContractError RawMessage
marshalled none = err marshal_failed
marshalled (some raw) = ok raw

module _ (marshal : Json → Option RawMessage) (digest : RawMessage → String) where
  unfoldable pub compile_field_schema : FieldContracts → Result ContractError (RawMessage × String)
  unfolding object_schema compile_fields
  compile_field_schema fs = do
    refuse_if (lacks_fields fs) contract_empty
    compiled ← compile_fields fs [] []
    raw ← marshalled (marshal (schema_object (object_schema compiled [])))
    ok (raw, digest raw)

  unfoldable pub compile_data_contract : DataContract → Result ContractError (RawMessage × String)
  unfolding compile_field_schema
  compile_data_contract contract = compile_field_schema contract.contract_fields

  unfoldable pub compile_output_contract :
      OutputContract → Result ContractError (RawMessage × String)
  unfolding compile_field_schema
  compile_output_contract contract = compile_field_schema contract.output_fields
