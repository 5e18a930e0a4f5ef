-- ===== src/Workflow/Contracts/Examples.antt =====
-- internal/domain/workflow/contracts.go: the contracts of contracts_test.go in part, and those of a draft.
use req_flow.Prelude.{
  String, Bool, true, false, List, [], ◌∷◌, Option, none, some, ◌≡◌, refl, ok, err, trim_space,
  valid_identifier, decimal, element_path, ◌↔◌,
}
use req_flow.Prelude.Int.{pos}
use req_flow.Json.{Json, boolean, text, array, object, nil, cons, end, member, RawMessage, document}
use req_flow.Workflow.Model.{
  FieldType, string_type, array_type, FieldContract, field_contract, no_items, items_of,
  FieldContracts, no_fields, fields, DataContract, RuleDecision, user_confirmed, high,
  WorkflowDraft,
}
use req_flow.Workflow.Catalog.{decimal_ℤ, capability_key, lookup_capability}
use req_flow.Workflow.Validate.Issues.{
  publish_mode, has_errors, before, sort_issues, insert_issue, same_severity,
}
use req_flow.Workflow.Validate.Index.{
  validate_identity, valid_workflow_port, index_ports, resolve_capability, index_nodes,
  index_definition,
}
use req_flow.Workflow.Validate.Connections.{
  endpoint_key, connection_key, resolve_workflow_port, resolve_node_port, resolve_source_kind,
  resolve_source, resolve_target_kind, resolve_target, link_nodes, connect_resolved, connect_ends,
  connect_one, connect_all,
}
use req_flow.Workflow.Validate.Topology.{
  validate_coverage, heads_of, visit_from, walk_issues, head_issues, validate_topology,
}
use req_flow.Workflow.Validate.Fields.{validate_data_contract, validate_fields, index_fields}
use req_flow.Workflow.Validate.Decisions.{
  has_rule_section, validate_decisions, index_decisions, decisions_issues,
  require_confirmed_decision, validate_rules, case_issues, passed_issues, validate_acceptance_cases,
  collect_issues, validate,
}
use req_flow.Workflow.Validate.Examples.{accepts_config, compiles, imports, built}
use req_flow.Workflow.Contracts.Defs.{
  key_empty, in_field, object_schema, schema_object, compile_type, compile_field, compile_fields,
  compile_field_schema, compile_data_contract, lacks_fields,
}
use req_flow.Workflow.Contracts.Compilable.{IsCompilable, AreCompilable, Succeeds}
use req_flow.Workflow.Contracts.Compiled.{
  required_keys, AreSchemasOf, compile_field_schema_iff, compile_field_schema-AreSchemasOf,
}
use req_flow.Workflow.Contracts.Validated.{HaveItems, validate-compile_data_contract}

abbrev plain : String → FieldType → Bool → FieldContract
plain key type required = field_contract key key "" type required [] no_items no_fields

abbrev tags : String → FieldContract
tags key =
    field_contract "tags" "tags" "" array_type false [] (items_of (plain key string_type true))
      no_fields

abbrev order_fields : String → FieldContracts
order_fields item = fields (plain "order_no" string_type true) (fields (tags item) no_fields)

-- `json.Marshal` may give any bytes; here it gives the value itself.
abbrev to_document : Json → Option RawMessage
to_document j = some (document j)

abbrev no_hash : RawMessage → String
no_hash raw = ""

abbrev order_schema : RawMessage
order_schema = document (
    object (
      member "type" (text "object") (
        member "properties"
          (object (
            member "order_no"
              (object (member "title" (text "order_no") (member "type" (text "string") end)))
              (member "tags"
                (object (
                  member "title" (text "tags") (
                    member "type" (text "array")
                      (member "items" (object (member "type" (text "string") end)) end))))
                end)))
          (member "additionalProperties" (boolean false)
            (member "required" (array (cons (text "order_no") nil)) end)))))

compiled_so : compile_field_schema to_document no_hash (order_fields "item") ≡ ok (order_schema, "")
unfolding compile_field_schema compile_fields compile_field compile_type object_schema
compiled_so = refl

-- Items without a key of their own make the compilation fail.
items_without_key :
    compile_field_schema to_document no_hash (order_fields "") ≡ err (in_field "tags" key_empty)
unfolding compile_field_schema compile_fields compile_field compile_type object_schema
items_without_key = refl

compile_field_schema-AreSchemasOf_example :
    (properties : List (String × Json)) × AreSchemasOf (order_fields "item") properties
    × (to_document
          (schema_object (object_schema (properties, required_keys (order_fields "item")) []))
        ≡ some order_schema)
    × ("" ≡ no_hash order_schema)
compile_field_schema-AreSchemasOf_example =
    compile_field_schema-AreSchemasOf to_document no_hash (order_fields "item") compiled_so

compile_field_schema_iff_example :
    Succeeds (compile_field_schema to_document no_hash (order_fields "item"))
    ↔ ((lacks_fields (order_fields "item") ≡ false) × AreCompilable (order_fields "item") [])
compile_field_schema_iff_example =
    compile_field_schema_iff to_document no_hash (order_fields "item") (λ j. (document j, refl))

abbrev orders_contract : String → DataContract
orders_contract item = record {
  record_granularity = "an order";
  key_fields = "order_no" ∷ [];
  contract_fields = order_fields item;
}

abbrev decided : String → RuleDecision
decided path = record {
  path = path;
  value = document (boolean true);
  source = user_confirmed;
  risk = high;
  confidence = pos 1_000_000;
  reason = "agreed";
  evidence = [];
  confirmed_by = "local-developer";
  confirmed_at = 3;
}

abbrev orders : String → WorkflowDraft
orders item = record imports {
  rules = record {
    data_rules = some (orders_contract item);
    extraction_rules = none;
    search_spec = none;
    output_rules = none;
    decisions =
        decided "rules.data_contract.record_granularity"
        ∷ decided "rules.data_contract.key_fields"
        ∷ [];
  };
}

-- The validation accepts the contract, and the same one with items that have no key.
orders_valid :
    (validate accepts_config compiles (orders "item") (some (lookup_capability built)) publish_mode
      ≡ [])
    × (validate accepts_config compiles (orders "") (some (lookup_capability built)) publish_mode
        ≡ [])
unfolding validate collect_issues validate_identity index_definition index_ports valid_workflow_port
    index_nodes resolve_capability lookup_capability capability_key decimal_ℤ decimal element_path
    trim_space valid_identifier connect_all connect_one connect_ends connect_resolved link_nodes
    resolve_source resolve_target resolve_source_kind resolve_target_kind resolve_node_port
    resolve_workflow_port endpoint_key connection_key validate_coverage validate_topology heads_of
    head_issues visit_from walk_issues validate_rules has_rule_section validate_decisions
    decisions_issues index_decisions require_confirmed_decision validate_acceptance_cases
    case_issues passed_issues sort_issues insert_issue before same_severity validate_data_contract
    validate_fields index_fields
orders_valid = (refl, refl)

orders_accepted :
    has_errors (
      validate accepts_config compiles
        (orders "item")
        (some (lookup_capability built))
        publish_mode)
    ≡ false
orders_accepted = rw (orders_valid.0) refl

orders-HaveItems : HaveItems (order_fields "item")
unfolding HaveItems IsCompilable
orders-HaveItems = (tt, ((refl, tt), tt))

validate-compile_data_contract_example :
    Succeeds (compile_data_contract to_document no_hash (orders_contract "item"))
validate-compile_data_contract_example =
    validate-compile_data_contract to_document no_hash accepts_config compiles (orders "item")
      (some (lookup_capability built)) (orders_contract "item") orders_accepted refl
      orders-HaveItems (λ j. (document j, refl))
