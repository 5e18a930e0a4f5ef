-- ===== src/Workflow/Model/Capability.antt =====
-- internal/domain/workflow/model.go: capabilities, their ports, and the endpoints of connections.
-- A Go string type with named constants is a data type with a constructor for each constant; `other` is any
-- other text, where the program can meet one.
use req_flow.Prelude.{String, Bool, List}
use req_flow.Prelude.Int.{ℤ}
use req_flow.Json.{RawMessage}

abbrev pub ResourceType : Type 0
ResourceType = String

pub record CapabilityRef : Type 0 where
  pub kind : String
  pub version : ℤ

pub data PortRole : Type 0 where
  primary side delivery : PortRole
  other_role : String → PortRole

pub record PortDefinition : Type 0 where
  pub name : String
  pub label : String
  pub resource_type : ResourceType
  pub role : PortRole
  pub required : Bool
  pub multiple : Bool
  pub description : String

pub data RuleSection : Type 0 where
  data_contract extraction search_rules output_contract : RuleSection
  other_section : String → RuleSection

pub record CapabilityDefinition : Type 0 where
  pub ref : CapabilityRef
  pub label : String
  pub description : String
  pub inputs : List PortDefinition
  pub outputs : List PortDefinition
  pub rule_requirements : List RuleSection
  pub config_schema : RawMessage
  pub default_config : RawMessage
  pub has_side_effects : Bool
  pub requires_llm : Bool
  pub manual_completion : Bool

pub record WorkflowPort : Type 0 where
  pub name : String
  pub label : String
  pub resource_type : ResourceType
  pub required : Bool
  pub description : String

pub data EndpointKind : Type 0 where
  workflow_input node_output node_input workflow_output : EndpointKind
  other_endpoint : String → EndpointKind

pub record Endpoint : Type 0 where
  pub kind : EndpointKind
  pub node_id : String
  pub port : String

pub record Connection : Type 0 where
  pub from : Endpoint
  pub to : Endpoint

pub record WorkflowNode : Type 0 where
  pub id : String
  pub name : String
  pub capability : CapabilityRef
  pub config : RawMessage
