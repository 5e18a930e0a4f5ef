-- ===== src/Workflow/Editor/Defs/Ports.antt =====
-- internal/app/workflow/draft_editor.go: the editor, its errors, and what its commands share.
use req_flow.Prelude.{
  String, Bool, true, false, not, ◌&&◌, List, [], ◌∷◌, ◌++◌, map, Option, none, some, ◌==◌,
  if◌then◌else◌, is_blank, trim_space, has_prefix, lookup, any, find, Result, ok, err, ◌>>=◌, ◌>>◌,
  refuse_if,
}
use req_flow.Prelude.Int.{pos, increment}
use req_flow.Json.{RawMessage}
use req_flow.Workflow.Model.{
  CapabilityRef, CapabilityDefinition, PortDefinition, PortRole, primary, side, delivery,
  other_role, ResourceType, WorkflowPort, WorkflowNode, WorkflowDraft, Connection, Endpoint,
  EndpointKind, workflow_input, workflow_output, node_input, node_output, other_endpoint,
  AcceptanceCase, RuleDecision,
}
use req_flow.Workflow.Catalog.{is_primary_role, is_side_role}
use req_flow.Workflow.Validate.Issues.{draft_mode, has_errors}
use req_flow.Workflow.Validate.Connections.{find_port}
use req_flow.Workflow.Validate.Decisions.{validate}

-- `DraftEditor`: the lookup of its catalog, and what stands for code outside this file: `valid_config` for
-- `ValidateCapabilityConfig`, `regex_compiles` for `regexp.Compile`, `reread` for `json.Unmarshal` of `json.Marshal`,
-- and `same_bytes` for the equality of two raw messages, whose white space the model leaves out.
pub record Editor : Type 0 where
  pub find_capability : CapabilityRef → Option CapabilityDefinition
  pub valid_config : CapabilityDefinition → RawMessage → Bool
  pub regex_compiles : String → Bool
  pub reread : WorkflowDraft → Option WorkflowDraft
  pub same_bytes : RawMessage → RawMessage → Bool

pub data EditError : Type 0 where
  clone_failed not_blank node_exists capability_missing config_invalid port_missing
        type_unresolved :
      EditError
  type_mismatch not_main_connection connection_missing side_input_missing edit_invalid last_node
        node_missing :
      EditError
  output_exposed not_middle_node not_tail output_not_exposed not_head input_not_connected :
      EditError
  port_incompatible required_input_missing direction_invalid confirmation_invalid value_differs
        decision_missing :
      EditError

-- `value, ok := …; if !ok { return e }`
abbrev pub require : {A : Type 0} → Option A → EditError → Result EditError A
require none e = err e
require (some a) e = ok a

unfoldable pub clone_draft : Editor → WorkflowDraft → Result EditError WorkflowDraft
clone_draft e draft = require (e.reread draft) clone_failed

-- Equality of two kinds, of two roles, and of two connections.
abbrev pub same_kind : EndpointKind → EndpointKind → Bool
same_kind workflow_input workflow_input = true
same_kind node_output node_output = true
same_kind node_input node_input = true
same_kind workflow_output workflow_output = true
same_kind (other_endpoint s) (other_endpoint t) = s == t
same_kind _ _ = false

abbrev pub same_role : PortRole → PortRole → Bool
same_role primary primary = true
same_role side side = true
same_role delivery delivery = true
same_role (other_role s) (other_role t) = s == t
same_role _ _ = false

abbrev pub same_endpoint : Endpoint → Endpoint → Bool
same_endpoint a b = same_kind a.kind b.kind && (a.node_id == b.node_id && a.port == b.port)

abbrev pub same_connection : Connection → Connection → Bool
same_connection left right = same_endpoint left.from right.from && same_endpoint left.to right.to

abbrev pub contains_connection : List Connection → Connection → Bool
contains_connection connections target = any (λ c. same_connection c target) connections

-- The connections but for those that are the same as the target.
abbrev pub without_connection : Connection → List Connection → List Connection
without_connection target [] = []
without_connection target (c ∷ cs) =
    if same_connection c target
    then without_connection target cs
    else c ∷ without_connection target cs

-- `primaryPort`: the one primary port, and nothing where there are none or several.
primary_port_from : List PortDefinition → Option PortDefinition → Option PortDefinition
primary_port_from [] found = found
primary_port_from (port ∷ ports) found = elim (is_primary_role port.role) [
  | false ↦ primary_port_from ports found
  | true ↦ elim found [ none ↦ primary_port_from ports (some port) | some earlier ↦ none ]
]

unfoldable pub primary_port : List PortDefinition → Option PortDefinition
unfolding primary_port_from
primary_port ports = primary_port_from ports none

-- The zero value that Go returns beside `false`.
abbrev pub port_or_zero : Option PortDefinition → PortDefinition
port_or_zero (some port) = port
port_or_zero none = record {
  name = "";
  label = "";
  resource_type = "";
  role = other_role "";
  required = false;
  multiple = false;
  description = "";
}

-- `mapping[key]` of a `map[string]string`.
abbrev pub text_at : String → List (String × String) → String
text_at key mapping = elim (lookup key mapping) [ none ↦ "" | some value ↦ value ]

unfoldable pub mapped_port : List (String × String) → String → String
mapped_port mapping old_name =
    let mapped = trim_space (text_at old_name mapping) in
    if is_blank mapped then old_name else mapped

abbrev pub workflow_port_type : List WorkflowPort → String → Option ResourceType
workflow_port_type [] name = none
workflow_port_type (port ∷ ports) name =
    if port.name == name then some port.resource_type else workflow_port_type ports name

-- The type of a port of a node, among the ports that `ports_of` takes of its capability; a node whose capability is
-- not registered ends the search.
unfoldable pub node_port_type :
    Editor
    → (CapabilityDefinition → List PortDefinition)
    → List WorkflowNode
    → String
    → String
    → Option ResourceType
node_port_type e ports_of [] id name = none
node_port_type e ports_of (node ∷ nodes) id name =
    let rest = node_port_type e ports_of nodes id name in
    if not (node.id == id) then rest else elim (e.find_capability node.capability) [
      | none ↦ none
      | some capability ↦ elim (find_port (ports_of capability) name) [
        | none ↦ rest
        | some port ↦ some port.resource_type
      ]
    ]

source_type_of : EndpointKind → Editor → WorkflowDraft → Endpoint → Option ResourceType
unfolding node_port_type
source_type_of workflow_input e draft endpoint = workflow_port_type draft.inputs endpoint.port
source_type_of node_output e draft endpoint =
    node_port_type e (λ c. c.outputs) draft.nodes endpoint.node_id endpoint.port
source_type_of _ e draft endpoint = none

unfoldable pub source_type : Editor → WorkflowDraft → Endpoint → Option ResourceType
unfolding source_type_of
source_type e draft endpoint = source_type_of endpoint.kind e draft endpoint

target_type_of : EndpointKind → Editor → WorkflowDraft → Endpoint → Option ResourceType
unfolding node_port_type
target_type_of workflow_output e draft endpoint = workflow_port_type draft.outputs endpoint.port
target_type_of node_input e draft endpoint =
    node_port_type e (λ c. c.inputs) draft.nodes endpoint.node_id endpoint.port
target_type_of _ e draft endpoint = none

unfoldable pub target_type : Editor → WorkflowDraft → Endpoint → Option ResourceType
unfolding target_type_of
target_type e draft endpoint = target_type_of endpoint.kind e draft endpoint

abbrev pub type_matches : Option ResourceType → ResourceType → Bool
type_matches none t = false
type_matches (some s) t = s == t

abbrev pub input_of : String → Endpoint
input_of port = record { kind = workflow_input; node_id = ""; port = port }

abbrev pub output_of : String → Endpoint
output_of port = record { kind = workflow_output; node_id = ""; port = port }

abbrev pub into_node : String → String → Endpoint
into_node id port = record { kind = node_input; node_id = id; port = port }

abbrev pub out_of_node : String → String → Endpoint
out_of_node id port = record { kind = node_output; node_id = id; port = port }

abbrev pub wire : Endpoint → Endpoint → Connection
wire from to = record { from = from; to = to }

abbrev pub has_node : String → List WorkflowNode → Bool
has_node id nodes = any (λ existing. existing.id == id) nodes

abbrev pub ensure_new_node : List WorkflowNode → WorkflowNode → Result EditError (Unit {0})
ensure_new_node nodes node = refuse_if (has_node node.id nodes) node_exists

-- `node`: the first node with the identifier, and its capability.
unfoldable pub find_node :
    Editor → List WorkflowNode → String → Result EditError (WorkflowNode × CapabilityDefinition)
find_node e nodes id = do
  node ← require (find (λ (n : WorkflowNode). n.id == id) nodes) node_missing
  capability ← require (e.find_capability node.capability) capability_missing
  ok (node, capability)

-- The port of that name, where it has the role that `p` takes.
unfoldable pub require_port :
    (PortRole → Bool) → List PortDefinition → String → Result EditError PortDefinition
require_port p ports name = do
  port ← require (find_port ports name) port_missing
  refuse_if (not (p port.role)) port_missing
  ok port

-- The connections of the required side inputs, each behind those before it.
unfoldable pub bind_required_side_inputs :
    Editor
    → WorkflowDraft
    → String
    → List (String × String)
    → List PortDefinition
    → List Connection
    → Result EditError (List Connection)
bind_required_side_inputs e draft id bindings [] connections = ok connections
bind_required_side_inputs e draft id bindings (port ∷ ports) connections =
    elim (is_side_role port.role && port.required) [
      | false ↦ bind_required_side_inputs e draft id bindings ports connections
      | true ↦
          let name = trim_space (text_at port.name bindings) in
          refuse_if (is_blank name) side_input_missing
          >> refuse_if (not (type_matches (source_type e draft (input_of name)) port.resource_type))
              type_mismatch
          >> bind_required_side_inputs e draft id bindings ports
              (connections ++ wire (input_of name) (into_node id port.name) ∷ [])
    ]

-- `InsertBetween` binds them by a loop of its own, which looks at no type.
unfoldable pub insert_side_inputs :
    String
    → List (String × String)
    → List PortDefinition
    → List Connection
    → Result EditError (List Connection)
insert_side_inputs id bindings [] connections = ok connections
insert_side_inputs id bindings (port ∷ ports) connections =
    elim (is_side_role port.role && port.required) [
      | false ↦ insert_side_inputs id bindings ports connections
      | true ↦
          let name = trim_space (text_at port.name bindings) in
          refuse_if (is_blank name) side_input_missing
          >> insert_side_inputs id bindings ports
              (connections ++ wire (input_of name) (into_node id port.name) ∷ [])
    ]

abbrev pub stale_case : AcceptanceCase → AcceptanceCase
stale_case test = record test {
  last_passed = false;
  last_passed_revision = pos 0;
  last_preview_id = "";
  last_run_at = 0;
}

unfoldable pub invalidate_acceptance : WorkflowDraft → WorkflowDraft
invalidate_acceptance draft = record draft {
  acceptance_cases = map stale_case draft.acceptance_cases;
}

abbrev pub unconfirm : String → RuleDecision → RuleDecision
unconfirm prefix decision =
    if has_prefix decision.path prefix
    then record decision { confirmed_by = ""; confirmed_at = 0 }
    else decision

unfoldable pub invalidate_confirmations : String → WorkflowDraft → WorkflowDraft
invalidate_confirmations prefix draft = record draft {
  rules = record draft.rules { decisions = map (unconfirm prefix) draft.rules.decisions };
}

unfoldable pub validate_edit_result : Editor → WorkflowDraft → Result EditError (Unit {0})
validate_edit_result e draft =
    refuse_if
      (has_errors
        (validate e.valid_config e.regex_compiles draft (some e.find_capability) draft_mode))
      edit_invalid

-- What every command does last: `invalidateAcceptance`, `Revision++`, `validateEditResult`.
abbrev pub touch : WorkflowDraft → WorkflowDraft
touch draft = record draft { revision = increment draft.revision }

unfoldable pub finish_edit : Editor → WorkflowDraft → Result EditError WorkflowDraft
unfolding invalidate_acceptance validate_edit_result
finish_edit e next = do
  let edited = touch (invalidate_acceptance next)
  validate_edit_result e edited
  ok edited
