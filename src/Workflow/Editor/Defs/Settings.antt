-- ===== src/Workflow/Editor/Defs/Settings.antt =====
-- internal/app/workflow/draft_editor.go: the commands that change a node, a port, a rule, a decision or a case.
use req_flow.Prelude.{
  String, Bool, true, false, not, ◌&&◌, ◌||◌, List, [], ◌∷◌, ◌++◌, some, ◌==◌, eqb, if◌then◌else◌,
  is_blank, trim_space, any, Result, ok, err, ◌>>=◌, ◌>>◌, refuse_if,
}
use req_flow.Prelude.Int.{ℤ, pos}
use req_flow.Json.{RawMessage, is_valid_json}
use req_flow.Workflow.Model.{
  Time, CapabilityDefinition, PortDefinition, WorkflowPort, WorkflowNode, WorkflowDraft, Connection,
  EndpointKind, workflow_input, workflow_output, DataContract, ExtractionSpec, SearchSpec,
  OutputContract, RuleDecision, AcceptanceCase, user_confirmed, high,
}
use req_flow.Workflow.Catalog.{is_side_role}
use req_flow.Workflow.Validate.Connections.{find_port}
use req_flow.Workflow.Editor.Defs.Ports.{
  Editor, EditError, capability_missing, config_invalid, port_missing, type_mismatch,
  port_incompatible, required_input_missing, direction_invalid, confirmation_invalid, value_differs,
  decision_missing, require, clone_draft, same_role, mapped_port, source_type, type_matches,
  input_of, into_node, wire, find_node, require_port, touch, stale_case, invalidate_acceptance,
  invalidate_confirmations, validate_edit_result, finish_edit,
}
use req_flow.Workflow.Editor.Defs.Nodes.{leaves_node, enters_node}

pub record ReplaceNodeCommand : Type 0 where
  pub node : WorkflowNode
  pub input_port_map : List (String × String)
  pub output_port_map : List (String × String)

-- The name of the port that takes the place of a port of the old capability.
unfoldable pub replace_port :
    List PortDefinition
    → List PortDefinition
    → List (String × String)
    → String
    → Result EditError String
replace_port old_ports new_ports mapping name = do
  old_port ← require (find_port old_ports name) port_missing
  let new_name = mapped_port mapping old_port.name
  new_port ← require (find_port new_ports new_name) port_incompatible
  refuse_if
      (not (old_port.resource_type == new_port.resource_type)
        || not (same_role old_port.role new_port.role))
      port_incompatible
  ok new_name

unfoldable pub replace_target :
    ReplaceNodeCommand
    → CapabilityDefinition
    → CapabilityDefinition
    → Connection
    → Result EditError Connection
unfolding replace_port
replace_target command old new c =
    if enters_node command.node.id c.to
    then (do
      name ← replace_port old.inputs new.inputs command.input_port_map c.to.port
      ok (record c { to = record c.to { port = name } }))
    else ok c

unfoldable pub replace_source :
    ReplaceNodeCommand
    → CapabilityDefinition
    → CapabilityDefinition
    → Connection
    → Result EditError Connection
unfolding replace_port
replace_source command old new c =
    if leaves_node command.node.id c.from
    then (do
      name ← replace_port old.outputs new.outputs command.output_port_map c.from.port
      ok (record c { from = record c.from { port = name } }))
    else ok c

-- The loop over the connections.
unfoldable pub replace_ends :
    ReplaceNodeCommand
    → CapabilityDefinition
    → CapabilityDefinition
    → List Connection
    → Result EditError (List Connection)
unfolding replace_target replace_source
replace_ends command old new [] = ok []
replace_ends command old new (c ∷ cs) = do
  c' ← replace_target command old new c
  c'' ← replace_source command old new c'
  rest ← replace_ends command old new cs
  ok (c'' ∷ rest)

-- `hasNodeInputConnection`.
abbrev pub has_input_connection : List Connection → String → String → Bool
has_input_connection connections id port =
    any (λ c. enters_node id c.to && c.to.port == port) connections

abbrev pub lacks_input : List Connection → String → List PortDefinition → Bool
lacks_input connections id ports =
    any (λ port. port.required && not (has_input_connection connections id port.name)) ports

-- The first node with the identifier becomes the new one.
abbrev pub put_node : WorkflowNode → List WorkflowNode → List WorkflowNode
put_node node [] = []
put_node node (n ∷ ns) = if n.id == node.id then node ∷ ns else n ∷ put_node node ns

unfoldable pub plan_replace :
    Editor → WorkflowDraft → ReplaceNodeCommand → Result EditError WorkflowDraft
plan_replace e next command = do
  (existing, old) ← find_node e next.nodes command.node.id
  new ← require (e.find_capability command.node.capability) capability_missing
  refuse_if (not (e.valid_config new command.node.config)) config_invalid
  connections ← replace_ends command old new next.connections
  refuse_if (lacks_input connections existing.id new.inputs) required_input_missing
  ok (record next { nodes = put_node command.node next.nodes; connections = connections })

unfoldable pub replace_node :
    Editor → WorkflowDraft → ReplaceNodeCommand → Result EditError WorkflowDraft
replace_node e draft command = do
  next ← clone_draft e draft
  edited ← plan_replace e next command
  finish_edit e edited

-- The new configuration of a node is checked by its capability; the draft is not validated again.
unfoldable pub set_node_config :
    Editor → WorkflowDraft → String → RawMessage → Result EditError WorkflowDraft
set_node_config e draft id config = do
  next ← clone_draft e draft
  (node, capability) ← find_node e next.nodes id
  refuse_if (not (e.valid_config capability config)) config_invalid
  ok (
      touch (
        invalidate_acceptance
          (record next { nodes = put_node (record node { config = config }) next.nodes })))

pub record BindSideInputCommand : Type 0 where
  pub node_id : String
  pub node_port : String
  pub workflow_input_port : String

-- The connections but for those into the port.
abbrev pub without_input : String → String → List Connection → List Connection
without_input id port [] = []
without_input id port (c ∷ cs) =
    if enters_node id c.to && c.to.port == port
    then without_input id port cs
    else c ∷ without_input id port cs

unfoldable pub plan_bind :
    Editor → WorkflowDraft → BindSideInputCommand → Result EditError WorkflowDraft
plan_bind e next command = do
  (node, capability) ← find_node e next.nodes command.node_id
  port ← require_port is_side_role capability.inputs command.node_port
  refuse_if
      (not (
        type_matches (source_type e next (input_of command.workflow_input_port))
          port.resource_type))
      type_mismatch
  ok (record next {
    connections =
        without_input command.node_id command.node_port next.connections
        ++ wire (input_of command.workflow_input_port) (into_node command.node_id command.node_port)
          ∷ [];
  })

unfoldable pub bind_side_input :
    Editor → WorkflowDraft → BindSideInputCommand → Result EditError WorkflowDraft
bind_side_input e draft command = do
  next ← clone_draft e draft
  edited ← plan_bind e next command
  finish_edit e edited

-- The first port of that name becomes the new one; a port of a new name comes last.
abbrev pub put_port : WorkflowPort → List WorkflowPort → List WorkflowPort
put_port port [] = port ∷ []
put_port port (p ∷ ps) = if p.name == port.name then port ∷ ps else p ∷ put_port port ps

unfoldable pub plan_port :
    WorkflowDraft → EndpointKind → WorkflowPort → Result EditError WorkflowDraft
plan_port next workflow_output port = ok (record next { outputs = put_port port next.outputs })
plan_port next workflow_input port = ok (record next { inputs = put_port port next.inputs })
plan_port next _ port = err direction_invalid

unfoldable pub set_workflow_port :
    Editor → WorkflowDraft → EndpointKind → WorkflowPort → Result EditError WorkflowDraft
set_workflow_port e draft direction port = do
  next ← clone_draft e draft
  edited ← plan_port next direction port
  finish_edit e edited

unfoldable pub set_rule_bundle :
    Editor → WorkflowDraft → (WorkflowDraft → WorkflowDraft) → Result EditError WorkflowDraft
set_rule_bundle e draft mutate = do next ← clone_draft e draft; finish_edit e (mutate next)

abbrev pub with_data_contract : DataContract → WorkflowDraft → WorkflowDraft
unfolding invalidate_confirmations
with_data_contract contract next =
    invalidate_confirmations "rules.data_contract."
      (record next { rules = record next.rules { data_rules = some contract } })

unfoldable pub set_data_contract :
    Editor → WorkflowDraft → DataContract → Result EditError WorkflowDraft
set_data_contract e draft contract = set_rule_bundle e draft (with_data_contract contract)

unfoldable pub set_extraction_spec :
    Editor → WorkflowDraft → ExtractionSpec → Result EditError WorkflowDraft
set_extraction_spec e draft spec =
    set_rule_bundle e draft
      (λ next. record next { rules = record next.rules { extraction_rules = some spec } })

unfoldable pub set_search_spec :
    Editor → WorkflowDraft → SearchSpec → Result EditError WorkflowDraft
set_search_spec e draft spec =
    set_rule_bundle e draft
      (λ next. record next { rules = record next.rules { search_spec = some spec } })

unfoldable pub set_output_contract :
    Editor → WorkflowDraft → OutputContract → Result EditError WorkflowDraft
set_output_contract e draft contract =
    set_rule_bundle e draft
      (λ next. record next { rules = record next.rules { output_rules = some contract } })

pub record ConfirmDecisionCommand : Type 0 where
  pub path : String
  pub value : RawMessage
  pub actor_id : String
  pub confirmed : Time

-- A confidence of 1, in millionths.
abbrev pub full_confidence_value : ℤ
full_confidence_value = pos 1_000_000

unfoldable pub confirm_first :
    Editor → ConfirmDecisionCommand → List RuleDecision → Result EditError (List RuleDecision)
confirm_first e command [] = err decision_missing
confirm_first e command (decision ∷ rest) = elim (decision.path == command.path) [
  | true ↦
      refuse_if (not (e.same_bytes decision.value command.value)) value_differs
      >> ok (
          record decision {
            source = user_confirmed;
            risk = high;
            confidence = full_confidence_value;
            confirmed_by = command.actor_id;
            confirmed_at = command.confirmed;
          }
          ∷ rest)
  | false ↦ confirm_first e command rest >>= λ others. ok (decision ∷ others)
]

-- The acceptance results stay as they are, and the draft is not validated again.
unfoldable pub confirm_decision :
    Editor → WorkflowDraft → ConfirmDecisionCommand → Result EditError WorkflowDraft
unfolding confirm_first
confirm_decision e draft command = do
  refuse_if
      (is_blank (trim_space command.actor_id)
        || eqb command.confirmed 0
        || not (is_valid_json command.value))
      confirmation_invalid
  next ← clone_draft e draft
  decisions ← confirm_first e command next.rules.decisions
  ok (touch (record next { rules = record next.rules { decisions = decisions } }))

-- The first case with the identifier becomes the new one; a new case comes last.
abbrev pub put_case : AcceptanceCase → List AcceptanceCase → List AcceptanceCase
put_case test [] = test ∷ []
put_case test (t ∷ ts) = if t.id == test.id then test ∷ ts else t ∷ put_case test ts

unfoldable pub upsert_acceptance_case :
    Editor → WorkflowDraft → AcceptanceCase → Result EditError WorkflowDraft
upsert_acceptance_case e draft test = do
  next ← clone_draft e draft
  let edited =
      touch (record next { acceptance_cases = put_case (stale_case test) next.acceptance_cases })
  validate_edit_result e edited
  ok edited
