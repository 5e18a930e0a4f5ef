-- ===== src/Workflow/Revision/Defs.antt =====
-- internal/domain/workflow/revision.go, `BuildRevision` and `cloneRuleBundle`.
-- `hash` is the hexadecimal SHA-256 of what `json.Marshal` makes of the content, and nothing where it fails;
-- `copy_rules` is `json.Unmarshal` of `json.Marshal`.
use req_flow.Prelude.{
  String, Bool, ◌||◌, List, [], ◌∷◌, Option, none, some, eqb, lt_text, if◌then◌else◌, is_blank,
  trim_space, lookup, insert, Result, ok, err, ◌>>=◌, ◌>>◌, refuse_if,
}
use req_flow.Prelude.Int.{pos}
use req_flow.Json.{RawMessage, blank, is_absent}
use req_flow.Workflow.Model.{
  Time, CapabilityRef, CapabilityDefinition, WorkflowPort, WorkflowNode, WorkflowDraft, Connection,
  RuleBundle, AcceptanceCase, ResolvedNode, WorkflowRevision,
}
use req_flow.Workflow.Order.{OrderError, linear_order}
use req_flow.Workflow.Validate.Issues.{ValidationIssue, publish_mode, has_errors}
use req_flow.Workflow.Validate.Connections.{connection_key}
use req_flow.Workflow.Validate.Decisions.{validate}

pub data RevisionError : Type 0 where
  draft_invalid : List ValidationIssue → RevisionError
  order_failed : OrderError → RevisionError
  identity_missing capability_gone clone_failed hash_failed : RevisionError

-- What the content hash is taken of: no identifier, number, publisher or time of the revision.
pub record RevisionContent : Type 0 where
  pub workflow_id : String
  pub workspace_id : String
  pub key : String
  pub name : String
  pub description : String
  pub inputs : List WorkflowPort
  pub outputs : List WorkflowPort
  pub nodes : List ResolvedNode
  pub connections : List Connection
  pub rules : RuleBundle
  pub acceptance_cases : List AcceptanceCase

-- `byID`, where a later node takes the place of an earlier one with its identifier.
abbrev pub index_by_id :
    List WorkflowNode → List (String × WorkflowNode) → List (String × WorkflowNode)
index_by_id [] by_id = by_id
index_by_id (node ∷ nodes) by_id = index_by_id nodes (insert node.id node by_id)

-- The zero value of a node.
abbrev pub zero_node : WorkflowNode
zero_node = record {
  id = "";
  name = "";
  capability = record { kind = ""; version = pos 0 };
  config = blank 0;
}

abbrev pub node_or_zero : Option WorkflowNode → WorkflowNode
node_or_zero none = zero_node
node_or_zero (some node) = node

unfoldable pub resolve_node :
    (CapabilityRef → Option CapabilityDefinition) → WorkflowNode → Result RevisionError ResolvedNode
resolve_node find_capability node = elim (find_capability node.capability) [
  | none ↦ err capability_gone
  | some capability ↦ ok (record {
    id = node.id;
    name = node.name;
    capability = capability;
    config = if is_absent node.config then capability.default_config else node.config;
  })
]

-- The loop over the linear order.
unfoldable pub resolve_all :
    (CapabilityRef → Option CapabilityDefinition)
    → List (String × WorkflowNode)
    → List String
    → Result RevisionError (List ResolvedNode)
resolve_all find_capability by_id [] = ok []
resolve_all find_capability by_id (id ∷ order) = do
  node ← resolve_node find_capability (node_or_zero (lookup id by_id))
  rest ← resolve_all find_capability by_id order
  ok (node ∷ rest)

-- `sort.Slice`, by insertion: the element comes before the first that is not less than it.
unfoldable pub insert_connection : Connection → List Connection → List Connection
insert_connection c [] = c ∷ []
insert_connection c (d ∷ ds) =
    if lt_text (connection_key d) (connection_key c) then d ∷ insert_connection c ds else c ∷ d ∷ ds

unfoldable pub sort_connections : List Connection → List Connection
unfolding insert_connection
sort_connections [] = []
sort_connections (c ∷ cs) = insert_connection c (sort_connections cs)

unfoldable pub insert_case : AcceptanceCase → List AcceptanceCase → List AcceptanceCase
insert_case t [] = t ∷ []
insert_case t (u ∷ us) = if lt_text u.id t.id then u ∷ insert_case t us else t ∷ u ∷ us

unfoldable pub sort_cases : List AcceptanceCase → List AcceptanceCase
unfolding insert_case
sort_cases [] = []
sort_cases (t ∷ ts) = insert_case t (sort_cases ts)

abbrev pub ordered : {A : Type 0} → Result OrderError A → Result RevisionError A
ordered (ok a) = ok a
ordered (err e) = err (order_failed e)

abbrev pub given : {A : Type 0} → Option A → RevisionError → Result RevisionError A
given none e = err e
given (some a) e = ok a

abbrev pub content_of : WorkflowDraft → List ResolvedNode → RuleBundle → RevisionContent
content_of draft nodes rules = record {
  workflow_id = draft.id;
  workspace_id = draft.workspace_id;
  key = draft.key;
  name = trim_space draft.name;
  description = trim_space draft.description;
  inputs = draft.inputs;
  outputs = draft.outputs;
  nodes = nodes;
  connections = sort_connections draft.connections;
  rules = rules;
  acceptance_cases = sort_cases draft.acceptance_cases;
}

-- The revision is not numbered yet.
abbrev pub revision_of : RevisionContent → String → String → String → Time → WorkflowRevision
revision_of content id content_hash published_by published_at = record {
  id = id;
  workflow_id = content.workflow_id;
  revision_no = pos 0;
  workspace_id = content.workspace_id;
  key = content.key;
  name = content.name;
  description = content.description;
  inputs = content.inputs;
  outputs = content.outputs;
  nodes = content.nodes;
  connections = content.connections;
  rules = content.rules;
  acceptance_cases = content.acceptance_cases;
  content_hash = content_hash;
  published_by = trim_space published_by;
  published_at = published_at;
}

module _ (valid_config : CapabilityDefinition → RawMessage → Bool) (regex_compiles : String → Bool)
    (copy_rules : RuleBundle → Option RuleBundle) (hash : RevisionContent → Option String)
    (find_capability : CapabilityRef → Option CapabilityDefinition) where
  unfoldable pub build_revision :
      WorkflowDraft → String → String → Time → Result RevisionError WorkflowRevision
  unfolding resolve_all sort_connections sort_cases
  build_revision draft revision_id published_by published_at = do
    let issues = validate valid_config regex_compiles draft (some find_capability) publish_mode
    refuse_if (has_errors issues) (draft_invalid issues)
    refuse_if
        (is_blank (trim_space revision_id)
          || (is_blank (trim_space published_by) || eqb published_at 0))
        identity_missing
    order ← ordered (linear_order draft)
    nodes ← resolve_all find_capability (index_by_id draft.nodes []) order
    rules ← given (copy_rules draft.rules) clone_failed
    content_hash ← given (hash (content_of draft nodes rules)) hash_failed
    ok (
        revision_of (content_of draft nodes rules) revision_id content_hash published_by
          published_at)
