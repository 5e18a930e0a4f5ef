-- ===== src/Workflow/RunStore/Defs/Rows.antt =====
-- internal/infra/repository/workflow_runtime_repo.go and internal/infra/database/migrations/0005_workflow_runtime.up.sql:
-- the rows of the three tables, and the statements that find and change them.
-- Errors of the database itself are left out. A nullable column is an option. A JSON column holds what reading it gives,
-- and nothing where its text does not decode.
use req_flow.Prelude.{
  ℕ, String, Bool, true, false, ◌&&◌, ◌||◌, List, [], ◌∷◌, ◌++◌, Option, none, some, ◌==◌, leb, ltb,
  if◌then◌else◌, find, any, Result, ok, err, ◌>>◌, refuse_if,
}
use req_flow.Json.{RawMessage, document, object, end, is_absent}
use req_flow.Workflow.Model.{Time, ResourceType, ResolvedNode, WorkflowRevision}
use req_flow.Workflow.Run.{
  WorkflowRunStatus, run_pausing, NodeRunStatus, node_pending, node_queued, node_running,
  node_retry_wait, node_awaiting_manual, node_failed, BindingDirection, binding_input,
  binding_output, NodeResourceBinding,
}

pub record RunRow : Type 0 where
  pub id : String
  pub workflow_id : String
  pub revision_id : String
  pub workspace_id : String
  pub revision : Option WorkflowRevision
  pub inputs : List NodeResourceBinding
  pub status : WorkflowRunStatus
  pub current_node_id : String
  pub error_code : String
  pub error_message : String
  pub created_at : Time
  pub started_at : Option Time
  pub finished_at : Option Time
  pub updated_at : Time

pub record NodeRow : Type 0 where
  pub id : String
  pub run_id : String
  pub node_id : String
  pub ordinal : ℕ
  pub node : ResolvedNode
  pub status : NodeRunStatus
  pub attempt : ℕ
  pub checkpoint : RawMessage
  pub progress : RawMessage
  pub error_code : String
  pub error_message : String
  pub lease_owner : String
  pub lease_until : Option Time
  pub retry_at : Option Time
  pub started_at : Option Time
  pub finished_at : Option Time

pub record BindingRow : Type 0 where
  pub id : String
  pub run_id : String
  pub node_run_id : String
  pub node_id : String
  pub port : String
  pub direction : BindingDirection
  pub resource_type : ResourceType
  pub resource_id : String
  pub boundary : RawMessage
  pub provenance : RawMessage
  pub created_at : Time

pub record Tables : Type 0 where
  pub runs : List RunRow
  pub nodes : List NodeRow
  pub bindings : List BindingRow

pub data StoreError : Type 0 where
  run_not_found node_run_not_found run_invalid_transition no_runnable_node run_lease_lost :
      StoreError
  row_missing revision_unreadable constraint_violated : StoreError

abbrev pub is_run_pausing : WorkflowRunStatus → Bool
is_run_pausing run_pausing = true
is_run_pausing _ = false

abbrev pub is_node_pending : NodeRunStatus → Bool
is_node_pending node_pending = true
is_node_pending _ = false

abbrev pub is_node_queued : NodeRunStatus → Bool
is_node_queued node_queued = true
is_node_queued _ = false

abbrev pub is_node_running : NodeRunStatus → Bool
is_node_running node_running = true
is_node_running _ = false

abbrev pub is_node_retry_wait : NodeRunStatus → Bool
is_node_retry_wait node_retry_wait = true
is_node_retry_wait _ = false

abbrev pub is_node_awaiting_manual : NodeRunStatus → Bool
is_node_awaiting_manual node_awaiting_manual = true
is_node_awaiting_manual _ = false

abbrev pub is_node_failed : NodeRunStatus → Bool
is_node_failed node_failed = true
is_node_failed _ = false

abbrev pub row_or : {A : Type 0} → Option A → StoreError → Result StoreError A
row_or none e = err e
row_or (some a) e = ok a

-- A time that is not NULL and lies before, at or behind another.
abbrev pub is_before : Option Time → Time → Bool
is_before none now = false
is_before (some t) now = ltb t now

abbrev pub is_due : Option Time → Time → Bool
is_due none now = false
is_due (some t) now = leb t now

abbrev pub is_after : Option Time → Time → Bool
is_after none now = false
is_after (some t) now = ltb now t

abbrev pub find_run : Tables → String → StoreError → Result StoreError RunRow
find_run tables id e = row_or (find (λ (run : RunRow). run.id == id) tables.runs) e

abbrev pub find_node_run : Tables → String → StoreError → Result StoreError NodeRow
find_node_run tables id e = row_or (find (λ (node : NodeRow). node.id == id) tables.nodes) e

-- `UPDATE … WHERE …`
abbrev pub update_rows : {A : Type 0} → (A → Bool) → (A → A) → List A → List A
update_rows where_ set [] = []
update_rows where_ set (a ∷ rows) = (if where_ a then set a else a) ∷ update_rows where_ set rows

abbrev pub update_runs : (RunRow → Bool) → (RunRow → RunRow) → Tables → Tables
update_runs where_ set tables = record tables { runs = update_rows where_ set tables.runs }

abbrev pub update_nodes : (NodeRow → Bool) → (NodeRow → NodeRow) → Tables → Tables
update_nodes where_ set tables = record tables { nodes = update_rows where_ set tables.nodes }

abbrev pub run_with_id : String → RunRow → Bool
run_with_id id run = run.id == id

abbrev pub node_with_id : String → NodeRow → Bool
node_with_id id node = node.id == id

abbrev pub lower : NodeRow → Option NodeRow → NodeRow
lower node none = node
lower node (some other) = if leb node.ordinal other.ordinal then node else other

-- `ORDER BY ordinal LIMIT 1`
unfoldable pub first_by_ordinal : (NodeRow → Bool) → List NodeRow → Option NodeRow
first_by_ordinal p [] = none
first_by_ordinal p (node ∷ nodes) =
    let rest = first_by_ordinal p nodes in if p node then some (lower node rest) else rest

abbrev pub json_or_empty : RawMessage → RawMessage
json_or_empty raw = if is_absent raw then document (object end) else raw

abbrev pub same_direction : BindingDirection → BindingDirection → Bool
same_direction binding_input binding_input = true
same_direction binding_output binding_output = true
same_direction _ _ = false

-- The primary key of a binding, and `UNIQUE (node_run_id, direction, port)`.
abbrev pub binding_conflicts : BindingRow → BindingRow → Bool
binding_conflicts a b =
    a.id == b.id
    || (a.node_run_id == b.node_run_id
        && (same_direction a.direction b.direction && a.port == b.port))

unfoldable pub insert_binding : BindingRow → Tables → Result StoreError Tables
insert_binding row tables = do
  refuse_if (any (binding_conflicts row) tables.bindings) constraint_violated
  ok (record tables { bindings = tables.bindings ++ row ∷ [] })
