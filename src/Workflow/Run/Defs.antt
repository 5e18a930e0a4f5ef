-- ===== src/Workflow/Run/Defs.antt =====
-- internal/domain/workflow/runtime.go: the data of a run and its methods.
use req_flow.Prelude.{
  ℕ, suc, ◌+◌, String, Bool, true, false, not, ◌||◌, List, [], ◌∷◌, eqb, is_blank, trim_space,
  is_empty, decimal, ◌⧺◌, Result, ok, ◌>>◌, refuse_if, or_keep,
}
use req_flow.Json.{RawMessage, document, object, end}
use req_flow.Workflow.Model.{Time, ResourceType, ResolvedNode, WorkflowRevision}

pub data WorkflowRunStatus : Type 0 where
  run_queued run_running run_pausing run_paused run_awaiting_manual run_failed run_succeeded :
      WorkflowRunStatus

pub data NodeRunStatus : Type 0 where
  node_pending node_queued node_running node_retry_wait node_awaiting_manual node_validating :
      NodeRunStatus
  node_failed node_succeeded : NodeRunStatus

pub data BindingDirection : Type 0 where
  binding_input binding_output : BindingDirection

pub record NodeResourceBinding : Type 0 where
  pub id : String
  pub node_run_id : String
  pub node_id : String
  pub port : String
  pub direction : BindingDirection
  pub resource_type : ResourceType
  pub resource_id : String
  pub boundary : RawMessage
  pub provenance : RawMessage
  pub created_at : Time

pub record WorkflowRun : Type 0 where
  pub id : String
  pub workflow_id : String
  pub revision_id : String
  pub workspace_id : String
  pub revision : WorkflowRevision
  pub inputs : List NodeResourceBinding
  pub status : WorkflowRunStatus
  pub current_node_id : String
  pub error_code : String
  pub error_message : String
  pub created_at : Time
  pub started_at : Time
  pub finished_at : Time
  pub updated_at : Time

pub record NodeRun : Type 0 where
  pub id : String
  pub run_id : String
  pub node_id : String
  pub ordinal : ℕ
  pub node : ResolvedNode
  pub status : NodeRunStatus
  pub attempt : ℕ
  pub checkpoint : RawMessage
  pub progress : RawMessage
  pub error_code : String
  pub error_message : String
  pub lease_owner : String
  pub lease_until : Time
  pub retry_at : Time
  pub started_at : Time
  pub finished_at : Time

pub data RunError : Type 0 where
  run_identity_invalid run_without_nodes run_not_queued run_not_running run_not_paused
        manual_refused :
      RunError

abbrev pub is_no_time : Time → Bool
is_no_time t = eqb t 0

abbrev empty_json : RawMessage
empty_json = document (object end)

abbrev pub new_node_run : String → ℕ → ResolvedNode → NodeRun
new_node_run id ordinal node = record {
  id = id ⧺ "-node-" ⧺ decimal ordinal;
  run_id = id;
  node_id = node.id;
  ordinal = ordinal;
  node = node;
  status = node_pending;
  attempt = 0;
  checkpoint = empty_json;
  progress = empty_json;
  error_code = "";
  error_message = "";
  lease_owner = "";
  lease_until = 0;
  retry_at = 0;
  started_at = 0;
  finished_at = 0;
}

-- The loop over the nodes of the revision, from the index `i`.
unfoldable pub new_node_runs : String → ℕ → List ResolvedNode → List NodeRun
new_node_runs id i [] = []
new_node_runs id i (node ∷ nodes) = new_node_run id (i + 1) node ∷ new_node_runs id (suc i) nodes

unfoldable pub new_workflow_run :
    String
    → WorkflowRevision
    → List NodeResourceBinding
    → Time
    → Result RunError (WorkflowRun × List NodeRun)
unfolding new_node_runs
new_workflow_run id revision inputs now = do
  refuse_if (is_blank (trim_space id) || is_blank (trim_space revision.id) || is_no_time now)
      run_identity_invalid
  refuse_if (is_empty revision.nodes) run_without_nodes
  ok (
    record {
      id = id;
      workflow_id = revision.workflow_id;
      revision_id = revision.id;
      workspace_id = revision.workspace_id;
      revision = revision;
      inputs = inputs;
      status = run_queued;
      current_node_id = "";
      error_code = "";
      error_message = "";
      created_at = now;
      started_at = 0;
      finished_at = 0;
      updated_at = now;
    },
    new_node_runs id 0 revision.nodes,
  )

abbrev pub is_queued : WorkflowRunStatus → Bool
is_queued run_queued = true
is_queued _ = false

abbrev pub is_running : WorkflowRunStatus → Bool
is_running run_running = true
is_running _ = false

abbrev pub is_paused : WorkflowRunStatus → Bool
is_paused run_paused = true
is_paused _ = false

unfoldable pub start : WorkflowRun → Time → Result RunError WorkflowRun
start run now = do
  refuse_if (is_no_time now || not (is_queued run.status)) run_not_queued
  ok (record run { status = run_running; started_at = now; updated_at = now })

unfoldable pub request_pause : WorkflowRun → Time → Result RunError WorkflowRun
request_pause run now = do
  refuse_if (not (is_running run.status)) run_not_running
  ok (record run { status = run_pausing; updated_at = now })

unfoldable pub resume : WorkflowRun → Time → Result RunError WorkflowRun
resume run now = do
  refuse_if (is_no_time now || not (is_paused run.status)) run_not_paused
  ok (record run { status = run_running; updated_at = now })

unfoldable pub await_manual : WorkflowRun → String → Time → Result RunError WorkflowRun
await_manual run node_id now = do
  refuse_if (is_no_time now || not (is_running run.status) || is_blank (trim_space node_id))
      manual_refused
  ok (record run { current_node_id = node_id; status = run_awaiting_manual; updated_at = now })

-- A call of one of the methods, and the run after a series of calls: a refused call leaves it as it was.
pub data RunCall : Type 0 where
  call_start call_pause call_resume : Time → RunCall
  call_await : String → Time → RunCall

unfoldable pub run_call : WorkflowRun → RunCall → Result RunError WorkflowRun
run_call run (call_start now) = start run now
run_call run (call_pause now) = request_pause run now
run_call run (call_resume now) = resume run now
run_call run (call_await node_id now) = await_manual run node_id now

unfoldable pub run_after : WorkflowRun → List RunCall → WorkflowRun
run_after run [] = run
run_after run (c ∷ cs) = run_after (or_keep run (run_call run c)) cs
