-- ===== src/Workflow/RunStore/Defs/Steps.antt =====
-- internal/infra/repository/workflow_runtime_repo.go: the transactions, one behind the other.
use req_flow.Prelude.{ℕ, String, Bool, List, [], ◌∷◌, Result, ok, ◌>>=◌, or_keep}
use req_flow.Json.{RawMessage}
use req_flow.Workflow.Model.{Time}
use req_flow.Workflow.Run.{NodeResourceBinding}
use req_flow.Workflow.RunStore.Defs.Rows.{NodeRow, BindingRow, Tables, StoreError}
use req_flow.Workflow.RunStore.Defs.Requests.{
  start_workflow_run, request_workflow_run_pause, resume_workflow_run, requeue_failed_workflow_node,
}
use req_flow.Workflow.RunStore.Defs.Claims.{
  claim_workflow_node, renew_workflow_node_lease, save_workflow_node_checkpoint,
  save_workflow_node_progress,
}
use req_flow.Workflow.RunStore.Defs.Workers.{
  complete_workflow_node, complete_workflow_node_manual, await_workflow_node_manual,
  fail_workflow_node, retry_workflow_node, pause_workflow_node, recover_workflow_node_leases,
}

-- What a worker asks in the name of a claim: the node run, the attempt and the owner that it has of it.
pub data OwnedAction : Type 0 where
  renewing : Time → OwnedAction
  saving_checkpoint saving_progress : RawMessage → OwnedAction
  completing : List NodeResourceBinding → OwnedAction
  handing_over failing : String → String → OwnedAction
  retrying : String → String → Time → OwnedAction
  pausing : OwnedAction

-- Every transaction on rows that are there; `CreateWorkflowRun`, which adds a run with its rows, is not among them.
pub data Transaction : Type 0 where
  starting requesting_pause resuming requeuing : String → Transaction
  claiming : (NodeRow → Bool) → String → Time → Transaction
  owned : String → ℕ → String → OwnedAction → Transaction
  completing_manual : String → ℕ → String → List NodeResourceBinding → Transaction
  recovering : Transaction

module _ (new_id : List BindingRow → String) (of_actor : String → RawMessage) where
  unfoldable pub act : Tables → String → ℕ → String → Time → OwnedAction → Result StoreError Tables
  act tables id attempt owner now (renewing lease_until) =
      renew_workflow_node_lease tables id attempt owner lease_until now
  act tables id attempt owner now (saving_checkpoint checkpoint) =
      save_workflow_node_checkpoint tables id attempt owner checkpoint now
  act tables id attempt owner now (saving_progress progress) =
      save_workflow_node_progress tables id attempt owner progress now
  act tables id attempt owner now (completing outputs) =
      complete_workflow_node new_id tables id attempt owner outputs now
  act tables id attempt owner now (handing_over code message) =
      await_workflow_node_manual tables id attempt owner code message now
  act tables id attempt owner now (failing code message) =
      fail_workflow_node tables id attempt owner code message now
  act tables id attempt owner now (retrying code message retry_at) =
      retry_workflow_node tables id attempt owner code message retry_at now
  act tables id attempt owner now pausing = pause_workflow_node tables id attempt owner now

  unfoldable pub commit : Tables → Time → Transaction → Result StoreError Tables
  unfolding act
  commit tables now (starting id) = start_workflow_run tables id now
  commit tables now (requesting_pause id) = request_workflow_run_pause tables id now
  commit tables now (resuming id) = resume_workflow_run tables id now
  commit tables now (requeuing id) = requeue_failed_workflow_node tables id now
  commit tables now (claiming locked owner lease_until) =
      claim_workflow_node locked tables owner lease_until now >>= λ (tables', node). ok tables'
  commit tables now (owned id attempt owner action) = act tables id attempt owner now action
  commit tables now (completing_manual id attempt actor outputs) =
      complete_workflow_node_manual new_id of_actor tables id attempt actor outputs now
  commit tables now recovering = ok (recover_workflow_node_leases tables now)

  -- A series of transactions, each at its time: one that fails leaves the tables as they were.
  unfoldable pub after_all : Tables → List (Time × Transaction) → Tables
  unfolding commit
  after_all tables [] = tables
  after_all tables ((now, t) ∷ rest) = after_all (or_keep tables (commit tables now t)) rest
