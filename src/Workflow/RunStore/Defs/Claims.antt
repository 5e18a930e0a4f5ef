-- ===== src/Workflow/RunStore/Defs/Claims.antt =====
-- internal/infra/repository/workflow_runtime_repo.go: the claim of a node and what its worker does under the lease.
use req_flow.Prelude.{
  ℕ, ◌+◌, String, Bool, not, ◌&&◌, ◌||◌, none, some, ◌==◌, eqb, if◌then◌else◌, any, Result, ok, err,
  ◌>>=◌, ◌>>◌, refuse_if,
}
use req_flow.Json.{RawMessage}
use req_flow.Workflow.Model.{Time}
use req_flow.Workflow.Run.{is_running, node_running}
use req_flow.Workflow.RunStore.Defs.Rows.{
  RunRow, NodeRow, Tables, StoreError, node_run_not_found, no_runnable_node, run_lease_lost,
  row_missing, is_run_pausing, is_node_queued, is_node_running, is_node_retry_wait, row_or,
  is_before, is_due, is_after, find_run, find_node_run, update_nodes, node_with_id,
  first_by_ordinal, json_or_empty,
}

-- The rows that the query of a claim takes: their run is running or pausing, and they are queued, wait for a retry that
-- is due, or run under a lease that is over.
abbrev pub in_open_run : Tables → NodeRow → Bool
in_open_run tables node =
    any
      (λ (run : RunRow).
        run.id == node.run_id && (is_running run.status || is_run_pausing run.status))
      tables.runs

abbrev pub is_runnable : Tables → Time → NodeRow → Bool
is_runnable tables now node =
    (is_node_queued node.status
      || ((is_node_retry_wait node.status && is_due node.retry_at now)
          || (is_node_running node.status && is_before node.lease_until now)))
    && in_open_run tables node

-- `locked` are the rows that other transactions hold, which the query skips.
unfoldable pub claim_workflow_node :
    (NodeRow → Bool) → Tables → String → Time → Time → Result StoreError (Tables × NodeRow)
unfolding first_by_ordinal
claim_workflow_node locked tables owner lease_until now = do
  node ←
      row_or (first_by_ordinal (λ n. is_runnable tables now n && not (locked n)) tables.nodes)
        no_runnable_node
  let claim = λ (n : NodeRow). record n {
    status = node_running;
    attempt = node.attempt + 1;
    lease_owner = owner;
    lease_until = some lease_until;
    retry_at = none;
    started_at = some now;
    error_code = "";
    error_message = "";
  }
  ok (
    update_nodes (node_with_id node.id) claim tables,
    record node {
      status = node_running;
      attempt = node.attempt + 1;
      lease_owner = owner;
      lease_until = some lease_until;
      retry_at = none;
      started_at = some now;
    },
  )

-- The worker and the attempt that the lease was given for, while it lasts.
abbrev pub is_leased : ℕ → String → Time → NodeRow → Bool
is_leased attempt owner now node =
    eqb node.attempt attempt
    && (node.lease_owner == owner && (is_node_running node.status && is_after node.lease_until now))

-- The statements that change one row, and report that the lease is lost where there was none.
abbrev pub update_owned :
    (NodeRow → NodeRow) → Tables → String → ℕ → String → Time → Result StoreError Tables
update_owned set tables node_run_id attempt owner now =
    if any (λ n. node_with_id node_run_id n && is_leased attempt owner now n) tables.nodes
    then ok
        (update_nodes (λ n. node_with_id node_run_id n && is_leased attempt owner now n) set tables)
    else err run_lease_lost

unfoldable pub renew_workflow_node_lease :
    Tables → String → ℕ → String → Time → Time → Result StoreError Tables
renew_workflow_node_lease tables node_run_id attempt owner lease_until now =
    update_owned (λ n. record n { lease_until = some lease_until }) tables node_run_id attempt owner
      now

unfoldable pub save_workflow_node_checkpoint :
    Tables → String → ℕ → String → RawMessage → Time → Result StoreError Tables
save_workflow_node_checkpoint tables node_run_id attempt owner checkpoint now =
    update_owned (λ n. record n { checkpoint = json_or_empty checkpoint }) tables node_run_id
      attempt owner now

unfoldable pub save_workflow_node_progress :
    Tables → String → ℕ → String → RawMessage → Time → Result StoreError Tables
save_workflow_node_progress tables node_run_id attempt owner progress now =
    update_owned (λ n. record n { progress = json_or_empty progress }) tables node_run_id attempt
      owner now

unfoldable pub lock_node_and_run :
    Tables → String → ℕ → String → Time → Result StoreError (NodeRow × RunRow)
lock_node_and_run tables node_run_id attempt owner now = do
  node ← find_node_run tables node_run_id node_run_not_found
  refuse_if (not (is_leased attempt owner now node)) run_lease_lost
  run ← find_run tables node.run_id row_missing
  ok (node, run)
