-- ===== src/Workflow/RunStore/Defs/Requests.antt =====
-- internal/infra/repository/workflow_runtime_repo.go: what a person asks of a run.
-- The calls of `time.Now` in one transaction give one time.
use req_flow.Prelude.{
  String, not, ◌&&◌, ◌||◌, none, some, ◌==◌, eqb, if◌then◌else◌, find, Result, ok, ◌>>=◌, ◌>>◌,
  refuse_if,
}
use req_flow.Workflow.Model.{Time}
use req_flow.Workflow.Run.{
  is_queued, is_running, is_paused, run_running, run_pausing, run_paused, node_pending, node_queued,
}
use req_flow.Workflow.RunStore.Defs.Rows.{
  NodeRow, Tables, StoreError, run_not_found, node_run_not_found, run_invalid_transition,
  row_missing, is_node_pending, is_node_queued, is_node_running, is_node_retry_wait, is_node_failed,
  row_or, find_run, find_node_run, update_runs, update_nodes, run_with_id, node_with_id,
  first_by_ordinal,
}

unfoldable pub start_workflow_run : Tables → String → Time → Result StoreError Tables
start_workflow_run tables id now = do
  run ← find_run tables id run_not_found
  refuse_if (not (is_queued run.status)) run_invalid_transition
  node ← row_or (find (λ (n : NodeRow). n.run_id == id && eqb n.ordinal 1) tables.nodes) row_missing
  let queued =
      update_nodes (λ n. node_with_id node.id n && is_node_pending n.status)
        (λ n. record n { status = node_queued }) tables
  ok (
      update_runs (λ r. run_with_id id r && is_queued r.status)
        (λ r. record r {
          status = run_running;
          current_node_id = node.node_id;
          started_at = some now;
          updated_at = now;
        })
        queued)

unfoldable pub request_workflow_run_pause : Tables → String → Time → Result StoreError Tables
request_workflow_run_pause tables id now = do
  run ← find_run tables id run_not_found
  refuse_if (not (is_running run.status)) run_invalid_transition
  node ←
      row_or
        (find (λ (n : NodeRow). n.run_id == id && n.node_id == run.current_node_id) tables.nodes)
        row_missing
  if is_node_running node.status
      then ok (
          update_runs (run_with_id id) (λ r. record r { status = run_pausing; updated_at = now })
            tables)
      else (do
        refuse_if
            (not (
              is_node_queued node.status
              || (is_node_pending node.status || is_node_retry_wait node.status)))
            run_invalid_transition
        ok (
            update_runs (run_with_id id) (λ r. record r { status = run_paused; updated_at = now })
              (update_nodes (node_with_id node.id)
                (λ n. record n { status = node_pending; retry_at = none }) tables)))

-- The query for the node is taken as its text reads: the first pending or waiting node, by ordinal.
unfoldable pub resume_workflow_run : Tables → String → Time → Result StoreError Tables
unfolding first_by_ordinal
resume_workflow_run tables id now = do
  run ← find_run tables id run_not_found
  refuse_if (not (is_paused run.status)) run_invalid_transition
  node ←
      row_or
        (first_by_ordinal
          (λ n. n.run_id == id && (is_node_pending n.status || is_node_retry_wait n.status))
          tables.nodes)
        run_invalid_transition
  let queued =
      update_nodes (node_with_id node.id) (λ n. record n { status = node_queued; retry_at = none })
        tables
  ok (
      update_runs (λ r. run_with_id id r && is_paused r.status)
        (λ r. record r { status = run_running; current_node_id = node.node_id; updated_at = now })
        queued)

unfoldable pub requeue_failed_workflow_node : Tables → String → Time → Result StoreError Tables
requeue_failed_workflow_node tables node_run_id now = do
  node ← find_node_run tables node_run_id node_run_not_found
  refuse_if (not (is_node_failed node.status)) run_invalid_transition
  run ← find_run tables node.run_id row_missing
  let queued =
      update_nodes (node_with_id node.id)
        (λ n. record n {
          status = node_queued;
          retry_at = none;
          error_code = "";
          error_message = "";
          finished_at = none;
        })
        tables
  ok (
      update_runs (run_with_id run.id)
        (λ r. record r {
          status = run_running;
          current_node_id = node.node_id;
          error_code = "";
          error_message = "";
          finished_at = none;
          updated_at = now;
        })
        queued)
