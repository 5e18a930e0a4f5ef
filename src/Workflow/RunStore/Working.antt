-- ===== src/Workflow/RunStore/Working.antt =====
-- internal/infra/repository/workflow_runtime_repo.go: the transactions of workers move the node runs as `IsMove` says.
use req_flow.Prelude.{
  ℕ, ◌+◌, String, Bool, true, not, ◌&&◌, List, none, some, ◌≡◌, refl, arith, eq_iff, eqb, ok,
  when_ok,
}
use mathlib.Core.List.{Nodup}
use req_flow.Workflow.Model.{Time}
use req_flow.Workflow.Run.{
  node_pending, node_queued, node_running, node_awaiting_manual, node_failed, node_retry_wait,
}
use req_flow.Workflow.RunStore.Defs.{
  RunRow, NodeRow, Tables, no_runnable_node, is_node_running, row_or, update_rows, node_with_id,
  first_by_ordinal, is_runnable, claim_workflow_node, is_leased, update_owned, lock_node_and_run,
  await_workflow_node_manual, fail_workflow_node, retry_workflow_node, pause_workflow_node,
  recover_workflow_node_leases,
}
use req_flow.Workflow.RunStore.Moving.{
  IsMove, AreMoves, node_run_ids, IsAmong, find-IsAmong, first_by_ordinal-IsAmong,
}
use req_flow.Workflow.RunStore.Committing.{by_id, by_status}

-- The row that a worker holds: it runs.
pub locked_row :
    (tables : Tables) (id : String) (attempt : ℕ) (owner : String) (now : Time) {node : NodeRow}
    {run : RunRow}
    → lock_node_and_run tables id attempt owner now ≡ ok (node, run)
    → IsAmong node tables.nodes × (node.id ≡ id) × (is_leased attempt owner now node ≡ true)
unfolding lock_node_and_run
locked_row tables id attempt owner now {node} {run} h =
    let (m, same) = find-IsAmong (node_with_id id) tables.nodes {node = node} (ground arith) in
    (m, (eq_iff node.id id).0 same, ground arith)

-- A worker gives its row back, in another status.
pub given_back :
    (ns : List NodeRow) {ms : List NodeRow} (node : NodeRow) (where_ : NodeRow → Bool)
    (set : NodeRow → NodeRow)
    → Nodup (node_run_ids ns)
    → IsAmong node ns
    → ((n : NodeRow) → where_ n ≡ true → node_with_id node.id n ≡ true)
    → IsMove node (set node)
    → ms ≡ update_rows where_ set ns
    → AreMoves ns ms
given_back ns node where_ set d m w move result = rw result (by_id node ns where_ set d m w move)

module _ (tables : Tables) (d : Nodup (node_run_ids tables.nodes)) {tables' : Tables} where
  pub claimed :
      (locked : NodeRow → Bool) (owner : String) (lease_until now : Time) {node' : NodeRow}
      → claim_workflow_node locked tables owner lease_until now ≡ ok (tables', node')
      → AreMoves tables.nodes tables'.nodes
  unfolding claim_workflow_node
  claimed locked owner lease_until now h =
      let q = λ (n : NodeRow). is_runnable tables now n && not (locked n) in
      when_ok (row_or (first_by_ordinal q tables.nodes) no_runnable_node) h (λ node looked done.
        let set = λ (n : NodeRow). record n {
          status = node_running;
          attempt = node.attempt + 1;
          lease_owner = owner;
          lease_until = some lease_until;
          retry_at = none;
          started_at = some now;
          error_code = "";
          error_message = "";
        } in
        let (m, runs) = first_by_ordinal-IsAmong q tables.nodes {node = node} (ground arith) in
        let result : tables'.nodes ≡ update_rows (node_with_id node.id) set tables.nodes =
          ground arith in
        rw result (
          by_id node tables.nodes (node_with_id node.id) set d m (λ n w. w)
            (record {
              id = refl;
              run_id = refl;
              node_id = refl;
              ordinal = refl;
              attempt = omega arith;
              final = λ s. ground arith;
              leased = λ l. (refl, refl);
            })))

  -- The three statements that change a field of a leased row.
  pub updated :
      (set : NodeRow → NodeRow) (id : String) (attempt : ℕ) (owner : String) (now : Time)
      → ((n : NodeRow) → is_leased attempt owner now n ≡ true → IsMove n (set n))
      → update_owned set tables id attempt owner now ≡ ok tables'
      → AreMoves tables.nodes tables'.nodes
  updated set id attempt owner now move h =
      let where_ = λ (n : NodeRow). node_with_id id n && is_leased attempt owner now n in
      let result : tables'.nodes ≡ update_rows where_ set tables.nodes = ground arith in
      rw result (by_status tables.nodes where_ set (λ n w. move n (ground arith)))

  pub handed_over :
      (id : String) (attempt : ℕ) (owner code message : String) (now : Time)
      → await_workflow_node_manual tables id attempt owner code message now ≡ ok tables'
      → AreMoves tables.nodes tables'.nodes
  unfolding await_workflow_node_manual
  handed_over id attempt owner code message now h =
      when_ok (lock_node_and_run tables id attempt owner now) h (λ (node, run) locked done.
        let (m, _, leased) = locked_row tables id attempt owner now locked in
        given_back tables.nodes node (node_with_id node.id)
          (λ n. record n {
            status = node_awaiting_manual;
            error_code = code;
            error_message = message;
            lease_owner = "";
            lease_until = none;
          })
          d m (λ n w. w)
          (record {
            id = refl;
            run_id = refl;
            node_id = refl;
            ordinal = refl;
            attempt = omega arith;
            final = λ s. ground arith;
            leased = λ l. (refl, refl);
          })
          (ground arith))

  pub failed :
      (id : String) (attempt : ℕ) (owner code message : String) (now : Time)
      → fail_workflow_node tables id attempt owner code message now ≡ ok tables'
      → AreMoves tables.nodes tables'.nodes
  unfolding fail_workflow_node
  failed id attempt owner code message now h =
      when_ok (lock_node_and_run tables id attempt owner now) h (λ (node, run) locked done.
        let (m, _, leased) = locked_row tables id attempt owner now locked in
        given_back tables.nodes node (node_with_id node.id)
          (λ n. record n {
            status = node_failed;
            error_code = code;
            error_message = message;
            lease_owner = "";
            lease_until = none;
            finished_at = some now;
          })
          d m (λ n w. w)
          (record {
            id = refl;
            run_id = refl;
            node_id = refl;
            ordinal = refl;
            attempt = omega arith;
            final = λ s. ground arith;
            leased = λ l. (refl, refl);
          })
          (ground arith))

  pub retried :
      (id : String) (attempt : ℕ) (owner code message : String) (retry_at now : Time)
      → retry_workflow_node tables id attempt owner code message retry_at now ≡ ok tables'
      → AreMoves tables.nodes tables'.nodes
  unfolding retry_workflow_node
  retried id attempt owner code message retry_at now h =
      when_ok (lock_node_and_run tables id attempt owner now) h (λ (node, run) locked done.
        let (m, _, leased) = locked_row tables id attempt owner now locked in
        given_back tables.nodes node (λ n. node_with_id node.id n && eqb n.attempt attempt)
          (λ n. record n {
            status = node_retry_wait;
            error_code = code;
            error_message = message;
            lease_owner = "";
            lease_until = none;
            retry_at = some retry_at;
          })
          d m (λ n w. ground arith)
          (record {
            id = refl;
            run_id = refl;
            node_id = refl;
            ordinal = refl;
            attempt = omega arith;
            final = λ s. ground arith;
            leased = λ l. (refl, refl);
          })
          (ground arith))

  pub paused :
      (id : String) (attempt : ℕ) (owner : String) (now : Time)
      → pause_workflow_node tables id attempt owner now ≡ ok tables'
      → AreMoves tables.nodes tables'.nodes
  unfolding pause_workflow_node
  paused id attempt owner now h =
      when_ok (lock_node_and_run tables id attempt owner now) h (λ (node, run) locked done.
        let (m, _, leased) = locked_row tables id attempt owner now locked in
        given_back tables.nodes node (node_with_id node.id)
          (λ n. record n { status = node_pending; lease_owner = ""; lease_until = none }) d m
          (λ n w. w)
          (record {
            id = refl;
            run_id = refl;
            node_id = refl;
            ordinal = refl;
            attempt = omega arith;
            final = λ s. ground arith;
            leased = λ l. (refl, refl);
          })
          (ground arith))

pub recovered :
    (tables : Tables) (now : Time)
    → AreMoves tables.nodes (recover_workflow_node_leases tables now).nodes
unfolding recover_workflow_node_leases
recovered tables now =
    by_status tables.nodes (λ n. is_node_running n.status && _)
      (λ n. record n { status = node_queued; lease_owner = ""; lease_until = none })
      (λ n w. record {
        id = refl;
        run_id = refl;
        node_id = refl;
        ordinal = refl;
        attempt = omega arith;
        final = λ s. ground arith;
        leased = λ l. (refl, refl);
      })
