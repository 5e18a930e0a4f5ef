-- ===== src/Workflow/RunStore/Committing.antt =====
-- internal/infra/repository/workflow_runtime_repo.go: every transaction moves the node runs as `IsMove` says.
use req_flow.Prelude.{
  String, Bool, true, not, ◌&&◌, ◌||◌, List, [], ◌∷◌, none, ◌≡◌, refl, arith, ◌==◌, eqb, find,
  Bool-cases, inl, inr, All, ok, when_ok, when_passed,
}
use mathlib.Core.List.{Nodup}
use req_flow.Workflow.Model.{Time}
use req_flow.Workflow.Run.{is_queued, is_running, is_paused, node_pending, node_queued}
use req_flow.Workflow.RunStore.Defs.{
  NodeRow, Tables, run_not_found, node_run_not_found, run_invalid_transition, row_missing,
  is_node_pending, is_node_running, is_node_retry_wait, is_node_failed, row_or, find_run,
  find_node_run, update_rows, node_with_id, first_by_ordinal, start_workflow_run,
  request_workflow_run_pause, resume_workflow_run, requeue_failed_workflow_node,
}
use req_flow.Workflow.RunStore.Moving.{
  IsMove, AreMoves, AreMoves-refl, node_run_ids, update_rows-AreMoves, every, IsAmong, only_row,
  find-IsAmong, first_by_ordinal-IsAmong,
}

weaker :
    (P : NodeRow → Type 0) (a b : NodeRow → Bool) (ns : List NodeRow)
    → ((n : NodeRow) → b n ≡ true → a n ≡ true)
    → All (λ (n : NodeRow). a n ≡ true → P n) ns
    → All (λ (n : NodeRow). b n ≡ true → P n) ns
weaker P a b [] w h = tt
weaker P a b (n ∷ ns) w h = ((λ k. h.0 (w n k)), weaker P a b ns w h.1)

-- A statement that changes the one row of a node run.
pub by_id :
    (node : NodeRow) (ns : List NodeRow) (where_ : NodeRow → Bool) (set : NodeRow → NodeRow)
    → Nodup (node_run_ids ns)
    → IsAmong node ns
    → ((n : NodeRow) → where_ n ≡ true → node_with_id node.id n ≡ true)
    → IsMove node (set node)
    → AreMoves ns (update_rows where_ set ns)
by_id node ns where_ set d m w move = update_rows-AreMoves where_ set ns (
    weaker (λ n. IsMove n (set n)) (node_with_id node.id) where_ ns w
      (only_row (λ n. IsMove n (set n)) node ns d m move))

-- A statement whose condition says enough of a row.
pub by_status :
    (ns : List NodeRow) (where_ : NodeRow → Bool) (set : NodeRow → NodeRow)
    → ((n : NodeRow) → where_ n ≡ true → IsMove n (set n))
    → AreMoves ns (update_rows where_ set ns)
by_status ns where_ set h =
    update_rows-AreMoves where_ set ns (every (λ n. where_ n ≡ true → IsMove n (set n)) ns h)

module _ (tables : Tables) (d : Nodup (node_run_ids tables.nodes)) {tables' : Tables} where
  pub started :
      (id : String) (now : Time)
      → start_workflow_run tables id now ≡ ok tables'
      → AreMoves tables.nodes tables'.nodes
  unfolding start_workflow_run
  started id now h = when_ok (find_run tables id run_not_found) h (λ run _ h1.
      when_passed (not (is_queued run.status)) run_invalid_transition h1 (λ _ h2.
        when_ok
          (row_or (find (λ (n : NodeRow). n.run_id == id && eqb n.ordinal 1) tables.nodes)
            row_missing)
          h2
          (λ node _ done.
            let result : update_rows (λ n. node_with_id node.id n && is_node_pending n.status)
                  (λ n. record n { status = node_queued }) tables.nodes
                ≡ tables'.nodes =
              ground arith in
            rw (← result) (
              by_status tables.nodes (λ n. node_with_id node.id n && is_node_pending n.status)
                (λ n. record n { status = node_queued })
                (λ n w. record {
                  id = refl;
                  run_id = refl;
                  node_id = refl;
                  ordinal = refl;
                  attempt = omega arith;
                  final = λ s. ground arith;
                  leased = λ l. ground arith;
                })))))

  pub asked_to_pause :
      (id : String) (now : Time)
      → request_workflow_run_pause tables id now ≡ ok tables'
      → AreMoves tables.nodes tables'.nodes
  unfolding request_workflow_run_pause
  asked_to_pause id now h = when_ok (find_run tables id run_not_found) h (λ run _ h1.
      when_passed (not (is_running run.status)) run_invalid_transition h1 (λ _ h2.
        when_ok
          (row_or
            (find (λ (n : NodeRow). n.run_id == id && n.node_id == run.current_node_id)
              tables.nodes)
            row_missing)
          h2
          (λ node looked h3. elim (Bool-cases (is_node_running node.status)) [
            | inl busy ↦
                let result : tables'.nodes ≡ tables.nodes = ground arith in
                rw result (AreMoves-refl tables.nodes)
            | inr free ↦
                let (m, _) =
                  find-IsAmong (λ (n : NodeRow). n.run_id == id && n.node_id == run.current_node_id)
                    tables.nodes {node = node} (ground arith) in
                let set = λ (n : NodeRow). record n { status = node_pending; retry_at = none } in
                let result : tables'.nodes ≡ update_rows (node_with_id node.id) set tables.nodes =
                  ground arith in
                rw result (
                  by_id node tables.nodes (node_with_id node.id) set d m (λ n w. w)
                    (record {
                      id = refl;
                      run_id = refl;
                      node_id = refl;
                      ordinal = refl;
                      attempt = omega arith;
                      final = λ s. ground arith;
                      leased = λ l. ground arith;
                    }))
          ])))

  pub resumed :
      (id : String) (now : Time)
      → resume_workflow_run tables id now ≡ ok tables'
      → AreMoves tables.nodes tables'.nodes
  unfolding resume_workflow_run
  resumed id now h =
      let q = λ (n : NodeRow).
        n.run_id == id && (is_node_pending n.status || is_node_retry_wait n.status) in
      let set = λ (n : NodeRow). record n { status = node_queued; retry_at = none } in
      when_ok (find_run tables id run_not_found) h (λ run _ h1.
        when_passed (not (is_paused run.status)) run_invalid_transition h1 (λ _ h2.
          when_ok (row_or (first_by_ordinal q tables.nodes) run_invalid_transition) h2
            (λ node looked _.
              let (m, waits) =
                first_by_ordinal-IsAmong q tables.nodes {node = node} (ground arith) in
              let result : tables'.nodes ≡ update_rows (node_with_id node.id) set tables.nodes =
                ground arith in
              rw result (
                by_id node tables.nodes (node_with_id node.id) set d m (λ n w. w)
                  (record {
                    id = refl;
                    run_id = refl;
                    node_id = refl;
                    ordinal = refl;
                    attempt = omega arith;
                    final = λ s. ground arith;
                    leased = λ l. ground arith;
                  })))))

  pub requeued :
      (id : String) (now : Time)
      → requeue_failed_workflow_node tables id now ≡ ok tables'
      → AreMoves tables.nodes tables'.nodes
  unfolding requeue_failed_workflow_node
  requeued id now h =
      let set = λ (n : NodeRow). record n {
        status = node_queued;
        retry_at = none;
        error_code = "";
        error_message = "";
        finished_at = none;
      } in
      when_ok (find_node_run tables id node_run_not_found) h (λ node looked h1.
        when_passed (not (is_node_failed node.status)) run_invalid_transition h1 (λ failed h2.
          when_ok (find_run tables node.run_id row_missing) h2 (λ run _ _.
            let (m, _) = find-IsAmong (node_with_id id) tables.nodes {node = node} (ground arith) in
            let result : tables'.nodes ≡ update_rows (node_with_id node.id) set tables.nodes =
              ground arith in
            rw result (
              by_id node tables.nodes (node_with_id node.id) set d m (λ n w. w)
                (record {
                  id = refl;
                  run_id = refl;
                  node_id = refl;
                  ordinal = refl;
                  attempt = omega arith;
                  final = λ s. ground arith;
                  leased = λ l. ground arith;
                })))))
