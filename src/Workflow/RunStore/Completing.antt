-- ===== src/Workflow/RunStore/Completing.antt =====
-- internal/infra/repository/workflow_runtime_repo.go: a node run that completes, and the next one, move as `IsMove` says.
use req_flow.Prelude.{
  ℕ, String, not, ◌&&◌, ◌||◌, List, [], ◌∷◌, Option, none, some, ◌≡◌, refl, ◌∙◌, ap, arith, eqb,
  Bool-cases, inl, inr, ok, when_ok, when_passed,
}
use req_flow.Json.{RawMessage}
use mathlib.Core.List.{Nodup}
use req_flow.Workflow.Model.{Time, Connection, WorkflowRevision}
use req_flow.Workflow.Run.{node_queued, node_succeeded, NodeResourceBinding}
use req_flow.Workflow.RunStore.Defs.{
  RunRow, NodeRow, BindingRow, Tables, node_run_not_found, run_invalid_transition, row_missing,
  revision_unreadable, is_node_pending, is_node_awaiting_manual, is_run_pausing, row_or, find_run,
  find_node_run, update_rows, update_nodes, node_with_id, insert_binding, lock_node_and_run,
  insert_node_bindings, output_row, input_row, carries, carry_output, carry_outputs, next_node,
  carry_to, propagate_node_outputs, move_on, advance_run, complete_workflow_node, by_human,
  complete_workflow_node_manual,
}
use req_flow.Workflow.RunStore.Moving.{AreMoves, AreMoves-refl, AreMoves-trans, node_run_ids}
use req_flow.Workflow.RunStore.Committing.{by_status}
use req_flow.Workflow.RunStore.Working.{locked_row, given_back}

insert_binding-nodes :
    (row : BindingRow) (tables : Tables) {tables' : Tables}
    → insert_binding row tables ≡ ok tables'
    → tables'.nodes ≡ tables.nodes
unfolding insert_binding
insert_binding-nodes row tables h = ground arith

module _ (new_id : List BindingRow → String) where
  insert_node_bindings-nodes :
      (run_id : String) (node : NodeRow) (now : Time) (outputs : List NodeResourceBinding)
      (tables : Tables) {tables' : Tables}
      → insert_node_bindings new_id run_id node now outputs tables ≡ ok tables'
      → tables'.nodes ≡ tables.nodes
  unfolding insert_node_bindings
  insert_node_bindings-nodes run_id node now [] tables h = ground arith
  insert_node_bindings-nodes run_id node now (output ∷ outputs) tables h =
      when_ok (insert_binding (output_row new_id run_id node now tables output) tables) h
        (λ more inserted rest.
          insert_node_bindings-nodes run_id node now outputs more rest
          ∙ insert_binding-nodes (output_row new_id run_id node now tables output) tables inserted)

  carry_output-nodes :
      (run : RunRow) (node next : NodeRow) (now : Time) (output : NodeResourceBinding)
      (cs : List Connection) (tables : Tables) {tables' : Tables}
      → carry_output new_id run node next now output cs tables ≡ ok tables'
      → tables'.nodes ≡ tables.nodes
  unfolding carry_output
  carry_output-nodes run node next now output [] tables h = ground arith
  carry_output-nodes run node next now output (c ∷ cs) tables h =
      elim (Bool-cases (carries new_id node output next c)) [
        | inr skipped ↦
            carry_output-nodes run node next now output cs tables (rw (carry_output, skipped) at h)
        | inl taken ↦
            when_ok (insert_binding (input_row new_id run next now tables output c) tables)
              (rw (carry_output, taken) at h)
              (λ more inserted rest.
                carry_output-nodes run node next now output cs more rest
                ∙ insert_binding-nodes (input_row new_id run next now tables output c) tables
                    inserted)
      ]

  carry_outputs-nodes :
      (run : RunRow) (node next : NodeRow) (now : Time) (cs : List Connection)
      (outputs : List NodeResourceBinding) (tables : Tables) {tables' : Tables}
      → carry_outputs new_id run node next now cs outputs tables ≡ ok tables'
      → tables'.nodes ≡ tables.nodes
  unfolding carry_outputs
  carry_outputs-nodes run node next now cs [] tables h = ground arith
  carry_outputs-nodes run node next now cs (output ∷ outputs) tables h =
      when_ok (carry_output new_id run node next now output cs tables) h (λ more carried rest.
        carry_outputs-nodes run node next now cs outputs more rest
        ∙ carry_output-nodes run node next now output cs tables carried)

  carry_to-nodes :
      (run : RunRow) (node : NodeRow) (outputs : List NodeResourceBinding) (now : Time)
      (revision : WorkflowRevision) (next : Option NodeRow) (tables : Tables) {tables' : Tables}
      → carry_to new_id run node outputs now revision next tables ≡ ok tables'
      → tables'.nodes ≡ tables.nodes
  unfolding carry_to
  carry_to-nodes run node outputs now revision none tables h = ground arith
  carry_to-nodes run node outputs now revision (some next) tables h =
      carry_outputs-nodes run node next now revision.connections outputs tables h

  propagate-nodes :
      (run : RunRow) (node : NodeRow) (outputs : List NodeResourceBinding) (now : Time)
      (tables : Tables) {tables' : Tables}
      → propagate_node_outputs new_id run node outputs now tables ≡ ok tables'
      → tables'.nodes ≡ tables.nodes
  unfolding propagate_node_outputs
  propagate-nodes run node outputs now tables h =
      when_ok (row_or run.revision revision_unreadable) h (λ revision _ rest.
        carry_to-nodes run node outputs now revision (next_node new_id run node tables) tables rest)

  move_on-AreMoves :
      (run : RunRow) (now : Time) (next : Option NodeRow) (tables : Tables)
      → AreMoves tables.nodes (move_on new_id run now next tables).nodes
  unfolding move_on
  move_on-AreMoves run now none tables = AreMoves-refl tables.nodes
  move_on-AreMoves run now (some next) tables = elim (Bool-cases (is_run_pausing run.status)) [
    | inl stops ↦ rw (move_on, stops) (AreMoves-refl tables.nodes)
    | inr goes ↦
        rw (move_on, goes)
          (by_status tables.nodes (λ n. node_with_id next.id n && is_node_pending n.status)
            (λ n. record n { status = node_queued })
            (λ n w. record {
              id = refl;
              run_id = refl;
              node_id = refl;
              ordinal = refl;
              attempt = omega arith;
              final = λ s. ground arith;
              leased = λ l. ground arith;
            }))
  ]

  advance_run-AreMoves :
      (run : RunRow) (node : NodeRow) (outputs : List NodeResourceBinding) (now : Time)
      (tables : Tables) {tables' : Tables}
      → advance_run new_id run node outputs now tables ≡ ok tables'
      → AreMoves tables.nodes tables'.nodes
  unfolding advance_run
  advance_run-AreMoves run node outputs now tables {tables'} h =
      when_ok (propagate_node_outputs new_id run node outputs now tables) h (λ carried moved done.
        let same = propagate-nodes run node outputs now tables moved in
        let result : tables' ≡ move_on new_id run now (next_node new_id run node carried) carried =
          ground arith in
        rw (result, ← same) (move_on-AreMoves run now (next_node new_id run node carried) carried))

  module _ (tables : Tables) (d : Nodup (node_run_ids tables.nodes)) {tables' : Tables} where
    pub complete_workflow_node-AreMoves :
        (id : String) (attempt : ℕ) (owner : String) (outputs : List NodeResourceBinding)
        (now : Time)
        → complete_workflow_node new_id tables id attempt owner outputs now ≡ ok tables'
        → AreMoves tables.nodes tables'.nodes
    unfolding complete_workflow_node
    complete_workflow_node-AreMoves id attempt owner outputs now h =
        let set = λ (n : NodeRow). record n {
          status = node_succeeded;
          lease_owner = "";
          lease_until = none;
          finished_at = some now;
        } in
        when_ok (lock_node_and_run tables id attempt owner now) h (λ (node, run) locked h1.
          when_ok (insert_node_bindings new_id run.id node now outputs tables) h1
            (λ bound inserted done.
              let (m, _, leased) = locked_row tables id attempt owner now locked in
              let same = insert_node_bindings-nodes run.id node now outputs tables inserted in
              let first : AreMoves tables.nodes
                  (update_rows (node_with_id node.id) set bound.nodes) =
                given_back tables.nodes node (node_with_id node.id) set d m (λ n w. w)
                  (record {
                    id = refl;
                    run_id = refl;
                    node_id = refl;
                    ordinal = refl;
                    attempt = omega arith;
                    final = λ s. refl;
                    leased = λ l. (refl, refl);
                  })
                  (ap (update_rows (node_with_id node.id) set) same) in
              AreMoves-trans tables.nodes (update_rows (node_with_id node.id) set bound.nodes)
                tables'.nodes first
                (advance_run-AreMoves run node outputs now
                  (update_nodes (node_with_id node.id) set bound) done)))

    pub complete_workflow_node_manual-AreMoves :
        (of_actor : String → RawMessage) (id : String) (attempt : ℕ) (actor : String)
        (outputs : List NodeResourceBinding) (now : Time)
        → complete_workflow_node_manual new_id of_actor tables id attempt actor outputs now
          ≡ ok tables'
        → AreMoves tables.nodes tables'.nodes
    unfolding complete_workflow_node_manual
    complete_workflow_node_manual-AreMoves of_actor id attempt actor outputs now h =
        let made = by_human new_id of_actor actor outputs in
        let set = λ (n : NodeRow). record n { status = node_succeeded; finished_at = some now } in
        when_ok (find_node_run tables id node_run_not_found) h (λ node looked h1.
          when_passed (not (is_node_awaiting_manual node.status) || not (eqb node.attempt attempt))
            run_invalid_transition h1
            (λ awaits h2. when_ok (find_run tables node.run_id row_missing) h2 (λ run _ h3.
              when_ok (insert_node_bindings new_id run.id node now made tables) h3
                (λ bound inserted done.
                  let where_ =
                    λ (n : NodeRow). node_with_id node.id n && is_node_awaiting_manual n.status in
                  let same = insert_node_bindings-nodes run.id node now made tables inserted in
                  let first : AreMoves tables.nodes (update_rows where_ set bound.nodes) = rw same (
                    by_status tables.nodes where_ set (λ n w. record {
                      id = refl;
                      run_id = refl;
                      node_id = refl;
                      ordinal = refl;
                      attempt = omega arith;
                      final = λ s. refl;
                      leased = λ l. ground arith;
                    })) in
                  AreMoves-trans tables.nodes (update_rows where_ set bound.nodes) tables'.nodes
                    first
                    (advance_run-AreMoves run node made now (update_nodes where_ set bound)
                      done)))))
