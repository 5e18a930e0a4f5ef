-- ===== src/Workflow/RunStore/Defs/Workers.antt =====
-- internal/infra/repository/workflow_runtime_repo.go: how a node that was claimed ends, and the recovery of leases.
-- `uuid.NewString` is a parameter, a new identifier for the bindings that there are; so is the content of a provenance.
use req_flow.Prelude.{
  ℕ, ◌+◌, String, Bool, true, false, not, ◌&&◌, ◌||◌, List, [], ◌∷◌, Option, none, some, ◌==◌, eqb,
  if◌then◌else◌, is_blank, find, Result, ok, ◌>>=◌, ◌>>◌, refuse_if,
}
use req_flow.Json.{RawMessage}
use req_flow.Workflow.Model.{Time, Connection, WorkflowRevision}
use req_flow.Workflow.Order.{is_node_output, is_node_input}
use req_flow.Workflow.Run.{
  run_running, run_paused, run_awaiting_manual, run_failed, run_succeeded, node_pending,
  node_queued, node_retry_wait, node_awaiting_manual, node_failed, node_succeeded, binding_input,
  binding_output, NodeResourceBinding,
}
use req_flow.Workflow.RunStore.Defs.Rows.{
  RunRow, NodeRow, BindingRow, Tables, StoreError, node_run_not_found, run_invalid_transition,
  row_missing, revision_unreadable, is_run_pausing, is_node_pending, is_node_running,
  is_node_awaiting_manual, row_or, is_before, find_run, find_node_run, update_runs, update_nodes,
  run_with_id, node_with_id, json_or_empty, insert_binding,
}
use req_flow.Workflow.RunStore.Defs.Claims.{lock_node_and_run}

module _ (new_id : List BindingRow → String) where
  abbrev pub binding_id : Tables → NodeResourceBinding → String
  binding_id tables output = if is_blank output.id then new_id tables.bindings else output.id

  abbrev pub output_row : String → NodeRow → Time → Tables → NodeResourceBinding → BindingRow
  output_row run_id node now tables output = record {
    id = binding_id tables output;
    run_id = run_id;
    node_run_id = node.id;
    node_id = node.node_id;
    port = output.port;
    direction = binding_output;
    resource_type = output.resource_type;
    resource_id = output.resource_id;
    boundary = json_or_empty output.boundary;
    provenance = json_or_empty output.provenance;
    created_at = now;
  }

  -- `insertNodeBindings`
  unfoldable pub insert_node_bindings :
      String → NodeRow → Time → List NodeResourceBinding → Tables → Result StoreError Tables
  unfolding insert_binding
  insert_node_bindings run_id node now [] tables = ok tables
  insert_node_bindings run_id node now (output ∷ outputs) tables = do
    tables' ← insert_binding (output_row run_id node now tables output) tables
    insert_node_bindings run_id node now outputs tables'

  -- A connection that carries the output to the next node.
  abbrev pub carries : NodeRow → NodeResourceBinding → NodeRow → Connection → Bool
  carries node output next c =
      is_node_output c.from.kind
      && (c.from.node_id == node.node_id
          && (c.from.port == output.port
              && (is_node_input c.to.kind && c.to.node_id == next.node_id)))

  abbrev pub input_row :
      RunRow → NodeRow → Time → Tables → NodeResourceBinding → Connection → BindingRow
  input_row run next now tables output c = record {
    id = new_id tables.bindings;
    run_id = run.id;
    node_run_id = next.id;
    node_id = next.node_id;
    port = c.to.port;
    direction = binding_input;
    resource_type = output.resource_type;
    resource_id = output.resource_id;
    boundary = json_or_empty output.boundary;
    provenance = json_or_empty output.provenance;
    created_at = now;
  }

  -- The inner loop, over the connections of the revision.
  unfoldable pub carry_output :
      RunRow
      → NodeRow
      → NodeRow
      → Time
      → NodeResourceBinding
      → List Connection
      → Tables
      → Result StoreError Tables
  unfolding insert_binding
  carry_output run node next now output [] tables = ok tables
  carry_output run node next now output (c ∷ cs) tables = elim (carries node output next c) [
    | false ↦ carry_output run node next now output cs tables
    | true ↦ insert_binding (input_row run next now tables output c) tables >>= λ tables'.
        carry_output run node next now output cs tables'
  ]

  unfoldable pub carry_outputs :
      RunRow
      → NodeRow
      → NodeRow
      → Time
      → List Connection
      → List NodeResourceBinding
      → Tables
      → Result StoreError Tables
  unfolding carry_output
  carry_outputs run node next now connections [] tables = ok tables
  carry_outputs run node next now connections (output ∷ outputs) tables = do
    tables' ← carry_output run node next now output connections tables
    carry_outputs run node next now connections outputs tables'

  abbrev pub next_node : RunRow → NodeRow → Tables → Option NodeRow
  next_node run node tables =
      find (λ (n : NodeRow). n.run_id == run.id && eqb n.ordinal (node.ordinal + 1)) tables.nodes

  unfoldable pub carry_to :
      RunRow
      → NodeRow
      → List NodeResourceBinding
      → Time
      → WorkflowRevision
      → Option NodeRow
      → Tables
      → Result StoreError Tables
  unfolding carry_outputs
  carry_to run node outputs now revision none tables = ok tables
  carry_to run node outputs now revision (some next) tables =
      carry_outputs run node next now revision.connections outputs tables

  unfoldable pub propagate_node_outputs :
      RunRow → NodeRow → List NodeResourceBinding → Time → Tables → Result StoreError Tables
  unfolding carry_to
  propagate_node_outputs run node outputs now tables = do
    revision ← row_or run.revision revision_unreadable
    carry_to run node outputs now revision (next_node run node tables) tables

  -- `advanceRun`, behind the propagation: the run ends, pauses before the next node, or goes on with it.
  unfoldable pub move_on : RunRow → Time → Option NodeRow → Tables → Tables
  move_on run now none tables =
      update_runs (run_with_id run.id)
        (λ r. record r {
          status = run_succeeded;
          current_node_id = "";
          finished_at = some now;
          updated_at = now;
        })
        tables
  move_on run now (some next) tables =
      if is_run_pausing run.status
      then update_runs (run_with_id run.id)
          (λ r. record r { status = run_paused; current_node_id = next.node_id; updated_at = now })
          tables
      else update_runs (run_with_id run.id)
          (λ r. record r { status = run_running; current_node_id = next.node_id; updated_at = now })
          (update_nodes (λ n. node_with_id next.id n && is_node_pending n.status)
            (λ n. record n { status = node_queued }) tables)

  unfoldable pub advance_run :
      RunRow → NodeRow → List NodeResourceBinding → Time → Tables → Result StoreError Tables
  unfolding propagate_node_outputs move_on
  advance_run run node outputs now tables = do
    carried ← propagate_node_outputs run node outputs now tables
    ok (move_on run now (next_node run node carried) carried)

  unfoldable pub complete_workflow_node :
      Tables → String → ℕ → String → List NodeResourceBinding → Time → Result StoreError Tables
  unfolding lock_node_and_run insert_node_bindings advance_run
  complete_workflow_node tables node_run_id attempt owner outputs now = do
    (node, run) ← lock_node_and_run tables node_run_id attempt owner now
    bound ← insert_node_bindings run.id node now outputs tables
    advance_run run node outputs now (
        update_nodes (node_with_id node.id)
          (λ n. record n {
            status = node_succeeded;
            lease_owner = "";
            lease_until = none;
            finished_at = some now;
          })
          bound)

  -- `of_actor` is the provenance `{"producer":"human","actor":…}`.
  abbrev pub by_human :
      (String → RawMessage) → String → List NodeResourceBinding → List NodeResourceBinding
  by_human of_actor actor [] = []
  by_human of_actor actor (output ∷ outputs) =
      record output { provenance = of_actor actor } ∷ by_human of_actor actor outputs

  unfoldable pub complete_workflow_node_manual :
      (String → RawMessage)
      → Tables
      → String
      → ℕ
      → String
      → List NodeResourceBinding
      → Time
      → Result StoreError Tables
  unfolding insert_node_bindings advance_run
  complete_workflow_node_manual of_actor tables node_run_id attempt actor outputs now = do
    node ← find_node_run tables node_run_id node_run_not_found
    refuse_if (not (is_node_awaiting_manual node.status) || not (eqb node.attempt attempt))
        run_invalid_transition
    run ← find_run tables node.run_id row_missing
    let made = by_human of_actor actor outputs
    bound ← insert_node_bindings run.id node now made tables
    advance_run run node made now (
        update_nodes (λ n. node_with_id node.id n && is_node_awaiting_manual n.status)
          (λ n. record n { status = node_succeeded; finished_at = some now }) bound)

unfoldable pub await_workflow_node_manual :
    Tables → String → ℕ → String → String → String → Time → Result StoreError Tables
unfolding lock_node_and_run
await_workflow_node_manual tables node_run_id attempt owner code message now = do
  (node, run) ← lock_node_and_run tables node_run_id attempt owner now
  ok (
      update_runs (run_with_id run.id)
        (λ r. record r {
          status = run_awaiting_manual;
          current_node_id = node.node_id;
          updated_at = now;
        })
        (update_nodes (node_with_id node.id)
          (λ n. record n {
            status = node_awaiting_manual;
            error_code = code;
            error_message = message;
            lease_owner = "";
            lease_until = none;
          })
          tables))

unfoldable pub fail_workflow_node :
    Tables → String → ℕ → String → String → String → Time → Result StoreError Tables
unfolding lock_node_and_run
fail_workflow_node tables node_run_id attempt owner code message now = do
  (node, run) ← lock_node_and_run tables node_run_id attempt owner now
  ok (
      update_runs (run_with_id run.id)
        (λ r. record r {
          status = run_failed;
          error_code = code;
          error_message = message;
          finished_at = some now;
          updated_at = now;
        })
        (update_nodes (node_with_id node.id)
          (λ n. record n {
            status = node_failed;
            error_code = code;
            error_message = message;
            lease_owner = "";
            lease_until = none;
            finished_at = some now;
          })
          tables))

unfoldable pub retry_workflow_node :
    Tables → String → ℕ → String → String → String → Time → Time → Result StoreError Tables
unfolding lock_node_and_run
retry_workflow_node tables node_run_id attempt owner code message retry_at now = do
  (node, run) ← lock_node_and_run tables node_run_id attempt owner now
  ok (
      update_runs (run_with_id run.id)
        (λ r. record r { status = run_running; current_node_id = node.node_id; updated_at = now })
        (update_nodes (λ n. node_with_id node.id n && eqb n.attempt attempt)
          (λ n. record n {
            status = node_retry_wait;
            error_code = code;
            error_message = message;
            lease_owner = "";
            lease_until = none;
            retry_at = some retry_at;
          })
          tables))

unfoldable pub pause_workflow_node : Tables → String → ℕ → String → Time → Result StoreError Tables
unfolding lock_node_and_run
pause_workflow_node tables node_run_id attempt owner now = do
  (node, run) ← lock_node_and_run tables node_run_id attempt owner now
  ok (
      update_runs (run_with_id run.id)
        (λ r. record r { status = run_paused; current_node_id = node.node_id; updated_at = now })
        (update_nodes (node_with_id node.id)
          (λ n. record n { status = node_pending; lease_owner = ""; lease_until = none }) tables))

unfoldable pub recover_workflow_node_leases : Tables → Time → Tables
recover_workflow_node_leases tables now =
    update_nodes (λ n. is_node_running n.status && is_before n.lease_until now)
      (λ n. record n { status = node_queued; lease_owner = ""; lease_until = none }) tables
