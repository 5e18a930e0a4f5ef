-- ===== src/Workflow/RunStore/Examples.antt =====
-- internal/infra/repository/workflow_runtime_repo.go: a run of two nodes, whose first node two workers claim.
use req_flow.Prelude.{
  ℕ, String, Bool, false, List, [], ◌∷◌, Option, none, some, ◌≡◌, refl, ok, is_ok, arith, map,
}
use req_flow.Json.{RawMessage, document, object, end}
use mathlib.Core.List.{Nodup}
use req_flow.Workflow.Model.{Time, ResolvedNode}
use req_flow.Workflow.Run.{
  WorkflowRunStatus, run_running, NodeRunStatus, node_pending, node_queued, node_running,
  node_succeeded, NodeResourceBinding, binding_output,
}
use req_flow.Workflow.Validate.Publishable.{AreFresh, AreFresh-Nodup}
use req_flow.Workflow.Revision.Examples.{imported, resolved}
use req_flow.Workflow.RunStore.Defs.{
  RunRow, NodeRow, BindingRow, Tables, first_by_ordinal, claim_workflow_node, lock_node_and_run,
  insert_node_bindings, insert_binding, carry_output, carry_outputs, carry_to,
  propagate_node_outputs, move_on, advance_run, complete_workflow_node, retry_workflow_node,
  request_workflow_run_pause, completing, retrying, Transaction, requesting_pause, owned,
  recovering, act, commit, after_all,
}
use req_flow.Workflow.RunStore.Moving.{AreMoves, node_run_ids}
use req_flow.Workflow.RunStore.Series.{after_all-AreMoves}
use req_flow.Workflow.RunStore.Fencing.{claim-fences}

abbrev run : WorkflowRunStatus → String → RunRow
run status current = record {
  id = "run";
  workflow_id = "d";
  revision_id = "r";
  workspace_id = "w";
  revision = some imported;
  inputs = [];
  status = status;
  current_node_id = current;
  error_code = "";
  error_message = "";
  created_at = 1;
  started_at = some 2;
  finished_at = none;
  updated_at = 2;
}

abbrev node_row :
    String → String → ℕ → ResolvedNode → NodeRunStatus → ℕ → String → Option Time → NodeRow
node_row id node_id ordinal node status attempt owner lease = record {
  id = id;
  run_id = "run";
  node_id = node_id;
  ordinal = ordinal;
  node = node;
  status = status;
  attempt = attempt;
  checkpoint = document (object end);
  progress = document (object end);
  error_code = "";
  error_message = "";
  lease_owner = owner;
  lease_until = lease;
  retry_at = none;
  started_at = none;
  finished_at = none;
}

-- The first worker's lease ended at 10.
abbrev expired : Tables
expired = record {
  runs = run run_running "parse" ∷ [];
  nodes =
      node_row "n1" "parse" 1 (resolved "parse" "file.parse" "asset_set" "records") node_running 1
        "first" (some 10)
      ∷ node_row "n2" "save" 2 (resolved "save" "dataset.save" "records" "dataset") node_pending 0
          "" none
      ∷ [];
  bindings = [];
}

abbrev new_id : List BindingRow → String
new_id [] = "b0"
new_id (b ∷ bindings) = "b"

abbrev of_actor : String → RawMessage
of_actor actor = document (object end)

abbrev anyone : NodeRow → Bool
anyone node = false

distinct : Nodup (node_run_ids expired.nodes)
unfolding AreFresh
distinct = AreFresh-Nodup (λ k. false) ("n1" ∷ "n2" ∷ []) (refl, (refl, tt))

abbrev reclaimed : Tables
reclaimed = record expired {
  nodes =
      record (node_row "n1" "parse" 1 (resolved "parse" "file.parse" "asset_set" "records")
        node_running 2 "second" (some 30)) { started_at = some 15 }
      ∷ node_row "n2" "save" 2 (resolved "save" "dataset.save" "records" "dataset") node_pending 0
          "" none
      ∷ [];
}

abbrev claimed_node : NodeRow
claimed_node =
    record (node_row "n1" "parse" 1 (resolved "parse" "file.parse" "asset_set" "records")
      node_running 2 "second" (some 30)) { started_at = some 15 }

reclaims : claim_workflow_node anyone expired "second" 30 15 ≡ ok (reclaimed, claimed_node)
unfolding claim_workflow_node first_by_ordinal
reclaims = refl

abbrev records_output : NodeResourceBinding
records_output = record {
  id = "out";
  node_run_id = "";
  node_id = "parse";
  port = "out";
  direction = binding_output;
  resource_type = "records";
  resource_id = "set";
  boundary = document (object end);
  provenance = document (object end);
  created_at = 0;
}

abbrev completion : List (Time × Transaction)
completion = (16, owned "n1" 2 "second" (completing (records_output ∷ []))) ∷ []

-- The second worker completes the node, and the next one is queued with the output as its input.
completes :
    (map (λ (n : NodeRow). n.status) (after_all new_id of_actor reclaimed completion).nodes
      ≡ node_succeeded ∷ node_queued ∷ [])
    × (map (λ (b : BindingRow). b.port) (after_all new_id of_actor reclaimed completion).bindings
        ≡ "out" ∷ "in" ∷ [])
unfolding after_all commit act complete_workflow_node lock_node_and_run insert_node_bindings
    insert_binding advance_run propagate_node_outputs carry_to carry_outputs carry_output move_on
completes = (refl, refl)

-- A worker that retries takes back the request to pause that came while it ran.
abbrev paused_too_early : List (Time × Transaction)
paused_too_early =
    (16, requesting_pause "run") ∷ (17, owned "n1" 2 "second" (retrying "timeout" "" 40)) ∷ []

pause_lost :
    map (λ (r : RunRow). r.status) (after_all new_id of_actor reclaimed paused_too_early).runs
    ≡ run_running ∷ []
unfolding after_all commit act request_workflow_run_pause retry_workflow_node lock_node_and_run
pause_lost = refl

claim-fences_example :
    is_ok (
      act new_id of_actor
        (after_all new_id of_actor reclaimed completion)
        "n1"
        1
        "first"
        17
        (completing []))
    ≡ false
claim-fences_example =
    claim-fences new_id of_actor anyone expired "second" 30 15 completion 1 "first" 17
      (completing []) distinct reclaims (omega arith)

after_all-AreMoves_example :
    AreMoves expired.nodes (after_all new_id of_actor expired ((12, recovering) ∷ completion)).nodes
after_all-AreMoves_example =
    after_all-AreMoves new_id of_actor expired ((12, recovering) ∷ completion) distinct
