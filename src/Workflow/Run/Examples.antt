-- ===== src/Workflow/Run/Examples.antt =====
-- internal/domain/workflow/runtime.go: a run of a revision with two nodes.
use req_flow.Prelude.{
  String, false, List, [], ◌∷◌, map, none, ◌≡◌, refl, All, ok, is_empty, trim_space,
}
use req_flow.Prelude.Int.{pos}
use req_flow.Json.{document, object, end}
use req_flow.Workflow.Model.{ResolvedNode, WorkflowRevision}
use req_flow.Workflow.Run.Defs.{
  WorkflowRun, NodeRun, run_queued, run_pausing, new_node_runs, new_workflow_run, start,
  request_pause, resume, await_manual, call_start, call_pause, call_resume, run_call, run_after,
}
use req_flow.Workflow.Run.Lifecycle.{
  IsSameRun, HasStartTime, run_after-unchanged, run_after-HasStartTime, ordinals_from, IsNew,
  new_workflow_run-IsNew,
}

abbrev resolved : String → ResolvedNode
resolved id = record {
  id = id;
  name = id;
  capability = record {
    ref = record { kind = id; version = pos 1 };
    label = id;
    description = id;
    inputs = [];
    outputs = [];
    rule_requirements = [];
    config_schema = document (object end);
    default_config = document (object end);
    has_side_effects = false;
    requires_llm = false;
    manual_completion = false;
  };
  config = document (object end);
}

abbrev revision : WorkflowRevision
revision = record {
  id = "rev";
  workflow_id = "flow";
  revision_no = pos 2;
  workspace_id = "w";
  key = "orders";
  name = "orders";
  description = "";
  inputs = [];
  outputs = [];
  nodes = resolved "parse" ∷ resolved "save" ∷ [];
  connections = [];
  rules = record {
    data_rules = none;
    extraction_rules = none;
    search_spec = none;
    output_rules = none;
    decisions = [];
  };
  acceptance_cases = [];
  content_hash = "";
  published_by = "li";
  published_at = 5;
}

abbrev queued : WorkflowRun
queued = record {
  id = "r";
  workflow_id = "flow";
  revision_id = "rev";
  workspace_id = "w";
  revision = revision;
  inputs = [];
  status = run_queued;
  current_node_id = "";
  error_code = "";
  error_message = "";
  created_at = 7;
  started_at = 0;
  finished_at = 0;
  updated_at = 7;
}

abbrev node_runs : List NodeRun
unfolding new_node_runs
node_runs = new_node_runs "r" 0 revision.nodes

created : new_workflow_run "r" revision [] 7 ≡ ok (queued, node_runs)
unfolding new_workflow_run trim_space
created = refl

paused_one :
    (run_after queued (call_start 8 ∷ call_resume 9 ∷ call_pause 10 ∷ [])).status ≡ run_pausing
unfolding run_after run_call start request_pause resume await_manual
paused_one = refl

new_workflow_run-IsNew_example :
    (queued.status ≡ run_queued)
    × HasStartTime queued
    × (is_empty revision.nodes ≡ false)
    × (map (λ r. r.node) node_runs ≡ revision.nodes)
    × (map (λ r. r.ordinal) node_runs ≡ ordinals_from 0 revision.nodes)
    × All (IsNew "r") node_runs
new_workflow_run-IsNew_example = new_workflow_run-IsNew "r" revision [] 7 queued node_runs created

abbrev pausing : WorkflowRun
pausing = record queued { status = run_pausing; started_at = 8; updated_at = 10 }

run_after-unchanged_example : run_after pausing (call_resume 11 ∷ call_start 12 ∷ []) ≡ pausing
run_after-unchanged_example = run_after-unchanged pausing (call_resume 11 ∷ call_start 12 ∷ []) refl

run_after-HasStartTime_example :
    HasStartTime (run_after queued (call_start 8 ∷ call_pause 10 ∷ []))
    × IsSameRun queued (run_after queued (call_start 8 ∷ call_pause 10 ∷ []))
run_after-HasStartTime_example =
    run_after-HasStartTime queued (call_start 8 ∷ call_pause 10 ∷ []) ((λ h. refl), (λ h. cc))
