-- ===== src/Workflow/Run/Lifecycle.antt =====
-- internal/domain/workflow/runtime.go: what a new run holds, and what the calls of its methods keep.
use req_flow.Prelude.{
  ℕ, suc, ◌+◌, ◌<◌, String, Bool, true, false, List, [], ◌∷◌, map, ◌≡◌, refl, ◌∙◌, ap, arith, All,
  ok, or_keep, or_keep_ind, is_empty,
}
use req_flow.Workflow.Model.{Time, ResolvedNode, WorkflowRevision}
use req_flow.Workflow.Run.Defs.{
  WorkflowRunStatus, run_queued, run_pausing, run_awaiting_manual, run_failed, run_succeeded,
  node_pending, NodeResourceBinding, WorkflowRun, NodeRun, new_node_runs, new_workflow_run, start,
  request_pause, resume, await_manual, RunCall, call_start, call_pause, call_resume, call_await,
  run_call, run_after, is_queued,
}

-- What a run is about, which no call changes.
abbrev pub IsSameRun : WorkflowRun → WorkflowRun → Type 0
IsSameRun run next =
    (next.id ≡ run.id)
    × (next.revision_id ≡ run.revision_id)
    × (next.revision ≡ run.revision)
    × (next.inputs ≡ run.inputs)
    × (next.created_at ≡ run.created_at)

run_call-IsSameRun :
    (run : WorkflowRun) (c : RunCall) {next : WorkflowRun}
    → run_call run c ≡ ok next
    → IsSameRun run next
unfolding run_call start request_pause resume await_manual
run_call-IsSameRun run (call_start now) h = ground arith
run_call-IsSameRun run (call_pause now) h = ground arith
run_call-IsSameRun run (call_resume now) h = ground arith
run_call-IsSameRun run (call_await node_id now) h = ground arith

-- The statuses that no method leaves: the repository moves such a run on, or nothing does.
abbrev pub is_handed_over : WorkflowRunStatus → Bool
is_handed_over run_pausing = true
is_handed_over run_awaiting_manual = true
is_handed_over run_failed = true
is_handed_over run_succeeded = true
is_handed_over _ = false

run_call-refused :
    (run : WorkflowRun) (c : RunCall)
    → is_handed_over run.status ≡ true
    → or_keep run (run_call run c) ≡ run
unfolding run_call start request_pause resume await_manual
run_call-refused run (call_start now) h = ground arith
run_call-refused run (call_pause now) h = ground arith
run_call-refused run (call_resume now) h = ground arith
run_call-refused run (call_await node_id now) h = ground arith

-- A run that is pausing, awaits a person, failed or succeeded is left as it was by any series of calls: none of the
-- methods starts, pauses, resumes or hands over such a run.
pub run_after-unchanged :
    (run : WorkflowRun) (calls : List RunCall)
    → is_handed_over run.status ≡ true
    → run_after run calls ≡ run
unfolding run_after
run_after-unchanged run [] h = refl
run_after-unchanged run (c ∷ cs) h =
    ap (λ r. run_after r cs) (run_call-refused run c h) ∙ run_after-unchanged run cs h

-- A run has a start time once it has left the queue, and none before.
abbrev pub HasStartTime : WorkflowRun → Type 0
HasStartTime run =
    (is_queued run.status ≡ true → run.started_at ≡ 0)
    × (is_queued run.status ≡ false → 0 < run.started_at)

run_call-HasStartTime :
    (run : WorkflowRun) (c : RunCall) {next : WorkflowRun}
    → HasStartTime run
    → run_call run c ≡ ok next
    → HasStartTime next
unfolding run_call start request_pause resume await_manual
run_call-HasStartTime run (call_start now) w h = ground arith
run_call-HasStartTime run (call_pause now) w h = ground arith
run_call-HasStartTime run (call_resume now) w h = ground arith
run_call-HasStartTime run (call_await node_id now) w h = ground arith

-- A run that has no start time while it is queued and one otherwise keeps this over any series of calls, refused ones
-- among them, and the calls leave its identity, its revision, its inputs and the time of its creation as they were.
pub run_after-HasStartTime :
    (run : WorkflowRun) (calls : List RunCall)
    → HasStartTime run
    → HasStartTime (run_after run calls) × IsSameRun run (run_after run calls)
unfolding run_after
run_after-HasStartTime run [] w = (w, (refl, refl, refl, refl, refl))
run_after-HasStartTime run (c ∷ cs) w =
    let once : HasStartTime (or_keep run (run_call run c))
        × IsSameRun run (or_keep run (run_call run c)) =
      or_keep_ind (λ r. HasStartTime r × IsSameRun run r) run (run_call run c)
        (w, (refl, refl, refl, refl, refl))
        (λ next e. (run_call-HasStartTime run c w e, run_call-IsSameRun run c e)) in
    let (later, same) = run_after-HasStartTime (or_keep run (run_call run c)) cs once.0 in
    (later, ground arith)

-- The numbers from `i + 1` on.
abbrev pub ordinals_from : ℕ → List ResolvedNode → List ℕ
ordinals_from i [] = []
ordinals_from i (node ∷ nodes) = (i + 1) ∷ ordinals_from (suc i) nodes

-- A node's run as it is created.
abbrev pub IsNew : String → NodeRun → Type 0
IsNew id r = (r.run_id ≡ id) × (r.node_id ≡ r.node.id) × (r.status ≡ node_pending) × (r.attempt ≡ 0)

new_node_runs-IsNew :
    (id : String) (i : ℕ) (nodes : List ResolvedNode)
    → (map (λ r. r.node) (new_node_runs id i nodes) ≡ nodes)
      × (map (λ r. r.ordinal) (new_node_runs id i nodes) ≡ ordinals_from i nodes)
      × All (IsNew id) (new_node_runs id i nodes)
unfolding new_node_runs
new_node_runs-IsNew id i [] = (refl, refl, tt)
new_node_runs-IsNew id i (node ∷ nodes) =
    let (same, counted, new) = new_node_runs-IsNew id (suc i) nodes in
    (ap (◌∷◌ node) same, ap (◌∷◌ (i + 1)) counted, ((refl, refl, refl, refl), new))

-- A new run is queued, without a start time, and has one pending run for each node of the revision, in the revision's
-- order and numbered from 1 on; the revision has at least one node.
pub new_workflow_run-IsNew :
    (id : String) (revision : WorkflowRevision) (inputs : List NodeResourceBinding) (now : Time)
    (run : WorkflowRun) (nodes : List NodeRun)
    → new_workflow_run id revision inputs now ≡ ok (run, nodes)
    → (run.status ≡ run_queued)
      × HasStartTime run
      × (is_empty revision.nodes ≡ false)
      × (map (λ r. r.node) nodes ≡ revision.nodes)
      × (map (λ r. r.ordinal) nodes ≡ ordinals_from 0 revision.nodes)
      × All (IsNew id) nodes
unfolding new_workflow_run
new_workflow_run-IsNew id revision inputs now run nodes h =
    let created : nodes ≡ new_node_runs id 0 revision.nodes = ground arith in
    let (same, counted, new) = new_node_runs-IsNew id 0 revision.nodes in
    (ground arith, ground arith, ground arith, rw created same, rw created counted, rw created new)
