-- ===== src/Workflow/RunStore/Series.antt =====
-- internal/infra/repository/workflow_runtime_repo.go: series of transactions, and the workers that come too late.
use req_flow.Prelude.{
  ℕ, String, true, List, [], ◌∷◌, some, ◌≡◌, refl, ◌∙◌, ap, arith, is_some, ok, when_ok, or_keep,
  or_keep_ind,
}
use req_flow.Json.{RawMessage}
use mathlib.Core.List.{Nodup}
use req_flow.Workflow.Model.{Time}
use req_flow.Workflow.RunStore.Defs.{
  NodeRow, BindingRow, Tables, json_or_empty, claim_workflow_node, is_leased,
  renew_workflow_node_lease, save_workflow_node_checkpoint, save_workflow_node_progress,
  recover_workflow_node_leases, OwnedAction, renewing, saving_checkpoint, saving_progress,
  completing, handing_over, failing, retrying, pausing, Transaction, starting, requesting_pause,
  resuming, requeuing, claiming, owned, completing_manual, recovering, act, commit, after_all,
}
use req_flow.Workflow.RunStore.Moving.{
  is_succeeded, IsMove, AreMoves, AreMoves-refl, AreMoves-trans, AreMoves-ids, node_run_ids,
}
use req_flow.Workflow.RunStore.Committing.{started, asked_to_pause, resumed, requeued}
use req_flow.Workflow.RunStore.Working.{
  claimed, updated, handed_over, failed, retried, paused, recovered,
}
use req_flow.Workflow.RunStore.Completing.{
  complete_workflow_node-AreMoves, complete_workflow_node_manual-AreMoves,
}

leased_row-IsMove :
    (attempt : ℕ) (owner : String) (now : Time) (n n' : NodeRow)
    → is_leased attempt owner now n ≡ true
    → n'.id ≡ n.id
    → n'.run_id ≡ n.run_id
    → n'.node_id ≡ n.node_id
    → n'.ordinal ≡ n.ordinal
    → n'.attempt ≡ n.attempt
    → n'.status ≡ n.status
    → n'.lease_owner ≡ n.lease_owner
    → is_some n'.lease_until ≡ true
    → IsMove n n'
leased_row-IsMove attempt owner now n n' l id run_id node_id ordinal same status by lease = record {
  id = id;
  run_id = run_id;
  node_id = node_id;
  ordinal = ordinal;
  attempt = omega (arith, same);
  final = λ s. ap is_succeeded status ∙ s;
  leased = λ h. ground arith;
}

is_some-leased :
    (attempt : ℕ) (owner : String) (now : Time) (n : NodeRow)
    → is_leased attempt owner now n ≡ true
    → is_some n.lease_until ≡ true
is_some-leased attempt owner now n h = ground arith

module _ (new_id : List BindingRow → String) (of_actor : String → RawMessage) where
  act-AreMoves :
      (tables : Tables) (d : Nodup (node_run_ids tables.nodes)) {tables' : Tables} (id : String)
      (attempt : ℕ) (owner : String) (now : Time) (action : OwnedAction)
      → act new_id of_actor tables id attempt owner now action ≡ ok tables'
      → AreMoves tables.nodes tables'.nodes
  unfolding act renew_workflow_node_lease save_workflow_node_checkpoint save_workflow_node_progress
  act-AreMoves tables d id attempt owner now (renewing lease_until) h =
      updated tables d (λ n. record n { lease_until = some lease_until }) id attempt owner now
        (λ n l.
          leased_row-IsMove attempt owner now n (record n { lease_until = some lease_until }) l refl
            refl refl refl refl refl refl refl)
        h
  act-AreMoves tables d id attempt owner now (saving_checkpoint checkpoint) h =
      updated tables d (λ n. record n { checkpoint = json_or_empty checkpoint }) id attempt owner
        now
        (λ n l.
          leased_row-IsMove attempt owner now n (record n { checkpoint = json_or_empty checkpoint })
            l refl refl refl refl refl refl refl (is_some-leased attempt owner now n l))
        h
  act-AreMoves tables d id attempt owner now (saving_progress progress) h =
      updated tables d (λ n. record n { progress = json_or_empty progress }) id attempt owner now
        (λ n l.
          leased_row-IsMove attempt owner now n (record n { progress = json_or_empty progress }) l
            refl refl refl refl refl refl refl (is_some-leased attempt owner now n l))
        h
  act-AreMoves tables d id attempt owner now (completing outputs) h =
      complete_workflow_node-AreMoves new_id tables d id attempt owner outputs now h
  act-AreMoves tables d id attempt owner now (handing_over code message) h =
      handed_over tables d id attempt owner code message now h
  act-AreMoves tables d id attempt owner now (failing code message) h =
      failed tables d id attempt owner code message now h
  act-AreMoves tables d id attempt owner now (retrying code message retry_at) h =
      retried tables d id attempt owner code message retry_at now h
  act-AreMoves tables d id attempt owner now pausing h = paused tables d id attempt owner now h

  commit-AreMoves :
      (tables : Tables) (d : Nodup (node_run_ids tables.nodes)) {tables' : Tables} (now : Time)
      (t : Transaction)
      → commit new_id of_actor tables now t ≡ ok tables'
      → AreMoves tables.nodes tables'.nodes
  unfolding commit
  commit-AreMoves tables d now (starting id) h = started tables d id now h
  commit-AreMoves tables d now (requesting_pause id) h = asked_to_pause tables d id now h
  commit-AreMoves tables d now (resuming id) h = resumed tables d id now h
  commit-AreMoves tables d now (requeuing id) h = requeued tables d id now h
  commit-AreMoves tables d {tables'} now (claiming locked owner lease_until) h =
      when_ok (claim_workflow_node locked tables owner lease_until now) h
        (λ (more, node) taken done.
          let same : tables' ≡ more = ground arith in
          rw same (claimed tables d locked owner lease_until now taken))
  commit-AreMoves tables d now (owned id attempt owner action) h =
      act-AreMoves tables d id attempt owner now action h
  commit-AreMoves tables d now (completing_manual id attempt actor outputs) h =
      complete_workflow_node_manual-AreMoves new_id tables d of_actor id attempt actor outputs now h
  commit-AreMoves tables d {tables'} now recovering h =
      let same : tables' ≡ recover_workflow_node_leases tables now = ground arith in
      rw same (recovered tables now)

  step-AreMoves :
      (tables : Tables) (now : Time) (t : Transaction)
      → Nodup (node_run_ids tables.nodes)
      → AreMoves tables.nodes (or_keep tables (commit new_id of_actor tables now t)).nodes
  step-AreMoves tables now t d =
      or_keep_ind (λ b. AreMoves tables.nodes b.nodes) tables (commit new_id of_actor tables now t)
        (AreMoves-refl tables.nodes) (λ b done. commit-AreMoves tables d now t done)

  -- Over any series of transactions, refused ones among them, there are the same node runs in the same places; the
  -- attempts of none go back, none that has succeeded is anything else again, and the lease of each that was in order
  -- stays so. The identifiers of node runs are distinct, as the primary key of their table says.
  pub after_all-AreMoves :
      (tables : Tables) (series : List (Time × Transaction))
      → Nodup (node_run_ids tables.nodes)
      → AreMoves tables.nodes (after_all new_id of_actor tables series).nodes
  unfolding after_all
  after_all-AreMoves tables [] d = AreMoves-refl tables.nodes
  after_all-AreMoves tables ((now, t) ∷ series) d =
      let next = or_keep tables (commit new_id of_actor tables now t) in
      let first = step-AreMoves tables now t d in
      AreMoves-trans tables.nodes next.nodes (after_all new_id of_actor next series).nodes first
        (after_all-AreMoves next series (rw (← AreMoves-ids tables.nodes next.nodes first) at d))
