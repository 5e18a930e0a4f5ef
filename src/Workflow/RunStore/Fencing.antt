-- ===== src/Workflow/RunStore/Fencing.antt =====
-- internal/infra/repository/workflow_runtime_repo.go: the workers whose claim is over.
use req_flow.Prelude.{
  ℕ, ◌+◌, ◌≤◌, ◌<◌, String, Bool, true, false, not, ◌&&◌, List, [], ◌∷◌, none, some, ◌≡◌, refl, sym,
  ◌∙◌, ap, arith, ◌==◌, eq_iff, any, Bool-cases, inl, inr, All, Result, ok, err, ◌>>=◌, when_ok,
  is_ok,
}
use req_flow.Json.{RawMessage}
use mathlib.Core.List.{Nodup}
use req_flow.Workflow.Model.{Time}
use req_flow.Workflow.Run.{node_running}
use req_flow.Workflow.RunStore.Defs.{
  RunRow, NodeRow, BindingRow, Tables, StoreError, no_runnable_node, row_or, update_rows,
  node_with_id, first_by_ordinal, is_runnable, claim_workflow_node, is_leased,
  renew_workflow_node_lease, save_workflow_node_checkpoint, save_workflow_node_progress,
  lock_node_and_run, complete_workflow_node, await_workflow_node_manual, fail_workflow_node,
  retry_workflow_node, pause_workflow_node, OwnedAction, renewing, saving_checkpoint,
  saving_progress, completing, handing_over, failing, retrying, pausing, Transaction, act,
  after_all,
}
use req_flow.Workflow.RunStore.Moving.{AreMoves, AreMoves-ids, node_run_ids, IsAmong}
use req_flow.Workflow.RunStore.Working.{locked_row, claimed}
use req_flow.Workflow.RunStore.Series.{after_all-AreMoves}

lower_bound :
    (id : String) (a b : ℕ) (ns : List NodeRow)
    → a ≤ b
    → All (λ (n : NodeRow). node_with_id id n ≡ true → b < n.attempt) ns
    → All (λ (n : NodeRow). node_with_id id n ≡ true → a < n.attempt) ns
lower_bound id a b [] le h = tt
lower_bound id a b (n ∷ ns) le h =
    ((λ w. let lt = h.0 w in omega (arith, le, lt)), lower_bound id a b ns le h.1)

-- Every row of the node run has come to a later attempt.
abbrev IsBeyond : String → ℕ → List NodeRow → Type 0
IsBeyond id attempt ns = All (λ (n : NodeRow). node_with_id id n ≡ true → attempt < n.attempt) ns

AreMoves-IsBeyond :
    (id : String) (attempt : ℕ) (ns ms : List NodeRow)
    → AreMoves ns ms
    → IsBeyond id attempt ns
    → IsBeyond id attempt ms
unfolding AreMoves
AreMoves-IsBeyond id attempt [] [] h b = tt
AreMoves-IsBeyond id attempt [] (m ∷ ms) h b = absurd h
AreMoves-IsBeyond id attempt (n ∷ ns) [] h b = absurd h
AreMoves-IsBeyond id attempt (n ∷ ns) (m ∷ ms) h b = (
  (λ w.
      let before = b.0 (ap (λ k. k == id) (sym (h.0.id)) ∙ w) in
      omega (arith, before, h.0.attempt)),
  AreMoves-IsBeyond id attempt ns ms h.1 b.1,
)

update_rows-IsBeyond :
    (id : String) (attempt : ℕ) (set : NodeRow → NodeRow) (ns : List NodeRow)
    → ((n : NodeRow) → (set n).attempt ≡ attempt + 1)
    → IsBeyond id attempt (update_rows (node_with_id id) set ns)
update_rows-IsBeyond id attempt set [] h = tt
update_rows-IsBeyond id attempt set (n ∷ ns) h = (
  elim (Bool-cases (node_with_id id n)) [
    | inl hit ↦ rw hit (λ w. omega (arith, h n))
    | inr missed ↦ rw missed (λ w. absurd (cc (w, missed)))
  ],
  update_rows-IsBeyond id attempt set ns h,
)

claim-IsBeyond :
    (locked : NodeRow → Bool) (tables : Tables) (owner : String) (lease_until now : Time)
    {tables' : Tables} {node : NodeRow}
    → claim_workflow_node locked tables owner lease_until now ≡ ok (tables', node)
    → (before : ℕ) × (node.attempt ≡ before + 1) × IsBeyond node.id before tables'.nodes
unfolding claim_workflow_node
claim-IsBeyond locked tables owner lease_until now {tables'} {node} h =
    when_ok
      (row_or
        (first_by_ordinal (λ (n : NodeRow). is_runnable tables now n && not (locked n))
          tables.nodes)
        no_runnable_node)
      h
      (λ row _ done.
        let set = λ (n : NodeRow). record n {
          status = node_running;
          attempt = row.attempt + 1;
          lease_owner = owner;
          lease_until = some lease_until;
          retry_at = none;
          started_at = some now;
          error_code = "";
          error_message = "";
        } in
        let result : tables'.nodes ≡ update_rows (node_with_id row.id) set tables.nodes =
          ground arith in
        let same : node.id ≡ row.id = ground arith in
        let counted : node.attempt ≡ row.attempt + 1 = ground arith in
        (
          row.attempt,
          counted,
          rw (result, same) (update_rows-IsBeyond row.id row.attempt set tables.nodes (λ n. refl)),
        ))

not_ok : {A : Type 0} (r : Result StoreError A) → ((a : A) → r ≡ ok a → ⊥) → is_ok r ≡ false
not_ok (ok a) h = absurd (h a refl)
not_ok (err e) h = refl

among-holds :
    (P : NodeRow → Type 0) (n : NodeRow) (ns : List NodeRow) → IsAmong n ns → All P ns → P n
among-holds P n [] m h = absurd m
among-holds P n (k ∷ ns) m h = elim m [ inl e ↦ rw e (h.0) | inr l ↦ among-holds P n ns l h.1 ]

module _ (tables : Tables) (id : String) (attempt : ℕ) (owner : String) (now : Time)
    (beyond : IsBeyond id attempt tables.nodes) where
  lock-refused :
      (node : NodeRow) (run : RunRow)
      → lock_node_and_run tables id attempt owner now ≡ ok (node, run)
      → ⊥
  lock-refused node run h =
      let (m, same, leased) = locked_row tables id attempt owner now h in
      let later =
        among-holds (λ (n : NodeRow). node_with_id id n ≡ true → attempt < n.attempt) node
          tables.nodes m beyond ((eq_iff node.id id).1 same) in
      ground (arith, leased, later)

  unowned :
      (ns : List NodeRow)
      → IsBeyond id attempt ns
      → any (λ n. node_with_id id n && is_leased attempt owner now n) ns ≡ false
  unowned [] b = refl
  unowned (n ∷ ns) b = ground (arith, b.0, unowned ns b.1)

  locked_out :
      {A : Type 0} (rest : NodeRow × RunRow → Result StoreError A)
      → is_ok (lock_node_and_run tables id attempt owner now >>= rest) ≡ false
  locked_out rest = not_ok (lock_node_and_run tables id attempt owner now >>= rest) (λ t h.
      when_ok (lock_node_and_run tables id attempt owner now) h
        (λ (node, run) locked _. lock-refused node run locked))

module _ (new_id : List BindingRow → String) (of_actor : String → RawMessage) where
  act-refused :
      (tables : Tables) (id : String) (attempt : ℕ) (owner : String) (now : Time)
      → IsBeyond id attempt tables.nodes
      → (action : OwnedAction)
      → is_ok (act new_id of_actor tables id attempt owner now action) ≡ false
  unfolding act renew_workflow_node_lease save_workflow_node_checkpoint save_workflow_node_progress
      complete_workflow_node await_workflow_node_manual fail_workflow_node retry_workflow_node
      pause_workflow_node
  act-refused tables id attempt owner now b (renewing lease_until) =
      rw (unowned tables id attempt owner now b tables.nodes b) refl
  act-refused tables id attempt owner now b (saving_checkpoint checkpoint) =
      rw (unowned tables id attempt owner now b tables.nodes b) refl
  act-refused tables id attempt owner now b (saving_progress progress) =
      rw (unowned tables id attempt owner now b tables.nodes b) refl
  act-refused tables id attempt owner now b (completing outputs) =
      locked_out tables id attempt owner now b _
  act-refused tables id attempt owner now b (handing_over code message) =
      locked_out tables id attempt owner now b _
  act-refused tables id attempt owner now b (failing code message) =
      locked_out tables id attempt owner now b _
  act-refused tables id attempt owner now b (retrying code message retry_at) =
      locked_out tables id attempt owner now b _
  act-refused tables id attempt owner now b pausing = locked_out tables id attempt owner now b _

  -- A claim shuts out every earlier one: after it, and after any series of transactions that follow, whatever a worker
  -- asks for that node run in the name of an earlier attempt is refused, whoever owned it and whatever the clock says.
  -- The identifiers of node runs are distinct, as the primary key of their table says.
  pub claim-fences :
      (locked : NodeRow → Bool) (tables : Tables) (owner : String) (lease_until claimed_at : Time)
      {tables' : Tables} {node : NodeRow} (series : List (Time × Transaction)) (attempt : ℕ)
      (late_owner : String) (now : Time) (action : OwnedAction)
      → Nodup (node_run_ids tables.nodes)
      → claim_workflow_node locked tables owner lease_until claimed_at ≡ ok (tables', node)
      → attempt < node.attempt
      → is_ok (
          act new_id of_actor
            (after_all new_id of_actor tables' series)
            node.id
            attempt
            late_owner
            now
            action)
        ≡ false
  claim-fences locked tables owner lease_until claimed_at {tables'} {node} series attempt late_owner
        now action d h earlier =
      let (before, counted, beyond) = claim-IsBeyond locked tables owner lease_until claimed_at h in
      let moved = claimed tables d locked owner lease_until claimed_at h in
      let d' : Nodup (node_run_ids tables'.nodes) =
        rw (← AreMoves-ids tables.nodes tables'.nodes moved) at d in
      let final_tables = after_all new_id of_actor tables' series in
      let later =
        AreMoves-IsBeyond node.id before tables'.nodes final_tables.nodes
          (after_all-AreMoves new_id of_actor tables' series d') beyond in
      act-refused final_tables node.id attempt late_owner now
        (lower_bound node.id attempt before final_tables.nodes (omega (arith, counted, earlier))
          later)
        action
