-- ===== src/Workflow/Session/Invariant.antt =====
-- internal/domain/workflow/design_session.go: what holds of a session between two calls.
use req_flow.Prelude.{
  String, Bool, true, not, List, [], ◌∷◌, Option, none, some, ◌≡◌, refl, ◌==◌, arith, All,
  All-append, find, is_some, ok, or_keep, or_keep_ind,
}
use req_flow.Prelude.Int.{ℤ, pos, ◌≤ℤ◌, eqb_ℤ, eqb_ℤ→eq}
use req_flow.Json.{RawMessage}
use req_flow.Workflow.Model.{Time}
use req_flow.Workflow.Session.Defs.{
  DesignSession, manual, agent, manual_editing, agent_running, awaiting_human, CommandProposal,
  HumanQuestion, ModelFailureKind, Call, starting, switching, requesting, answering, proposing,
  resolving, refreshing, completing, call, new_design_session, start_agent, switch_to_manual,
  request_human, answer_human, add_proposal, resolve_proposal, resolve_found,
  refresh_draft_revision, complete, after, is_unanswered, settle, pending, accepted, rejected,
}
use req_flow.Workflow.Session.Proposals.{
  IsCurrent, HasUniqueIds, HasUniqueIds-retire, HasUniqueIds-settle, HasUniqueIds-append,
  All-retire_each, All-retire_other, All-settle,
}

pub record IsWellFormed (s : DesignSession) : Type 0 where
  pub revision_valid : pos 0 ≤ℤ s.draft_revision
  pub current : All (IsCurrent s.draft_revision) s.proposals
  pub unique : HasUniqueIds s.proposals
  pub running_mode : s.status ≡ agent_running → s.mode ≡ agent
  pub awaiting_mode : s.status ≡ awaiting_human → s.mode ≡ agent
  pub awaiting_question : s.status ≡ awaiting_human → is_some s.pending_question ≡ true
  pub editing_mode : s.status ≡ manual_editing → s.mode ≡ manual
  pub editing_question : s.status ≡ manual_editing → s.pending_question ≡ none
  pub unanswered_awaits : is_unanswered s.pending_question ≡ true → s.status ≡ awaiting_human

-- A new session is well formed.
pub new_design_session-IsWellFormed :
    (id draft_id : String) (revision : ℤ) (available : Bool) (now : Time) {s : DesignSession}
    → new_design_session id draft_id revision available now ≡ ok s
    → IsWellFormed s
unfolding new_design_session
new_design_session-IsWellFormed id draft_id revision available now h = ground arith

module _ (s : DesignSession) (w : IsWellFormed s) {t : DesignSession} where
  start_agent-IsWellFormed : (now : Time) → start_agent s now ≡ ok t → IsWellFormed t
  unfolding start_agent
  start_agent-IsWellFormed now h = ground arith

  switch_to_manual-IsWellFormed :
      (kind : ModelFailureKind) (message : String) (now : Time)
      → switch_to_manual s kind message now ≡ ok t
      → IsWellFormed t
  unfolding switch_to_manual
  switch_to_manual-IsWellFormed kind message now h = ground (
    arith,
    All-retire_each s.draft_revision s.proposals,
    HasUniqueIds-retire (λ p. true) s.proposals w.unique,
  )

  request_human-IsWellFormed :
      (question : HumanQuestion) (now : Time) → request_human s question now ≡ ok t → IsWellFormed t
  unfolding request_human
  request_human-IsWellFormed question now h = ground arith

  answer_human-IsWellFormed :
      (answer : RawMessage) (actor : String) (now : Time)
      → answer_human s answer actor now ≡ ok t
      → IsWellFormed t
  unfolding answer_human
  answer_human-IsWellFormed answer actor now h = ground arith

  add_proposal-IsWellFormed :
      (proposal : CommandProposal) (now : Time)
      → add_proposal s proposal now ≡ ok t
      → IsWellFormed t
  unfolding add_proposal
  add_proposal-IsWellFormed proposal now h = ground (
    arith,
    eqb_ℤ→eq proposal.draft_revision s.draft_revision,
    All-append (IsCurrent s.draft_revision) s.proposals (added ∷ []) w.current,
    HasUniqueIds-append s.proposals added w.unique,
  )
    where
      added : CommandProposal
      added = record proposal { status = pending; created_at = now }

  resolve_found-IsWellFormed :
      (id : String) (found : Option CommandProposal) (accept : Bool) (next : ℤ) (now : Time)
      → resolve_found s id found accept next now ≡ ok t
      → IsWellFormed t
  unfolding resolve_found
  resolve_found-IsWellFormed id none accept next now h = cc
  resolve_found-IsWellFormed id (some p) accept next now h = ground (
    arith,
    All-settle s.draft_revision id rejected s.proposals refl w.current,
    All-retire_other next (settle id accepted s.proposals),
    HasUniqueIds-settle id rejected s.proposals w.unique,
    HasUniqueIds-retire (λ q. not (eqb_ℤ q.draft_revision next)) (settle id accepted s.proposals)
        (HasUniqueIds-settle id accepted s.proposals w.unique),
  )

  resolve_proposal-IsWellFormed :
      (id : String) (accept : Bool) (next : ℤ) (now : Time)
      → resolve_proposal s id accept next now ≡ ok t
      → IsWellFormed t
  unfolding resolve_proposal
  resolve_proposal-IsWellFormed id accept next now h =
      ground
        (arith, resolve_found-IsWellFormed id (find (λ p. p.id == id) s.proposals) accept next now)

  refresh_draft_revision-IsWellFormed :
      (revision : ℤ) (now : Time) → refresh_draft_revision s revision now ≡ ok t → IsWellFormed t
  unfolding refresh_draft_revision
  refresh_draft_revision-IsWellFormed revision now h = ground (
    arith,
    All-retire_each revision s.proposals,
    HasUniqueIds-retire (λ p. true) s.proposals w.unique,
  )

  complete-IsWellFormed : (now : Time) → complete s now ≡ ok t → IsWellFormed t
  unfolding complete
  complete-IsWellFormed now h = ground arith

-- Every call of a method that succeeds keeps a session well formed.
pub call-IsWellFormed :
    (s : DesignSession) (c : Call) {t : DesignSession}
    → IsWellFormed s
    → call s c ≡ ok t
    → IsWellFormed t
unfolding call
call-IsWellFormed s (starting now) w h = start_agent-IsWellFormed s w now h
call-IsWellFormed s (switching kind message now) w h =
    switch_to_manual-IsWellFormed s w kind message now h
call-IsWellFormed s (requesting question now) w h = request_human-IsWellFormed s w question now h
call-IsWellFormed s (answering answer actor now) w h =
    answer_human-IsWellFormed s w answer actor now h
call-IsWellFormed s (proposing proposal now) w h = add_proposal-IsWellFormed s w proposal now h
call-IsWellFormed s (resolving id accept next now) w h =
    resolve_proposal-IsWellFormed s w id accept next now h
call-IsWellFormed s (refreshing revision now) w h =
    refresh_draft_revision-IsWellFormed s w revision now h
call-IsWellFormed s (completing now) w h = complete-IsWellFormed s w now h

-- From a well-formed session, any series of calls, refused ones among them, ends in a well-formed session:
-- its revision is not negative, every pending proposal was drafted against the session's revision, no two
-- proposals share an identifier, the status fits the mode and the question, and only a session that awaits a
-- person has an unanswered question.
pub after-IsWellFormed :
    (s : DesignSession) (calls : List Call) → IsWellFormed s → IsWellFormed (after s calls)
unfolding after
after-IsWellFormed s [] w = w
after-IsWellFormed s (c ∷ cs) w =
    after-IsWellFormed (or_keep s (call s c)) cs
      (or_keep_ind IsWellFormed s (call s c) w (λ t e. call-IsWellFormed s c w e))
