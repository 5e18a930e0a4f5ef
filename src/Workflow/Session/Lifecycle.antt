-- ===== src/Workflow/Session/Lifecycle.antt =====
-- internal/domain/workflow/design_session.go: how a session and its proposals end.
use req_flow.Prelude.{
  String, Bool, true, false, not, List, [], ◌∷◌, Option, none, some, ◌≡◌, refl, ◌∙◌, ◌==◌, ◌<◌,
  arith, All, find, ok, or_keep, or_keep_ind, is_ok,
}
use req_flow.Prelude.Int.{ℤ, ◌≤ℤ◌, ◌<ℤ◌, eqb_ℤ}
use req_flow.Workflow.Model.{Time}
use req_flow.Workflow.Session.Defs.{
  DesignSession, completed, CommandProposal, pending, accepted, rejected, model_unavailable, Call,
  starting, switching, requesting, answering, proposing, resolving, refreshing, completing, call,
  after, start_agent, switch_to_manual, request_human, answer_human, add_proposal, resolve_proposal,
  resolve_found, refresh_draft_revision, complete, settle, valid_model_failure_kind,
  can_edit_manually,
}
use req_flow.Workflow.Session.Proposals.{
  IsSettled, status_of, status_of-retire, status_of-settle, status_of-append, status_of-settle_self,
  IsNotPending, All-retire_outdated, All-settle, All-find,
}
use req_flow.Workflow.Session.Invariant.{IsWellFormed}

completed-call : (s : DesignSession) (c : Call) → s.status ≡ completed → is_ok (call s c) ≡ false
unfolding call start_agent switch_to_manual request_human answer_human add_proposal resolve_proposal
    refresh_draft_revision complete
completed-call s (starting now) h = ground arith
completed-call s (switching kind message now) h = ground arith
completed-call s (requesting question now) h = ground arith
completed-call s (answering answer actor now) h = ground arith
completed-call s (proposing proposal now) h = ground arith
completed-call s (resolving id accept next now) h = ground arith
completed-call s (refreshing revision now) h = ground arith
completed-call s (completing now) h = ground arith

-- A completed session never changes again, whatever is called, and cannot be edited by hand.
pub after_completed :
    (s : DesignSession) (calls : List Call)
    → s.status ≡ completed
    → (after s calls ≡ s) × (can_edit_manually s ≡ false)
unfolding after can_edit_manually
after_completed s [] h = (refl, ground arith)
after_completed s (c ∷ cs) h = ground (arith, completed-call s c, after_completed s cs)

module _ (s : DesignSession) {t : DesignSession} where
  revision-resolve_found :
      (id : String) (found : Option CommandProposal) (accept : Bool) (next : ℤ) (now : Time)
      → resolve_found s id found accept next now ≡ ok t
      → s.draft_revision ≤ℤ t.draft_revision
  unfolding resolve_found
  revision-resolve_found id none accept next now h = cc
  revision-resolve_found id (some p) accept next now h = ground arith

  revision-call : (c : Call) → call s c ≡ ok t → s.draft_revision ≤ℤ t.draft_revision
  unfolding call start_agent switch_to_manual request_human answer_human add_proposal
      resolve_proposal refresh_draft_revision complete
  revision-call (starting now) h = ground arith
  revision-call (switching kind message now) h = ground arith
  revision-call (requesting question now) h = ground arith
  revision-call (answering answer actor now) h = ground arith
  revision-call (proposing proposal now) h = ground arith
  revision-call (resolving id accept next now) h =
      ground (arith, revision-resolve_found id (find (λ p. p.id == id) s.proposals) accept next now)
  revision-call (refreshing revision now) h = ground arith
  revision-call (completing now) h = ground arith

≤ℤ_trans : (a b c : ℤ) → a ≤ℤ b → b ≤ℤ c → a ≤ℤ c
≤ℤ_trans a b c h k = omega arith

-- The revision that a session works on never goes back, over any series of calls.
pub revision_monotone :
    (s : DesignSession) (calls : List Call) → s.draft_revision ≤ℤ (after s calls).draft_revision
unfolding after
revision_monotone s [] = omega arith
revision_monotone s (c ∷ cs) =
    ≤ℤ_trans s.draft_revision _ _
      (or_keep_ind (λ u. s.draft_revision ≤ℤ u.draft_revision) s (call s c) (omega arith)
        (λ t e. revision-call s c e))
      (revision_monotone (or_keep s (call s c)) cs)

module _ (s : DesignSession) {t : DesignSession} (id : String)
    (settled : IsSettled (status_of id s.proposals)) where
  status_of-resolve_found :
      (j : String) (found : Option CommandProposal) (accept : Bool) (next : ℤ) (now : Time)
      → find (λ p. p.id == j) s.proposals ≡ found
      → resolve_found s j found accept next now ≡ ok t
      → status_of id t.proposals ≡ status_of id s.proposals
  unfolding resolve_found
  status_of-resolve_found j none accept next now f h = cc
  status_of-resolve_found j (some p) accept next now f h = ground (
    arith,
    status_of-settle id j accepted s.proposals p,
    status_of-settle id j rejected s.proposals p,
    status_of-retire id (λ q. not (eqb_ℤ q.draft_revision next)) (settle j accepted s.proposals),
  )

  status_of-call :
      (c : Call) → call s c ≡ ok t → status_of id t.proposals ≡ status_of id s.proposals
  unfolding call start_agent switch_to_manual request_human answer_human add_proposal
      resolve_proposal refresh_draft_revision complete
  status_of-call (starting now) h = ground arith
  status_of-call (switching kind message now) h =
      ground (arith, status_of-retire id (λ p. true) s.proposals settled)
  status_of-call (requesting question now) h = ground arith
  status_of-call (answering answer actor now) h = ground arith
  status_of-call (proposing proposal now) h = ground (
    arith,
    status_of-append id s.proposals (record proposal { status = pending; created_at = now })
        settled,
  )
  status_of-call (resolving j accept next now) h =
      ground
        (arith, status_of-resolve_found j (find (λ p. p.id == j) s.proposals) accept next now refl)
  status_of-call (refreshing revision now) h =
      ground (arith, status_of-retire id (λ p. true) s.proposals settled)
  status_of-call (completing now) h = ground arith

-- Once a proposal is accepted, rejected or obsolete, its status stays, and it stays in the session, whatever is
-- called.
pub settled_stays :
    (s : DesignSession) (calls : List Call) (id : String)
    → IsSettled (status_of id s.proposals)
    → status_of id (after s calls).proposals ≡ status_of id s.proposals
unfolding after
settled_stays s [] id h = refl
settled_stays s (c ∷ cs) id h =
    let once : status_of id (or_keep s (call s c)).proposals ≡ status_of id s.proposals =
      or_keep_ind (λ u. status_of id u.proposals ≡ status_of id s.proposals) s (call s c) refl
        (λ t e. status_of-call s id h c e) in
    settled_stays (or_keep s (call s c)) cs id (rw once h) ∙ once

-- What accepting a proposal does.
abbrev pub Accepted : DesignSession → String → ℤ → DesignSession → CommandProposal → Type 0
Accepted s id next t p =
    (find (λ q. q.id == id) s.proposals ≡ some p)
    × (p.status ≡ pending)
    × (p.draft_revision ≡ s.draft_revision)
    × (s.draft_revision <ℤ t.draft_revision)
    × (t.draft_revision ≡ next)
    × (status_of id t.proposals ≡ some accepted)
    × All IsNotPending t.proposals

resolve_found-accept :
    (s : DesignSession) (id : String) (found : Option CommandProposal) (next : ℤ) (now : Time)
    {t : DesignSession}
    → IsWellFormed s
    → find (λ q. q.id == id) s.proposals ≡ found
    → resolve_found s id found true next now ≡ ok t
    → (p : CommandProposal) × Accepted s id next t p
unfolding resolve_found
resolve_found-accept s id none next now w f h = cc
resolve_found-accept s id (some p) next now w f h = (
  p,
  ground (
    arith,
    All-find s.draft_revision id s.proposals p w.current f,
    status_of-settle_self id accepted s.proposals p f,
    status_of-retire id (λ q. not (eqb_ℤ q.draft_revision next)) (settle id accepted s.proposals),
    All-retire_outdated s.draft_revision next (settle id accepted s.proposals),
    All-settle s.draft_revision id accepted s.proposals refl w.current,
  ),
)

-- In a well-formed session, a proposal that is accepted was pending and drafted against the revision that the session
-- worked on; the session moves on to a greater revision, the proposal is accepted, and no proposal is pending any
-- more.
pub resolve_proposal-accept :
    (s : DesignSession) (id : String) (next : ℤ) (now : Time) {t : DesignSession}
    → IsWellFormed s
    → resolve_proposal s id true next now ≡ ok t
    → (p : CommandProposal) × Accepted s id next t p
unfolding resolve_proposal
resolve_proposal-accept s id next now {t} w h =
    resolve_found-accept s id (find (λ q. q.id == id) s.proposals) next now {t = t} w refl
      (ground arith)

-- A session that is not completed can be taken over by a person and completed, in two calls at a time that is not
-- zero, whatever state the agent left it in.
pub can_complete :
    (s : DesignSession) (now : Time)
    → can_edit_manually s ≡ true
    → 0 < now
    → (after s (switching model_unavailable "" now ∷ completing now ∷ [])).status ≡ completed
unfolding after call switch_to_manual complete can_edit_manually valid_model_failure_kind
can_complete s now h k = ground arith
