-- ===== src/Workflow/Session/Defs.antt =====
-- internal/domain/workflow/design_session.go: the methods of a session.
mod Data
pub use Data.*
use req_flow.Prelude.{
  String, Bool, true, false, not, ◌&&◌, ◌||◌, List, [], ◌∷◌, ◌++◌, map, Option, none, some, ◌==◌,
  eqb, if◌then◌else◌, is_blank, trim_space, any, find, Result, ok, err, ◌>>◌, refuse_if, or_keep,
}
use req_flow.Prelude.Int.{ℤ, pos, ltb_ℤ, leb_ℤ, eqb_ℤ}
use req_flow.Json.{RawMessage, is_absent, is_valid_json}
use req_flow.Workflow.Model.{Time}

-- `t.IsZero()`
abbrev pub is_zero_time : Time → Bool
is_zero_time t = eqb t 0

abbrev pub is_blank_trimmed : String → Bool
is_blank_trimmed s = is_blank (trim_space s)

unfoldable pub new_design_session :
    String → String → ℤ → Bool → Time → Result SessionError DesignSession
new_design_session id draft_id draft_revision agent_available now = do
  refuse_if
      (is_blank_trimmed id
        || is_blank_trimmed draft_id
        || ltb_ℤ draft_revision (pos 0)
        || is_zero_time now)
      invalid_identity
  ok (record {
    id = id;
    draft_id = draft_id;
    draft_revision = draft_revision;
    mode = if agent_available then agent else manual;
    status = if agent_available then agent_running else manual_editing;
    agent_available = agent_available;
    failure = none;
    pending_question = none;
    proposals = [];
    created_at = now;
    updated_at = now;
  })

abbrev pub is_completed : DesignSessionStatus → Bool
is_completed completed = true
is_completed _ = false

abbrev pub is_agent_running : DesignSessionStatus → Bool
is_agent_running agent_running = true
is_agent_running _ = false

abbrev pub is_awaiting_human : DesignSessionStatus → Bool
is_awaiting_human awaiting_human = true
is_awaiting_human _ = false

abbrev pub is_agent : AssistanceMode → Bool
is_agent agent = true
is_agent manual = false

abbrev pub is_pending : ProposalStatus → Bool
is_pending pending = true
is_pending _ = false

unfoldable pub ensure_mutable : DesignSession → Time → Result SessionError (Unit {0})
ensure_mutable s now = do
  refuse_if (is_zero_time now) no_time
  refuse_if (is_completed s.status) session_completed

unfoldable pub can_edit_manually : DesignSession → Bool
can_edit_manually s = not (is_completed s.status)

unfoldable pub start_agent : DesignSession → Time → Result SessionError DesignSession
unfolding ensure_mutable
start_agent s now = do
  ensure_mutable s now
  refuse_if (not s.agent_available) agent_unavailable
  ok (record s {
    mode = agent;
    status = agent_running;
    failure = none;
    pending_question = none;
    updated_at = now;
  })

unfoldable pub valid_model_failure_kind : ModelFailureKind → Bool
valid_model_failure_kind (other_failure s) = false
valid_model_failure_kind _ = true

-- A pending proposal that `stale` takes becomes obsolete.
unfoldable pub retire : (CommandProposal → Bool) → CommandProposal → CommandProposal
retire stale p = if is_pending p.status && stale p then record p { status = obsolete } else p

unfoldable pub switch_to_manual :
    DesignSession → ModelFailureKind → String → Time → Result SessionError DesignSession
unfolding ensure_mutable
switch_to_manual s kind message now = do
  ensure_mutable s now
  refuse_if (not (valid_model_failure_kind kind)) unknown_failure_kind
  ok (record s {
    mode = manual;
    status = manual_editing;
    failure = some (record { kind = kind; message = trim_space message; occurred_at = now });
    pending_question = none;
    proposals = map (retire (λ p. true)) s.proposals;
    updated_at = now;
  })

unfoldable pub request_human :
    DesignSession → HumanQuestion → Time → Result SessionError DesignSession
unfolding ensure_mutable
request_human s question now = do
  ensure_mutable s now
  refuse_if (not (is_agent s.mode) || not (is_agent_running s.status)) agent_not_running
  refuse_if
      (is_blank_trimmed question.id
        || is_blank_trimmed question.path
        || is_blank_trimmed question.prompt)
      question_incomplete
  refuse_if (not (is_absent question.context) && not (is_valid_json question.context))
      context_invalid
  ok (record s {
    pending_question = some (record question { requested_at = now });
    status = awaiting_human;
    updated_at = now;
  })

unfoldable pub answer_question :
    DesignSession
    → Option HumanQuestion
    → RawMessage
    → String
    → Time
    → Result SessionError DesignSession
answer_question s none answer actor now = err no_question
answer_question s (some question) answer actor now = do
  refuse_if (is_blank_trimmed actor || is_absent answer || not (is_valid_json answer))
      answer_invalid
  ok (record s {
    pending_question =
        some
          (record question { answer = answer; answered_at = now; answered_by = trim_space actor });
    status = agent_running;
    updated_at = now;
  })

unfoldable pub answer_human :
    DesignSession → RawMessage → String → Time → Result SessionError DesignSession
unfolding ensure_mutable answer_question
answer_human s answer actor now = do
  ensure_mutable s now
  refuse_if (not (is_awaiting_human s.status)) no_question
  answer_question s s.pending_question answer actor now

unfoldable pub add_proposal :
    DesignSession → CommandProposal → Time → Result SessionError DesignSession
unfolding ensure_mutable
add_proposal s proposal now = do
  ensure_mutable s now
  refuse_if (not (is_agent s.mode) || not (is_agent_running s.status)) agent_not_running
  refuse_if
      (is_blank_trimmed proposal.id
        || is_blank_trimmed proposal.summary
        || not (eqb_ℤ proposal.draft_revision s.draft_revision)
        || is_absent proposal.command
        || not (is_valid_json proposal.command))
      proposal_invalid
  refuse_if (any (λ existing. existing.id == proposal.id) s.proposals) proposal_exists
  ok (record s {
    proposals = s.proposals ++ (record proposal { status = pending; created_at = now }) ∷ [];
    updated_at = now;
  })

-- The first proposal with the identifier gets the status.
unfoldable pub settle : String → ProposalStatus → List CommandProposal → List CommandProposal
settle id status [] = []
settle id status (p ∷ ps) =
    if p.id == id then record p { status = status } ∷ ps else p ∷ settle id status ps

unfoldable pub resolve_found :
    DesignSession
    → String
    → Option CommandProposal
    → Bool
    → ℤ
    → Time
    → Result SessionError DesignSession
unfolding settle retire
resolve_found s id none accept next now = err proposal_not_found
resolve_found s id (some proposal) accept next now = do
  refuse_if (not (is_pending proposal.status)) proposal_settled
  refuse_if (accept && leb_ℤ next s.draft_revision) revision_not_increased
  ok (
      if accept
      then record s {
        proposals =
            map (retire (λ p. not (eqb_ℤ p.draft_revision next))) (settle id accepted s.proposals);
        draft_revision = next;
        updated_at = now;
      }
      else record s { proposals = settle id rejected s.proposals; updated_at = now })

unfoldable pub resolve_proposal :
    DesignSession → String → Bool → ℤ → Time → Result SessionError DesignSession
unfolding ensure_mutable resolve_found
resolve_proposal s id accept next now = do
  ensure_mutable s now
  resolve_found s id (find (λ p. p.id == id) s.proposals) accept next now

unfoldable pub refresh_draft_revision : DesignSession → ℤ → Time → Result SessionError DesignSession
unfolding ensure_mutable
refresh_draft_revision s revision now = do
  ensure_mutable s now
  refuse_if (ltb_ℤ revision s.draft_revision) revision_regressed
  ok (
      if eqb_ℤ revision s.draft_revision then s else record s {
        draft_revision = revision;
        proposals = map (retire (λ p. true)) s.proposals;
        updated_at = now;
      })

abbrev pub is_unanswered : Option HumanQuestion → Bool
is_unanswered none = false
is_unanswered (some question) = is_zero_time question.answered_at

unfoldable pub complete : DesignSession → Time → Result SessionError DesignSession
unfolding ensure_mutable
complete s now = do
  ensure_mutable s now
  refuse_if (is_unanswered s.pending_question) question_unanswered
  ok (record s { status = completed; updated_at = now })

-- A call of one of the methods, and the session after a series of calls: a refused call leaves it as it was.
pub data Call : Type 0 where
  starting : Time → Call
  switching : ModelFailureKind → String → Time → Call
  requesting : HumanQuestion → Time → Call
  answering : RawMessage → String → Time → Call
  proposing : CommandProposal → Time → Call
  resolving : String → Bool → ℤ → Time → Call
  refreshing : ℤ → Time → Call
  completing : Time → Call

unfoldable pub call : DesignSession → Call → Result SessionError DesignSession
call s (starting now) = start_agent s now
call s (switching kind message now) = switch_to_manual s kind message now
call s (requesting question now) = request_human s question now
call s (answering answer actor now) = answer_human s answer actor now
call s (proposing proposal now) = add_proposal s proposal now
call s (resolving id accept next now) = resolve_proposal s id accept next now
call s (refreshing revision now) = refresh_draft_revision s revision now
call s (completing now) = complete s now

unfoldable pub after : DesignSession → List Call → DesignSession
after s [] = s
after s (c ∷ cs) = after (or_keep s (call s c)) cs
