-- ===== src/Workflow/Session/Defs/Data.antt =====
-- internal/domain/workflow/design_session.go: the data of a session, and the reasons for which a method refuses.
use req_flow.Prelude.{String, Bool, List, Option}
use req_flow.Prelude.Int.{ℤ}
use req_flow.Json.{RawMessage}
use req_flow.Workflow.Model.{Time}

pub data AssistanceMode : Type 0 where
  manual agent : AssistanceMode

pub data DesignSessionStatus : Type 0 where
  manual_editing agent_running awaiting_human completed : DesignSessionStatus

pub data ModelFailureKind : Type 0 where
  model_unavailable rate_limited authentication_failed : ModelFailureKind
  context_overflow invalid_output policy_blocked : ModelFailureKind
  other_failure : String → ModelFailureKind

pub record ModelFailure : Type 0 where
  pub kind : ModelFailureKind
  pub message : String
  pub occurred_at : Time

pub data ProposalStatus : Type 0 where
  pending accepted rejected obsolete : ProposalStatus

pub record CommandProposal : Type 0 where
  pub id : String
  pub draft_revision : ℤ
  pub summary : String
  pub command : RawMessage
  pub status : ProposalStatus
  pub created_at : Time

pub record HumanQuestion : Type 0 where
  pub id : String
  pub path : String
  pub prompt : String
  pub context : RawMessage
  pub requested_at : Time
  pub answered_at : Time
  pub answered_by : String
  pub answer : RawMessage

pub record DesignSession : Type 0 where
  pub id : String
  pub draft_id : String
  pub draft_revision : ℤ
  pub mode : AssistanceMode
  pub status : DesignSessionStatus
  pub agent_available : Bool
  pub failure : Option ModelFailure
  pub pending_question : Option HumanQuestion
  pub proposals : List CommandProposal
  pub created_at : Time
  pub updated_at : Time

pub data SessionError : Type 0 where
  invalid_identity no_time session_completed agent_unavailable unknown_failure_kind : SessionError
  agent_not_running question_incomplete context_invalid : SessionError
  no_question answer_invalid proposal_invalid proposal_exists : SessionError
  proposal_settled revision_not_increased proposal_not_found revision_regressed : SessionError
  question_unanswered : SessionError
