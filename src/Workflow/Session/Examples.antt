-- ===== src/Workflow/Session/Examples.antt =====
-- internal/domain/workflow/design_session.go: one session, from its start to its end.
use req_flow.Prelude.{
  String, true, false, List, [], ◌∷◌, none, some, ◌≡◌, refl, arith, ok, trim_space,
}
use req_flow.Prelude.Int.{pos, ◌≤ℤ◌}
use req_flow.Json.{document, text}
use req_flow.Workflow.Session.Defs.{
  DesignSession, agent, agent_running, awaiting_human, completed, CommandProposal, pending,
  accepted, obsolete, HumanQuestion, new_design_session, Call, requesting, answering, proposing,
  resolving, completing, switching, starting, rate_limited, model_unavailable, call, after,
  start_agent, request_human, answer_human, answer_question, add_proposal, resolve_proposal,
  resolve_found, settle, retire, complete, ensure_mutable, can_edit_manually,
}
use req_flow.Workflow.Session.Proposals.{status_of}
use req_flow.Workflow.Session.Invariant.{
  IsWellFormed, new_design_session-IsWellFormed, after-IsWellFormed,
}
use req_flow.Workflow.Session.Lifecycle.{
  Accepted, after_completed, revision_monotone, settled_stays, resolve_proposal-accept,
  can_complete,
}

abbrev started : DesignSession
started = record {
  id = "s";
  draft_id = "d";
  draft_revision = pos 3;
  mode = agent;
  status = agent_running;
  agent_available = true;
  failure = none;
  pending_question = none;
  proposals = [];
  created_at = 10;
  updated_at = 10;
}

started_new : new_design_session "s" "d" (pos 3) true 10 ≡ ok started
unfolding new_design_session trim_space
started_new = refl

abbrev proposal : String → CommandProposal
proposal id = record {
  id = id;
  draft_revision = pos 3;
  summary = "add a node";
  command = document (text "add_node");
  status = pending;
  created_at = 0;
}

abbrev question : HumanQuestion
question = record {
  id = "q";
  path = "rules.data_contract.key_fields";
  prompt = "which fields identify a record?";
  context = document (text "orders");
  requested_at = 0;
  answered_at = 0;
  answered_by = "";
  answer = document (text "");
}

-- Two proposals, a question that is answered, and the first proposal accepted; the second is then obsolete.
abbrev calls : List Call
calls =
    proposing (proposal "p1") 11
    ∷ proposing (proposal "p2") 12
    ∷ requesting question 13
    ∷ completing 14
    ∷ answering (document (text "order_no")) "li" 15
    ∷ []

abbrev before_accept : DesignSession
before_accept = after started calls

abbrev closed : DesignSession
closed = after started (resolving "p1" true (pos 4) 16 ∷ completing 17 ∷ [])

new_design_session-IsWellFormed_example : IsWellFormed started
new_design_session-IsWellFormed_example =
    new_design_session-IsWellFormed "s" "d" (pos 3) true 10 started_new

after-IsWellFormed_example : IsWellFormed before_accept
after-IsWellFormed_example =
    after-IsWellFormed started calls
      (new_design_session-IsWellFormed "s" "d" (pos 3) true 10 started_new)

abbrev after_accept : List Call
after_accept = resolving "p1" true (pos 4) 16 ∷ completing 17 ∷ starting 18 ∷ []

accepted_one :
    let s = after before_accept after_accept in
    (status_of "p1" s.proposals ≡ some accepted)
    × (status_of "p2" s.proposals ≡ some obsolete)
    × (s.draft_revision ≡ pos 4)
    × (s.status ≡ completed)
unfolding after call start_agent request_human answer_human answer_question add_proposal
    resolve_proposal resolve_found settle retire complete ensure_mutable trim_space
accepted_one = (refl, refl, refl, refl)

abbrev accepted_session : DesignSession
unfolding after call start_agent request_human answer_human answer_question add_proposal
    resolve_proposal resolve_found settle retire complete ensure_mutable trim_space
accepted_session = after before_accept (resolving "p1" true (pos 4) 16 ∷ [])

resolve_proposal-accept_example :
    (p : CommandProposal) × Accepted before_accept "p1" (pos 4) accepted_session p
unfolding after call start_agent request_human answer_human answer_question add_proposal
    resolve_proposal resolve_found settle retire complete ensure_mutable trim_space
resolve_proposal-accept_example =
    resolve_proposal-accept before_accept "p1" (pos 4) 16 {t = accepted_session}
      (after-IsWellFormed started calls
        (new_design_session-IsWellFormed "s" "d" (pos 3) true 10 started_new))
      refl

settled_stays_example :
    status_of "p2"
      (after (after before_accept after_accept) (resolving "p2" true (pos 9) 20 ∷ [])).proposals
    ≡ status_of "p2" (after before_accept after_accept).proposals
unfolding after call start_agent request_human answer_human answer_question add_proposal
    resolve_proposal resolve_found settle retire complete ensure_mutable trim_space
settled_stays_example =
    settled_stays (after before_accept after_accept) (resolving "p2" true (pos 9) 20 ∷ []) "p2" refl

revision_monotone_example : started.draft_revision ≤ℤ (after started calls).draft_revision
revision_monotone_example = revision_monotone started calls

after_completed_example :
    let s = after before_accept after_accept in
    (after s (switching rate_limited "" 21 ∷ []) ≡ s) × (can_edit_manually s ≡ false)
unfolding after call start_agent request_human answer_human answer_question add_proposal
    resolve_proposal resolve_found settle retire complete ensure_mutable trim_space
after_completed_example =
    after_completed (after before_accept after_accept) (switching rate_limited "" 21 ∷ []) refl

can_complete_example :
    (after started (switching model_unavailable "" 30 ∷ completing 30 ∷ [])).status ≡ completed
unfolding can_edit_manually
can_complete_example = can_complete started 30 refl (omega arith)

-- A question that arrives with an answer time is no obstacle to the completion, although nobody answered it.
preanswered :
    ((after started (requesting (record question { answered_at = 5 }) 13 ∷ [])).status
      ≡ awaiting_human)
    × ((after started
          (requesting (record question { answered_at = 5 }) 13 ∷ completing 14 ∷ [])).status
        ≡ completed)
unfolding after call start_agent request_human answer_human answer_question add_proposal
    resolve_proposal resolve_found settle retire complete ensure_mutable trim_space
preanswered = (refl, refl)
