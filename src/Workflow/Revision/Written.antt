-- ===== src/Workflow/Revision/Written.antt =====
-- internal/domain/workflow/revision.go: what `json.Marshal` takes of the content of a revision.
-- A `json.RawMessage` that is no JSON document is refused, unless it is empty in a field that is left out then; a time is
-- refused whose year has more than four digits.
use req_flow.Prelude.{
  ℕ, suc, ◌<◌, String, Bool, true, false, ◌||◌, List, [], ◌∷◌, ◌≡◌, arith, All, lt_text, has,
  insert, element_path, Bool-cases, inl, inr, Option, some,
}
use mathlib.Core.Logic.Or
use mathlib.Core.List.{Mem, mem-cons, not-mem-nil}
use req_flow.Json.{RawMessage, is_absent, is_valid_json}
use req_flow.Workflow.Model.{
  Time, CapabilityRef, CapabilityDefinition, WorkflowNode, WorkflowDraft, RuleBundle, RuleDecision,
  AcceptanceCase, ResolvedNode,
}
use req_flow.Workflow.Validate.Issues.{publish_mode, has_errors}
use req_flow.Workflow.Validate.Decisions.{decision_issues, decisions_issues, validate_decisions}
use req_flow.Workflow.Validate.Publishable.{IsPassed, no_errors-append}
use req_flow.Workflow.Revision.Defs.{RevisionContent, insert_case, sort_cases, content_of}
use req_flow.Workflow.Revision.Resolved.{IsResolved}

-- A field with `omitempty`.
abbrev pub is_omittable : RawMessage → Bool
is_omittable raw = is_absent raw || is_valid_json raw

-- The nanoseconds from the zero time to the last day of the year 9999, which is in that year in every zone.
abbrev pub time_limit : Time
time_limit = 315_537_811_200_000_000_000

abbrev pub IsWritableDecision : RuleDecision → Type 0
IsWritableDecision decision =
    (is_valid_json decision.value ≡ true) × (decision.confirmed_at < time_limit)

abbrev pub IsWritableCase : AcceptanceCase → Type 0
IsWritableCase test =
    (is_valid_json test.input ≡ true)
    × (is_valid_json test.expectation ≡ true)
    × (test.last_run_at < time_limit)

abbrev pub IsWritableCapability : CapabilityDefinition → Type 0
IsWritableCapability capability =
    (is_omittable capability.config_schema ≡ true) × (is_omittable capability.default_config ≡ true)

abbrev pub IsWritableNode : ResolvedNode → Type 0
IsWritableNode node = IsWritableCapability node.capability × (is_omittable node.config ≡ true)

abbrev pub AreWritableRules : RuleBundle → Type 0
AreWritableRules rules = All IsWritableDecision rules.decisions

abbrev pub IsWritable : RevisionContent → Type 0
IsWritable content =
    All IsWritableNode content.nodes
    × AreWritableRules content.rules
    × All IsWritableCase content.acceptance_cases

-- What the validation does not see to: the configurations of the nodes, and the times.
abbrev pub HasWritableParts : WorkflowDraft → Type 0
HasWritableParts draft =
    All (λ (node : WorkflowNode). is_omittable node.config ≡ true) draft.nodes
    × All (λ (decision : RuleDecision). decision.confirmed_at < time_limit) draft.rules.decisions
    × All (λ (test : AcceptanceCase). test.last_run_at < time_limit) draft.acceptance_cases

decision-value :
    (path : String) (decision : RuleDecision) (seen : Bool)
    → has_errors (decision_issues publish_mode path decision seen) ≡ false
    → is_valid_json decision.value ≡ true
unfolding decision_issues
decision-value path decision seen h = ground arith

decisions-AreWritable :
    (i : ℕ) (decisions : List RuleDecision) (by_path : List (String × RuleDecision))
    → has_errors (decisions_issues publish_mode i decisions by_path) ≡ false
    → All (λ (decision : RuleDecision). decision.confirmed_at < time_limit) decisions
    → All IsWritableDecision decisions
unfolding decisions_issues
decisions-AreWritable i [] by_path h timed = tt
decisions-AreWritable i (decision ∷ rest) by_path h timed =
    let path = element_path "rules.decisions" i in
    let (own, others) =
      no_errors-append (decision_issues publish_mode path decision (has decision.path by_path))
        (decisions_issues publish_mode (suc i) rest (insert decision.path decision by_path)) h in
    (
      (decision-value path decision (has decision.path by_path) own, timed.0),
      decisions-AreWritable (suc i) rest (insert decision.path decision by_path) others timed.1,
    )

pub rules-AreWritable :
    (rules : RuleBundle)
    → has_errors (validate_decisions publish_mode rules) ≡ false
    → All (λ (decision : RuleDecision). decision.confirmed_at < time_limit) rules.decisions
    → AreWritableRules rules
unfolding validate_decisions
rules-AreWritable rules h timed =
    decisions-AreWritable 0 rules.decisions []
      (no_errors-append (decisions_issues publish_mode 0 rules.decisions []) _ h).0 timed

cases-AreWritable :
    (draft : WorkflowDraft) (cases : List AcceptanceCase)
    → All (IsPassed draft.revision) cases
    → All (λ (test : AcceptanceCase). test.last_run_at < time_limit) cases
    → All IsWritableCase cases
cases-AreWritable draft [] passed timed = tt
cases-AreWritable draft (test ∷ rest) passed timed =
    ((passed.0.1, passed.0.2, timed.0), cases-AreWritable draft rest passed.1 timed.1)

All-insert_case :
    (P : AcceptanceCase → Type 0) (t : AcceptanceCase) (ts : List AcceptanceCase)
    → P t
    → All P ts
    → All P (insert_case t ts)
unfolding insert_case
All-insert_case P t [] p ps = (p, tt)
All-insert_case P t (u ∷ us) p ps = elim (Bool-cases (lt_text u.id t.id)) [
  | inl later ↦ rw later (ps.0, All-insert_case P t us p ps.1)
  | inr first ↦ rw first (p, ps)
]

All-sort_cases :
    (P : AcceptanceCase → Type 0) (ts : List AcceptanceCase) → All P ts → All P (sort_cases ts)
unfolding sort_cases
All-sort_cases P [] ps = tt
All-sort_cases P (t ∷ ts) ps = All-insert_case P t (sort_cases ts) ps.0 (All-sort_cases P ts ps.1)

node_config :
    (nodes : List WorkflowNode) (node : WorkflowNode)
    → All (λ (n : WorkflowNode). is_omittable n.config ≡ true) nodes
    → Mem node nodes
    → is_omittable node.config ≡ true
node_config [] node h m = absurd (not-mem-nil m)
node_config (n ∷ nodes) node h m =
    Or.elim (hlevel) (mem-cons.0 m) (λ e. rw e (h.0)) (node_config nodes node h.1)

module _ (find_capability : CapabilityRef → Option CapabilityDefinition)
    (capabilities : (ref : CapabilityRef) (capability : CapabilityDefinition)
      → find_capability ref ≡ some capability
      → IsWritableCapability capability) where
  nodes-AreWritable :
      (nodes : List WorkflowNode) (resolved : List ResolvedNode)
      → All (λ (n : WorkflowNode). is_omittable n.config ≡ true) nodes
      → All (IsResolved find_capability nodes) resolved
      → All IsWritableNode resolved
  nodes-AreWritable nodes [] h each = tt
  nodes-AreWritable nodes (first ∷ rest) h each =
      let (node, member, _, _, looked, configured) = each.0 in
      let own = node_config nodes node h member in
      let capability = capabilities node.capability first.capability looked in
      (
        (capability, rw configured (ground (arith, own, capability))),
        nodes-AreWritable nodes rest h each.1,
      )

  -- The content that is hashed for a draft that was validated.
  pub content_of-IsWritable :
      (draft : WorkflowDraft) (nodes : List ResolvedNode) (rules : RuleBundle)
      → HasWritableParts draft
      → All (IsPassed draft.revision) draft.acceptance_cases
      → All (IsResolved find_capability draft.nodes) nodes
      → AreWritableRules rules
      → IsWritable (content_of draft nodes rules)
  content_of-IsWritable draft nodes rules w passed each ruled = (
    nodes-AreWritable draft.nodes nodes w.0 each,
    ruled,
    All-sort_cases IsWritableCase draft.acceptance_cases
        (cases-AreWritable draft draft.acceptance_cases passed w.2),
  )
