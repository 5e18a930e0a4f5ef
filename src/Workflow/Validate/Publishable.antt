-- ===== src/Workflow/Validate/Publishable.antt =====
-- internal/domain/workflow/validate.go: what a draft has when it is accepted for a publication.
use req_flow.Prelude.{
  ℕ, suc, String, Bool, true, false, ◌||◌, List, [], ◌∷◌, ◌++◌, Option, none, some, ◌≡◌, refl, sym,
  ap, ◌∙◌, arith, All, is_empty, is_some, contains, lookup, has, insert, valid_identifier,
  element_path, eq_iff, ◌==◌, has-insert, contains_of_mem,
}
use req_flow.Prelude.Int.{ℤ, pos, ◌≤ℤ◌, eqb_ℤ→eq}
use req_flow.Json.{RawMessage, is_valid_json}
use mathlib.Core.List.{Nodup, Nodup-nil, Nodup-cons}
use req_flow.Workflow.Model.{
  WorkflowDraft, WorkflowNode, CapabilityDefinition, AcceptanceCase, RuleDecision,
}
use req_flow.Workflow.Order.{node_ids}
use req_flow.Workflow.Validate.Issues.{
  ValidationMode, publish_mode, ValidationIssue, has_errors, has_errors-append, is_empty_trimmed,
}
use req_flow.Workflow.Validate.Index.{
  Catalog, resolve_capability, insert_some, node_issues, index_nodes,
}
use req_flow.Workflow.Validate.Decisions.{
  is_high, is_unconfirmed, index_decisions, require_confirmed_decision, case_issues, passed_issues,
}

pub no_errors-append :
    (xs ys : List ValidationIssue)
    → has_errors (xs ++ ys) ≡ false
    → (has_errors xs ≡ false) × (has_errors ys ≡ false)
no_errors-append xs ys h = ground (arith, has_errors-append xs ys)

-- A node is as a run needs it: it has a valid identifier and a capability that takes its configuration.
abbrev pub IsUsable : (CapabilityDefinition → RawMessage → Bool) → Catalog → WorkflowNode → Type 0
IsUsable valid_config none node = ⊥
IsUsable valid_config (some find_capability) node =
    (valid_identifier node.id ≡ true)
    × ((capability : CapabilityDefinition) × (find_capability node.capability ≡ some capability)
        × (valid_config capability node.config ≡ true))

-- An acceptance case that the current revision passed, in a preview.
abbrev pub IsPassed : ℤ → AcceptanceCase → Type 0
IsPassed revision test =
    (valid_identifier test.id ≡ true)
    × (is_valid_json test.input ≡ true)
    × (is_valid_json test.expectation ≡ true)
    × (test.last_passed ≡ true)
    × (test.last_passed_revision ≡ revision)
    × (is_empty_trimmed test.last_preview_id ≡ false)

abbrev pub case_ids : List AcceptanceCase → List String
case_ids [] = []
case_ids (test ∷ rest) = test.id ∷ case_ids rest

-- The last decision at a path is of high risk, and a person has confirmed it.
abbrev pub IsConfirmed : Option RuleDecision → Type 0
IsConfirmed none = ⊥
IsConfirmed (some decision) = (is_high decision.risk ≡ true) × (is_unconfirmed decision ≡ false)

pub record IsPublishable (valid_config : CapabilityDefinition → RawMessage → Bool)
    (catalog : Catalog) (draft : WorkflowDraft) : Type 0 where
  pub key_valid : valid_identifier draft.key ≡ true
  pub name_given : is_empty_trimmed draft.name ≡ false
  pub workspace_given : is_empty_trimmed draft.workspace_id ≡ false
  pub revision_valid : pos 0 ≤ℤ draft.revision
  pub nodes_given : is_empty draft.nodes ≡ false
  pub nodes_usable : All (IsUsable valid_config catalog) draft.nodes
  pub nodes_distinct : Nodup (node_ids draft.nodes)
  pub cases_given : is_empty draft.acceptance_cases ≡ false
  pub cases_passed : All (IsPassed draft.revision) draft.acceptance_cases
  pub cases_distinct : Nodup (case_ids draft.acceptance_cases)
  pub granularity_confirmed :
      is_some draft.rules.data_rules ≡ true
      → IsConfirmed (
          lookup "rules.data_contract.record_granularity"
            (index_decisions draft.rules.decisions []))
  pub key_fields_confirmed :
      is_some draft.rules.data_rules ≡ true
      → IsConfirmed
          (lookup "rules.data_contract.key_fields" (index_decisions draft.rules.decisions []))

-- Identifiers that the map does not hold yet, and no two of which are the same.
unfoldable pub AreFresh : (String → Bool) → List String → Type 0
AreFresh taken [] = Unit
AreFresh taken (id ∷ ids) = (taken id ≡ false) × AreFresh (λ k. id == k || taken k) ids

AreFresh-mem :
    (taken : String → Bool) (ids : List String) (k : String)
    → AreFresh taken ids
    → taken k ≡ true
    → contains k ids ≡ false
unfolding AreFresh
AreFresh-mem taken [] k f h = refl
AreFresh-mem taken (id ∷ ids) k f h =
    ground (arith, AreFresh-mem (λ j. id == j || taken j) ids k f.1, eq_iff id k)

pub AreFresh-Nodup : (taken : String → Bool) (ids : List String) → AreFresh taken ids → Nodup ids
unfolding AreFresh
AreFresh-Nodup taken [] f = Nodup-nil
AreFresh-Nodup taken (id ∷ ids) f = Nodup-cons.1 (
  (λ m. cc (
    contains_of_mem id ids m,
    AreFresh-mem (λ j. id == j || taken j) ids id f.1 (ground (arith, eq_iff id id)),
  )),
  AreFresh-Nodup (λ j. id == j || taken j) ids f.1,
)

pub AreFresh-ext :
    (p q : String → Bool) (ids : List String)
    → ((k : String) → p k ≡ q k)
    → AreFresh p ids
    → AreFresh q ids
unfolding AreFresh
AreFresh-ext p q [] e f = tt
AreFresh-ext p q (id ∷ ids) e f = (
  sym (e id) ∙ f.0,
  AreFresh-ext (λ k. id == k || p k) (λ k. id == k || q k) ids (λ k. ap (λ b. id == k || b) (e k))
      f.1,
)

resolved :
    (valid_config : CapabilityDefinition → RawMessage → Bool) (catalog : Catalog) (path : String)
    (node : WorkflowNode)
    → valid_identifier node.id ≡ true
    → has_errors (resolve_capability valid_config catalog path node).1 ≡ false
    → IsUsable valid_config catalog node
unfolding resolve_capability
resolved valid_config none path node v h = cc
resolved valid_config (some find_capability) path node v h =
    elim (find_capability node.capability)
        as (λ o.
          find_capability node.capability ≡ o → IsUsable valid_config (some find_capability) node) [
            | none ↦ λ e. ground arith
            | some capability ↦ λ e. (v, (capability, e, ground arith))
          ]
      refl

pub index_nodes-usable :
    (valid_config : CapabilityDefinition → RawMessage → Bool) (mode : ValidationMode)
    (catalog : Catalog) (i : ℕ) (rest : List WorkflowNode) (nodes : List (String × WorkflowNode))
    (capabilities : List (String × CapabilityDefinition))
    → has_errors (index_nodes valid_config mode catalog i rest nodes capabilities).issues ≡ false
    → All (IsUsable valid_config catalog) rest × AreFresh (λ k. has k nodes) (node_ids rest)
unfolding index_nodes AreFresh
index_nodes-usable valid_config mode catalog i [] nodes capabilities h = (tt, tt)
index_nodes-usable valid_config mode catalog i (node ∷ rest) nodes capabilities h =
    let path = element_path "nodes" i in
    let found = resolve_capability valid_config catalog path node in
    let later =
      index_nodes valid_config mode catalog (suc i) rest (insert node.id node nodes)
        (insert_some valid_config node.id found.0 capabilities) in
    let (own, others) =
      no_errors-append (node_issues valid_config mode path node nodes) (found.1 ++ later.issues)
        h in
    let (looked, later_ok) = no_errors-append found.1 later.issues others in
    let valid : (valid_identifier node.id ≡ true) × (has node.id nodes ≡ false) = ground arith in
    let (usable, fresh) =
      index_nodes-usable valid_config mode catalog (suc i) rest (insert node.id node nodes)
        (insert_some valid_config node.id found.0 capabilities) later_ok in
    (
      (resolved valid_config catalog path node valid.0 looked, usable),
      (
        valid.1,
        AreFresh-ext (λ k. has k (insert node.id node nodes)) (λ k. node.id == k || has k nodes)
            (node_ids rest) (λ k. has-insert node.id k node nodes) fresh,
      ),
    )

pub case_issues-fresh :
    (i : ℕ) (cases : List AcceptanceCase) (seen : List String)
    → has_errors (case_issues i cases seen) ≡ false
    → AreFresh (λ k. contains k seen) (case_ids cases)
unfolding case_issues AreFresh
case_issues-fresh i [] seen h = tt
case_issues-fresh i (test ∷ rest) seen h =
    ground (arith, case_issues-fresh (suc i) rest (test.id ∷ seen))

pub cases-IsPassed :
    (revision : ℤ) (i j : ℕ) (cases : List AcceptanceCase) (seen : List String)
    → has_errors (case_issues i cases seen) ≡ false
    → has_errors (passed_issues revision j cases) ≡ false
    → All (IsPassed revision) cases
unfolding case_issues passed_issues
cases-IsPassed revision i j [] seen h k = tt
cases-IsPassed revision i j (test ∷ rest) seen h k = ground (
  arith,
  eqb_ℤ→eq test.last_passed_revision revision,
  cases-IsPassed revision (suc i) (suc j) rest (test.id ∷ seen),
)

pub confirmed :
    (decisions : List (String × RuleDecision)) (path : String)
    → has_errors (require_confirmed_decision publish_mode decisions path) ≡ false
    → IsConfirmed (lookup path decisions)
unfolding require_confirmed_decision
confirmed decisions path h =
    elim (lookup path decisions) as (λ o. lookup path decisions ≡ o → IsConfirmed o) [
      | none ↦ λ e. ground arith
      | some decision ↦ λ e. ground arith
    ]
      refl
