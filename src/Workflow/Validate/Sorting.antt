-- ===== src/Workflow/Validate/Sorting.antt =====
-- internal/domain/workflow/validate.go: the end of `Validate`, where the issues are sorted.
use req_flow.Prelude.{
  Bool, true, not, ◌&&◌, ◌||◌, List, [], ◌∷◌, ◌≡◌, refl, String, arith, Bool-cases, inl, inr,
}
use req_flow.Json.{RawMessage}
use mathlib.Core.List.Perm
use mathlib.Core.List.{Perm}
use req_flow.Workflow.Model.{WorkflowDraft, CapabilityDefinition}
use req_flow.Workflow.Validate.Issues.{
  ValidationMode, ValidationIssue, is_error, has_errors, same_severity, before, insert_issue,
  sort_issues,
}
use req_flow.Workflow.Validate.Index.{Catalog}
use req_flow.Workflow.Validate.Decisions.{collect_issues, validate}

-- No issue that is not an error stands before an error.
abbrev pub errors_lead : List ValidationIssue → Bool
errors_lead [] = true
errors_lead (i ∷ is) = errors_lead is && (is_error i.severity || not (has_errors is))

insert_issue-perm :
    (i : ValidationIssue) (is : List ValidationIssue) → Perm (insert_issue i is) (i ∷ is)
unfolding insert_issue
insert_issue-perm i [] = Perm.refl (i ∷ [])
insert_issue-perm i (j ∷ js) = elim (Bool-cases (before j i)) [
  | inl behind ↦ rw behind (Perm.trans (Perm.cons j (insert_issue-perm i js)) (Perm.swap i j js))
  | inr ahead ↦ rw ahead (Perm.refl (i ∷ j ∷ js))
]

has_errors-insert_issue :
    (i : ValidationIssue) (is : List ValidationIssue)
    → has_errors (insert_issue i is) ≡ (is_error i.severity || has_errors is)
unfolding insert_issue
has_errors-insert_issue i [] = refl
has_errors-insert_issue i (j ∷ js) = ground (arith, has_errors-insert_issue i js)

errors_lead-insert_issue :
    (i : ValidationIssue) (is : List ValidationIssue)
    → errors_lead is ≡ true
    → errors_lead (insert_issue i is) ≡ true
unfolding insert_issue before same_severity
errors_lead-insert_issue i [] h = ground arith
errors_lead-insert_issue i (j ∷ js) h =
    ground (arith, errors_lead-insert_issue i js, has_errors-insert_issue i js)

pub sort_issues-perm : (is : List ValidationIssue) → Perm (sort_issues is) is
unfolding sort_issues
sort_issues-perm [] = Perm.refl []
sort_issues-perm (i ∷ is) =
    Perm.trans (insert_issue-perm i (sort_issues is)) (Perm.cons i (sort_issues-perm is))

pub has_errors-sort_issues :
    (is : List ValidationIssue) → has_errors (sort_issues is) ≡ has_errors is
unfolding sort_issues
has_errors-sort_issues [] = refl
has_errors-sort_issues (i ∷ is) =
    ground (arith, has_errors-insert_issue i (sort_issues is), has_errors-sort_issues is)

sort_issues-errors_lead : (is : List ValidationIssue) → errors_lead (sort_issues is) ≡ true
unfolding sort_issues
sort_issues-errors_lead [] = refl
sort_issues-errors_lead (i ∷ is) =
    errors_lead-insert_issue i (sort_issues is) (sort_issues-errors_lead is)

-- `Validate` returns exactly the issues that its checks added, each as often as it was added, and no issue that is not
-- an error stands before an error.
pub validate-sorted :
    (valid_config : CapabilityDefinition → RawMessage → Bool) (regex_compiles : String → Bool)
    (draft : WorkflowDraft) (catalog : Catalog) (mode : ValidationMode)
    → Perm
        (validate valid_config regex_compiles draft catalog mode)
        (collect_issues valid_config regex_compiles draft catalog mode)
      × (errors_lead (validate valid_config regex_compiles draft catalog mode) ≡ true)
unfolding validate
validate-sorted valid_config regex_compiles draft catalog mode = (
  sort_issues-perm (collect_issues valid_config regex_compiles draft catalog mode),
  sort_issues-errors_lead (collect_issues valid_config regex_compiles draft catalog mode),
)
