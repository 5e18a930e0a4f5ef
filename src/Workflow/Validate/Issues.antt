-- ===== src/Workflow/Validate/Issues.antt =====
-- internal/domain/workflow/validate.go: issues, severities and modes.
use req_flow.Prelude.{
  String, Bool, true, false, ◌||◌, List, [], ◌∷◌, ◌++◌, ◌≡◌, refl, arith, is_blank, trim_space,
  lt_text, ◌==◌, if◌then◌else◌,
}
use req_flow.Workflow.Model.{IssueSeverity, unset_severity, warning, error, other_severity}

pub data ValidationMode : Type 0 where
  draft_mode publish_mode : ValidationMode
  other_mode : String → ValidationMode

pub record ValidationIssue : Type 0 where
  pub code : String
  pub path : String
  pub severity : IssueSeverity

abbrev pub is_error : IssueSeverity → Bool
is_error error = true
is_error _ = false

abbrev pub is_publish : ValidationMode → Bool
is_publish publish_mode = true
is_publish _ = false

abbrev pub is_known_mode : ValidationMode → Bool
is_known_mode draft_mode = true
is_known_mode publish_mode = true
is_known_mode (other_mode s) = false

abbrev pub has_errors : List ValidationIssue → Bool
has_errors [] = false
has_errors (i ∷ is) = is_error i.severity || has_errors is

abbrev pub required_severity : ValidationMode → IssueSeverity
required_severity publish_mode = error
required_severity _ = warning

-- `if failed { v.add(code, path, …, severity) }`
abbrev pub add_if : Bool → String → String → IssueSeverity → List ValidationIssue
add_if true code path severity = record { code = code; path = path; severity = severity } ∷ []
add_if false code path severity = []

abbrev pub fault : String → String → ValidationIssue
fault code path = record { code = code; path = path; severity = error }

abbrev pub is_empty_trimmed : String → Bool
is_empty_trimmed s = is_blank (trim_space s)

pub has_errors-append :
    (xs ys : List ValidationIssue) → has_errors (xs ++ ys) ≡ (has_errors xs || has_errors ys)
has_errors-append [] ys = refl
has_errors-append (i ∷ is) ys = ground (arith, has_errors-append is ys)

unfoldable pub same_severity : IssueSeverity → IssueSeverity → Bool
same_severity unset_severity unset_severity = true
same_severity warning warning = true
same_severity error error = true
same_severity (other_severity s) (other_severity t) = s == t
same_severity _ _ = false

-- The order in which `sort.SliceStable` arranges issues: errors first, then by path, then by code.
unfoldable pub before : ValidationIssue → ValidationIssue → Bool
unfolding same_severity
before i j =
    if same_severity i.severity j.severity
    then (if i.path == j.path then lt_text i.code j.code else lt_text i.path j.path)
    else is_error i.severity

-- A stable sort by insertion: an element goes behind all those that are not after it.
unfoldable pub insert_issue : ValidationIssue → List ValidationIssue → List ValidationIssue
unfolding before
insert_issue i [] = i ∷ []
insert_issue i (j ∷ js) = if before j i then j ∷ insert_issue i js else i ∷ j ∷ js

unfoldable pub sort_issues : List ValidationIssue → List ValidationIssue
unfolding insert_issue
sort_issues [] = []
sort_issues (i ∷ is) = insert_issue i (sort_issues is)
