-- ===== src/Workflow/Editor/Revisions.antt =====
-- internal/app/workflow/draft_editor.go: the revision of a draft, over its commands.
use req_flow.Prelude.{
  some, true, inl, inr, List, [], ◌∷◌, ◌≡◌, refl, arith, All, is_empty, Bool-cases, ok,
}
use req_flow.Prelude.Int.{ℤ, pos, negsuc, ◌≤ℤ◌, ◌<ℤ◌, increment, int64_max}
use req_flow.Workflow.Model.{WorkflowDraft, AcceptanceCase}
use req_flow.Workflow.Validate.Issues.{publish_mode, has_errors}
use req_flow.Workflow.Validate.Decisions.{validate}
use req_flow.Workflow.Validate.Publishable.{IsPassed}
use req_flow.Workflow.Validate.Publication.{validate-IsPublishable}
use req_flow.Workflow.Editor.Defs.{Editor, EditCommand, edit}
use req_flow.Workflow.Editor.Effects.{SameHeader, passed_revisions, Rereads}
use req_flow.Workflow.Editor.Outcome.{IsOutdated, edit-IsEdited}

-- No case passed a later revision than the draft's, which is not negative.
abbrev pub IsTimely : WorkflowDraft → Type 0
IsTimely draft =
    (pos 0 ≤ℤ draft.revision)
    × All (λ (r : ℤ). r ≤ℤ draft.revision) (passed_revisions draft.acceptance_cases)

increment-later : (a b : ℤ) → b ≡ increment a → pos 0 ≤ℤ a → a <ℤ pos int64_max → a <ℤ b
increment-later (pos n) b h p q = ground arith
increment-later (negsuc n) b h p q = omega arith

no_case_passed :
    (revision later : ℤ) (tests : List AcceptanceCase)
    → revision <ℤ later
    → All (IsOutdated revision) tests
    → All (IsPassed later) tests
    → is_empty tests ≡ true
no_case_passed revision later [] l h k = refl
no_case_passed revision later (test ∷ tests) l h k =
    let (id, input, expected, passed, at, previewed) = k.0 in
    elim h.0 [
      | inl failed ↦ cc (failed.0, passed)
      | inr early ↦ absurd (omega (arith, rw at at early, l))
    ]

outdated-early :
    (revision later : ℤ) (tests : List AcceptanceCase)
    → pos 0 ≤ℤ revision
    → revision <ℤ later
    → All (IsOutdated revision) tests
    → All (λ (r : ℤ). r ≤ℤ later) (passed_revisions tests)
outdated-early revision later [] v l h = tt
outdated-early revision later (test ∷ tests) v l h = (
  elim h.0 [
    | inl failed ↦ rw (failed.1) (omega (arith, v, l))
    | inr early ↦ omega (arith, early, l)
  ],
  outdated-early revision later tests v l h.1,
)

-- After any command that is accepted, the draft cannot be published: a publication's validation of it reports an error,
-- since no case has passed the new revision. The draft that is edited is one whose revision is not negative and below
-- the greatest int64, and of which no case passed a later revision than its own; reading the draft back from its JSON
-- gives a copy of it.
pub edit-not_publishable :
    (e : Editor) (draft : WorkflowDraft) (command : EditCommand) {edited : WorkflowDraft}
    → Rereads e
    → IsTimely draft
    → draft.revision <ℤ pos int64_max
    → edit e draft command ≡ ok edited
    → has_errors
        (validate e.valid_config e.regex_compiles edited (some e.find_capability) publish_mode)
      ≡ true
edit-not_publishable e draft command {edited} r (valid, early) below h =
    let effect = edit-IsEdited e r draft command h in
    let later = increment-later draft.revision edited.revision effect.revision valid below in
    elim (Bool-cases (
      has_errors
        (validate e.valid_config e.regex_compiles edited (some e.find_capability) publish_mode))) [
          | inl errors ↦ errors
          | inr clean ↦
              let p =
                validate-IsPublishable e.valid_config e.regex_compiles edited
                  (some e.find_capability) clean in
              absurd (
                cc (
                  p.cases_given,
                  no_case_passed draft.revision edited.revision edited.acceptance_cases later
                      (effect.outdated early) p.cases_passed,
                ))
        ]

-- An accepted command keeps the draft timely: its new revision is not negative, and none of its cases passed a later
-- one. It keeps what identifies the draft. The draft that is edited is one whose revision is not negative and below the
-- greatest int64, and of which no case passed a later revision than its own; reading the draft back from its JSON gives
-- a copy of it.
pub edit-IsTimely :
    (e : Editor) (draft : WorkflowDraft) (command : EditCommand) {edited : WorkflowDraft}
    → Rereads e
    → IsTimely draft
    → draft.revision <ℤ pos int64_max
    → edit e draft command ≡ ok edited
    → IsTimely edited × SameHeader draft edited × (draft.revision <ℤ edited.revision)
edit-IsTimely e draft command {edited} r (valid, early) below h =
    let effect = edit-IsEdited e r draft command h in
    let later = increment-later draft.revision edited.revision effect.revision valid below in
    (
      (
        omega (arith, valid, later),
        outdated-early draft.revision edited.revision edited.acceptance_cases valid later
            (effect.outdated early),
      ),
      effect.header,
      later,
    )
