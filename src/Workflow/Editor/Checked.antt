-- ===== src/Workflow/Editor/Checked.antt =====
-- internal/app/workflow/draft_editor.go: `validateEditResult`, over the commands that call it.
use req_flow.Prelude.{
  zero, suc, ◌+◌, Bool, true, false, ◌≡◌, ap, arith, some, Result, ok, ◌>>=◌, >>=-eq-ok,
}
use req_flow.Prelude.Int.{ℤ, pos, negsuc, ◌≤ℤ◌, pos_part, neg_part, increment, int64_max}
use req_flow.Workflow.Model.{WorkflowDraft, AcceptanceCase}
use req_flow.Workflow.Validate.Issues.{draft_mode, has_errors}
use req_flow.Workflow.Validate.Index.{validate_identity}
use req_flow.Workflow.Validate.Decisions.{validate}
use req_flow.Workflow.Validate.Publication.{NoErrors-of-validate}
use req_flow.Workflow.Editor.Defs.{
  Editor, EditError, clone_draft, finish_edit, validate_edit_result, invalidate_confirmations,
  plan_create, create_from_blank, plan_insert, insert_between, plan_remove, remove_and_bridge,
  plan_append, append_after, plan_prepend, prepend_before, plan_replace, replace_node, plan_bind,
  bind_side_input, plan_port, set_workflow_port, set_rule_bundle, with_data_contract,
  set_data_contract, set_extraction_spec, set_search_spec, set_output_contract,
  upsert_acceptance_case, EditCommand, creating, inserting, removing, appending, prepending,
  replacing, configuring, binding, porting, contracting, extracting, searching, outputting,
  confirming, testing, edit,
}
use req_flow.Workflow.Editor.Effects.{Rereads}
use req_flow.Workflow.Editor.Outcome.{edit-IsEdited}

-- The commands that validate what they return: all but `SetNodeConfig` and `ConfirmDecision`.
abbrev pub is_checked : EditCommand → Bool
is_checked (configuring id config) = false
is_checked (confirming command) = false
is_checked _ = true

-- The number behind, without a width.
abbrev pub IsOneMore : ℤ → ℤ → Type 0
IsOneMore a b = pos_part b + neg_part a ≡ pos_part a + neg_part b + 1

-- The draft has no error as a draft.
abbrev pub IsValidDraft : Editor → WorkflowDraft → Type 0
IsValidDraft e draft =
    has_errors (validate e.valid_config e.regex_compiles draft (some e.find_capability) draft_mode)
    ≡ false

module _ (e : Editor) (draft : WorkflowDraft) {edited : WorkflowDraft} where
  finished : (planned : WorkflowDraft) → finish_edit e planned ≡ ok edited → IsValidDraft e edited
  unfolding finish_edit validate_edit_result
  finished planned h = ground arith

  by_plan :
      (plan : WorkflowDraft → Result EditError WorkflowDraft)
      → (clone_draft e draft >>= λ next. plan next >>= finish_edit e) ≡ ok edited
      → IsValidDraft e edited
  by_plan plan h =
      let (next, cloned, rest) =
        >>=-eq-ok (clone_draft e draft) (λ next. plan next >>= finish_edit e) h in
      let (d, found, done) = >>=-eq-ok (plan next) (finish_edit e) rest in finished d done

  by_rules :
      (mutate : WorkflowDraft → WorkflowDraft)
      → set_rule_bundle e draft mutate ≡ ok edited
      → IsValidDraft e edited
  unfolding set_rule_bundle
  by_rules mutate h =
      let (next, cloned, done) =
        >>=-eq-ok (clone_draft e draft) (λ next. finish_edit e (mutate next)) h in
      finished (mutate next) done

  tested :
      (test : AcceptanceCase)
      → upsert_acceptance_case e draft test ≡ ok edited
      → IsValidDraft e edited
  unfolding upsert_acceptance_case validate_edit_result
  tested test h = let (next, cloned, rest) = >>=-eq-ok (clone_draft e draft) _ h in ground arith

  pub edit-IsValidDraft :
      (command : EditCommand)
      → is_checked command ≡ true
      → edit e draft command ≡ ok edited
      → IsValidDraft e edited
  unfolding edit create_from_blank insert_between remove_and_bridge append_after prepend_before
      replace_node bind_side_input set_workflow_port set_data_contract set_extraction_spec
      set_search_spec set_output_contract invalidate_confirmations
  edit-IsValidDraft (creating c) _ h = by_plan (λ next. plan_create e next c) h
  edit-IsValidDraft (inserting c) _ h = by_plan (λ next. plan_insert e next c) h
  edit-IsValidDraft (removing id) _ h = by_plan (λ next. plan_remove e next id) h
  edit-IsValidDraft (appending c) _ h = by_plan (λ next. plan_append e next c) h
  edit-IsValidDraft (prepending c) _ h = by_plan (λ next. plan_prepend e next c) h
  edit-IsValidDraft (replacing c) _ h = by_plan (λ next. plan_replace e next c) h
  edit-IsValidDraft (configuring id config) c h = cc
  edit-IsValidDraft (binding c) _ h = by_plan (λ next. plan_bind e next c) h
  edit-IsValidDraft (porting direction port) _ h = by_plan (λ next. plan_port next direction port) h
  edit-IsValidDraft (contracting contract) _ h = by_rules (with_data_contract contract) h
  edit-IsValidDraft (extracting spec) _ h = by_rules _ h
  edit-IsValidDraft (searching spec) _ h = by_rules _ h
  edit-IsValidDraft (outputting contract) _ h = by_rules _ h
  edit-IsValidDraft (confirming command) c h = cc
  edit-IsValidDraft (testing test) _ h = tested test h

revision-valid :
    (e : Editor) (draft : WorkflowDraft) → IsValidDraft e draft → pos 0 ≤ℤ draft.revision
unfolding validate_identity
revision-valid e draft h =
    let n =
      NoErrors-of-validate e.valid_config e.regex_compiles draft (some e.find_capability) draft_mode
        h in
    ground (arith, n.identity)

increment-IsOneMore : (a b : ℤ) → b ≡ increment a → pos 0 ≤ℤ b → IsOneMore a b
increment-IsOneMore (pos n) b h v = ground arith
increment-IsOneMore (negsuc zero) b h v = ground arith
increment-IsOneMore (negsuc (suc n)) b h v = ground arith

-- A draft that an accepted command returns has no error as a draft, and its revision is not negative and greater by
-- exactly one than it was; a draft whose revision is the greatest int64 is not edited. The command is any but
-- `SetNodeConfig` and `ConfirmDecision`, which do not validate; reading the draft back from its JSON gives a copy of it.
pub edit-revision :
    (e : Editor) (draft : WorkflowDraft) (command : EditCommand) {edited : WorkflowDraft}
    → Rereads e
    → is_checked command ≡ true
    → edit e draft command ≡ ok edited
    → IsValidDraft e edited
      × (pos 0 ≤ℤ edited.revision)
      × IsOneMore draft.revision edited.revision
      × ¬ (draft.revision ≡ pos int64_max)
edit-revision e draft command {edited} r checked h =
    let valid = edit-IsValidDraft e draft command checked h in
    let effect = edit-IsEdited e r draft command h in
    let positive = revision-valid e edited valid in
    (
      valid,
      positive,
      increment-IsOneMore draft.revision edited.revision effect.revision positive,
      (λ last. ground (arith, ap increment last, effect.revision, positive)),
    )
