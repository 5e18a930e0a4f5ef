-- ===== src/Workflow/Editor/Outcome.antt =====
-- internal/app/workflow/draft_editor.go: what an accepted command leaves of a draft.
use req_flow.Prelude.{
  String, true, false, not, ◌⊎◌, inl, inr, List, [], ◌∷◌, map, ◌≡◌, refl, ◌∙◌, ap, arith, All, ◌==◌,
  if◌then◌else◌, is_blank, trim_space, eqb, ◌||◌, Result, ok, ◌>>=◌, refuse_if, >>=-eq-ok,
}
use req_flow.Prelude.Int.{ℤ, pos, ◌≤ℤ◌, increment}
use req_flow.Json.{RawMessage, is_valid_json}
use req_flow.Workflow.Model.{WorkflowDraft, AcceptanceCase}
use req_flow.Workflow.Editor.Defs.{
  Editor, EditError, clone_draft, finish_edit, invalidate_acceptance, invalidate_confirmations,
  validate_edit_result, touch, stale_case, plan_create, create_from_blank, plan_insert,
  insert_between, plan_remove, remove_and_bridge, plan_append, append_after, plan_prepend,
  prepend_before, plan_replace, replace_node, set_node_config, plan_bind, bind_side_input,
  plan_port, set_workflow_port, set_rule_bundle, with_data_contract, set_data_contract,
  set_extraction_spec, set_search_spec, set_output_contract, confirm_decision,
  upsert_acceptance_case, EditCommand, creating, inserting, removing, appending, prepending,
  replacing, configuring, binding, porting, contracting, extracting, searching, outputting,
  confirming, testing, edit, find_node, put_node, put_case, confirm_first, ConfirmDecisionCommand,
  confirmation_invalid,
}
use req_flow.Workflow.Editor.Effects.{
  SameHeader, passed_revisions, IsCopy, Rereads, Keeps, clone_draft-IsCopy, plan_create-Keeps,
  plan_insert-Keeps, plan_remove-Keeps, plan_append-Keeps, plan_prepend-Keeps, plan_replace-Keeps,
  plan_bind-Keeps, plan_port-Keeps,
}

-- A case that no later revision has passed yet: it counts as failed and as never run, or the revision it passed is an earlier one.
abbrev pub IsOutdated : ℤ → AcceptanceCase → Type 0
IsOutdated revision test =
    ((test.last_passed ≡ false) × (test.last_passed_revision ≡ pos 0))
    ⊎ (test.last_passed_revision ≤ℤ revision)

-- What an accepted command does.
pub record IsEdited (draft edited : WorkflowDraft) : Type 0 where
  pub header : SameHeader draft edited
  pub revision : edited.revision ≡ increment draft.revision
  pub outdated :
      All (λ (r : ℤ). r ≤ℤ draft.revision) (passed_revisions draft.acceptance_cases)
      → All (IsOutdated draft.revision) edited.acceptance_cases

SameHeader-trans : (a b c : WorkflowDraft) → SameHeader a b → SameHeader b c → SameHeader a c
SameHeader-trans a b c h k = ground arith

stale_cases-IsOutdated :
    (revision : ℤ) (tests : List AcceptanceCase) → All (IsOutdated revision) (map stale_case tests)
stale_cases-IsOutdated revision [] = tt
stale_cases-IsOutdated revision (test ∷ tests) =
    (inl (refl, refl), stale_cases-IsOutdated revision tests)

cases-IsOutdated :
    (revision : ℤ) (tests tests' : List AcceptanceCase)
    → passed_revisions tests' ≡ passed_revisions tests
    → All (λ (r : ℤ). r ≤ℤ revision) (passed_revisions tests)
    → All (IsOutdated revision) tests'
cases-IsOutdated revision [] [] e h = tt
cases-IsOutdated revision [] (t ∷ ts) e h = absurd (cc e)
cases-IsOutdated revision (t ∷ ts) [] e h = absurd (cc e)
cases-IsOutdated revision (t ∷ ts) (t' ∷ ts') e h =
    (inr (ground arith), cases-IsOutdated revision ts ts' (ground arith) h.1)

put_case-IsOutdated :
    (revision : ℤ) (test : AcceptanceCase) (tests : List AcceptanceCase)
    → All (IsOutdated revision) tests
    → All (IsOutdated revision) (put_case (stale_case test) tests)
put_case-IsOutdated revision test [] h = (inl (refl, refl), tt)
put_case-IsOutdated revision test (t ∷ ts) h =
    elim (t.id == test.id)
      as (λ b.
        All (IsOutdated revision)
          (if b then stale_case test ∷ ts else t ∷ put_case (stale_case test) ts)) [
            | true ↦ (inl (refl, refl), h.1)
            | false ↦ (h.0, put_case-IsOutdated revision test ts h.1)
          ]

pub finish_edit-result :
    (e : Editor) (planned : WorkflowDraft) {edited : WorkflowDraft}
    → finish_edit e planned ≡ ok edited
    → edited ≡ touch (invalidate_acceptance planned)
unfolding finish_edit validate_edit_result
finish_edit-result e planned h = ground arith

module _ (e : Editor) (draft next : WorkflowDraft) (copy : IsCopy draft next) where
  touched :
      (edited : WorkflowDraft)
      → Keeps next edited
      → IsEdited draft (touch (invalidate_acceptance edited))
  unfolding invalidate_acceptance
  touched edited k = record {
    header = SameHeader-trans draft next edited copy.header k.0;
    revision = ap increment (k.1 ∙ copy.revision);
    outdated = λ h. stale_cases-IsOutdated draft.revision edited.acceptance_cases;
  }

  finished :
      {edited : WorkflowDraft} (planned : WorkflowDraft)
      → Keeps next planned
      → finish_edit e planned ≡ ok edited
      → IsEdited draft edited
  finished planned k h = rw (finish_edit-result e planned h) (touched planned k)

Keeps-refl : (d : WorkflowDraft) → Keeps d d
Keeps-refl d = ((refl, refl, refl, refl, refl, refl), refl, refl)

module _ (e : Editor) (r : Rereads e) (draft : WorkflowDraft) {edited : WorkflowDraft} where
  -- A command that clones, plans and finishes.
  by_plan :
      (plan : WorkflowDraft → Result EditError WorkflowDraft)
      → ((d d' : WorkflowDraft) → plan d ≡ ok d' → Keeps d d')
      → (clone_draft e draft >>= λ next. plan next >>= finish_edit e) ≡ ok edited
      → IsEdited draft edited
  by_plan plan k h =
      let (next, cloned, rest) =
        >>=-eq-ok (clone_draft e draft) (λ next. plan next >>= finish_edit e) h in
      let (d, found, done) = >>=-eq-ok (plan next) (finish_edit e) rest in
      finished e draft next (clone_draft-IsCopy e draft r cloned) d (k next d found) done

  by_rules :
      (mutate : WorkflowDraft → WorkflowDraft)
      → ((d : WorkflowDraft) → Keeps d (mutate d))
      → set_rule_bundle e draft mutate ≡ ok edited
      → IsEdited draft edited
  unfolding set_rule_bundle
  by_rules mutate k h =
      let (next, cloned, done) =
        >>=-eq-ok (clone_draft e draft) (λ next. finish_edit e (mutate next)) h in
      finished e draft next (clone_draft-IsCopy e draft r cloned) (mutate next) (k next) done

  configured :
      (id : String) (config : RawMessage)
      → set_node_config e draft id config ≡ ok edited
      → IsEdited draft edited
  unfolding set_node_config
  configured id config h =
      let (next, cloned, rest) = >>=-eq-ok (clone_draft e draft) _ h in
      let ((node, capability), found, done) = >>=-eq-ok (find_node e next.nodes id) _ rest in
      let planned = record next { nodes = put_node (record node { config = config }) next.nodes } in
      let result : edited ≡ touch (invalidate_acceptance planned) = ground arith in
      rw result
        (touched e draft next (clone_draft-IsCopy e draft r cloned) planned (Keeps-refl next))

  confirmed :
      (command : ConfirmDecisionCommand)
      → confirm_decision e draft command ≡ ok edited
      → IsEdited draft edited
  unfolding confirm_decision
  confirmed command h =
      let (allowed, _, rest) =
        >>=-eq-ok
          (refuse_if
            (is_blank (trim_space command.actor_id)
              || eqb command.confirmed 0
              || not (is_valid_json command.value))
            confirmation_invalid)
          _ h in
      let (next, cloned, rest') = >>=-eq-ok (clone_draft e draft) _ rest in
      let (decisions, found, done) =
        >>=-eq-ok (confirm_first e command next.rules.decisions) _ rest' in
      let copy = clone_draft-IsCopy e draft r cloned in
      let result : edited
          ≡ touch (record next { rules = record next.rules { decisions = decisions } }) =
        ground arith in
      rw result (record {
        header = copy.header;
        revision = ap increment copy.revision;
        outdated =
            cases-IsOutdated draft.revision draft.acceptance_cases next.acceptance_cases copy.cases;
      })

  tested :
      (test : AcceptanceCase)
      → upsert_acceptance_case e draft test ≡ ok edited
      → IsEdited draft edited
  unfolding upsert_acceptance_case validate_edit_result
  tested test h =
      let (next, cloned, rest) = >>=-eq-ok (clone_draft e draft) _ h in
      let copy = clone_draft-IsCopy e draft r cloned in
      let result : edited
          ≡ touch (record next {
            acceptance_cases = put_case (stale_case test) next.acceptance_cases;
          }) =
        ground arith in
      rw result (record {
        header = copy.header;
        revision = ap increment copy.revision;
        outdated = λ early. put_case-IsOutdated draft.revision test next.acceptance_cases (
            cases-IsOutdated draft.revision draft.acceptance_cases next.acceptance_cases copy.cases
              early);
      })

  pub edit-IsEdited :
      (command : EditCommand) → edit e draft command ≡ ok edited → IsEdited draft edited
  unfolding edit create_from_blank insert_between remove_and_bridge append_after prepend_before
      replace_node bind_side_input set_workflow_port set_data_contract set_extraction_spec
      set_search_spec set_output_contract invalidate_confirmations
  edit-IsEdited (creating c) h =
      by_plan (λ next. plan_create e next c) (λ d d' p. plan_create-Keeps e d c p) h
  edit-IsEdited (inserting c) h =
      by_plan (λ next. plan_insert e next c) (λ d d' p. plan_insert-Keeps e d c p) h
  edit-IsEdited (removing id) h =
      by_plan (λ next. plan_remove e next id) (λ d d' p. plan_remove-Keeps e d id p) h
  edit-IsEdited (appending c) h =
      by_plan (λ next. plan_append e next c) (λ d d' p. plan_append-Keeps e d c p) h
  edit-IsEdited (prepending c) h =
      by_plan (λ next. plan_prepend e next c) (λ d d' p. plan_prepend-Keeps e d c p) h
  edit-IsEdited (replacing c) h =
      by_plan (λ next. plan_replace e next c) (λ d d' p. plan_replace-Keeps e d c p) h
  edit-IsEdited (configuring id config) h = configured id config h
  edit-IsEdited (binding c) h =
      by_plan (λ next. plan_bind e next c) (λ d d' p. plan_bind-Keeps e d c p) h
  edit-IsEdited (porting direction port) h =
      by_plan (λ next. plan_port next direction port)
        (λ d d' p. plan_port-Keeps e d direction port p) h
  edit-IsEdited (contracting contract) h =
      by_rules (with_data_contract contract) (λ d. Keeps-refl d) h
  edit-IsEdited (extracting spec) h = by_rules _ (λ d. Keeps-refl d) h
  edit-IsEdited (searching spec) h = by_rules _ (λ d. Keeps-refl d) h
  edit-IsEdited (outputting contract) h = by_rules _ (λ d. Keeps-refl d) h
  edit-IsEdited (confirming command) h = confirmed command h
  edit-IsEdited (testing test) h = tested test h
