-- ===== src/Workflow/Editor/Effects.antt =====
-- internal/app/workflow/draft_editor.go: what every command does to a draft.
use req_flow.Prelude.{List, [], ◌∷◌, some, ◌≡◌, arith, ok}
use req_flow.Prelude.Int.{ℤ}
use req_flow.Workflow.Model.{
  WorkflowDraft, AcceptanceCase, EndpointKind, workflow_input, workflow_output, node_input,
  node_output, other_endpoint, WorkflowPort,
}
use req_flow.Workflow.Order.{node_ids}
use req_flow.Workflow.Editor.Defs.{
  Editor, clone_draft, plan_create, plan_insert, plan_remove, plan_append, plan_prepend,
  plan_replace, plan_bind, plan_port,
}

-- What no command changes.
abbrev pub SameHeader : WorkflowDraft → WorkflowDraft → Type 0
SameHeader d d' =
    (d'.id ≡ d.id)
    × (d'.workspace_id ≡ d.workspace_id)
    × (d'.key ≡ d.key)
    × (d'.name ≡ d.name)
    × (d'.description ≡ d.description)
    × (d'.created_at ≡ d.created_at)

abbrev pub passed_revisions : List AcceptanceCase → List ℤ
passed_revisions [] = []
passed_revisions (test ∷ tests) = test.last_passed_revision ∷ passed_revisions tests

-- What the copy that a command works on has of the draft: everything but the white space and the absent values of raw
-- messages.
pub record IsCopy (d d' : WorkflowDraft) : Type 0 where
  pub header : SameHeader d d'
  pub revision : d'.revision ≡ d.revision
  pub inputs : d'.inputs ≡ d.inputs
  pub outputs : d'.outputs ≡ d.outputs
  pub connections : d'.connections ≡ d.connections
  pub nodes : node_ids d'.nodes ≡ node_ids d.nodes
  pub cases : passed_revisions d'.acceptance_cases ≡ passed_revisions d.acceptance_cases

-- Reading back what was written gives a copy.
abbrev pub Rereads : Editor → Type 0
Rereads e = (d d' : WorkflowDraft) → e.reread d ≡ some d' → IsCopy d d'

-- What a plan leaves of the copy.
abbrev pub Keeps : WorkflowDraft → WorkflowDraft → Type 0
Keeps next edited =
    SameHeader next edited
    × (edited.revision ≡ next.revision)
    × (edited.acceptance_cases ≡ next.acceptance_cases)

pub clone_draft-IsCopy :
    (e : Editor) (draft : WorkflowDraft) {next : WorkflowDraft}
    → Rereads e
    → clone_draft e draft ≡ ok next
    → IsCopy draft next
unfolding clone_draft
clone_draft-IsCopy e draft {next} r h = r draft next (ground arith)

module _ (e : Editor) (next : WorkflowDraft) {edited : WorkflowDraft} where
  pub plan_create-Keeps : (c : _) → plan_create e next c ≡ ok edited → Keeps next edited
  unfolding plan_create
  plan_create-Keeps c h = ground arith

  pub plan_insert-Keeps : (c : _) → plan_insert e next c ≡ ok edited → Keeps next edited
  unfolding plan_insert
  plan_insert-Keeps c h = ground arith

  pub plan_remove-Keeps : (c : _) → plan_remove e next c ≡ ok edited → Keeps next edited
  unfolding plan_remove
  plan_remove-Keeps c h = ground arith

  pub plan_append-Keeps : (c : _) → plan_append e next c ≡ ok edited → Keeps next edited
  unfolding plan_append
  plan_append-Keeps c h = ground arith

  pub plan_prepend-Keeps : (c : _) → plan_prepend e next c ≡ ok edited → Keeps next edited
  unfolding plan_prepend
  plan_prepend-Keeps c h = ground arith

  pub plan_replace-Keeps : (c : _) → plan_replace e next c ≡ ok edited → Keeps next edited
  unfolding plan_replace
  plan_replace-Keeps c h = ground arith

  pub plan_bind-Keeps : (c : _) → plan_bind e next c ≡ ok edited → Keeps next edited
  unfolding plan_bind
  plan_bind-Keeps c h = ground arith

  pub plan_port-Keeps :
      (k : EndpointKind) (p : WorkflowPort) → plan_port next k p ≡ ok edited → Keeps next edited
  unfolding plan_port
  plan_port-Keeps workflow_input p h = ground arith
  plan_port-Keeps workflow_output p h = ground arith
  plan_port-Keeps node_input p h = ground arith
  plan_port-Keeps node_output p h = ground arith
  plan_port-Keeps (other_endpoint s) p h = ground arith
