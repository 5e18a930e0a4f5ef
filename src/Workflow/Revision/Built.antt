-- ===== src/Workflow/Revision/Built.antt =====
-- internal/domain/workflow/revision.go: what a revision that `BuildRevision` returns has of the draft.
use req_flow.Prelude.{
  String, Bool, true, false, ◌||◌, List, [], ◌∷◌, Option, some, ◌≡◌, refl, sym, ◌∙◌, ap, arith, eqb,
  lt_text, is_blank, trim_space, Bool-cases, inl, inr, All, contains, contains_of_mem, ok, when_ok,
  when_passed,
}
use mathlib.Core.List.Perm
use mathlib.Core.List.{Mem, Perm}
use req_flow.Json.{RawMessage}
use req_flow.Workflow.Model.{
  Time, CapabilityRef, CapabilityDefinition, WorkflowDraft, Connection, RuleBundle, AcceptanceCase,
  WorkflowRevision,
}
use req_flow.Workflow.Order.{linear_order, node_ids}
use req_flow.Workflow.Order.Complete.{linear_order_iff}
use req_flow.Workflow.Validate.Issues.{publish_mode, has_errors}
use req_flow.Workflow.Validate.Connections.{connection_key}
use req_flow.Workflow.Validate.Decisions.{validate}
use req_flow.Workflow.Revision.Defs.{
  draft_invalid, identity_missing, clone_failed, hash_failed, RevisionContent, index_by_id,
  resolve_all, insert_connection, sort_connections, insert_case, sort_cases, ordered, given,
  content_of, revision_of, build_revision,
}
use req_flow.Workflow.Revision.Resolved.{resolved_ids, IsResolved, resolve_all-resolved}

insert_connection-perm :
    (c : Connection) (cs : List Connection) → Perm (insert_connection c cs) (c ∷ cs)
unfolding insert_connection
insert_connection-perm c [] = Perm.rfl
insert_connection-perm c (d ∷ ds) =
    elim (Bool-cases (lt_text (connection_key d) (connection_key c))) [
      | inl later ↦
          rw later (Perm.trans (Perm.cons d (insert_connection-perm c ds)) (Perm.swap c d ds))
      | inr first ↦ rw first Perm.rfl
    ]

pub sort_connections-perm : (cs : List Connection) → Perm (sort_connections cs) cs
unfolding sort_connections
sort_connections-perm [] = Perm.rfl
sort_connections-perm (c ∷ cs) =
    Perm.trans (insert_connection-perm c (sort_connections cs))
      (Perm.cons c (sort_connections-perm cs))

insert_case-perm :
    (t : AcceptanceCase) (ts : List AcceptanceCase) → Perm (insert_case t ts) (t ∷ ts)
unfolding insert_case
insert_case-perm t [] = Perm.rfl
insert_case-perm t (u ∷ us) = elim (Bool-cases (lt_text u.id t.id)) [
  | inl later ↦ rw later (Perm.trans (Perm.cons u (insert_case-perm t us)) (Perm.swap t u us))
  | inr first ↦ rw first Perm.rfl
]

pub sort_cases-perm : (ts : List AcceptanceCase) → Perm (sort_cases ts) ts
unfolding sort_cases
sort_cases-perm [] = Perm.rfl
sort_cases-perm (t ∷ ts) =
    Perm.trans (insert_case-perm t (sort_cases ts)) (Perm.cons t (sort_cases-perm ts))

pub order-within :
    (draft : WorkflowDraft) (order : List String)
    → linear_order draft ≡ ok order
    → (id : String) → Mem id order
    → contains id (node_ids draft.nodes) ≡ true
order-within draft order h id m =
    let spec = (linear_order_iff draft order).0 h in
    contains_of_mem id (node_ids draft.nodes) (Perm.subset spec.every_node id m)

-- A revision holds the draft as it was validated.
pub record IsRevisionOf (find_capability : CapabilityRef → Option CapabilityDefinition)
    (draft : WorkflowDraft) (revision : WorkflowRevision) : Type 0 where
  pub of_draft :
      (revision.workflow_id ≡ draft.id)
      × (revision.workspace_id ≡ draft.workspace_id)
      × (revision.key ≡ draft.key)
  pub in_order : linear_order draft ≡ ok (resolved_ids revision.nodes)
  pub resolved : All (IsResolved find_capability draft.nodes) revision.nodes
  pub ports : (revision.inputs ≡ draft.inputs) × (revision.outputs ≡ draft.outputs)
  pub same_connections : Perm revision.connections draft.connections
  pub same_cases : Perm revision.acceptance_cases draft.acceptance_cases

module _ (valid_config : CapabilityDefinition → RawMessage → Bool) (regex_compiles : String → Bool)
    (copy_rules : RuleBundle → Option RuleBundle) (hash : RevisionContent → Option String)
    (find_capability : CapabilityRef → Option CapabilityDefinition) where
  -- A revision that `BuildRevision` returns is of a draft that was accepted for a publication: it has the draft's nodes
  -- in their linear order, each with its own identifier and name, the capability that the catalog has for it and its
  -- configuration or, where that is absent, the capability's default; it has the draft's ports, connections and
  -- acceptance cases, the last two in another order.
  pub build_revision-IsRevisionOf :
      (draft : WorkflowDraft) (revision_id published_by : String) (published_at : Time)
      {revision : WorkflowRevision}
      → build_revision valid_config regex_compiles copy_rules hash find_capability draft revision_id
          published_by published_at
        ≡ ok revision
      → (has_errors (validate valid_config regex_compiles draft (some find_capability) publish_mode)
          ≡ false)
        × IsRevisionOf find_capability draft revision
  unfolding build_revision
  build_revision-IsRevisionOf draft revision_id published_by published_at {revision} h =
      let issues = validate valid_config regex_compiles draft (some find_capability) publish_mode in
      when_passed (has_errors issues) (draft_invalid issues) h (λ clean h1.
        when_passed
          (is_blank (trim_space revision_id)
            || (is_blank (trim_space published_by) || eqb published_at 0))
          identity_missing h1
          (λ _ h2. when_ok (ordered (linear_order draft)) h2 (λ order sorted h3.
            when_ok (resolve_all find_capability (index_by_id draft.nodes []) order) h3
              (λ nodes resolving h4.
                when_ok (given (copy_rules draft.rules) clone_failed) h4 (λ rules _ h5.
                  when_ok (given (hash (content_of draft nodes rules)) hash_failed) h5
                    (λ content_hash _ done.
                      let found : linear_order draft ≡ ok order = ground arith in
                      let (ids, each) =
                        resolve_all-resolved find_capability draft.nodes order
                          (order-within draft order found) resolving in
                      let built : revision
                          ≡ revision_of (content_of draft nodes rules) revision_id content_hash
                              published_by published_at =
                        ground arith in
                      (
                        clean,
                        rw built (record {
                          of_draft = (refl, refl, refl);
                          in_order = found ∙ ap ok (sym ids);
                          resolved = each;
                          ports = (refl, refl);
                          same_connections = sort_connections-perm draft.connections;
                          same_cases = sort_cases-perm draft.acceptance_cases;
                        }),
                      )))))))
