-- ===== src/Workflow/Editor/Naming.antt =====
-- internal/app/workflow/draft_editor.go: what a copy, and a draft without errors, has of a linear order.
use req_flow.Prelude.{
  String, Bool, false, List, [], ◌∷◌, ◌≡◌, refl, ap, arith, ◌==◌, Bool-cases, inl, inr, eq_iff, All,
  Option, some, contains, valid_identifier, Result, ok, ◌>>=◌, when_ok,
}
use req_flow.Json.{RawMessage}
use mathlib.Core.List.Perm
use mathlib.Core.List.{Nodup}
use req_flow.Workflow.Model.{WorkflowDraft, WorkflowNode, CapabilityRef, CapabilityDefinition}
use req_flow.Workflow.Order.{node_ids, main_edges, pairs, linear_order, IsLinearOrder}
use req_flow.Workflow.Order.Pairs.{firsts, seconds, firsts-pairs, Nodup-of_firsts, Nodup-butlast}
use req_flow.Workflow.Validate.Issues.{draft_mode}
use req_flow.Workflow.Validate.Publishable.{IsUsable, index_nodes-usable}
use req_flow.Workflow.Validate.Publication.{NoErrors-of-validate, nodes-of-index}
use req_flow.Workflow.Validate.Index.{index_definition}
use req_flow.Workflow.Validate.Decisions.{no_wiring}
use req_flow.Workflow.Validate.Wired.{connect_all-IsWired, no_wiring-IsWired}
use req_flow.Workflow.Validate.Indexing.{IsLinear, index_nodes-AllOnePrimary}
use req_flow.Workflow.Order.Complete.{linear_order_iff}
use req_flow.Workflow.Editor.Defs.{
  Editor, EditError, clone_draft, finish_edit, validate_edit_result, invalidate_acceptance, touch,
}
use req_flow.Workflow.Editor.Outcome.{finish_edit-result}
use req_flow.Workflow.Editor.Effects.{IsCopy, Rereads, clone_draft-IsCopy}
use req_flow.Workflow.Editor.Checked.{IsValidDraft}

-- A draft with the same nodes and the same edges has the same order.
pub IsLinearOrder-same :
    (d d' : WorkflowDraft) (order : List String)
    → node_ids d'.nodes ≡ node_ids d.nodes
    → main_edges d'.connections ≡ main_edges d.connections
    → IsLinearOrder d order
    → IsLinearOrder d' order
IsLinearOrder-same d d' order ids edges spec = record {
  every_node = rw ids spec.every_node;
  distinct = spec.distinct;
  named = spec.named;
  inhabited = spec.inhabited;
  neighbours = rw edges spec.neighbours;
}

pub IsLinearOrder-copy :
    (d d' : WorkflowDraft) (order : List String)
    → IsCopy d d'
    → IsLinearOrder d order
    → IsLinearOrder d' order
IsLinearOrder-copy d d' order copy spec =
    IsLinearOrder-same d d' order copy.nodes (ap main_edges copy.connections) spec

-- No edge of an ordered draft stands twice.
pub edges-Nodup :
    (d : WorkflowDraft) (order : List String)
    → IsLinearOrder d order
    → Nodup (main_edges d.connections)
edges-Nodup d order spec =
    Perm.nodup (Perm.symm spec.neighbours)
      (Nodup-of_firsts (pairs order) (rw (firsts-pairs order) (Nodup-butlast order spec.distinct)))

blank-invalid : valid_identifier "" ≡ false
unfolding valid_identifier
blank-invalid = refl

usable-named :
    (valid_config : CapabilityDefinition → RawMessage → Bool)
    (find_capability : CapabilityRef → Option CapabilityDefinition) (nodes : List WorkflowNode)
    → All (IsUsable valid_config (some find_capability)) nodes
    → contains "" (node_ids nodes) ≡ false
usable-named valid_config find_capability [] h = refl
usable-named valid_config find_capability (node ∷ nodes) h = elim (Bool-cases (node.id == "")) [
  | inl blank ↦
      absurd (cc (h.0.0, ap valid_identifier ((eq_iff node.id "").0 blank), blank-invalid))
  | inr named ↦ ground (arith, usable-named valid_config find_capability nodes h.1)
]

-- The identifiers of a draft without errors are not blank.
pub valid-named :
    (e : Editor) (d : WorkflowDraft) → IsValidDraft e d → contains "" (node_ids d.nodes) ≡ false
valid-named e d h =
    let n =
      NoErrors-of-validate e.valid_config e.regex_compiles d (some e.find_capability) draft_mode
        h in
    let (nodes, given) =
      nodes-of-index e.valid_config e.regex_compiles d (some e.find_capability) draft_mode
        n.index in
    usable-named e.valid_config e.find_capability d.nodes
      (index_nodes-usable e.valid_config draft_mode (some e.find_capability) 0 d.nodes [] []
        nodes).0

-- In a draft without errors, whose catalog is one of linear capabilities, no two edges leave or enter the same node.
pub valid-one_edge :
    (e : Editor) (d : WorkflowDraft)
    → IsLinear (some e.find_capability)
    → IsValidDraft e d
    → Nodup (firsts (main_edges d.connections)) × Nodup (seconds (main_edges d.connections))
unfolding index_definition
valid-one_edge e d linear h =
    let n =
      NoErrors-of-validate e.valid_config e.regex_compiles d (some e.find_capability) draft_mode
        h in
    let index = index_definition e.valid_config d (some e.find_capability) draft_mode in
    let (wired, edges) =
      connect_all-IsWired index
        (index_nodes-AllOnePrimary e.valid_config draft_mode (some e.find_capability) 0 d.nodes []
          [] linear (λ id c f. cc))
        0 d.connections no_wiring (no_wiring-IsWired index.capabilities) n.connections in
    (rw edges at (wired.one_next), rw edges at (wired.one_parent))

-- A command that clones, plans and finishes: it suffices to find the order of what is planned, and what else is to be
-- shown.
pub order_by_plan :
    (e : Editor) (draft : WorkflowDraft) (order order' : List String)
    (plan : WorkflowDraft → Result EditError WorkflowDraft) (P : Type 0) {edited : WorkflowDraft}
    → Rereads e
    → ((next planned : WorkflowDraft)
        → plan next ≡ ok planned
        → IsLinearOrder next order
        → IsValidDraft e (touch (invalidate_acceptance planned))
        → IsLinearOrder planned order' × P)
    → linear_order draft ≡ ok order
    → (clone_draft e draft >>= λ next. plan next >>= finish_edit e) ≡ ok edited
    → (linear_order edited ≡ ok order') × P
unfolding finish_edit validate_edit_result invalidate_acceptance
order_by_plan e draft order order' plan P {edited} r step ordered h =
    when_ok (clone_draft e draft) h (λ next cloned h1. when_ok (plan next) h1 (λ planned found done.
      let spec =
        IsLinearOrder-copy draft next order (clone_draft-IsCopy e draft r cloned)
          ((linear_order_iff draft order).0 ordered) in
      let result = finish_edit-result e planned done in
      let valid : IsValidDraft e (touch (invalidate_acceptance planned)) = ground arith in
      let (found', more) = step next planned found spec valid in
      (
        (linear_order_iff edited order').1
            (rw result (IsLinearOrder-same planned _ order' refl refl found')),
        more,
      )))
