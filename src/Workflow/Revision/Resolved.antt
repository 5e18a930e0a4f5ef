-- ===== src/Workflow/Revision/Resolved.antt =====
-- internal/domain/workflow/revision.go: the nodes of a revision, resolved in the linear order of the draft.
use req_flow.Prelude.{
  String, Bool, true, ◌||◌, List, [], ◌∷◌, Option, some, ◌≡◌, refl, ◌∙◌, ap, arith, ◌==◌, eq_iff,
  if◌then◌else◌, All, contains, lookup, has, insert, lookup-insert, has-insert, Bool-cases, inl,
  inr, ok, when_ok,
}
use mathlib.Core.List.{Mem, mem-cons_self, mem-cons_of_mem}
use req_flow.Json.{RawMessage, is_absent}
use req_flow.Workflow.Model.{CapabilityRef, CapabilityDefinition, WorkflowNode, ResolvedNode}
use req_flow.Workflow.Order.{node_ids}
use req_flow.Workflow.Validate.Publishable.{IsUsable}
use req_flow.Workflow.Revision.Defs.{index_by_id, node_or_zero, resolve_node, resolve_all}

abbrev pub resolved_ids : List ResolvedNode → List String
resolved_ids [] = []
resolved_ids (node ∷ nodes) = node.id ∷ resolved_ids nodes

-- A node of the revision is one of the draft, with its capability as the catalog has it.
abbrev pub IsResolved :
    (CapabilityRef → Option CapabilityDefinition) → List WorkflowNode → ResolvedNode → Type 0
IsResolved find_capability nodes resolved =
    (node : WorkflowNode) × Mem node nodes
    × (resolved.id ≡ node.id)
    × (resolved.name ≡ node.name)
    × (find_capability node.capability ≡ some resolved.capability)
    × (resolved.config
        ≡ (if is_absent node.config then resolved.capability.default_config else node.config))

-- What holds of the nodes, and of what the map holds before, holds of what it holds after.
pub index_by_id-holds :
    (P : String → WorkflowNode → Type 0) (nodes : List WorkflowNode)
    (by_id : List (String × WorkflowNode))
    → All (λ (n : WorkflowNode). P n.id n) nodes
    → ((k : String) (n : WorkflowNode) → lookup k by_id ≡ some n → P k n)
    → (k : String) (n : WorkflowNode) → lookup k (index_by_id nodes by_id) ≡ some n
    → P k n
index_by_id-holds P [] by_id h before k n f = before k n f
index_by_id-holds P (node ∷ nodes) by_id h before k n f =
    index_by_id-holds P nodes (insert node.id node by_id) h.1
      (λ j m g. elim (Bool-cases (node.id == j)) [
        | inl same ↦
            let key : node.id ≡ j = (eq_iff node.id j).0 same in
            let value : node ≡ m = ground (arith, lookup-insert node.id j node by_id) in
            rw (← key, ← value) (h.0)
        | inr other ↦ before j m (ground (arith, lookup-insert node.id j node by_id))
      ])
      k n f

pub index_by_id-has :
    (nodes : List WorkflowNode) (by_id : List (String × WorkflowNode)) (k : String)
    → has k (index_by_id nodes by_id) ≡ (contains k (node_ids nodes) || has k by_id)
index_by_id-has [] by_id k = refl
index_by_id-has (node ∷ nodes) by_id k =
    ground
      (arith, index_by_id-has nodes (insert node.id node by_id) k, has-insert node.id k node by_id)

lookup-has :
    (k : String) (m : List (String × WorkflowNode))
    → has k m ≡ true
    → (n : WorkflowNode) × (lookup k m ≡ some n)
lookup-has k [] h = cc
lookup-has k ((j, n) ∷ m) h = elim (Bool-cases (j == k)) [
  | inl same ↦ (n, rw same refl)
  | inr other ↦ let (n', f) = lookup-has k m (ground arith) in (n', rw other f)
]

All-mem :
    (nodes all_nodes : List WorkflowNode)
    → ((n : WorkflowNode) → Mem n nodes → Mem n all_nodes)
    → All (λ (n : WorkflowNode). (n.id ≡ n.id) × Mem n all_nodes) nodes
All-mem [] all_nodes h = tt
All-mem (n ∷ nodes) all_nodes h =
    ((refl, h n mem-cons_self), All-mem nodes all_nodes (λ m k. h m (mem-cons_of_mem n k)))

-- The node that the map holds for an identifier of the draft.
pub found :
    (nodes : List WorkflowNode) (id : String)
    → contains id (node_ids nodes) ≡ true
    → (n : WorkflowNode) × (lookup id (index_by_id nodes []) ≡ some n) × (n.id ≡ id) × Mem n nodes
found nodes id h =
    let (n, f) =
      lookup-has id (index_by_id nodes []) (ground (arith, index_by_id-has nodes [] id)) in
    let (same, member) =
      index_by_id-holds (λ k m. (m.id ≡ k) × Mem m nodes) nodes [] (All-mem nodes nodes (λ m k. k))
        (λ k m g. cc) id n f in
    (n, f, same, member)

resolve_node-fields :
    (find_capability : CapabilityRef → Option CapabilityDefinition) (node : WorkflowNode)
    {resolved : ResolvedNode}
    → resolve_node find_capability node ≡ ok resolved
    → (resolved.id ≡ node.id)
      × (resolved.name ≡ node.name)
      × (find_capability node.capability ≡ some resolved.capability)
      × (resolved.config
          ≡ (if is_absent node.config then resolved.capability.default_config else node.config))
unfolding resolve_node
resolve_node-fields find_capability node h = ground arith

module _ (find_capability : CapabilityRef → Option CapabilityDefinition)
    (nodes : List WorkflowNode) where
  pub resolve_all-resolved :
      (order : List String) {resolved : List ResolvedNode}
      → ((id : String) → Mem id order → contains id (node_ids nodes) ≡ true)
      → resolve_all find_capability (index_by_id nodes []) order ≡ ok resolved
      → (resolved_ids resolved ≡ order) × All (IsResolved find_capability nodes) resolved
  unfolding resolve_all resolve_node
  resolve_all-resolved [] {resolved} within h =
      let none_left : resolved ≡ [] = ground arith in rw none_left (refl, tt)
  resolve_all-resolved (id ∷ order) {resolved} within h =
      let (n, f, same, member) = found nodes id (within id mem-cons_self) in
      when_ok (resolve_node find_capability (node_or_zero (lookup id (index_by_id nodes [])))) h
        (λ first made h1.
          when_ok (resolve_all find_capability (index_by_id nodes []) order) h1 (λ rest others done.
            let (ids, each) =
              resolve_all-resolved order (λ k m. within k (mem-cons_of_mem id m)) others in
            let built : resolved ≡ first ∷ rest = ground arith in
            let made' : resolve_node find_capability n ≡ ok first = rw f at made in
            let own = resolve_node-fields find_capability n made' in
            rw built (
              ap (λ k. k ∷ resolved_ids rest) (own.0 ∙ same) ∙ ap (◌∷◌ id) ids,
              ((n, member, own.0, own.1, own.2, own.3), each),
            )))

  resolve_node-total :
      (node : WorkflowNode) {capability : CapabilityDefinition}
      → find_capability node.capability ≡ some capability
      → (resolved : ResolvedNode) × (resolve_node find_capability node ≡ ok resolved)
  unfolding resolve_node
  resolve_node-total node {capability} looked = (
    record {
      id = node.id;
      name = node.name;
      capability = capability;
      config = if is_absent node.config then capability.default_config else node.config;
    },
    rw (resolve_node, looked) refl,
  )

  resolve_all-step :
      (id : String) (order : List String) {first : ResolvedNode} {rest : List ResolvedNode}
      → resolve_node find_capability (node_or_zero (lookup id (index_by_id nodes []))) ≡ ok first
      → resolve_all find_capability (index_by_id nodes []) order ≡ ok rest
      → resolve_all find_capability (index_by_id nodes []) (id ∷ order) ≡ ok (first ∷ rest)
  unfolding resolve_all
  resolve_all-step id order made others = rw (made, others) refl

  usable_at :
      (valid_config : CapabilityDefinition → RawMessage → Bool) (id : String)
      → contains id (node_ids nodes) ≡ true
      → All (IsUsable valid_config (some find_capability)) nodes
      → (n : WorkflowNode) × (capability : CapabilityDefinition) × (lookup id (index_by_id nodes [])
          ≡ some n)
        × (find_capability n.capability ≡ some capability)
  usable_at valid_config id h usable =
      let (n, f, same, member) = found nodes id h in
      let (valid, (capability, looked, accepted)) =
        index_by_id-holds (λ k m. IsUsable valid_config (some find_capability) m) nodes [] usable
          (λ k m g. cc) id n f in
      (n, capability, f, looked)

  pub resolve_all-total :
      (valid_config : CapabilityDefinition → RawMessage → Bool) (order : List String)
      → ((id : String) → Mem id order → contains id (node_ids nodes) ≡ true)
      → All (IsUsable valid_config (some find_capability)) nodes
      → (resolved : List ResolvedNode) × (resolve_all find_capability (index_by_id nodes []) order
          ≡ ok resolved)
  unfolding resolve_all resolve_node
  resolve_all-total valid_config [] within usable = ([], refl)
  resolve_all-total valid_config (id ∷ order) within usable =
      let (n, capability, f, looked) = usable_at valid_config id (within id mem-cons_self) usable in
      let (first, made) = resolve_node-total n {capability = capability} looked in
      let (rest, others) =
        resolve_all-total valid_config order (λ k m. within k (mem-cons_of_mem id m)) usable in
      (
        first ∷ rest,
        resolve_all-step id order (ap (λ o. resolve_node find_capability (node_or_zero o)) f ∙ made)
            others,
      )
