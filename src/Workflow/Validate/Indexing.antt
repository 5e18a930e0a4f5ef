-- ===== src/Workflow/Validate/Indexing.antt =====
-- internal/domain/workflow/validate.go, `indexDefinition`: the maps that the loop over the nodes fills.
use req_flow.Prelude.{
  ℕ, suc, String, Bool, true, false, ◌||◌, List, [], ◌∷◌, ◌++◌, Option, none, some, ◌≡◌, ◌⊎◌, refl,
  sym, ◌∙◌, ap, arith, ◌==◌, has, lookup, lookup-insert, insert, keys, contains, element_path,
  has-insert, Bool-cases, inl, inr,
}
use req_flow.Json.{RawMessage}
use mathlib.Core.List.{append_assoc, append-nil}
use req_flow.Workflow.Model.{WorkflowNode, CapabilityRef, CapabilityDefinition}
use req_flow.Workflow.Order.{node_ids}
use req_flow.Workflow.Validate.Issues.{ValidationMode}
use req_flow.Workflow.Validate.Index.{Catalog, resolve_capability, insert_some, index_nodes}
use req_flow.Workflow.Validate.Publishable.{AreFresh, AreFresh-ext}
use req_flow.Workflow.Validate.Tracing.{HasOnePrimary}

abbrev pub AllOnePrimary : List (String × CapabilityDefinition) → Type 0
AllOnePrimary capabilities =
    (id : String) (c : CapabilityDefinition)
    → lookup id capabilities ≡ some c
    → HasOnePrimary (id, c)

-- Every capability of the catalog has one primary input and one primary output.
abbrev pub IsLinear : Catalog → Type 0
IsLinear none = Unit
IsLinear (some find_capability) =
    (ref : CapabilityRef) (c : CapabilityDefinition)
    → find_capability ref ≡ some c
    → HasOnePrimary ("", c)

insert-eq-append :
    (k : String) (v : WorkflowNode) (m : List (String × WorkflowNode))
    → has k m ≡ false
    → keys (insert k v m) ≡ keys m ++ k ∷ []
insert-eq-append k v [] h = refl
insert-eq-append k v ((j, u) ∷ m) h = ground (arith, insert-eq-append k v m)

resolve_capability-HasOnePrimary :
    (valid_config : CapabilityDefinition → RawMessage → Bool) (catalog : Catalog) (path : String)
    (node : WorkflowNode) (c : CapabilityDefinition)
    → IsLinear catalog
    → (resolve_capability valid_config catalog path node).0 ≡ some c
    → HasOnePrimary ("", c)
unfolding resolve_capability
resolve_capability-HasOnePrimary valid_config none path node c l f = cc
resolve_capability-HasOnePrimary valid_config (some find_capability) path node c l f =
    l node.capability c (ground arith)

module _ (valid_config : CapabilityDefinition → RawMessage → Bool) (mode : ValidationMode)
    (catalog : Catalog) where
  AllOnePrimary-insert_some :
      (id : String) (o : Option CapabilityDefinition)
      (capabilities : List (String × CapabilityDefinition))
      → ((c : CapabilityDefinition) → o ≡ some c → HasOnePrimary ("", c))
      → AllOnePrimary capabilities
      → AllOnePrimary (insert_some valid_config id o capabilities)
  AllOnePrimary-insert_some id none capabilities new h k d f = h k d f
  AllOnePrimary-insert_some id (some c) capabilities new h k d f = elim (Bool-cases (id == k)) [
    | inl same ↦ new d (ground (arith, lookup-insert id k c capabilities))
    | inr other ↦ h k d (ground (arith, lookup-insert id k c capabilities))
  ]

  pub index_nodes-AllOnePrimary :
      (i : ℕ) (rest : List WorkflowNode) (nodes : List (String × WorkflowNode))
      (capabilities : List (String × CapabilityDefinition))
      → IsLinear catalog
      → AllOnePrimary capabilities
      → AllOnePrimary (index_nodes valid_config mode catalog i rest nodes capabilities).capabilities
  unfolding index_nodes
  index_nodes-AllOnePrimary i [] nodes capabilities l h = h
  index_nodes-AllOnePrimary i (node ∷ rest) nodes capabilities l h =
      index_nodes-AllOnePrimary (suc i) rest (insert node.id node nodes)
        (insert_some valid_config node.id
          (resolve_capability valid_config catalog (element_path "nodes" i) node).0 capabilities)
        l
        (AllOnePrimary-insert_some node.id
          (resolve_capability valid_config catalog (element_path "nodes" i) node).0 capabilities
          (λ c f.
            resolve_capability-HasOnePrimary valid_config catalog (element_path "nodes" i) node c l
              f)
          h)

  has-insert_some :
      (k id : String) (o : Option CapabilityDefinition)
      (capabilities : List (String × CapabilityDefinition))
      → has k (insert_some valid_config id o capabilities) ≡ true
      → (has k capabilities ≡ true) ⊎ (id == k ≡ true)
  has-insert_some k id none capabilities h = inl h
  has-insert_some k id (some c) capabilities h = ground (arith, has-insert id k c capabilities)

  pub index_nodes-within :
      (i : ℕ) (rest : List WorkflowNode) (nodes : List (String × WorkflowNode))
      (capabilities : List (String × CapabilityDefinition)) (k : String)
      → has k (index_nodes valid_config mode catalog i rest nodes capabilities).capabilities ≡ true
      → (has k capabilities ≡ true) ⊎ (contains k (node_ids rest) ≡ true)
  unfolding index_nodes
  index_nodes-within i [] nodes capabilities k h = inl h
  index_nodes-within i (node ∷ rest) nodes capabilities k h =
      let found = (resolve_capability valid_config catalog (element_path "nodes" i) node).0 in
      let later =
        index_nodes-within (suc i) rest (insert node.id node nodes)
          (insert_some valid_config node.id found capabilities) k h in
      ground (arith, later, has-insert_some k node.id found capabilities)

  pub index_nodes-keys :
      (i : ℕ) (rest : List WorkflowNode) (nodes : List (String × WorkflowNode))
      (capabilities : List (String × CapabilityDefinition))
      → AreFresh (λ k. has k nodes) (node_ids rest)
      → keys (index_nodes valid_config mode catalog i rest nodes capabilities).nodes
        ≡ keys nodes ++ node_ids rest
  unfolding index_nodes AreFresh
  index_nodes-keys i [] nodes capabilities f = sym (append-nil (keys nodes))
  index_nodes-keys i (node ∷ rest) nodes capabilities f =
      let found = (resolve_capability valid_config catalog (element_path "nodes" i) node).0 in
      let later =
        index_nodes-keys (suc i) rest (insert node.id node nodes)
          (insert_some valid_config node.id found capabilities)
          (AreFresh-ext (λ k. node.id == k || has k nodes) (λ k. has k (insert node.id node nodes))
            (node_ids rest) (λ k. sym (has-insert node.id k node nodes)) f.1) in
      later
      ∙ ap (λ ks. ks ++ node_ids rest) (insert-eq-append node.id node nodes f.0)
      ∙ append_assoc (keys nodes) (node.id ∷ []) (node_ids rest)
