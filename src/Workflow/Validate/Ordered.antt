-- ===== src/Workflow/Validate/Ordered.antt =====
-- internal/domain/workflow: `Validate` (validate.go) and `LinearOrder` (revision.go) agree on what a chain is.
use req_flow.Prelude.{
  suc, String, Bool, true, false, List, [], some, ◌≡◌, sym, ◌∙◌, ap, arith, eq_iff, length,
  is_empty, contains, has, keys, ok,
}
use req_flow.Json.{RawMessage}
use mathlib.Core.List.{Nodup-nil, append-nil}
use req_flow.Workflow.Model.{WorkflowDraft, CapabilityDefinition}
use req_flow.Workflow.Catalog.{lookup_capability, new_static_catalog}
use req_flow.Workflow.Catalog.Built.{lookup_capability-valid}
use req_flow.Workflow.Order.{linear_order, IsLinearOrder, node_ids}
use req_flow.Workflow.Order.Complete.{linear_order_iff}
use req_flow.Workflow.Validate.Issues.{publish_mode, has_errors}
use req_flow.Workflow.Validate.Index.{Catalog, Index, index_definition}
use req_flow.Workflow.Validate.Connections.{connect_all}
use req_flow.Workflow.Validate.Topology.{heads_of}
use req_flow.Workflow.Validate.Decisions.{no_wiring, validate}
use req_flow.Workflow.Validate.Publishable.{index_nodes-usable}
use req_flow.Workflow.Validate.Publication.{NoErrors, NoErrors-of-validate, nodes-of-index}
use req_flow.Workflow.Validate.Wired.{connect_all-IsWired, no_wiring-IsWired}
use req_flow.Workflow.Validate.Walking.{visit_from-Walked}
use req_flow.Workflow.Validate.Indexing.{
  IsLinear, AllOnePrimary, index_nodes-AllOnePrimary, index_nodes-within, index_nodes-keys,
}
use req_flow.Workflow.Validate.Chain.{
  head-found, topology-facts, heads_of-within, length-keys, length-node_ids, IsWithin-of-traced,
  IsLinearOrder-of-walk,
}

module _ (valid_config : CapabilityDefinition → RawMessage → Bool) (draft : WorkflowDraft)
    (catalog : Catalog) where
  abbrev index_of : Index
  index_of = index_definition valid_config draft catalog publish_mode

  -- What the index of a draft whose nodes are distinct holds.
  IndexFacts : Type 0
  IndexFacts =
      (keys index_of.nodes ≡ node_ids draft.nodes)
      × ((k : String)
          → has k index_of.capabilities ≡ true
          → contains k (node_ids draft.nodes) ≡ true)
      × AllOnePrimary index_of.capabilities
      × (is_empty draft.nodes ≡ false)

  index-facts : IsLinear catalog → has_errors index_of.issues ≡ false → IndexFacts
  unfolding index_definition IndexFacts
  index-facts linear h =
      let (nodes, given) = nodes-of-index valid_config (λ p. true) draft catalog publish_mode h in
      let (usable, fresh) =
        index_nodes-usable valid_config publish_mode catalog 0 draft.nodes [] [] nodes in
      (
        index_nodes-keys valid_config publish_mode catalog 0 draft.nodes [] [] fresh,
        (λ k m.
            ground (
              arith,
              index_nodes-within valid_config publish_mode catalog 0 draft.nodes [] [] k m,
            )),
        index_nodes-AllOnePrimary valid_config publish_mode catalog 0 draft.nodes [] [] linear
            (λ id c f. cc),
        ground (arith, given),
      )

  IsLinearOrder-of-NoErrors :
      (regex_compiles : String → Bool)
      → IsLinear catalog
      → NoErrors valid_config regex_compiles draft catalog publish_mode
      → (order : List String) × IsLinearOrder draft order
  unfolding IndexFacts
  IsLinearOrder-of-NoErrors regex_compiles linear n =
      let (same_keys, known, one, given) = index-facts linear n.index in
      let w = (connect_all index_of 0 draft.connections no_wiring).0 in
      let (wired, edges) =
        connect_all-IsWired index_of one 0 draft.connections no_wiring
          (no_wiring-IsWired index_of.capabilities) n.connections in
      let (counted, headed) = topology-facts draft index_of w given n.topology in
      let (head, visited, alone, walk, covered) =
        head-found index_of w (heads_of w.node_parents (keys index_of.nodes)) headed in
      let (order, walked, distinct, visits) =
        visit_from-Walked (suc (suc (length w.node_edges))) w.node_edges head [] Nodup-nil walk in
      let head_known : contains head (node_ids draft.nodes) ≡ true = rw (← same_keys) (
        heads_of-within w.node_parents (keys index_of.nodes) head
          (ap (contains head) alone ∙ ground (arith, eq_iff head head))) in
      let node_count : length index_of.nodes ≡ length (node_ids draft.nodes) =
        sym (length-keys index_of.nodes) ∙ ap length same_keys in
      (
        order,
        IsLinearOrder-of-walk draft w.node_edges head order edges
            (IsWithin-of-traced index_of.capabilities w.seen (node_ids draft.nodes) w.node_edges
              known wired.traced)
            head_known walked (rw append-nil at distinct)
            (omega (arith, visits, covered, node_count))
            (omega (arith, counted, length-node_ids draft.nodes)),
      )

validate-IsLinearOrder :
    (valid_config : CapabilityDefinition → RawMessage → Bool) (regex_compiles : String → Bool)
    (draft : WorkflowDraft) (catalog : Catalog)
    → IsLinear catalog
    → has_errors (validate valid_config regex_compiles draft catalog publish_mode) ≡ false
    → (order : List String) × (linear_order draft ≡ ok order) × IsLinearOrder draft order
validate-IsLinearOrder valid_config regex_compiles draft catalog linear h =
    let (order, spec) =
      IsLinearOrder-of-NoErrors valid_config draft catalog regex_compiles linear
        (NoErrors-of-validate valid_config regex_compiles draft catalog publish_mode h) in
    (order, (linear_order_iff draft order).1 spec, spec)

-- Where the catalog is one that `NewStaticCatalog` built, a draft that `Validate` accepts for a publication, with no
-- error among its issues, has a linear order, and `LinearOrder` returns it without an error.
pub validate-linear_order :
    (valid_schema decodes_object : RawMessage → Bool)
    (valid_config : CapabilityDefinition → RawMessage → Bool) (regex_compiles : String → Bool)
    (definitions : List CapabilityDefinition) (built : List (String × CapabilityDefinition))
    (draft : WorkflowDraft)
    → new_static_catalog valid_schema valid_config decodes_object definitions ≡ ok built
    → has_errors
        (validate valid_config regex_compiles draft (some (lookup_capability built)) publish_mode)
      ≡ false
    → (order : List String) × (linear_order draft ≡ ok order) × IsLinearOrder draft order
validate-linear_order valid_schema decodes_object valid_config regex_compiles definitions built
      draft b h =
    validate-IsLinearOrder valid_config regex_compiles draft (some (lookup_capability built))
      (λ ref c f.
        let (key, valid, accepted, inputs, outputs) =
          lookup_capability-valid valid_schema valid_config decodes_object definitions built ref c b
            f in
        (inputs, outputs))
      h
