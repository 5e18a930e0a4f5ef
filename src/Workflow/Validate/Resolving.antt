-- ===== src/Workflow/Validate/Resolving.antt =====
-- internal/domain/workflow/validate.go: the body of the loop over the connections, when it adds no error.
use req_flow.Prelude.{
  String, true, false, List, ◌∷◌, some, ◌≡◌, refl, arith, ◌==◌, ◌⧺◌, contains, lookup, insert,
  Bool-cases, Option-cases, inl, inr, Result, ok, err,
}
use req_flow.Workflow.Model.{
  CapabilityDefinition, PortDefinition, Endpoint, EndpointKind, node_output, node_input,
  workflow_input, workflow_output, other_endpoint, Connection,
}
use req_flow.Workflow.Catalog.{is_primary_role}
use req_flow.Workflow.Order.{is_main}
use req_flow.Workflow.Validate.Issues.{ValidationIssue, has_errors, is_error}
use req_flow.Workflow.Validate.Index.{Index}
use req_flow.Workflow.Validate.Connections.{
  ResolvedEndpoint, connection_key, find_port, resolve_source, resolve_source_kind, resolve_target,
  resolve_target_kind, resolve_node_port, resolve_workflow_port, Wiring, conflicts, link_nodes,
  connect_resolved, connect_ends, connect_one,
}

-- The side of a node's capability on which a port is found, and that the port has the role.
unfoldable pub IsPortOf :
    (CapabilityDefinition → List PortDefinition)
    → List (String × CapabilityDefinition)
    → String
    → String
    → Type 0
IsPortOf side capabilities node name =
    (capability : CapabilityDefinition) × (port : PortDefinition) × (lookup node capabilities
      ≡ some capability)
    × (find_port (side capability) name ≡ some port)
    × (is_primary_role port.role ≡ true)

resolve_node_port-ok :
    (code path : String) (side : CapabilityDefinition → List PortDefinition) (index : Index)
    (endpoint : Endpoint) {r : ResolvedEndpoint}
    → resolve_node_port code path side index endpoint ≡ ok r
    → is_primary_role r.role ≡ true
    → IsPortOf side index.capabilities endpoint.node_id endpoint.port
unfolding resolve_node_port IsPortOf
resolve_node_port-ok code path side index endpoint {r} h p =
    elim (Option-cases (lookup endpoint.node_id index.capabilities)) [
      | inl absent ↦ ground arith
      | inr (capability, found) ↦ elim (Option-cases (find_port (side capability) endpoint.port)) [
        | inl absent ↦ ground arith
        | inr (port, named) ↦ (capability, port, found, named, ground arith)
      ]
    ]

resolve_source-error :
    (kind : EndpointKind) (index : Index) (endpoint : Endpoint) (path : String)
    {i : ValidationIssue}
    → resolve_source_kind kind index endpoint path ≡ err i
    → is_error i.severity ≡ true
unfolding resolve_source_kind resolve_node_port resolve_workflow_port
resolve_source-error workflow_input index endpoint path h = ground arith
resolve_source-error node_output index endpoint path h = ground arith
resolve_source-error node_input index endpoint path h = ground arith
resolve_source-error workflow_output index endpoint path h = ground arith
resolve_source-error (other_endpoint s) index endpoint path h = ground arith

resolve_target-error :
    (kind : EndpointKind) (index : Index) (endpoint : Endpoint) (path : String)
    {i : ValidationIssue}
    → resolve_target_kind kind index endpoint path ≡ err i
    → is_error i.severity ≡ true
unfolding resolve_target_kind resolve_node_port resolve_workflow_port
resolve_target-error workflow_input index endpoint path h = ground arith
resolve_target-error node_output index endpoint path h = ground arith
resolve_target-error node_input index endpoint path h = ground arith
resolve_target-error workflow_output index endpoint path h = ground arith
resolve_target-error (other_endpoint s) index endpoint path h = ground arith

-- What an errorless round of the loop is: a new key, two ends that resolve, and the rest of the body.
pub record Connected (index : Index) (path : String) (c : Connection) (w : Wiring) : Type 0 where
  pub fresh : contains (connection_key c) w.seen ≡ false
  pub source : ResolvedEndpoint
  pub target : ResolvedEndpoint
  pub from_found : resolve_source index c.from (path ⧺ ".from") ≡ ok source
  pub to_found : resolve_target index c.to (path ⧺ ".to") ≡ ok target
  pub no_errors :
      has_errors
        (connect_resolved path c source target (record w { seen = connection_key c ∷ w.seen })).1
      ≡ false
  pub same :
      connect_one index path c w
      ≡ connect_resolved path c source target (record w { seen = connection_key c ∷ w.seen })

connect_ends-ok :
    (path : String) (c : Connection) (r s : Result ValidationIssue ResolvedEndpoint) (w : Wiring)
    → ((i : ValidationIssue) → r ≡ err i → is_error i.severity ≡ true)
    → ((i : ValidationIssue) → s ≡ err i → is_error i.severity ≡ true)
    → has_errors (connect_ends path c r s w).1 ≡ false
    → (source : ResolvedEndpoint) × (target : ResolvedEndpoint) × (r ≡ ok source)
      × (s ≡ ok target)
      × (has_errors (connect_resolved path c source target w).1 ≡ false)
      × (connect_ends path c r s w ≡ connect_resolved path c source target w)
unfolding connect_ends
connect_ends-ok path c (ok source) (ok target) w e f h = (source, target, refl, refl, h, refl)
connect_ends-ok path c (ok source) (err j) w e f h = ground (arith, f j refl)
connect_ends-ok path c (err i) (ok target) w e f h = ground (arith, e i refl)
connect_ends-ok path c (err i) (err j) w e f h = ground (arith, e i refl)

pub connect_one-Connected :
    (index : Index) (path : String) (c : Connection) (w : Wiring)
    → has_errors (connect_one index path c w).1 ≡ false
    → Connected index path c w
unfolding connect_one resolve_source resolve_target
connect_one-Connected index path c w h = elim (Bool-cases (contains (connection_key c) w.seen)) [
  | inl seen ↦ absurd (cc (rw seen at h))
  | inr fresh ↦
      let w' : Wiring = record w { seen = connection_key c ∷ w.seen } in
      let (source, target, from_found, to_found, no_errors, same) =
        connect_ends-ok path c (resolve_source index c.from (path ⧺ ".from"))
          (resolve_target index c.to (path ⧺ ".to")) w'
          (λ i e. resolve_source-error c.from.kind index c.from (path ⧺ ".from") e)
          (λ i e. resolve_target-error c.to.kind index c.to (path ⧺ ".to") e) (rw fresh at h) in
      record {
        fresh = fresh;
        source = source;
        target = target;
        from_found = from_found;
        to_found = to_found;
        no_errors = no_errors;
        same = rw fresh same;
      }
]

-- What an errorless round does to the edges between nodes.
pub record Linked (index : Index) (c : Connection) (w : Wiring) (after : Wiring) : Type 0 where
  pub from_port : IsPortOf (λ d. d.outputs) index.capabilities c.from.node_id c.from.port
  pub to_port : IsPortOf (λ d. d.inputs) index.capabilities c.to.node_id c.to.port
  pub differ : c.from.node_id == c.to.node_id ≡ false
  pub one_next : conflicts c.from.node_id c.to.node_id w.node_edges ≡ false
  pub one_parent : conflicts c.to.node_id c.from.node_id w.node_parents ≡ false
  pub edges : after.node_edges ≡ insert c.from.node_id c.to.node_id w.node_edges
  pub parents : after.node_parents ≡ insert c.to.node_id c.from.node_id w.node_parents

from-kind :
    (c : Connection) → is_main c ≡ true → (c.from.kind ≡ node_output) × (c.to.kind ≡ node_input)
from-kind c m = ground arith

module _ (index : Index) (path : String) (c : Connection) (w : Wiring)
    (p : Connected index path c w) where
  pub seen_grows : (connect_one index path c w).0.seen ≡ connection_key c ∷ w.seen
  unfolding connect_resolved link_nodes
  seen_grows = ground (arith, p.same)

  pub edges_kept :
      is_main c ≡ false
      → ((connect_one index path c w).0.node_edges ≡ w.node_edges)
        × ((connect_one index path c w).0.node_parents ≡ w.node_parents)
  unfolding connect_resolved link_nodes
  edges_kept m = ground (arith, p.same)

  main-roles :
      is_main c ≡ true
      → (is_primary_role p.source.role ≡ true) × (is_primary_role p.target.role ≡ true)
  unfolding connect_resolved link_nodes
  main-roles m = ground (arith, p.no_errors)

  pub edges-Linked : is_main c ≡ true → Linked index c w (connect_one index path c w).0
  unfolding connect_resolved link_nodes resolve_source resolve_target resolve_source_kind
      resolve_target_kind
  edges-Linked m =
      let (from, to) = from-kind c m in
      let (from_role, to_role) = main-roles m in
      record {
        from_port =
            resolve_node_port-ok "node_output_not_found" (path ⧺ ".from") (λ d. d.outputs) index
              c.from (rw from at p.from_found) from_role;
        to_port =
            resolve_node_port-ok "node_input_not_found" (path ⧺ ".to") (λ d. d.inputs) index c.to
              (rw to at p.to_found) to_role;
        differ = ground (arith, p.no_errors);
        one_next = ground (arith, p.no_errors);
        one_parent = ground (arith, p.no_errors);
        edges = ground (arith, p.same, p.no_errors);
        parents = ground (arith, p.same, p.no_errors);
      }
