-- ===== src/Workflow/Validate/Connections.antt =====
-- internal/domain/workflow/validate.go: `validateConnections`, `resolveSource`, `resolveTarget`.
use req_flow.Prelude.{
  ℕ, suc, ◌+◌, String, Bool, false, not, ◌&&◌, ◌||◌, List, [], ◌∷◌, ◌++◌, Option, none, some,
  is_blank, ◌⧺◌, element_path, insert, lookup, find, contains, ltb, ◌==◌, if◌then◌else◌, Result, ok,
  err,
}
use req_flow.Workflow.Model.{
  error, CapabilityDefinition, PortDefinition, PortRole, other_role, ResourceType, WorkflowPort,
  Endpoint, EndpointKind, workflow_input, node_output, node_input, workflow_output, other_endpoint,
  Connection,
}
use req_flow.Workflow.Catalog.{is_primary_role}
use req_flow.Workflow.Order.{is_main}
use req_flow.Workflow.Validate.Issues.{ValidationIssue, add_if, fault}
use req_flow.Workflow.Validate.Index.{Index}

pub record ResolvedEndpoint : Type 0 where
  pub resource_type : ResourceType
  pub role : PortRole
  pub multiple : Bool

kind_text : EndpointKind → String
kind_text workflow_input = "workflow_input"
kind_text node_output = "node_output"
kind_text node_input = "node_input"
kind_text workflow_output = "workflow_output"
kind_text (other_endpoint s) = s

unfoldable pub endpoint_key : Endpoint → String
unfolding kind_text
endpoint_key endpoint = kind_text endpoint.kind ⧺ ":" ⧺ endpoint.node_id ⧺ ":" ⧺ endpoint.port

unfoldable pub connection_key : Connection → String
connection_key c = endpoint_key c.from ⧺ "->" ⧺ endpoint_key c.to

abbrev pub find_port : List PortDefinition → String → Option PortDefinition
find_port ports name = find (λ port. port.name == name) ports

-- A port of the workflow itself: its endpoint names no node.
unfoldable pub resolve_workflow_port :
    String
    → String
    → List (String × WorkflowPort)
    → Endpoint
    → Result ValidationIssue ResolvedEndpoint
resolve_workflow_port code path ports endpoint =
    if not (is_blank endpoint.node_id)
    then err (fault "endpoint_node_forbidden" path)
    else elim (lookup endpoint.port ports) [
      | none ↦ err (fault code path)
      | some port ↦
          ok (record { resource_type = port.resource_type; role = other_role ""; multiple = false })
    ]

-- A port of a node, among those that `side` takes of its capability.
unfoldable pub resolve_node_port :
    String
    → String
    → (CapabilityDefinition → List PortDefinition)
    → Index
    → Endpoint
    → Result ValidationIssue ResolvedEndpoint
resolve_node_port code path side index endpoint =
    elim (lookup endpoint.node_id index.capabilities) [
      | none ↦ err (fault "connection_node_not_found" path)
      | some capability ↦ elim (find_port (side capability) endpoint.port) [
        | none ↦ err (fault code path)
        | some port ↦ ok (record {
          resource_type = port.resource_type;
          role = port.role;
          multiple = port.multiple;
        })
      ]
    ]

unfoldable pub resolve_source_kind :
    EndpointKind → Index → Endpoint → String → Result ValidationIssue ResolvedEndpoint
resolve_source_kind workflow_input index endpoint path =
    resolve_workflow_port "workflow_input_not_found" path index.inputs endpoint
resolve_source_kind node_output index endpoint path =
    resolve_node_port "node_output_not_found" path (λ c. c.outputs) index endpoint
resolve_source_kind _ index endpoint path = err (fault "connection_source_kind_invalid" path)

unfoldable pub resolve_source : Index → Endpoint → String → Result ValidationIssue ResolvedEndpoint
unfolding resolve_workflow_port resolve_node_port resolve_source_kind
resolve_source index endpoint path = resolve_source_kind endpoint.kind index endpoint path

unfoldable pub resolve_target_kind :
    EndpointKind → Index → Endpoint → String → Result ValidationIssue ResolvedEndpoint
resolve_target_kind node_input index endpoint path =
    resolve_node_port "node_input_not_found" path (λ c. c.inputs) index endpoint
resolve_target_kind workflow_output index endpoint path =
    resolve_workflow_port "workflow_output_not_found" path index.outputs endpoint
resolve_target_kind _ index endpoint path = err (fault "connection_target_kind_invalid" path)

unfoldable pub resolve_target : Index → Endpoint → String → Result ValidationIssue ResolvedEndpoint
unfolding resolve_workflow_port resolve_node_port resolve_target_kind
resolve_target index endpoint path = resolve_target_kind endpoint.kind index endpoint path

-- What the loop over the connections keeps.
pub record Wiring : Type 0 where
  pub seen : List String
  pub incoming : List (String × ℕ)
  pub outgoing : List (String × ℕ)
  pub node_edges : List (String × String)
  pub node_parents : List (String × String)

-- `m[key]` of a `map[string]int`, and `m[key]++`.
abbrev pub count_of : String → List (String × ℕ) → ℕ
count_of key counts = elim (lookup key counts) [ none ↦ 0 | some n ↦ n ]

abbrev pub bump : String → List (String × ℕ) → List (String × ℕ)
bump key counts = insert key (count_of key counts + 1) counts

-- `if existing, ok := m[key]; ok && existing != value`
abbrev pub conflicts : String → String → List (String × String) → Bool
conflicts key value m = elim (lookup key m) [
  | none ↦ false
  | some existing ↦ not (existing == value)
]

abbrev pub record_link : String → String → List (String × String) → List (String × String)
record_link key value m = if conflicts key value m then m else insert key value m

-- The part of the loop body that is about a connection between two nodes.
unfoldable pub link_nodes :
    String
    → Connection
    → ResolvedEndpoint
    → ResolvedEndpoint
    → Wiring
    → Wiring × List ValidationIssue
link_nodes path c source target w =
    let from = c.from.node_id in
    let to = c.to.node_id in
    if not (is_primary_role source.role) || not (is_primary_role target.role)
    then (w, fault "linear_side_connection_forbidden" path ∷ [])
    else if from == to
    then (w, fault "linear_self_connection" path ∷ [])
    else (
      record w {
        node_edges = record_link from to w.node_edges;
        node_parents = record_link to from w.node_parents;
      },
      add_if (conflicts from to w.node_edges) "linear_branch_forbidden" path error
          ++ add_if (conflicts to from w.node_parents) "linear_merge_forbidden" path error,
    )

unfoldable pub connect_resolved :
    String
    → Connection
    → ResolvedEndpoint
    → ResolvedEndpoint
    → Wiring
    → Wiring × List ValidationIssue
unfolding link_nodes
connect_resolved path c source target w =
    let target_key = endpoint_key c.to in
    let counted = record w {
      outgoing = bump (endpoint_key c.from) w.outgoing;
      incoming = bump target_key w.incoming;
    } in
    let (linked, link_issues) =
      if is_main c then link_nodes path c source target counted else (counted, []) in
    (
      linked,
      add_if (not (source.resource_type == target.resource_type)) "connection_type_mismatch" path
            error
          ++ (add_if (ltb 1 (count_of target_key counted.incoming) && not target.multiple)
                "connection_target_occupied" (path ⧺ ".to") error
              ++ link_issues),
    )

unfoldable pub connect_ends :
    String
    → Connection
    → Result ValidationIssue ResolvedEndpoint
    → Result ValidationIssue ResolvedEndpoint
    → Wiring
    → Wiring × List ValidationIssue
connect_ends path c (ok source) (ok target) w = connect_resolved path c source target w
connect_ends path c (ok source) (err j) w = (w, j ∷ [])
connect_ends path c (err i) (ok target) w = (w, i ∷ [])
connect_ends path c (err i) (err j) w = (w, i ∷ j ∷ [])

-- The body of the loop over the connections.
unfoldable pub connect_one : Index → String → Connection → Wiring → Wiring × List ValidationIssue
unfolding connect_ends resolve_source resolve_target connect_resolved
connect_one index path c w =
    let key = connection_key c in
    if contains key w.seen
    then (w, fault "connection_duplicate" path ∷ [])
    else connect_ends path c (resolve_source index c.from (path ⧺ ".from"))
        (resolve_target index c.to (path ⧺ ".to")) (record w { seen = key ∷ w.seen })

unfoldable pub connect_all : Index → ℕ → List Connection → Wiring → Wiring × List ValidationIssue
unfolding connect_one
connect_all index i [] w = (w, [])
connect_all index i (c ∷ cs) w =
    let (w', issues) = connect_one index (element_path "connections" i) c w in
    let (w'', later) = connect_all index (suc i) cs w' in (w'', issues ++ later)
