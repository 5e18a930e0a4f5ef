-- ===== src/Workflow/Order/Defs.antt =====
-- internal/domain/workflow/revision.go, `LinearOrder`, loop by loop.
-- A map is an association list, and `range` over a map takes its keys in the list's order; `Order.Complete` shows
-- that the result is the same for every order of the nodes and of the connections. The set `visited` of the last
-- loop holds what `order` holds, and is read off it.
use req_flow.Prelude.{
  ℕ, zero, suc, ◌-◌, ◌≡◌, String, Bool, true, false, not, ◌&&◌, ◌||◌, List, [], ◌∷◌, ◌++◌, none,
  some, eqb, if◌then◌else◌, is_blank, is_empty, length, contains, lookup, has, Result, ok, err,
  ◌>>=◌, ◌>>◌, refuse_if,
}
use mathlib.Core.List.{Perm, Nodup}
use req_flow.Workflow.Model.{
  WorkflowDraft, WorkflowNode, Connection, EndpointKind, node_output, node_input,
}

-- `exhausted` is the model's own: the walk ran out of fuel. `Order.Sound` shows that it does not occur.
pub data OrderError : Type 0 where
  no_nodes edge_dangling chain_incomplete heads_many head_missing cycle not_covering exhausted :
      OrderError
  node_duplicate many_successors many_predecessors : String → OrderError

pub record Links : Type 0 where
  pub next : List (String × String)
  pub parent : List (String × String)

abbrev pub is_node_output : EndpointKind → Bool
is_node_output node_output = true
is_node_output _ = false

abbrev pub is_node_input : EndpointKind → Bool
is_node_input node_input = true
is_node_input _ = false

-- A connection from one node to another.
abbrev pub is_main : Connection → Bool
is_main c = is_node_output c.from.kind && is_node_input c.to.kind

-- The loop over the nodes; `nodes` holds the identifiers seen.
unfoldable pub index_ids : List WorkflowNode → List String → Result OrderError (List String)
index_ids [] nodes = ok nodes
index_ids (n ∷ ns) nodes =
    if contains n.id nodes then err (node_duplicate n.id) else index_ids ns (n.id ∷ nodes)

unfoldable pub link_edge : List String → String → String → Links → Result OrderError Links
link_edge nodes from to links = do
  refuse_if (not (contains from nodes) || not (contains to nodes)) edge_dangling
  refuse_if (has from links.next) (many_successors from)
  refuse_if (has to links.parent) (many_predecessors to)
  ok (record { next = (from, to) ∷ links.next; parent = (to, from) ∷ links.parent })

unfoldable pub link_one : List String → Connection → Links → Result OrderError Links
link_one nodes c links =
    if is_main c then link_edge nodes c.from.node_id c.to.node_id links else ok links

-- The loop over the connections.
unfoldable pub link_all : List String → List Connection → Links → Result OrderError Links
link_all nodes [] links = ok links
link_all nodes (c ∷ cs) links = do links' ← link_one nodes c links; link_all nodes cs links'

-- The loop that looks for the node with no predecessor.
unfoldable pub find_head : List (String × String) → List String → String → Result OrderError String
find_head parent [] head = ok head
find_head parent (id ∷ ids) head = elim (has id parent) [
  | true ↦ find_head parent ids head
  | false ↦ elim (is_blank head) [ true ↦ find_head parent ids id | false ↦ err heads_many ]
]

-- `next[current]`: a missing key gives the empty text.
abbrev pub next_of : List (String × String) → String → String
next_of next current = elim (lookup current next) [ none ↦ "" | some following ↦ following ]

-- The loop along the chain. Each round adds an identifier to `order`, so one more round than there are nodes
-- is enough.
unfoldable pub walk :
    ℕ → List (String × String) → String → List String → Result OrderError (List String)
walk zero next current order = err exhausted
walk (suc fuel) next current order =
    let rest = walk fuel next (next_of next current) (order ++ current ∷ []) in
    if is_blank current then ok order else if contains current order then err cycle else rest

-- The four parts of the body behind the loop over the nodes.
unfoldable pub cover : List String → List String → Result OrderError (List String)
cover nodes order = do refuse_if (not (eqb (length order) (length nodes))) not_covering; ok order

unfoldable pub follow : List String → Links → String → Result OrderError (List String)
unfolding walk cover
follow nodes links head = do
  refuse_if (is_blank head) head_missing
  order ← walk (suc (length nodes)) links.next head []
  cover nodes order

unfoldable pub chain : List String → Links → Result OrderError (List String)
unfolding find_head follow
chain nodes links = do
  refuse_if (not (eqb (length links.next) (length nodes - 1))) chain_incomplete
  head ← find_head links.parent nodes ""
  follow nodes links head

unfoldable pub connect : List Connection → List String → Result OrderError (List String)
unfolding link_edge link_one link_all chain
connect connections nodes = do
  links ← link_all nodes connections (record { next = []; parent = [] })
  chain nodes links

unfoldable pub linear_order : WorkflowDraft → Result OrderError (List String)
unfolding index_ids connect
linear_order draft = do
  refuse_if (is_empty draft.nodes) no_nodes
  nodes ← index_ids draft.nodes []
  connect draft.connections nodes

-- What a linear order is, with no reference to the loops: every node once, none of them nameless, and the connections
-- between nodes are, each once, from a node of the order to the one behind it.
abbrev pub node_ids : List WorkflowNode → List String
node_ids [] = []
node_ids (n ∷ ns) = n.id ∷ node_ids ns

abbrev pub main_edges : List Connection → List (String × String)
main_edges [] = []
main_edges (c ∷ cs) =
    if is_main c then (c.from.node_id, c.to.node_id) ∷ main_edges cs else main_edges cs

abbrev pub pairs : List String → List (String × String)
pairs [] = []
pairs (a ∷ []) = []
pairs (a ∷ b ∷ rest) = (a, b) ∷ pairs (b ∷ rest)

pub record IsLinearOrder (draft : WorkflowDraft) (order : List String) : Type 0 where
  pub every_node : Perm order (node_ids draft.nodes)
  pub distinct : Nodup order
  pub named : contains "" order ≡ false
  pub inhabited : is_empty order ≡ false
  pub neighbours : Perm (main_edges draft.connections) (pairs order)
