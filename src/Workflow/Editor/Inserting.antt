-- ===== src/Workflow/Editor/Inserting.antt =====
-- internal/app/workflow/draft_editor.go: `InsertBetween`, on a draft that has a linear order.
use req_flow.Prelude.{
  String, true, false, not, ◌&&◌, ◌||◌, List, [], ◌∷◌, ◌++◌, ◌≡◌, refl, sym, ◌∙◌, ap, arith, ◌==◌,
  contains, is_empty, Bool-cases, inl, inr, contains_of_mem, contains_of_not-mem,
  not-mem_of_contains, ok, refuse_if, >>=-eq-ok, when_ok, when_passed, trim_space, is_blank,
}
use mathlib.Core.List.Perm
use mathlib.Core.List.{Mem, Perm, Nodup-cons, append-nil, perm_middle}
use req_flow.Workflow.Model.{WorkflowDraft, Connection, PortDefinition}
use req_flow.Workflow.Catalog.{is_side_role}
use req_flow.Workflow.Order.{is_main, node_ids, main_edges, pairs, linear_order, IsLinearOrder}
use req_flow.Workflow.Order.Pairs.{mem_pairs}
use req_flow.Workflow.Editor.Defs.{
  Editor, contains_connection, without_connection, has_node, invalidate_acceptance, touch,
  insert_side_inputs, InsertBetweenCommand, plan_insert, insert_between, cut_connections,
  primary_port, source_type, target_type, require, capability_missing, port_missing,
  type_unresolved, not_main_connection, connection_missing, node_exists, type_mismatch,
}
use req_flow.Workflow.Editor.Effects.{Rereads}
use req_flow.Workflow.Editor.Naming.{order_by_plan, edges-Nodup, valid-named}
use req_flow.Workflow.Editor.Splicing.{
  insert_behind, insert_behind-perm, pairs_split, edge-of_contains, without_connection-perm,
  main_edges-append, node_ids-append, has_node-eq-contains,
}

insert_side_inputs-main_edges :
    (id : String) (bindings : List (String × String)) (ports : List PortDefinition)
    (connections : List Connection) {out : List Connection}
    → insert_side_inputs id bindings ports connections ≡ ok out
    → main_edges out ≡ main_edges connections
unfolding insert_side_inputs
insert_side_inputs-main_edges id bindings [] connections h = ground arith
insert_side_inputs-main_edges id bindings (port ∷ ports) connections h =
    elim (Bool-cases (is_side_role port.role && port.required)) [
      | inr skipped ↦
          insert_side_inputs-main_edges id bindings ports connections
            (rw (insert_side_inputs, skipped) at h)
      | inl bound ↦
          let h' = rw (insert_side_inputs, bound) at h in
          let (given, _, rest) = >>=-eq-ok (refuse_if (is_blank (trim_space _)) _) _ h' in
          insert_side_inputs-main_edges id bindings ports _ rest
          ∙ main_edges-append connections _
          ∙ append-nil (main_edges connections)
    ]

-- What an accepted plan of the command does to the nodes and to the edges between them.
pub record IsInserted (next edited : WorkflowDraft) (command : InsertBetweenCommand) : Type 0 where
  pub main : is_main command.connection ≡ true
  pub there : contains_connection next.connections command.connection ≡ true
  pub new : has_node command.node.id next.nodes ≡ false
  pub nodes : edited.nodes ≡ next.nodes ++ command.node ∷ []
  pub edges :
      main_edges edited.connections
      ≡ main_edges (without_connection command.connection next.connections)
        ++ (command.connection.from.node_id, command.node.id)
          ∷ (command.node.id, command.connection.to.node_id)
          ∷ []

cut-edges :
    (next : WorkflowDraft) (command : InsertBetweenCommand) (input output : PortDefinition)
    → is_main command.connection ≡ true
    → main_edges (cut_connections next command input output)
      ≡ main_edges (without_connection command.connection next.connections)
        ++ (command.connection.from.node_id, command.node.id)
          ∷ (command.node.id, command.connection.to.node_id)
          ∷ []
cut-edges next command input output main =
    main_edges-append (without_connection command.connection next.connections) _
    ∙ ap (λ es. main_edges (without_connection command.connection next.connections) ++ es)
        (ground arith)

plan_insert-IsInserted :
    (e : Editor) (next : WorkflowDraft) (command : InsertBetweenCommand) {edited : WorkflowDraft}
    → plan_insert e next command ≡ ok edited
    → IsInserted next edited command
unfolding plan_insert
plan_insert-IsInserted e next command {edited} h =
    when_passed (not (is_main command.connection)) not_main_connection h (λ main h1.
      when_passed (not (contains_connection next.connections command.connection)) connection_missing
        h1
        (λ there h2. when_passed (has_node command.node.id next.nodes) node_exists h2 (λ new h3.
          when_ok (require (e.find_capability command.node.capability) capability_missing) h3
            (λ capability _ h4.
              when_ok (require (primary_port capability.inputs) port_missing) h4 (λ input _ h5.
                when_ok (require (primary_port capability.outputs) port_missing) h5 (λ output _ h6.
                  when_ok (require (source_type e next command.connection.from) type_unresolved) h6
                    (λ from_type _ h7.
                      when_ok (require (target_type e next command.connection.to) type_unresolved)
                        h7
                        (λ to_type _ h8.
                          when_passed
                            (not (from_type == input.resource_type)
                              || not (output.resource_type == to_type))
                            type_mismatch h8
                            (λ _ h9.
                              when_ok
                                (insert_side_inputs command.node.id command.side_inputs
                                  capability.inputs (cut_connections next command input output))
                                h9
                                (λ connections bound done.
                                  let built : record next {
                                    nodes = next.nodes ++ command.node ∷ [];
                                    connections = connections;
                                  }
                                      ≡ edited =
                                    ground arith in
                                  record {
                                    main = ground arith;
                                    there = ground arith;
                                    new = new;
                                    nodes = ap (λ (d : WorkflowDraft). d.nodes) (sym built);
                                    edges =
                                        ap (λ (d : WorkflowDraft). main_edges d.connections)
                                          (sym built)
                                        ∙ insert_side_inputs-main_edges command.node.id
                                            command.side_inputs capability.inputs
                                            (cut_connections next command input output) bound
                                        ∙ cut-edges next command input output (ground arith);
                                  }))))))))))

insert_behind-inhabited :
    (a n : String) (xs : List String)
    → is_empty xs ≡ false
    → is_empty (insert_behind a n xs) ≡ false
insert_behind-inhabited a n [] h = h
insert_behind-inhabited a n (x ∷ xs) h = elim (Bool-cases (x == a)) [
  | inl same ↦ rw same refl
  | inr other ↦ rw other refl
]

module _ (next edited : WorkflowDraft) (command : InsertBetweenCommand) (order : List String)
    (ins : IsInserted next edited command) (spec : IsLinearOrder next order)
    (named : contains "" (node_ids edited.nodes) ≡ false) where
  abbrev a : String
  a = command.connection.from.node_id

  abbrev b : String
  b = command.connection.to.node_id

  abbrev n : String
  n = command.node.id

  edge_there : Mem (a, b) (pairs order)
  edge_there =
      Perm.subset spec.neighbours (a, b)
        (edge-of_contains command.connection ins.main next.connections ins.there)

  order-perm : Perm (insert_behind a n order) (node_ids edited.nodes)
  order-perm = Perm.trans (insert_behind-perm a n order (mem_pairs order edge_there).0) (
      Perm.trans (Perm.cons n spec.every_node) (
        rw (ins.nodes, node_ids-append next.nodes (command.node ∷ []))
          (Perm.symm (
            rw (append-nil (node_ids next.nodes)) at
              (perm_middle {a = n} (node_ids next.nodes) [])))))

  edges-perm : Perm (main_edges edited.connections) (pairs (insert_behind a n order))
  edges-perm =
      let w = main_edges (without_connection command.connection next.connections) in
      let (rest, split, split') = pairs_split a n b order spec.distinct edge_there in
      let cut =
        without_connection-perm command.connection ins.main next.connections
          (edges-Nodup next order spec) ins.there in
      let same : Perm w rest =
        Perm.cons_inv (Perm.trans (Perm.symm cut) (Perm.trans spec.neighbours split)) in
      rw (ins.edges) (
        Perm.trans (perm_middle w ((n, b) ∷ [])) (
          Perm.trans (Perm.cons (a, n) (rw (append-nil w) at (perm_middle {a = (n, b)} w [])))
            (Perm.trans (Perm.cons (a, n) (Perm.cons (n, b) same)) (Perm.symm split'))))

  inserted-IsLinearOrder : IsLinearOrder edited (insert_behind a n order)
  inserted-IsLinearOrder = record {
    every_node = order-perm;
    distinct =
        Perm.nodup (Perm.symm (insert_behind-perm a n order (mem_pairs order edge_there).0)) (
          Nodup-cons.1 (
            (λ m. cc (
              contains_of_mem n (node_ids next.nodes) (Perm.subset spec.every_node n m),
              has_node-eq-contains n next.nodes,
              ins.new,
            )),
            spec.distinct,
          ));
    named =
        contains_of_not-mem "" (insert_behind a n order)
          (λ m. not-mem_of_contains "" (node_ids edited.nodes) named (Perm.subset order-perm "" m));
    inhabited = insert_behind-inhabited a n order spec.inhabited;
    neighbours = edges-perm;
  }

-- `InsertBetween` puts the new node behind the node that the connection leaves, in the linear order of the draft: where
-- `LinearOrder` returns an order of the draft, it returns that order with the new node of the draft that the command
-- returns. Reading the draft back from its JSON gives a copy of it.
pub insert_between-linear_order :
    (e : Editor) (draft : WorkflowDraft) (command : InsertBetweenCommand) (order : List String)
    {edited : WorkflowDraft}
    → Rereads e
    → linear_order draft ≡ ok order
    → insert_between e draft command ≡ ok edited
    → linear_order edited ≡ ok (insert_behind command.connection.from.node_id command.node.id order)
unfolding insert_between invalidate_acceptance
insert_between-linear_order e draft command order r ordered h =
    (order_by_plan e draft order _ (λ next. plan_insert e next command) Unit r
      (λ next planned found spec valid. (
        inserted-IsLinearOrder next planned command order
            (plan_insert-IsInserted e next command found) spec
            (valid-named e (touch (invalidate_acceptance planned)) valid),
        tt,
      ))
      ordered h).0
