-- ===== src/Workflow/Editor/Appending.antt =====
-- internal/app/workflow/draft_editor.go: `AppendAfter` and `PrependBefore`, on a draft that has a linear order.
use req_flow.Prelude.{
  String, true, not, List, [], ◌∷◌, ◌++◌, ◌≡◌, sym, ◌∙◌, ap, arith, ◌==◌, any, some, contains,
  mem_of_contains, ok, when_ok, when_passed,
}
use mathlib.Core.List.Perm
use req_flow.Workflow.Model.{WorkflowDraft}
use req_flow.Workflow.Order.{node_ids, main_edges, linear_order}
use req_flow.Workflow.Validate.Indexing.{IsLinear}
use req_flow.Workflow.Editor.Defs.{
  Editor, not_tail, output_not_exposed, input_not_connected, type_mismatch, capability_missing,
  port_missing, node_exists, touch, has_node, find_node, invalidate_acceptance, require,
  primary_port, port_or_zero, bind_required_side_inputs, wire, into_node, out_of_node,
  continues_from, move_outputs, move_input, AppendAfterCommand, plan_append, append_after,
  PrependBeforeCommand, plan_prepend, prepend_before,
}
use req_flow.Workflow.Editor.Effects.{Rereads}
use req_flow.Workflow.Editor.Naming.{order_by_plan, valid-named, valid-one_edge}
use req_flow.Workflow.Editor.Splicing.{main_edges-append, node_ids-append, has_node-eq-contains}
use req_flow.Workflow.Editor.Moving.{
  bind_required_side_inputs-main_edges, find_node-known, move_outputs-main_edges,
  move_input-main_edges,
}
use req_flow.Workflow.Editor.Extending.{IsExtended, appended-IsLinearOrder, prepended-IsLinearOrder}

plan_append-IsExtended :
    (e : Editor) (next : WorkflowDraft) (command : AppendAfterCommand) {planned : WorkflowDraft}
    → plan_append e next command ≡ ok planned
    → IsExtended next planned command.node.id (command.after_node_id, command.node.id)
      × (contains command.after_node_id (node_ids next.nodes) ≡ true)
unfolding plan_append
plan_append-IsExtended e next command {planned} h =
    when_passed (has_node command.node.id next.nodes) node_exists h (λ new h1.
      when_ok (require (e.find_capability command.node.capability) capability_missing) h1
        (λ capability _ h2.
          when_ok (require (primary_port capability.inputs) port_missing) h2 (λ input _ h3.
            when_ok (require (primary_port capability.outputs) port_missing) h3 (λ output _ h4.
              when_ok (find_node e next.nodes command.after_node_id) h4
                (λ (previous, owner) found h5.
                  let exposed = port_or_zero (primary_port owner.outputs) in
                  when_passed (not (exposed.resource_type == input.resource_type)) type_mismatch h5
                    (λ _ h6.
                      when_passed (any (continues_from previous.id exposed.name) next.connections)
                        not_tail h6
                        (λ _ h7.
                          let end =
                            move_outputs previous.id exposed.name command.node.id output
                              next.connections next.outputs in
                          let joined =
                            end.connections
                            ++ wire (out_of_node previous.id exposed.name)
                                (into_node command.node.id input.name)
                              ∷ [] in
                          when_passed (not end.moved) output_not_exposed h7 (λ _ h8.
                            when_ok
                              (bind_required_side_inputs e (record next { outputs = end.ports })
                                command.node.id command.side_inputs capability.inputs joined)
                              h8
                              (λ connections bound done.
                                let built : record next {
                                  outputs = end.ports;
                                  nodes = next.nodes ++ command.node ∷ [];
                                  connections = connections;
                                }
                                    ≡ planned =
                                  ground arith in
                                let (same, known) =
                                  find_node-known e next.nodes command.after_node_id found in
                                (
                                  record {
                                    new =
                                        sym (has_node-eq-contains command.node.id next.nodes) ∙ new;
                                    nodes =
                                        ap (λ (d : WorkflowDraft). node_ids d.nodes) (sym built)
                                        ∙ node_ids-append next.nodes (command.node ∷ []);
                                    edges =
                                        ap (λ (d : WorkflowDraft). main_edges d.connections)
                                          (sym built)
                                        ∙ bind_required_side_inputs-main_edges e
                                            (record next { outputs = end.ports }) command.node.id
                                            command.side_inputs capability.inputs joined bound
                                        ∙ main_edges-append end.connections _
                                        ∙ ap (λ es. es ++ (previous.id, command.node.id) ∷ [])
                                            (move_outputs-main_edges previous.id exposed.name
                                              command.node.id output next.connections next.outputs)
                                        ∙ ap
                                            (λ k.
                                              main_edges next.connections
                                              ++ (k, command.node.id) ∷ [])
                                            same;
                                  },
                                  known,
                                ))))))))))

plan_prepend-IsExtended :
    (e : Editor) (next : WorkflowDraft) (command : PrependBeforeCommand) {planned : WorkflowDraft}
    → plan_prepend e next command ≡ ok planned
    → IsExtended next planned command.node.id (command.node.id, command.before_node_id)
      × (contains command.before_node_id (node_ids next.nodes) ≡ true)
unfolding plan_prepend
plan_prepend-IsExtended e next command {planned} h =
    when_passed (has_node command.node.id next.nodes) node_exists h (λ new h1.
      when_ok (require (e.find_capability command.node.capability) capability_missing) h1
        (λ capability _ h2.
          let input = port_or_zero (primary_port capability.inputs) in
          let output = port_or_zero (primary_port capability.outputs) in
          when_ok (find_node e next.nodes command.before_node_id) h2 (λ (before, owner) found h3.
            let entered = port_or_zero (primary_port owner.inputs) in
            when_passed (not (output.resource_type == entered.resource_type)) type_mismatch h3
              (λ _ h4.
                when_ok
                  (move_input before.id entered.name command.node.id input next.connections
                    next.inputs)
                  h4
                  (λ end moving h5.
                    let joined =
                      end.connections
                      ++ wire (out_of_node command.node.id output.name)
                          (into_node before.id entered.name)
                        ∷ [] in
                    when_passed (not end.moved) input_not_connected h5 (λ _ h6.
                      when_ok
                        (bind_required_side_inputs e (record next { inputs = end.ports })
                          command.node.id command.side_inputs capability.inputs joined)
                        h6
                        (λ connections bound done.
                          let built : record next {
                            inputs = end.ports;
                            nodes = next.nodes ++ command.node ∷ [];
                            connections = connections;
                          }
                              ≡ planned =
                            ground arith in
                          let (same, known) =
                            find_node-known e next.nodes command.before_node_id found in
                          (
                            record {
                              new = sym (has_node-eq-contains command.node.id next.nodes) ∙ new;
                              nodes =
                                  ap (λ (d : WorkflowDraft). node_ids d.nodes) (sym built)
                                  ∙ node_ids-append next.nodes (command.node ∷ []);
                              edges =
                                  ap (λ (d : WorkflowDraft). main_edges d.connections) (sym built)
                                  ∙ bind_required_side_inputs-main_edges e
                                      (record next { inputs = end.ports }) command.node.id
                                      command.side_inputs capability.inputs joined bound
                                  ∙ main_edges-append end.connections _
                                  ∙ ap (λ es. es ++ (command.node.id, before.id) ∷ [])
                                      (move_input-main_edges before.id entered.name command.node.id
                                        input next.connections next.inputs moving)
                                  ∙ ap
                                      (λ k.
                                        main_edges next.connections ++ (command.node.id, k) ∷ [])
                                      same;
                            },
                            known,
                          ))))))))

-- `AppendAfter` puts the new node at the end of the linear order: where `LinearOrder` returns an order of the draft, it
-- returns that order and then the new node for the draft that the command returns. The node that the command names was
-- the last one of that order. Every capability of the catalog has one primary input and one primary output, and reading the draft back
-- from its JSON gives a copy of it.
pub append_after-linear_order :
    (e : Editor) (draft : WorkflowDraft) (command : AppendAfterCommand) (order : List String)
    {edited : WorkflowDraft}
    → Rereads e
    → IsLinear (some e.find_capability)
    → linear_order draft ≡ ok order
    → append_after e draft command ≡ ok edited
    → (linear_order edited ≡ ok (order ++ command.node.id ∷ []))
      × ((others : List String) × (order ≡ others ++ command.after_node_id ∷ []))
unfolding append_after invalidate_acceptance
append_after-linear_order e draft command order r linear ordered h =
    order_by_plan e draft order _ (λ next. plan_append e next command) _ r
      (λ next planned found spec valid.
        let edited = touch (invalidate_acceptance planned) in
        let (extended, known) = plan_append-IsExtended e next command found in
        let member =
          Perm.subset (Perm.symm spec.every_node) command.after_node_id
            (mem_of_contains command.after_node_id (node_ids next.nodes) known) in
        appended-IsLinearOrder next planned command.node.id command.after_node_id order spec
          (valid-named e edited valid) member extended (valid-one_edge e edited linear valid).0)
      ordered h

-- `PrependBefore` puts the new node at the start of the linear order: where `LinearOrder` returns an order of the draft,
-- it returns the new node and then that order for the draft that the command returns. The node that the command names
-- was the first one of that order. Every capability of the catalog has one primary input and one primary output, and reading the draft
-- back from its JSON gives a copy of it.
pub prepend_before-linear_order :
    (e : Editor) (draft : WorkflowDraft) (command : PrependBeforeCommand) (order : List String)
    {edited : WorkflowDraft}
    → Rereads e
    → IsLinear (some e.find_capability)
    → linear_order draft ≡ ok order
    → prepend_before e draft command ≡ ok edited
    → (linear_order edited ≡ ok (command.node.id ∷ order))
      × ((others : List String) × (order ≡ command.before_node_id ∷ others))
unfolding prepend_before invalidate_acceptance
prepend_before-linear_order e draft command order r linear ordered h =
    order_by_plan e draft order _ (λ next. plan_prepend e next command) _ r
      (λ next planned found spec valid.
        let edited = touch (invalidate_acceptance planned) in
        let (extended, known) = plan_prepend-IsExtended e next command found in
        let member =
          Perm.subset (Perm.symm spec.every_node) command.before_node_id
            (mem_of_contains command.before_node_id (node_ids next.nodes) known) in
        prepended-IsLinearOrder next planned command.node.id command.before_node_id order spec
          (valid-named e edited valid) member extended (valid-one_edge e edited linear valid).1)
      ordered h
