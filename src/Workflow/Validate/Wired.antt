-- ===== src/Workflow/Validate/Wired.antt =====
-- internal/domain/workflow/validate.go: the loop over the connections, when it adds no error. The map `nodeEdges` then
-- holds every connection between nodes, once.
use req_flow.Prelude.{
  ℕ, suc, String, true, false, List, [], ◌∷◌, ◌++◌, some, ◌≡◌, refl, sym, ◌∙◌, ap, arith, eq_iff,
  All-append, contains, has, lookup, element_path, Bool-cases, inl, inr, not-mem_of_contains,
  Nodup-snoc, insert-absent,
}
use mathlib.Core.List.{append-nil, append_assoc, Nodup-nil}
use req_flow.Workflow.Validate.Decisions.{no_wiring}
use req_flow.Workflow.Model.{Connection, CapabilityDefinition}
use req_flow.Workflow.Order.{is_main, main_edges}
use req_flow.Workflow.Order.Pairs.{firsts, seconds, has-eq-contains-firsts}
use req_flow.Workflow.Validate.Issues.{has_errors}
use req_flow.Workflow.Validate.Index.{Index}
use req_flow.Workflow.Validate.Connections.{
  endpoint_key, connection_key, Wiring, conflicts, connect_one, connect_all,
}
use req_flow.Workflow.Validate.Publishable.{no_errors-append}
use req_flow.Workflow.Validate.Resolving.{
  Connected, connect_one-Connected, Linked, seen_grows, edges_kept, edges-Linked,
}
use req_flow.Workflow.Validate.Tracing.{
  edge_key, IsTraced, flips, IsWired, HasOnePrimary, flips-append, firsts-append, seconds-append,
  firsts-flips, same_value, IsTraced-later, IsTraced-lookup, same_port,
}

main_key :
    (c : Connection)
    → is_main c ≡ true
    → connection_key c ≡ edge_key c.from.node_id c.from.port c.to.node_id c.to.port
unfolding connection_key endpoint_key
main_key c m = ground arith

module _ (index : Index)
    (one : (id : String) (c : CapabilityDefinition)
      → lookup id index.capabilities ≡ some c
      → HasOnePrimary (id, c)) where
  -- A connection whose key is new leaves from a node that has no edge yet.
  next_absent :
      (path : String) (c : Connection) (w : Wiring)
      → IsWired index.capabilities w
      → Connected index path c w
      → (l : Linked index c w (connect_one index path c w).0) → is_main c ≡ true
      → has c.from.node_id w.node_edges ≡ false
  unfolding IsTraced
  next_absent path c w v p l m =
      elim (same_value c.from.node_id c.to.node_id w.node_edges l.one_next) [
        | inl absent ↦ absent
        | inr there ↦
            let (out, into, from_port, to_port, seen) =
              IsTraced-lookup index.capabilities w.seen c.from.node_id c.to.node_id w.node_edges
                v.traced there in
            let e =
              same_port (λ d. d.outputs) index.capabilities c.from.node_id out c.from.port
                (λ d f. (one c.from.node_id d f).1) from_port l.from_port in
            let e' =
              same_port (λ d. d.inputs) index.capabilities c.to.node_id into c.to.port
                (λ d f. (one c.to.node_id d f).0) to_port l.to_port in
            let again : contains (connection_key c) w.seen ≡ true =
              rw (main_key c m, sym e, sym e') seen in
            absurd (cc (again, p.fresh))
      ]

lookup-flips :
    (a b : String) (es : List (String × String)) → lookup b (flips es) ≡ some a → has a es ≡ true
lookup-flips a b [] f = cc
lookup-flips a b ((c, d) ∷ es) f = ground (arith, eq_iff c a, lookup-flips a b es)

parent_absent :
    (a b : String) (w : Wiring)
    → w.node_parents ≡ flips w.node_edges
    → conflicts b a w.node_parents ≡ false
    → has a w.node_edges ≡ false
    → has b w.node_parents ≡ false
parent_absent a b w mirrored once absent = elim (same_value b a w.node_parents once) [
  | inl free ↦ free
  | inr there ↦
      absurd (cc (absent, lookup-flips a b w.node_edges (ap (lookup b) (sym mirrored) ∙ there)))
]

-- One more edge, of nodes that have none of that kind.
append-IsWired :
    (capabilities : List (String × CapabilityDefinition)) (w w' : Wiring) (a b key : String)
    → IsWired capabilities w
    → has a w.node_edges ≡ false
    → has b w.node_parents ≡ false
    → IsTraced capabilities (key ∷ w.seen) (a, b)
    → w'.seen ≡ key ∷ w.seen
    → w'.node_edges ≡ w.node_edges ++ (a, b) ∷ []
    → w'.node_parents ≡ w.node_parents ++ (b, a) ∷ []
    → IsWired capabilities w'
append-IsWired capabilities w w' a b key v free_a free_b t seen edges parents = record {
  one_next =
      rw (edges, firsts-append w.node_edges a b)
        (Nodup-snoc (firsts w.node_edges) v.one_next (
          not-mem_of_contains a (firsts w.node_edges)
            (sym (has-eq-contains-firsts a w.node_edges) ∙ free_a)));
  one_parent =
      rw (edges, seconds-append w.node_edges a b)
        (Nodup-snoc (seconds w.node_edges) v.one_parent (
          not-mem_of_contains b (seconds w.node_edges) (
            ap (contains b) (sym (ap firsts v.mirrored ∙ firsts-flips w.node_edges))
            ∙ sym (has-eq-contains-firsts b w.node_parents)
            ∙ free_b)));
  mirrored =
      parents
      ∙ ap (λ es. es ++ (b, a) ∷ []) v.mirrored
      ∙ sym (ap flips edges ∙ flips-append w.node_edges a b);
  traced =
      rw (seen, edges)
        (All-append (IsTraced capabilities (key ∷ w.seen)) w.node_edges ((a, b) ∷ [])
          (IsTraced-later capabilities w.seen key w.node_edges v.traced) (t, tt));
}

module _ (index : Index)
    (one : (id : String) (c : CapabilityDefinition)
      → lookup id index.capabilities ≡ some c
      → HasOnePrimary (id, c)) where
  main-step :
      (path : String) (c : Connection) (w : Wiring)
      → IsWired index.capabilities w
      → Connected index path c w
      → is_main c ≡ true
      → IsWired index.capabilities (connect_one index path c w).0
        × ((connect_one index path c w).0.node_edges
            ≡ w.node_edges ++ (c.from.node_id, c.to.node_id) ∷ [])
  unfolding IsTraced
  main-step path c w v p m =
      let l = edges-Linked index path c w p m in
      let a = c.from.node_id in
      let b = c.to.node_id in
      let free_a = next_absent index one path c w v p l m in
      let free_b = parent_absent a b w v.mirrored l.one_parent free_a in
      let edges = l.edges ∙ insert-absent a b w.node_edges free_a in
      let parents = l.parents ∙ insert-absent b a w.node_parents free_b in
      let own : contains (edge_key a c.from.port b c.to.port) (connection_key c ∷ w.seen) ≡ true =
        ground
          (arith, main_key c m, eq_iff (connection_key c) (edge_key a c.from.port b c.to.port)) in
      (
        append-IsWired index.capabilities w (connect_one index path c w).0 a b (connection_key c) v
            free_a free_b (c.from.port, c.to.port, l.from_port, l.to_port, own)
            (seen_grows index path c w p) edges parents,
        edges,
      )

  side-step :
      (path : String) (c : Connection) (w : Wiring)
      → IsWired index.capabilities w
      → Connected index path c w
      → is_main c ≡ false
      → IsWired index.capabilities (connect_one index path c w).0
        × ((connect_one index path c w).0.node_edges ≡ w.node_edges)
  side-step path c w v p m =
      let (edges, parents) = edges_kept index path c w p m in
      (
        record {
          one_next = rw edges v.one_next;
          one_parent = rw edges v.one_parent;
          mirrored = parents ∙ v.mirrored ∙ sym (ap flips edges);
          traced =
              rw (seen_grows index path c w p, edges)
                (IsTraced-later index.capabilities w.seen (connection_key c) w.node_edges v.traced);
        },
        edges,
      )

  -- The loop without errors keeps the wiring, and adds the connections between nodes in their order.
  pub connect_all-IsWired :
      (i : ℕ) (cs : List Connection) (w : Wiring)
      → IsWired index.capabilities w
      → has_errors (connect_all index i cs w).1 ≡ false
      → IsWired index.capabilities (connect_all index i cs w).0
        × ((connect_all index i cs w).0.node_edges ≡ w.node_edges ++ main_edges cs)
  unfolding connect_all
  connect_all-IsWired i [] w v h = (v, sym (append-nil w.node_edges))
  connect_all-IsWired i (c ∷ cs) w v h =
      let path = element_path "connections" i in
      let w' = (connect_one index path c w).0 in
      let (own, rest) =
        no_errors-append (connect_one index path c w).1 (connect_all index (suc i) cs w').1 h in
      let p = connect_one-Connected index path c w own in
      elim (Bool-cases (is_main c)) [
        | inl m ↦
            let (v', edges) = main-step path c w v p m in
            let (v'', more) = connect_all-IsWired (suc i) cs w' v' rest in
            (
              v'',
              more
                  ∙ ap (λ es. es ++ main_edges cs) edges
                  ∙ append_assoc w.node_edges _ (main_edges cs)
                  ∙ rw m refl,
            )
        | inr m ↦
            let (v', edges) = side-step path c w v p m in
            let (v'', more) = connect_all-IsWired (suc i) cs w' v' rest in
            (v'', more ∙ ap (λ es. es ++ main_edges cs) edges ∙ rw m refl)
      ]

pub no_wiring-IsWired :
    (capabilities : List (String × CapabilityDefinition)) → IsWired capabilities no_wiring
no_wiring-IsWired capabilities = record {
  one_next = Nodup-nil;
  one_parent = Nodup-nil;
  mirrored = refl;
  traced = tt;
}
