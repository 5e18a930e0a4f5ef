-- ===== src/Workflow/Validate/Tracing.antt =====
-- internal/domain/workflow/validate.go: what the loop over the connections keeps when it adds no error.
use req_flow.Prelude.{
  String, true, false, List, [], ◌∷◌, ◌++◌, some, ◌≡◌, refl, ◌⊎◌, ap, subst, arith, ◌==◌, eq_iff,
  All, contains, has, lookup, Bool-cases, inl, inr,
}
use mathlib.Core.List.{Nodup}
use req_flow.Workflow.Model.{CapabilityDefinition, PortDefinition, node_output, node_input}
use req_flow.Workflow.Catalog.Built.{primaries, one_primary}
use req_flow.Workflow.Order.Pairs.{firsts, seconds}
use req_flow.Workflow.Validate.Connections.{connection_key, find_port, Wiring, conflicts}
use req_flow.Workflow.Validate.Resolving.{IsPortOf}

abbrev pub edge_key : String → String → String → String → String
edge_key a p b q = connection_key (record {
  from = record { kind = node_output; node_id = a; port = p };
  to = record { kind = node_input; node_id = b; port = q };
})

-- An edge between nodes comes from a connection between primary ports, whose key was seen.
unfoldable pub IsTraced :
    List (String × CapabilityDefinition) → List String → String × String → Type 0
IsTraced capabilities seen (a, b) =
    (p : String) × (q : String) × IsPortOf (λ d. d.outputs) capabilities a p
    × IsPortOf (λ d. d.inputs) capabilities b q
    × (contains (edge_key a p b q) seen ≡ true)

abbrev pub flip : String × String → String × String
flip (a, b) = (b, a)

abbrev pub flips : List (String × String) → List (String × String)
flips [] = []
flips (e ∷ es) = flip e ∷ flips es

pub record IsWired (capabilities : List (String × CapabilityDefinition)) (w : Wiring) : Type 0 where
  pub one_next : Nodup (firsts w.node_edges)
  pub one_parent : Nodup (seconds w.node_edges)
  pub mirrored : w.node_parents ≡ flips w.node_edges
  pub traced : All (IsTraced capabilities w.seen) w.node_edges

-- Every capability has one primary input and one primary output.
abbrev pub HasOnePrimary : String × CapabilityDefinition → Type 0
HasOnePrimary (id, capability) =
    (primaries capability.inputs ≡ 1) × (primaries capability.outputs ≡ 1)

pub flips-append :
    (es : List (String × String)) (a b : String)
    → flips (es ++ (a, b) ∷ []) ≡ flips es ++ (b, a) ∷ []
flips-append [] a b = refl
flips-append (e ∷ es) a b = ap (◌∷◌ (flip e)) (flips-append es a b)

pub firsts-append :
    (es : List (String × String)) (a b : String) → firsts (es ++ (a, b) ∷ []) ≡ firsts es ++ a ∷ []
firsts-append [] a b = refl
firsts-append (e ∷ es) a b = ap (◌∷◌ e.0) (firsts-append es a b)

pub seconds-append :
    (es : List (String × String)) (a b : String)
    → seconds (es ++ (a, b) ∷ []) ≡ seconds es ++ b ∷ []
seconds-append [] a b = refl
seconds-append (e ∷ es) a b = ap (◌∷◌ e.1) (seconds-append es a b)

pub firsts-flips : (es : List (String × String)) → firsts (flips es) ≡ seconds es
firsts-flips [] = refl
firsts-flips (e ∷ es) = ap (◌∷◌ e.1) (firsts-flips es)

-- A key that the map holds, without a conflict, holds the value.
pub same_value :
    (k v : String) (m : List (String × String))
    → conflicts k v m ≡ false
    → (has k m ≡ false) ⊎ (lookup k m ≡ some v)
same_value k v [] h = inl refl
same_value k v ((j, u) ∷ m) h = elim (Bool-cases (j == k)) [
  | inl same ↦ inr (ground (arith, eq_iff u v))
  | inr other ↦ ground (arith, same_value k v m)
]

pub IsTraced-later :
    (capabilities : List (String × CapabilityDefinition)) (seen : List String) (key : String)
    (es : List (String × String))
    → All (IsTraced capabilities seen) es
    → All (IsTraced capabilities (key ∷ seen)) es
unfolding IsTraced
IsTraced-later capabilities seen key [] h = tt
IsTraced-later capabilities seen key ((a, b) ∷ es) ((p, q, out, into, k), h) =
    ((p, q, out, into, ground arith), IsTraced-later capabilities seen key es h)

pub IsTraced-lookup :
    (capabilities : List (String × CapabilityDefinition)) (seen : List String) (a b : String)
    (es : List (String × String))
    → All (IsTraced capabilities seen) es
    → lookup a es ≡ some b
    → IsTraced capabilities seen (a, b)
IsTraced-lookup capabilities seen a b [] h f = cc
IsTraced-lookup capabilities seen a b ((c, d) ∷ es) h f = elim (Bool-cases (c == a)) [
  | inl same ↦
      let e : d ≡ b = ground arith in
      subst (λ x. IsTraced capabilities seen (a, x)) e
        (subst (λ x. IsTraced capabilities seen (x, d)) ((eq_iff c a).0 same) h.0)
  | inr other ↦ IsTraced-lookup capabilities seen a b es h.1 (ground arith)
]

-- A node has one port on a side that is primary.
pub same_port :
    (side : CapabilityDefinition → List PortDefinition)
    (capabilities : List (String × CapabilityDefinition)) (a p q : String)
    → ((c : CapabilityDefinition) → lookup a capabilities ≡ some c → primaries (side c) ≡ 1)
    → IsPortOf side capabilities a p
    → IsPortOf side capabilities a q
    → p ≡ q
unfolding IsPortOf
same_port side capabilities a p q one (c, port, found, named, role)
      (c', port', found', named', role') =
    let e : c ≡ c' = ground arith in
    let named'' : find_port (side c) q ≡ some port' = rw e named' in
    one_primary (side c) p q {p = port} {q = port'} (one c found) named named'' role role'
