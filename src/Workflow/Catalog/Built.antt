-- ===== src/Workflow/Catalog/Built.antt =====
-- internal/domain/workflow/catalog.go: what `NewStaticCatalog` guarantees of the capabilities that `Lookup` finds.
use req_flow.Prelude.{
  All, subst, ℕ, ◌+◌, String, Bool, true, false, not, ◌||◌, List, [], ◌∷◌, Option, some, ◌≡◌, refl,
  arith, eq_iff, ◌==◌, eqb, find, has, lookup, insert, if◌then◌else◌, Bool-cases, inl, inr, ok,
  ◌>>=◌, ◌>>◌, refuse_if, >>=-eq-ok,
}
use req_flow.Json.{RawMessage}
use req_flow.Workflow.Model.{CapabilityRef, CapabilityDefinition, PortDefinition}
use req_flow.Workflow.Catalog.Defs.{
  primary_count, capability_duplicate, capability_key, is_primary_role, check_inputs, check_outputs,
  check_ports, validate_capability, register, new_static_catalog, lookup_capability,
}

abbrev pub primaries : List PortDefinition → ℕ
primaries [] = 0
primaries (port ∷ ports) =
    if is_primary_role port.role then primaries ports + 1 else primaries ports

abbrev pub find_named : List PortDefinition → String → Option PortDefinition
find_named ports name = find (λ port. port.name == name) ports

check_inputs-primaries :
    (ports : List PortDefinition) (seen : List String) (count : ℕ) {total : ℕ}
    → check_inputs ports seen count ≡ ok total
    → total ≡ count + primaries ports
unfolding check_inputs
check_inputs-primaries [] seen count h = ground arith
check_inputs-primaries (port ∷ ports) seen count {total} h =
    let later =
      check_inputs-primaries ports (port.name ∷ seen)
        (if is_primary_role port.role then count + 1 else count) {total = total} in
    ground (arith, later)

check_outputs-primaries :
    (ports : List PortDefinition) (seen : List String) (count : ℕ) {total : ℕ}
    → check_outputs ports seen count ≡ ok total
    → total ≡ count + primaries ports
unfolding check_outputs
check_outputs-primaries [] seen count h = ground arith
check_outputs-primaries (port ∷ ports) seen count {total} h =
    let later =
      check_outputs-primaries ports (port.name ∷ seen)
        (if is_primary_role port.role then count + 1 else count) {total = total} in
    ground (arith, later)

check_ports-primaries :
    (definition : CapabilityDefinition)
    → check_ports definition ≡ ok tt
    → (primaries definition.inputs ≡ 1) × (primaries definition.outputs ≡ 1)
unfolding check_ports
check_ports-primaries definition h =
    let (inputs, e, h1) =
      >>=-eq-ok (check_inputs definition.inputs [] 0)
        (λ inputs. check_outputs definition.outputs [] 0 >>= λ outputs.
          refuse_if (not (eqb inputs 1) || not (eqb outputs 1)) primary_count)
        h in
    let (outputs, e', h2) =
      >>=-eq-ok (check_outputs definition.outputs [] 0)
        (λ outputs. refuse_if (not (eqb inputs 1) || not (eqb outputs 1)) primary_count) h1 in
    ground (
      arith,
      check_inputs-primaries definition.inputs [] 0 e,
      check_outputs-primaries definition.outputs [] 0 e',
    )

no_primary :
    (ports : List PortDefinition) (name : String) {port : PortDefinition}
    → primaries ports ≡ 0
    → find_named ports name ≡ some port
    → is_primary_role port.role ≡ false
no_primary [] name h f = cc
no_primary (p ∷ ports) name {port} h f = ground (arith, no_primary ports name {port = port})

find_named-name :
    (ports : List PortDefinition) (name : String) {port : PortDefinition}
    → find_named ports name ≡ some port
    → port.name ≡ name
find_named-name [] name f = cc
find_named-name (p ∷ ports) name {port} f =
    ground (arith, eq_iff p.name name, find_named-name ports name {port = port})

-- Where there is one primary port, two names that lead to a primary port are the same name.
pub one_primary :
    (ports : List PortDefinition) (m n : String) {p q : PortDefinition}
    → primaries ports ≡ 1
    → find_named ports m ≡ some p
    → find_named ports n ≡ some q
    → is_primary_role p.role ≡ true
    → is_primary_role q.role ≡ true
    → m ≡ n
one_primary [] m n h f g a b = cc
one_primary (r ∷ ports) m n {p} {q} h f g a b = ground (
  arith,
  eq_iff r.name m,
  eq_iff r.name n,
  one_primary ports m n {p = p} {q = q},
  no_primary ports m {port = p},
  no_primary ports n {port = q},
)

All-insert :
    {V : Type 0} (P : String × V → Type 0) (k : String) (v : V) (m : List (String × V))
    → All P m
    → P (k, v)
    → All P (insert k v m)
All-insert P k v [] h p = (p, tt)
All-insert P k v ((j, w) ∷ m) h p = elim (Bool-cases (j == k)) [
  | inl same ↦ rw same (p, h.1)
  | inr other ↦ rw other (h.0, All-insert P k v m h.1 p)
]

All-lookup :
    {V : Type 0} (P : String × V → Type 0) (k : String) (m : List (String × V)) {v : V}
    → All P m
    → lookup k m ≡ some v
    → P (k, v)
All-lookup P k [] h f = cc
All-lookup P k ((j, w) ∷ m) {v} h f = elim (Bool-cases (j == k)) as (λ x. P (k, v)) [
  | inl same ↦
      let e : w ≡ v = ground arith in
      subst (λ x. P (k, x)) e (subst (λ x. P (x, w)) ((eq_iff j k).0 same) h.0)
  | inr other ↦ All-lookup P k m h.1 (ground arith)
]

module _ (valid_schema : RawMessage → Bool)
    (valid_config : CapabilityDefinition → RawMessage → Bool)
    (decodes_object : RawMessage → Bool) where
  -- An entry of the catalog: under the key of its reference, a capability that the validation accepts.
  abbrev pub IsRegistered : String × CapabilityDefinition → Type 0
  IsRegistered (key, definition) =
      (key ≡ capability_key definition.ref)
      × (validate_capability valid_schema valid_config decodes_object definition ≡ ok tt)

  register-IsRegistered :
      (definitions : List CapabilityDefinition) (catalog : List (String × CapabilityDefinition))
      {built : List (String × CapabilityDefinition)}
      → All IsRegistered catalog
      → register valid_schema valid_config decodes_object definitions catalog ≡ ok built
      → All IsRegistered built
  unfolding register
  register-IsRegistered [] catalog w h = ground arith
  register-IsRegistered (definition ∷ rest) catalog {built} w h =
      let key = capability_key definition.ref in
      let (u, valid, h1) =
        >>=-eq-ok (validate_capability valid_schema valid_config decodes_object definition)
          (λ u.
            refuse_if (has key catalog) (capability_duplicate key)
            >> register valid_schema valid_config decodes_object rest
                (insert key definition catalog))
          h in
      register-IsRegistered rest (insert key definition catalog) {built = built}
        (All-insert IsRegistered key definition catalog w (refl, valid)) (ground arith)

  ports-of-capability :
      (definition : CapabilityDefinition)
      → validate_capability valid_schema valid_config decodes_object definition ≡ ok tt
      → check_ports definition ≡ ok tt
  unfolding validate_capability
  ports-of-capability definition h = ground arith

  -- A capability that `Lookup` finds in a catalog that `NewStaticCatalog` built was accepted by the validation, stands
  -- under the key of the reference that was looked up, takes its own default configuration, and has exactly one primary
  -- input and one primary output.
  pub lookup_capability-valid :
      (definitions : List CapabilityDefinition) (catalog : List (String × CapabilityDefinition))
      (ref : CapabilityRef) (definition : CapabilityDefinition)
      → new_static_catalog valid_schema valid_config decodes_object definitions ≡ ok catalog
      → lookup_capability catalog ref ≡ some definition
      → (capability_key ref ≡ capability_key definition.ref)
        × (validate_capability valid_schema valid_config decodes_object definition ≡ ok tt)
        × (valid_config definition definition.default_config ≡ true)
        × (primaries definition.inputs ≡ 1)
        × (primaries definition.outputs ≡ 1)
  unfolding new_static_catalog lookup_capability
  lookup_capability-valid definitions catalog ref definition h f =
      let (key, valid) =
        All-lookup IsRegistered (capability_key ref) catalog
          (register-IsRegistered definitions [] {built = catalog} tt h) f in
      let accepted : valid_config definition definition.default_config ≡ true =
        unfold validate_capability in ground arith in
      let (inputs, outputs) =
        check_ports-primaries definition (ports-of-capability definition valid) in
      (key, valid, accepted, inputs, outputs)
