-- ===== src/Workflow/Validate/Index.antt =====
-- internal/domain/workflow/validate.go: `validateIdentity`, `indexDefinition` and the port checks.
use req_flow.Prelude.{
  ℕ, suc, String, Bool, not, ◌&&◌, ◌||◌, List, [], ◌∷◌, ◌++◌, Option, none, some, ◌⧺◌,
  valid_identifier, element_path, insert, has, is_empty, if◌then◌else◌,
}
use req_flow.Prelude.Int.{pos, ltb_ℤ}
use req_flow.Json.{RawMessage}
use req_flow.Workflow.Model.{
  error, CapabilityRef, CapabilityDefinition, WorkflowPort, WorkflowNode, WorkflowDraft,
}
use req_flow.Workflow.Validate.Issues.{
  ValidationMode, ValidationIssue, is_publish, is_known_mode, required_severity, add_if, fault,
  is_empty_trimmed,
}

-- A `CapabilityCatalog`, by its one method; `none` is a nil catalog.
abbrev pub Catalog : Type 0
Catalog = Option (CapabilityRef → Option CapabilityDefinition)

unfoldable pub validate_identity : WorkflowDraft → ValidationMode → List ValidationIssue
validate_identity draft mode =
    add_if (not (is_known_mode mode)) "validation_mode_invalid" "" error
    ++ (if is_publish mode
        then add_if (not (valid_identifier draft.key)) "workflow_key_invalid" "key" error
          ++ (add_if (is_empty_trimmed draft.name) "workflow_name_required" "name" error
              ++ add_if (is_empty_trimmed draft.workspace_id) "workspace_required" "workspace_id"
                  error)
        else [])
    ++ add_if (ltb_ℤ draft.revision (pos 0)) "draft_revision_invalid" "revision" error

-- `validateWorkflowPort`: whether it returns nil.
unfoldable pub valid_workflow_port : WorkflowPort → Bool
valid_workflow_port port =
    valid_identifier port.name
    && not (is_empty_trimmed port.label || is_empty_trimmed port.resource_type)

-- The loops over the inputs and the outputs; `kind` is "workflow_input" or "workflow_output".
pub record IndexedPorts : Type 0 where
  pub ports : List (String × WorkflowPort)
  pub issues : List ValidationIssue

unfoldable pub index_ports :
    String → String → ℕ → List WorkflowPort → List (String × WorkflowPort) → IndexedPorts
index_ports kind base i [] seen = record { ports = seen; issues = [] }
index_ports kind base i (port ∷ ports) seen =
    let path = element_path base i in
    let rest = index_ports kind base (suc i) ports (insert port.name port seen) in
    record rest {
      issues =
          add_if (not (valid_workflow_port port)) (kind ⧺ "_invalid") path error
          ++ (add_if (has port.name seen) (kind ⧺ "_duplicate") (path ⧺ ".name") error
              ++ rest.issues);
    }

-- What the loop over the nodes fills.
pub record IndexedNodes : Type 0 where
  pub nodes : List (String × WorkflowNode)
  pub capabilities : List (String × CapabilityDefinition)
  pub issues : List ValidationIssue

-- Whether `ValidateCapabilityConfig` accepts the configuration of a node of a capability.
module _ (valid_config : CapabilityDefinition → RawMessage → Bool) where
  -- The capability that a node gets, and the issues of looking it up.
  unfoldable pub resolve_capability :
      Catalog → String → WorkflowNode → Option CapabilityDefinition × List ValidationIssue
  resolve_capability none path node =
      (none, fault "capability_catalog_missing" (path ⧺ ".capability") ∷ [])
  resolve_capability (some find_capability) path node = elim (find_capability node.capability) [
    | none ↦ (none, fault "capability_not_found" (path ⧺ ".capability") ∷ [])
    | some capability ↦ (
      some capability,
      add_if (not (valid_config capability node.config)) "node_config_invalid" (path ⧺ ".config")
          error,
    )
  ]

  abbrev pub insert_some :
      String
      → Option CapabilityDefinition
      → List (String × CapabilityDefinition)
      → List (String × CapabilityDefinition)
  insert_some id none capabilities = capabilities
  insert_some id (some capability) capabilities = insert id capability capabilities

  abbrev pub node_issues :
      ValidationMode → String → WorkflowNode → List (String × WorkflowNode) → List ValidationIssue
  node_issues mode path node nodes =
      add_if (not (valid_identifier node.id)) "node_id_invalid" (path ⧺ ".id") error
      ++ (add_if (is_empty_trimmed node.name) "node_name_required" (path ⧺ ".name")
            (required_severity mode)
          ++ add_if (has node.id nodes) "node_id_duplicate" (path ⧺ ".id") error)

  unfoldable pub index_nodes :
      ValidationMode
      → Catalog
      → ℕ
      → List WorkflowNode
      → List (String × WorkflowNode)
      → List (String × CapabilityDefinition)
      → IndexedNodes
  unfolding resolve_capability
  index_nodes mode catalog i [] nodes capabilities = record {
    nodes = nodes;
    capabilities = capabilities;
    issues = [];
  }
  index_nodes mode catalog i (node ∷ rest) nodes capabilities =
      let path = element_path "nodes" i in
      let (found, lookup_issues) = resolve_capability catalog path node in
      let later =
        index_nodes mode catalog (suc i) rest (insert node.id node nodes)
          (insert_some node.id found capabilities) in
      record later { issues = node_issues mode path node nodes ++ (lookup_issues ++ later.issues) }

-- What `indexDefinition` leaves for the later checks.
pub record Index : Type 0 where
  pub nodes : List (String × WorkflowNode)
  pub capabilities : List (String × CapabilityDefinition)
  pub inputs : List (String × WorkflowPort)
  pub outputs : List (String × WorkflowPort)
  pub issues : List ValidationIssue

unfoldable pub index_definition :
    (CapabilityDefinition → RawMessage → Bool) → WorkflowDraft → Catalog → ValidationMode → Index
unfolding index_ports index_nodes
index_definition valid_config draft catalog mode =
    let inputs = index_ports "workflow_input" "inputs" 0 draft.inputs [] in
    let outputs = index_ports "workflow_output" "outputs" 0 draft.outputs [] in
    let nodes = index_nodes valid_config mode catalog 0 draft.nodes [] [] in
    record {
      nodes = nodes.nodes;
      capabilities = nodes.capabilities;
      inputs = inputs.ports;
      outputs = outputs.ports;
      issues =
          inputs.issues
          ++ (outputs.issues
              ++ (nodes.issues
                  ++ add_if (is_empty draft.nodes && is_publish mode) "workflow_nodes_required"
                      "nodes" error));
    }
