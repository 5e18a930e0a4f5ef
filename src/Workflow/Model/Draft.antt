-- ===== src/Workflow/Model/Draft.antt =====
-- internal/domain/workflow/model.go: drafts and published revisions.
use req_flow.Prelude.{ℕ, String, Bool, List}
use req_flow.Prelude.Int.{ℤ}
use req_flow.Json.{RawMessage}
use req_flow.Workflow.Model.Capability.{
  WorkflowPort, WorkflowNode, Connection, CapabilityDefinition,
}
use req_flow.Workflow.Model.Rules.{RuleBundle}

pub record AcceptanceCase : Type 0 where
  pub id : String
  pub name : String
  pub input : RawMessage
  pub expectation : RawMessage
  pub last_passed : Bool
  pub last_passed_revision : ℤ
  pub last_preview_id : String
  pub last_run_at : ℕ

pub record WorkflowDraft : Type 0 where
  pub id : String
  pub workspace_id : String
  pub key : String
  pub name : String
  pub description : String
  pub revision : ℤ
  pub inputs : List WorkflowPort
  pub outputs : List WorkflowPort
  pub nodes : List WorkflowNode
  pub connections : List Connection
  pub rules : RuleBundle
  pub acceptance_cases : List AcceptanceCase
  pub created_at : ℕ
  pub updated_at : ℕ

pub record ResolvedNode : Type 0 where
  pub id : String
  pub name : String
  pub capability : CapabilityDefinition
  pub config : RawMessage

pub record WorkflowRevision : Type 0 where
  pub id : String
  pub workflow_id : String
  pub revision_no : ℤ
  pub workspace_id : String
  pub key : String
  pub name : String
  pub description : String
  pub inputs : List WorkflowPort
  pub outputs : List WorkflowPort
  pub nodes : List ResolvedNode
  pub connections : List Connection
  pub rules : RuleBundle
  pub acceptance_cases : List AcceptanceCase
  pub content_hash : String
  pub published_by : String
  pub published_at : ℕ
