-- ===== src/Workflow/Editor/Defs/Commands.antt =====
-- internal/app/workflow/service.go: `apply`, behind the decoding of a command's payload.
use req_flow.Prelude.{String, Result}
use req_flow.Json.{RawMessage}
use req_flow.Workflow.Model.{
  WorkflowDraft, WorkflowPort, EndpointKind, DataContract, ExtractionSpec, SearchSpec,
  OutputContract, AcceptanceCase,
}
use req_flow.Workflow.Editor.Defs.Ports.{Editor, EditError}
use req_flow.Workflow.Editor.Defs.Nodes.{
  CreateFromBlankCommand, create_from_blank, InsertBetweenCommand, insert_between,
  remove_and_bridge,
}
use req_flow.Workflow.Editor.Defs.Ends.{
  AppendAfterCommand, append_after, PrependBeforeCommand, prepend_before,
}
use req_flow.Workflow.Editor.Defs.Settings.{
  ReplaceNodeCommand, replace_node, set_node_config, BindSideInputCommand, bind_side_input,
  set_workflow_port, set_data_contract, set_extraction_spec, set_search_spec, set_output_contract,
  ConfirmDecisionCommand, confirm_decision, upsert_acceptance_case,
}

pub data EditCommand : Type 0 where
  creating : CreateFromBlankCommand → EditCommand
  inserting : InsertBetweenCommand → EditCommand
  removing : String → EditCommand
  appending : AppendAfterCommand → EditCommand
  prepending : PrependBeforeCommand → EditCommand
  replacing : ReplaceNodeCommand → EditCommand
  configuring : String → RawMessage → EditCommand
  binding : BindSideInputCommand → EditCommand
  porting : EndpointKind → WorkflowPort → EditCommand
  contracting : DataContract → EditCommand
  extracting : ExtractionSpec → EditCommand
  searching : SearchSpec → EditCommand
  outputting : OutputContract → EditCommand
  confirming : ConfirmDecisionCommand → EditCommand
  testing : AcceptanceCase → EditCommand

unfoldable pub edit : Editor → WorkflowDraft → EditCommand → Result EditError WorkflowDraft
edit e draft (creating command) = create_from_blank e draft command
edit e draft (inserting command) = insert_between e draft command
edit e draft (removing id) = remove_and_bridge e draft id
edit e draft (appending command) = append_after e draft command
edit e draft (prepending command) = prepend_before e draft command
edit e draft (replacing command) = replace_node e draft command
edit e draft (configuring id config) = set_node_config e draft id config
edit e draft (binding command) = bind_side_input e draft command
edit e draft (porting direction port) = set_workflow_port e draft direction port
edit e draft (contracting contract) = set_data_contract e draft contract
edit e draft (extracting spec) = set_extraction_spec e draft spec
edit e draft (searching spec) = set_search_spec e draft spec
edit e draft (outputting contract) = set_output_contract e draft contract
edit e draft (confirming command) = confirm_decision e draft command
edit e draft (testing test) = upsert_acceptance_case e draft test
