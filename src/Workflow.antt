-- ===== src/Workflow.antt =====
-- internal/domain/workflow: drafts, revisions, capabilities, design sessions and runs.
pub mod Model
pub mod Catalog
pub mod Order
pub mod Validate
pub mod Session
pub mod Run
pub mod RunStore
pub mod Revision
pub mod Editor
pub mod Contracts
