-- ===== src/Workflow/Revision.antt =====
-- internal/domain/workflow/revision.go: `BuildRevision`, which makes a published revision of a draft.
mod Defs
unfoldable pub use Defs.*
pub mod Resolved
pub mod Written
pub mod Built
pub mod Existing
pub mod Examples
