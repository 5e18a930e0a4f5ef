-- ===== src/Workflow/Run.antt =====
-- internal/domain/workflow/runtime.go: a run of a published revision, and the runs of its nodes.
-- A method returns the new run, or an error that leaves it as it was. The receiver is never nil here.
mod Defs
unfoldable pub use Defs.*
pub mod Lifecycle
mod Examples
