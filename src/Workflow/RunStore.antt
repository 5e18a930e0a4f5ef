-- ===== src/Workflow/RunStore.antt =====
-- internal/infra/repository/workflow_runtime_repo.go: the tables of runs, and the transactions that move them.
-- A transaction is a function from the tables to the tables that it commits, or an error, which leaves them as they were.
mod Defs
unfoldable pub use Defs.*
pub mod Moving
pub mod Committing
pub mod Working
pub mod Completing
pub mod Series
pub mod Fencing
mod Examples
