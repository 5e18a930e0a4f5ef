-- ===== src/Workflow/Order.antt =====
-- internal/domain/workflow/revision.go, `LinearOrder`: the order in which the nodes of a draft run.
mod Defs
unfoldable pub use Defs.*
pub mod Pairs
pub mod Loops
pub mod Progress
pub mod Sound
pub mod Complete
pub mod Ends
mod Examples
