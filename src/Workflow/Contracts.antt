-- ===== src/Workflow/Contracts.antt =====
-- internal/domain/workflow/contracts.go: the JSON Schema that a field contract is compiled to.
mod Defs
unfoldable pub use Defs.*
pub mod Compilable
pub mod Compiled
pub mod Validated
pub mod Examples
