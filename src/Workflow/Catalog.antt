-- ===== src/Workflow/Catalog.antt =====
-- internal/domain/workflow/catalog.go: the catalog of capabilities that the nodes of a draft refer to.
-- The copies that `cloneCapability` makes are the values themselves here.
mod Defs
unfoldable pub use Defs.*
pub mod Built
pub mod Listed
