-- ===== src/Workflow/RunStore/Defs.antt =====
-- internal/infra/repository/workflow_runtime_repo.go, in the parts that follow.
mod Rows
mod Requests
mod Claims
mod Workers
mod Steps
unfoldable pub use Rows.*
unfoldable pub use Requests.*
unfoldable pub use Claims.*
unfoldable pub use Workers.*
unfoldable pub use Steps.*
