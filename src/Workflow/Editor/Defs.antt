-- ===== src/Workflow/Editor/Defs.antt =====
-- internal/app/workflow/draft_editor.go, in the parts that follow.
mod Ports
mod Nodes
mod Ends
mod Settings
mod Commands
unfoldable pub use Ports.*
unfoldable pub use Nodes.*
unfoldable pub use Ends.*
unfoldable pub use Settings.*
unfoldable pub use Commands.*
