-- ===== src/Workflow/Editor.antt =====
-- internal/app/workflow/draft_editor.go: the commands that edit a draft.
-- A command returns the edited draft, or an error that leaves the draft as it was.
mod Defs
unfoldable pub use Defs.*
pub mod Effects
pub mod Outcome
pub mod Revisions
pub mod Checked
pub mod Splicing
pub mod Naming
pub mod Inserting
pub mod Extending
pub mod Moving
mod Examples
pub mod Appending
