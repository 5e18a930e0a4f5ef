-- ===== src/Workflow/Session.antt =====
-- internal/domain/workflow/design_session.go: a design session, in which a person or an agent edits a draft.
-- A method that changes the session returns the new session, or an error that leaves it as it was. The receiver
-- is never nil here. The messages of errors are left out.
mod Defs
mod Proposals
unfoldable pub use Defs.*
pub mod Invariant
pub mod Lifecycle
mod Examples
