-- ===== src/Workflow/Validate.antt =====
-- internal/domain/workflow/validate.go: the checks of a draft before a preview or a publication.
-- A method of `draftValidator` is a function of what it reads to the issues that it adds, in order. The text of an
-- issue's message is left out; no code reads it.
pub mod Issues
pub mod Index
pub mod Connections
pub mod Topology
pub mod Fields
pub mod Rules
pub mod Decisions
pub mod Sorting
pub mod Publishable
pub mod Publication
pub mod Resolving
pub mod Tracing
pub mod Wired
pub mod Walking
pub mod Indexing
pub mod Chain
pub mod Ordered
pub mod Examples
