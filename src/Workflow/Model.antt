-- ===== src/Workflow/Model.antt =====
-- internal/domain/workflow/model.go: the data of a workflow, in three parts.
mod Capability
mod Rules
mod Draft
pub use Capability.*
pub use Rules.*
pub use Draft.*
use req_flow.Prelude.{ℕ, String}

-- A `time.Time`, in nanoseconds; 0 is the zero time, which `IsZero` tells.
abbrev pub Time : Type 0
Time = ℕ
