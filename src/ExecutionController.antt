-- ===== src/ExecutionController.antt =====
-- internal/controller/opentofu/tofuexecution_controller.go
mod Status
mod Construct
mod Reconcile
pub mod Phases
pub mod Sync
pub mod Stale
pub mod Jobs
pub mod Cycle
pub mod Calls
pub mod Handover
pub mod Effect
unfoldable pub use Status.*
unfoldable pub use Construct.*
unfoldable pub use Reconcile.*
