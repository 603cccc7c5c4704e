-- ===== src/ModuleController.antt =====
-- internal/controller/opentofu/tofumodule_controller.go
mod Reconcile
pub mod Marker
pub mod Template
pub mod Runs
pub mod Repeat
pub mod Rest
pub mod Errors
pub mod Progress
pub mod Refine
pub mod Stale
pub mod Effect
unfoldable pub use Reconcile.*
