-- ===== src/StackController.antt =====
-- internal/controller/opentofu/tofustack_controller.go
mod Reconcile
pub mod Marker
pub mod Template
pub mod Runs
pub mod Repeat
pub mod Rest
pub mod Errors
pub mod Progress
pub mod Refine
pub mod Effect
unfoldable pub use Reconcile.*
