-- ===== src/Settings.antt =====
-- internal/settings: the configuration snapshot, its reloads, and the reports of failures.
mod Schema
mod Metrics
mod Config
pub mod Reload
pub mod Start
pub mod History
unfoldable pub use Schema.*
unfoldable pub use Metrics.*
unfoldable pub use Config.*
