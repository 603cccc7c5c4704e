-- ===== src/Api.antt =====
-- The resources of the API group opentofu.soyplane.io/v1alpha1 (api/opentofu/v1alpha1), and the
-- parts of a Kubernetes object and of a batch Job that the controllers read or write.
mod Meta
mod ExecutionTypes
mod ModuleTypes
mod StackTypes
mod ProviderTypes
mod JobTypes
pub use Meta.*
pub use ExecutionTypes.*
pub use ModuleTypes.*
pub use StackTypes.*
pub use ProviderTypes.*
pub use JobTypes.*
