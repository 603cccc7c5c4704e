-- ===== src/Cluster.antt =====
-- The Kubernetes client of the reconcilers: what internal/controller/opentofu calls of
-- controller-runtime and apimachinery. None of it is code of the repository, so all of it is a
-- parameter: an unknown state (the API server's objects, and the cache that reads are served
-- from) with the operations on it. What a theorem assumes of them is in `Laws`.
pub mod Laws
pub mod Interference
pub mod Memory
use soyplane.Base.{String, Bool, Option, List, Result}
use soyplane.Api.{ObjectMeta, NamespacedName, TofuModule, TofuStack, TofuExecution, Job}
use soyplane.Settings.{SettingsError}

-- An error of the API, by its reason and message, or the error that constructJobFromExecution
-- wraps as "invalid settings: %w".
pub data Error : Type 0 where
  api : String → String → Error
  invalid_settings : SettingsError → Error

-- `ctrl.Result`: `RequeueAfter` is in seconds.
pub data Requeue : Type 0 where
  done : Requeue
  requeue_now : Requeue
  requeue_after_5s : Requeue

pub record Cluster : Type 1 where
  pub State : Type 0
  -- client.Get
  pub get_module : NamespacedName → State → Result Error TofuModule
  pub get_stack : NamespacedName → State → Result Error TofuStack
  pub get_execution : NamespacedName → State → Result Error TofuExecution
  -- client.List with client.InNamespace
  pub list_executions : String → State → Result Error (List TofuExecution)
  pub list_jobs : String → State → Result Error (List Job)
  -- client.Create; the result is the object as the server stored it
  pub create_execution : TofuExecution → State → Result Error TofuExecution × State
  pub create_job : Job → State → Result Error Job × State
  -- client.Delete
  pub delete_job : Job → State → Result Error (Unit {0}) × State
  -- client.Status().Update
  pub update_module_status : TofuModule → State → Result Error (Unit {0}) × State
  pub update_stack_status : TofuStack → State → Result Error (Unit {0}) × State
  pub update_execution_status : TofuExecution → State → Result Error (Unit {0}) × State
  -- errors.IsNotFound, errors.IsConflict and client.IgnoreNotFound, where `none` is nil
  pub is_not_found : Error → Bool
  pub is_conflict : Error → Bool
  pub ignore_not_found : Error → Option Error
  -- metav1.IsControlledBy of an object and its owner
  pub is_controlled_by : ObjectMeta → ObjectMeta → Bool
  -- ctrl.SetControllerReference of an owner, the kind that the scheme has for it, and an object
  pub set_controller_reference : ObjectMeta → String → ObjectMeta → Result Error ObjectMeta
