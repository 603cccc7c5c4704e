-- ===== src/Api/JobTypes.antt =====
-- The fields of batchv1.Job that constructJobFromExecution fills and Reconcile reads
-- (internal/controller/opentofu/tofuexecution_controller.go).
use soyplane.Base.{ℕ, String, Bool, Option, List, GoMap}
use soyplane.Api.Meta.{Time, ObjectMeta}
use soyplane.Api.ExecutionTypes.{EnvVar, EnvFromSource}

pub record Container : Type 0 where
  pub name : String
  pub image : String
  pub command : List String
  pub env : List EnvVar
  pub env_from : List EnvFromSource

pub record PodSpec : Type 0 where
  pub restart_policy : String
  pub service_account_name : String
  pub containers : List Container

pub record PodTemplateSpec : Type 0 where
  pub labels : GoMap String
  pub annotations : GoMap String
  pub spec : PodSpec

-- Of the two pointers the code asks only whether they are nil. The counts are of pods.
pub record JobStatus : Type 0 where
  pub active : ℕ
  pub succeeded : ℕ
  pub failed : ℕ
  pub terminating : Option ℕ
  pub has_uncounted_terminated_pods : Bool
  pub start_time : Option Time
  pub completion_time : Option Time

pub record Job : Type 0 where
  pub meta : ObjectMeta
  pub template : PodTemplateSpec
  pub status : JobStatus
