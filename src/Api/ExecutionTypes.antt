-- ===== src/Api/ExecutionTypes.antt =====
-- api/opentofu/v1alpha1/tofuexecution_types.go
use soyplane.Base.{String, Option, List}
use soyplane.Api.Meta.{Time, ObjectMeta, ObjectMetadata, ObjectRef, Condition}

-- corev1.EnvVar and corev1.EnvFromSource are handed on unread: their serialised forms.
abbrev pub EnvVar : Type 0
EnvVar = String

abbrev pub EnvFromSource : Type 0
EnvFromSource = String

pub record JobTemplateSpec : Type 0 where
  pub metadata : ObjectMetadata
  pub env : List EnvVar
  pub env_from : List EnvFromSource
  pub service_account_name : String

pub record EngineSpec : Type 0 where
  pub name : String
  pub version : String

pub record TofuExecutionSpec : Type 0 where
  pub action : String
  pub module_ref : ObjectRef
  pub job_template : JobTemplateSpec
  pub engine : EngineSpec

pub record ExecutionSummary : Type 0 where
  pub revision : String
  pub started_at : Option Time
  pub finished_at : Option Time
  pub summary : String
  pub triggered_by : String
  pub job_name : String

pub record TofuExecutionStatus : Type 0 where
  pub execution_summary : ExecutionSummary
  pub phase : String
  pub conditions : List Condition

pub record TofuExecution : Type 0 where
  pub meta : ObjectMeta
  pub spec : TofuExecutionSpec
  pub status : TofuExecutionStatus
