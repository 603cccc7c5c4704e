-- ===== src/Api/StackTypes.antt =====
-- api/opentofu/v1alpha1/tofustack_types.go
use soyplane.Base.{ℕ, String, Bool, Option, List}
use soyplane.Api.Meta.{ObjectMeta, ObjectRef, Condition}
use soyplane.Api.ExecutionTypes.{ExecutionSummary}
use soyplane.Api.ModuleTypes.{ExecutionTemplateSpec, DriftDetectionSpec}

pub record TofuStackSpec : Type 0 where
  pub module_ref : ObjectRef
  pub execution_template : ExecutionTemplateSpec
  pub auto_apply : Bool
  pub drift_detection : Option DriftDetectionSpec

pub record TofuStackStatus : Type 0 where
  pub phase : String
  pub observed_generation : ℕ
  pub last_plan : Option ExecutionSummary
  pub last_apply : Option ExecutionSummary
  pub conditions : List Condition
  pub last_execution_name : String

pub record TofuStack : Type 0 where
  pub meta : ObjectMeta
  pub spec : TofuStackSpec
  pub status : TofuStackStatus
