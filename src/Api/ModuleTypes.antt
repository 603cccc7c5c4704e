-- ===== src/Api/ModuleTypes.antt =====
-- api/opentofu/v1alpha1/tofumodule_types.go. An `int64` generation is a natural number.
use soyplane.Base.{ℕ, String, Bool, Option, List, GoMap}
use soyplane.Api.Meta.{ObjectMeta, ObjectMetadata, Condition, Json}
use soyplane.Api.ExecutionTypes.{TofuExecutionSpec, ExecutionSummary}

pub record KeyRef : Type 0 where
  pub name : String
  pub key : String

pub record ValueFrom : Type 0 where
  pub secret_ref : Option KeyRef
  pub config_map_ref : Option KeyRef

pub record BackendSpec : Type 0 where
  pub type : String
  pub raw_config : String
  pub config : GoMap Json
  pub value_sources : GoMap ValueFrom

pub record TofuProviderRef : Type 0 where
  pub name : String
  pub alias : String

pub record OutputTarget : Type 0 where
  pub kind : String
  pub name : String
  pub key : String

pub record OutputSpec : Type 0 where
  pub from : String
  pub to : List OutputTarget

pub record ExecutionTemplateSpec : Type 0 where
  pub metadata : ObjectMetadata
  pub spec : TofuExecutionSpec

-- `interval` is a metav1.Duration in its serialised form, such as "30m": no code reads it.
pub record DriftDetectionSpec : Type 0 where
  pub enabled : Bool
  pub interval : String

pub record TofuModuleSpec : Type 0 where
  pub source : String
  pub version : String
  pub workdir : String
  pub backend : BackendSpec
  pub providers : List TofuProviderRef
  pub variables : GoMap Json
  pub value_sources : GoMap ValueFrom
  pub outputs : List OutputSpec
  pub execution_template : ExecutionTemplateSpec
  pub auto_apply : Bool
  pub drift_detection : Option DriftDetectionSpec

pub record TofuModuleStatus : Type 0 where
  pub phase : String
  pub observed_generation : ℕ
  pub last_plan : Option ExecutionSummary
  pub last_apply : Option ExecutionSummary
  pub conditions : List Condition
  pub last_execution_name : String

pub record TofuModule : Type 0 where
  pub meta : ObjectMeta
  pub spec : TofuModuleSpec
  pub status : TofuModuleStatus
