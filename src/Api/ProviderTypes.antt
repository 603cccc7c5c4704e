-- ===== src/Api/ProviderTypes.antt =====
-- api/opentofu/v1alpha1/tofuprovider_types.go. No controller reconciles providers yet.
use soyplane.Base.{String, Option, GoMap}
use soyplane.Api.Meta.{ObjectMeta, Json}

pub record SecretKeyRef : Type 0 where
  pub name : String
  pub key : String

pub record ConfigMapKeyRef : Type 0 where
  pub name : String
  pub key : String

pub record ValueSource : Type 0 where
  pub secret_ref : Option SecretKeyRef
  pub config_map_ref : Option ConfigMapKeyRef

pub record TofuProviderSpec : Type 0 where
  pub type : String
  pub value_sources : GoMap ValueSource
  pub raw_config : String
  pub config : GoMap Json

-- The source's status has no field.
abbrev pub TofuProviderStatus : Type 0
TofuProviderStatus = Unit

pub record TofuProvider : Type 0 where
  pub meta : ObjectMeta
  pub spec : TofuProviderSpec
  pub status : TofuProviderStatus
