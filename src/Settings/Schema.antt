-- ===== src/Settings/Schema.antt =====
-- internal/settings/schema.go. The libraries that it calls (koanf, go-defaults, validator) are
-- the record `Libraries`.
use soyplane.Base.{String, ◌<>◌, Bool, false, Option, none, some, List, [], ◌∷◌, Result, ok, err}

pub record ExecutionSettings : Type 0 where
  pub default_image : String

pub record SoyplaneSettings : Type 0 where
  pub execution : ExecutionSettings
  pub test : Bool

-- `SoyplaneSettings{}`
abbrev pub zero_settings : SoyplaneSettings
zero_settings = record { execution = record { default_image = "" }; test = false }

-- What validator.FieldError tells of one field.
pub record FieldError : Type 0 where
  pub struct_namespace : String
  pub tag : String
  pub value : String

pub record ConfigError : Type 0 where
  pub field : String
  pub tag : String
  pub value : String

-- The errors that the package returns; `external` is one that a library made.
pub data SettingsError : Type 0 where
  not_loaded : SettingsError
  config_error : ConfigError → SettingsError
  external : String → SettingsError

-- `ConfigError.Error`
unfoldable pub config_error_text : ConfigError → String
config_error_text e = "settings validation failed for " <> e.field <> " (tag: " <> e.tag <> ")"

abbrev pub error_text : SettingsError → String
error_text not_loaded = "settings not loaded"
error_text (config_error e) = config_error_text e
error_text (external text) = text

-- What `validate.Struct` returns: nil, a `ValidationErrors`, or another error.
pub data Validation : Type 0 where
  valid : Validation
  invalid : List FieldError → Validation
  broken : String → Validation

-- koanf, go-defaults and validator. `load` reads a provider's file, as it is among `Files` at
-- that moment, into a tree; `watch` registers a callback, or says why it cannot.
pub record Libraries : Type 1 where
  pub Tree : Type 0
  pub Provider : Type 0
  pub Files : Type 0
  pub new_tree : Tree
  pub file_provider : String → Provider
  pub load : Files → Provider → Tree → Result String Tree
  pub unmarshal : Tree → SoyplaneSettings → Result String SoyplaneSettings
  pub set_defaults : SoyplaneSettings → SoyplaneSettings
  pub validate : SoyplaneSettings → Validation
  pub is_watchable : Provider → Bool
  pub watch : Files → Provider → Option String

-- The error for a refused configuration: its first field error, if there is one.
abbrev pub refusal : List FieldError → SettingsError
refusal [] = external ""
refusal (first ∷ _) =
    config_error (record { field = first.struct_namespace; tag = first.tag; value = first.value })

module _ (L : Libraries) where
  -- The part of `hydrateSettings` behind `Unmarshal`.
  unfoldable pub check_settings : SoyplaneSettings → Result SettingsError SoyplaneSettings
  check_settings cfg = elim (L.validate cfg) [
    | valid ↦ ok cfg
    | invalid errors ↦ err (refusal errors)
    | broken text ↦ err (external text)
  ]

  -- `hydrateSettings`; `none` is a nil tree.
  unfoldable pub hydrate_settings : Option L.Tree → Result SettingsError SoyplaneSettings
  unfolding check_settings
  hydrate_settings none = check_settings (L.set_defaults zero_settings)
  hydrate_settings (some tree) = elim (L.unmarshal tree zero_settings) [
    | err text ↦ err (external text)
    | ok cfg ↦ check_settings (L.set_defaults cfg)
  ]
