-- ===== src/Manager.antt =====
-- cmd/manager/main.go: how the manager starts the settings and their failure reports.
pub mod Flags
pub mod Configs
pub mod Serving
pub mod Order
pub mod Main
pub mod Ready
pub mod Started
use soyplane.Base.{
  String, Bool, true, Option, none, some, List, Result, ok, err, if◌then◌else◌, ◌==◌,
  string_comparable,
}
use soyplane.Settings.{Libraries, Settings, SettingsError, ObjectReference, init, configure_events}

-- `eventRef`, from the variables POD_NAME and POD_NAMESPACE.
unfoldable pub event_reference : String → String → Option ObjectReference
event_reference pod_name pod_namespace =
    if pod_name == ""
    then none
    else some
        (record { api_version = "v1"; kind = "Pod"; name = pod_name; namespace = pod_namespace })

module _ (L : Libraries) where
  -- `settings.Init`, then `settings.ConfigureEvents` with the manager's recorder. An error is
  -- logged, and the program ends with status 1.
  unfoldable pub boot :
      L.Files
      → List String
      → Bool
      → String
      → String
      → Settings L
      → Result SettingsError (Unit {0}) × Settings L
  unfolding event_reference
  boot files given watch pod_name pod_namespace s =
      let (r, t) = init L files given watch s in
      elim r [
        | err e ↦ (err e, t)
        | ok _ ↦ (ok tt, configure_events L true (event_reference pod_name pod_namespace) t)
      ]
