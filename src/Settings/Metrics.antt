-- ===== src/Settings/Metrics.antt =====
-- internal/settings/metrics.go: each failure is counted by its stage and, where a recorder and
-- a target are configured, reported as a Kubernetes event.
use soyplane.Base.{ℕ, suc, String, ◌<>◌, Bool, true, false, Option, none, some, List, ◌∷◌}
use soyplane.Settings.Schema.{SettingsError, error_text}

-- The three texts that the package passes as `stage`.
pub data Stage : Type 0 where
  at_init at_watch at_reload : Stage

abbrev pub stage_text : Stage → String
stage_text at_init = "init"
stage_text at_watch = "watch"
stage_text at_reload = "reload"

-- `strings.Title(stage)`
abbrev pub stage_title : Stage → String
stage_title at_init = "Init"
stage_title at_watch = "Watch"
stage_title at_reload = "Reload"

-- The counter `soyplane_settings_reload_failures_total`, by its label.
pub record Failures : Type 0 where
  pub init : ℕ
  pub watch : ℕ
  pub reload : ℕ

abbrev pub increment : Stage → Failures → Failures
increment at_init n = record n { init = suc n.init }
increment at_watch n = record n { watch = suc n.watch }
increment at_reload n = record n { reload = suc n.reload }

-- corev1.ObjectReference, as cmd/manager/main.go fills it.
pub record ObjectReference : Type 0 where
  pub api_version : String
  pub kind : String
  pub name : String
  pub namespace : String

-- A call of `Eventf`.
pub record Event : Type 0 where
  pub target : ObjectReference
  pub type : String
  pub reason : String
  pub message : String

-- The recorder (does it exist?), its target, and the events sent so far, newest first.
pub record Reports : Type 0 where
  pub failures : Failures
  pub has_recorder : Bool
  pub event_target : Option ObjectReference
  pub events : List Event

unfoldable pub failure_event : Stage → SettingsError → ObjectReference → Event
failure_event stage e ref = record {
  target = ref;
  type = "Warning";
  reason = "Settings" <> stage_title stage <> "Failed";
  message = "settings " <> stage_text stage <> " failed: " <> error_text e;
}

-- `emitEvent`
unfoldable pub emit_event : Stage → SettingsError → Reports → Reports
emit_event stage e r = elim r.has_recorder [
  | false ↦ r
  | true ↦ elim r.event_target [
    | none ↦ r
    | some ref ↦ record r { events = failure_event stage e ref ∷ r.events }
  ]
]

-- `recordReloadFailure`
unfoldable pub record_reload_failure : Stage → SettingsError → Reports → Reports
unfolding emit_event
record_reload_failure stage e r =
    emit_event stage e (record r { failures = increment stage r.failures })
