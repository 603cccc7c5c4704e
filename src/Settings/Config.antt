-- ===== src/Settings/Config.antt =====
-- internal/settings/config.go. The package's variables are the record `Settings`; an operation
-- holds the mutex from its first line to its last, so it is one step.
use soyplane.Base.{
  String, Bool, true, false, Option, none, some, List, [], ◌∷◌, map, Result, ok, err, if◌then◌else◌,
}
use soyplane.Settings.Schema.{
  SoyplaneSettings, ExecutionSettings, zero_settings, SettingsError, not_loaded, external,
  Libraries, hydrate_settings,
}
use soyplane.Settings.Metrics.{
  Stage, at_init, at_watch, at_reload, ObjectReference, Reports, record_reload_failure,
}

-- `watched` lists the paths whose watch callbacks are registered, newest first.
pub record Settings (L : Libraries) : Type 0 where
  pub tree : L.Tree
  pub providers : List L.Provider
  pub cached : SoyplaneSettings
  pub settings_ready : Bool
  pub default_config_paths : List String
  pub watched : List String
  pub reports : Reports

abbrev first_path : List String → String
first_path [] = ""
first_path (path ∷ _) = path

abbrev other_paths : List String → List String
other_paths [] = []
other_paths (_ ∷ paths) = paths

module _ (L : Libraries) where
  -- The package's variables before any call.
  unfoldable pub new_settings : Settings L
  new_settings = record {
    tree = L.new_tree;
    providers = [];
    cached = zero_settings;
    settings_ready = false;
    default_config_paths = "config.yaml" ∷ [];
    watched = [];
    reports = record {
      failures = record { init = 0; watch = 0; reload = 0 };
      has_recorder = false;
      event_target = none;
      events = [];
    };
  }

  -- The loop of `loadProviders`.
  unfoldable pub load_each : L.Files → List L.Provider → L.Tree → Result SettingsError L.Tree
  load_each files [] tree = ok tree
  load_each files (prov ∷ provs) tree = elim (L.load files prov tree) [
    | err text ↦ err (external text)
    | ok tree' ↦ load_each files provs tree'
  ]

  abbrev pub with_tree :
      L.Tree
      → Result SettingsError SoyplaneSettings
      → Result SettingsError (L.Tree × SoyplaneSettings)
  with_tree tree (ok cfg) = ok (tree, cfg)
  with_tree tree (err e) = err e

  unfoldable pub load_providers :
      L.Files → List L.Provider → Result SettingsError (L.Tree × SoyplaneSettings)
  unfolding load_each
  load_providers files provs = elim (load_each files provs L.new_tree) [
    | err e ↦ err e
    | ok tree ↦ with_tree tree (hydrate_settings L (some tree))
  ]

  abbrev pub report : Stage → SettingsError → Settings L → Settings L
  report stage e s = record s { reports = record_reload_failure stage e s.reports }

  -- The three assignments that publish a snapshot.
  abbrev pub publish : L.Tree × SoyplaneSettings → Settings L → Settings L
  publish (tree, cfg) s = record s { tree = tree; cached = cfg; settings_ready = true }

  -- `reloadLocked`
  unfoldable pub reload_locked : L.Files → Settings L → Result SettingsError (Unit {0}) × Settings L
  reload_locked files s = elim (load_providers files s.providers) [
    | err e ↦ (err e, report at_reload e s)
    | ok fresh ↦ (ok tt, publish fresh s)
  ]

  -- `Load`
  unfoldable pub load : L.Files → Settings L → Result SettingsError (Unit {0}) × Settings L
  unfolding reload_locked
  load files s = reload_locked files s

  -- `attachWatchers`: the paths watched so far are kept when a later provider fails.
  unfoldable pub attach_watchers :
      L.Files
      → List L.Provider
      → List String
      → List String
      → Result SettingsError (Unit {0}) × List String
  attach_watchers files [] paths watched = (ok tt, watched)
  attach_watchers files (prov ∷ provs) paths watched = elim (L.is_watchable prov) [
    | false ↦ attach_watchers files provs (other_paths paths) watched
    | true ↦ elim (L.watch files prov) [
      | some text ↦ (err (external text), watched)
      | none ↦ attach_watchers files provs (other_paths paths) (first_path paths ∷ watched)
    ]
  ]

  -- The callback that `attachWatchers` registers: `some` is the watcher's own error.
  unfoldable pub on_watch_event : L.Files → Option String → Settings L → Settings L
  unfolding load
  on_watch_event files (some text) s = s
  on_watch_event files none s = (load files s).1

  abbrev pub chosen_paths : List String → Settings L → List String
  chosen_paths [] s = s.default_config_paths
  chosen_paths (path ∷ paths) s = path ∷ paths

  -- `Init` once its providers are loaded.
  unfoldable pub finish_init :
      L.Files
      → List String
      → Bool
      → L.Tree × SoyplaneSettings
      → Settings L
      → Result SettingsError (Unit {0}) × Settings L
  unfolding attach_watchers
  finish_init files paths false fresh s =
      (ok tt, publish fresh (record s { providers = map L.file_provider paths }))
  finish_init files paths true fresh s =
      let provs = map L.file_provider paths in
      let (r, watched) = attach_watchers files provs paths s.watched in
      elim r [
        | err e ↦ (err e, report at_watch e (record s { watched = watched }))
        | ok _ ↦ (ok tt, publish fresh (record s { providers = provs; watched = watched }))
      ]

  -- `Init`
  unfoldable pub init :
      L.Files → List String → Bool → Settings L → Result SettingsError (Unit {0}) × Settings L
  unfolding finish_init
  init files given watch s =
      let paths = chosen_paths given s in
      elim s.settings_ready [
        | true ↦ (ok tt, s)
        | false ↦ elim (load_providers files (map L.file_provider paths)) [
          | err e ↦ (err e, report at_init e s)
          | ok fresh ↦ finish_init files paths watch fresh s
        ]
      ]

  -- `Snapshot`
  unfoldable pub snapshot : Settings L → Result SettingsError SoyplaneSettings
  snapshot s = if s.settings_ready then ok s.cached else err not_loaded

  -- `Execution`
  unfoldable pub execution : Settings L → Result SettingsError ExecutionSettings
  unfolding snapshot
  execution s = elim (snapshot s) [ err e ↦ err e | ok snap ↦ ok snap.execution ]

  -- `ConfigureEvents`
  unfoldable pub configure_events : Bool → Option ObjectReference → Settings L → Settings L
  configure_events recorder ref s = record s {
    reports = record s.reports { has_recorder = recorder; event_target = ref };
  }
