-- ===== src/Tests/Configuration.antt =====
-- The settings package over files in memory.
use text.Mathlib.TextEquality.{eq_iff}
use soyplane.Base.{
  ◌≡◌, ◌≢◌, refl, true, false, none, some, [], ◌∷◌, map, inr, ok, err, arith, text_dec,
}
use soyplane.Settings.{
  chosen_paths, not_loaded, external, valid, hydrate_settings, at_init, at_reload, increment,
  ObjectReference, Reports, failure_event, Settings, new_settings, load_providers, load, init,
  snapshot, execution, on_watch_event, configure_events,
}
use soyplane.Settings.Reload.{IsUntouched, load_failed, init_stage, init_failed}
use soyplane.Settings.History.{inits, loads, watch_fires, step, run, snapshot_validated}
use soyplane.Settings.Start.{execution_image, NoneStarts, unstarted_then_init}
use soyplane.Manager.{boot}
use soyplane.Manager.Order.{boot_reports_only_reloads}
use soyplane.Tests.Files.{libraries, libraries_are_lawful, good, gone, defaulted}

abbrev blank : Settings libraries
blank = new_settings libraries

abbrev started : Settings libraries
started = (init libraries good [] true blank).1

abbrev pod : ObjectReference
pod = record { api_version = "v1"; kind = "Pod"; name = "manager"; namespace = "soyplane-system" }

reload_fails : (load libraries gone started).0 ≡ err (external "no such file")
unfolding init load new_settings text_dec load_providers hydrate_settings
reload_fails = refl

load_failed_example :
    let t = (load libraries gone started).1 in
    IsUntouched libraries started t
    × (t.reports.failures ≡ increment at_reload started.reports.failures)
load_failed_example = load_failed libraries gone started reload_fails

init_fails : (init libraries gone [] true blank).0 ≡ err (external "no such file")
unfolding init new_settings text_dec load_providers hydrate_settings
init_fails = refl

init_failed_example :
    let t = (init libraries gone [] true blank).1 in
    IsUntouched libraries blank t
    × (t.reports.failures ≡ increment (init_stage libraries gone [] blank) blank.reports.failures)
    × (init_stage libraries gone [] blank ≡ at_init → t.watched ≡ blank.watched)
init_failed_example = init_failed libraries gone [] true blank init_fails

snapshot_is_defaulted :
    snapshot libraries (run libraries (inits good [] true ∷ watch_fires gone none ∷ []) blank)
    ≡ ok defaulted
unfolding snapshot run on_watch_event init new_settings text_dec load_providers hydrate_settings
snapshot_is_defaulted = refl

snapshot_validated_example :
    (libraries.validate defaulted ≡ valid)
    × (hydrate_settings libraries
          (some (run libraries (inits good [] true ∷ watch_fires gone none ∷ []) blank).tree)
        ≡ ok defaulted)
snapshot_validated_example =
    snapshot_validated libraries (inits good [] true ∷ watch_fires gone none ∷ [])
      snapshot_is_defaulted

execution_image_example :
    (execution libraries (run libraries (inits good [] true ∷ watch_fires gone none ∷ []) blank)
      ≡ ok defaulted.execution)
    × (defaulted.execution.default_image ≢ "")
    × (defaulted.test ≡ true)
execution_image_example =
    execution_image libraries libraries_are_lawful (inits good [] true ∷ watch_fires gone none ∷ [])
      snapshot_is_defaulted

none_starts : NoneStarts libraries libraries_are_lawful (inits gone [] true ∷ loads good ∷ []) blank
unfolding init new_settings text_dec load_providers hydrate_settings
none_starts = (λ h. ground (arith, init_fails), tt)

good_loads :
    load_providers libraries good (map libraries.file_provider (chosen_paths libraries [] blank))
    ≡ ok (record { execution = record { default_image = "" }; test = true }, defaulted)
unfolding load_providers hydrate_settings new_settings text_dec
good_loads = refl

unstarted_then_init_example :
    let s = run libraries (inits gone [] true ∷ loads good ∷ []) blank in
    let (r, t) = init libraries good [] false s in
    (execution libraries s ≡ err not_loaded)
    × (r ≡ ok tt)
    × (execution libraries t ≡ ok defaulted.execution)
unstarted_then_init_example =
    unstarted_then_init libraries libraries_are_lawful (inits gone [] true ∷ loads good ∷ []) good
      [] none_starts good_loads

abbrev watched_reports : Reports
watched_reports = record {
  failures = record { init = 0; watch = 0; reload = 0 };
  has_recorder = true;
  event_target = some pod;
  events = [];
}

abbrev booted : Settings libraries
booted = (boot libraries good [] true "manager" "soyplane-system" blank).1

boot_goes_well : (boot libraries good [] true "manager" "soyplane-system" blank).0 ≡ ok tt
unfolding boot init new_settings text_dec load_providers hydrate_settings
boot_goes_well = refl

reload_fails_later :
    (load libraries gone (run libraries (loads good ∷ []) booted)).0 ≡ err (external "no such file")
unfolding boot init load run new_settings text_dec load_providers hydrate_settings configure_events
reload_fails_later = refl

boot_reports_only_reloads_example :
    let u = run libraries (loads good ∷ []) booted in
    let v = step libraries (watch_fires gone none) u in
    v.reports.events ≡ failure_event at_reload (external "no such file") pod ∷ u.reports.events
boot_reports_only_reloads_example =
    (((((boot_reports_only_reloads libraries good [] true "manager" "soyplane-system").1
              boot_goes_well).1
            (loads good ∷ []) (watch_fires gone none) (tt, tt)).1
          gone (inr refl)).1
        (external "no such file") reload_fails_later).2
      (ground (arith, eq_iff "manager" ""))
