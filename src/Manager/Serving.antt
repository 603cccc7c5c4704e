-- ===== src/Manager/Serving.antt =====
-- Settings that the manager has started, under the calls that come later.
use soyplane.Base.{
  ◌≡◌, ◌≢◌, ◌⊎◌, inl, inr, String, Bool, true, false, Option, none, some, List, [], ◌∷◌, arith, ok,
  err, ap, sym, subst, ◌∙◌, refl, All,
}
use soyplane.Settings.{
  Libraries, Settings, SettingsError, ObjectReference, new_settings, init, load, at_reload,
  failure_event, record_reload_failure, configure_events, on_watch_event,
}
use soyplane.Settings.History.{Call, inits, loads, watch_fires, configures, step, run}
use soyplane.Settings.Reload.{record_reload_failure-events, init_once}
use soyplane.Manager.{event_reference, boot}

module _ (L : Libraries) where
  pub init-quiet :
      (files : L.Files) (given : List String) (watch : Bool) (s : Settings L)
      → s.reports.has_recorder ≡ false
      → (init L files given watch s).1.reports.events ≡ s.reports.events
  unfolding init record_reload_failure
  init-quiet files given true s h = ground arith
  init-quiet files given false s h = ground arith

  pub fresh-quiet :
      (files : L.Files) (given : List String) (watch : Bool)
      → (init L files given watch (new_settings L)).1.reports.events ≡ []
  unfolding new_settings
  fresh-quiet files given watch = init-quiet files given watch (new_settings L) refl

  pub load-reports :
      (files : L.Files) (s : Settings L) {e : SettingsError}
      → (load L files s).0 ≡ err e
      → (load L files s).1.reports ≡ record_reload_failure at_reload e s.reports
  unfolding load
  load-reports files s h = ground arith

  -- Settings in use, with a recorder and this target.
  pub record IsServing (ref : Option ObjectReference) (s : Settings L) : Type 0 where
    pub ready : s.settings_ready ≡ true
    pub recorder : s.reports.has_recorder ≡ true
    pub target : s.reports.event_target ≡ ref

  -- The calls that come after the boot: all but ConfigureEvents, which only the boot makes.
  abbrev pub ComesLater : Call L → Type 0
  ComesLater (inits _ _ _) = Unit
  ComesLater (loads _) = Unit
  ComesLater (watch_fires _ _) = Unit
  ComesLater (configures _ _) = ⊥

  -- A Load, or a change of a file that a watcher saw.
  abbrev pub IsReload : L.Files → Call L → Type 0
  IsReload files c = (c ≡ loads files) ⊎ (c ≡ watch_fires files none)

  -- An Init, or an error of a watcher's own.
  abbrev pub IsQuiet : Call L → Type 0
  IsQuiet (inits _ _ _) = Unit
  IsQuiet (loads _) = ⊥
  IsQuiet (watch_fires _ none) = ⊥
  IsQuiet (watch_fires _ (some _)) = Unit
  IsQuiet (configures _ _) = ⊥

  load-IsServing :
      {ref : Option ObjectReference} (files : L.Files) (s : Settings L)
      → IsServing ref s
      → IsServing ref (load L files s).1
  unfolding load record_reload_failure
  load-IsServing files s serving = record {
    ready = ground (arith, serving.ready);
    recorder = ground (arith, serving.recorder);
    target = ground (arith, serving.target);
  }

  init-ready :
      (files : L.Files) (given : List String) (watch : Bool) (s : Settings L)
      → s.settings_ready ≡ true
      → (init L files given watch s).1 ≡ s
  unfolding init
  init-ready files given true s h = ground arith
  init-ready files given false s h = ground arith

  step-IsServing :
      {ref : Option ObjectReference} (c : Call L) (s : Settings L)
      → ComesLater c
      → IsServing ref s
      → IsServing ref (step L c s)
  unfolding step on_watch_event
  step-IsServing {ref} (inits files given watch) s later serving =
      subst (IsServing ref) (sym (init-ready files given watch s serving.ready)) serving
  step-IsServing (loads files) s later serving = load-IsServing files s serving
  step-IsServing (watch_fires files none) s later serving = load-IsServing files s serving
  step-IsServing (watch_fires files (some _)) s later serving = serving
  step-IsServing (configures recorder ref) s later serving = absurd later

  pub run-IsServing :
      {ref : Option ObjectReference} (cs : List (Call L)) (s : Settings L)
      → All ComesLater cs
      → IsServing ref s
      → IsServing ref (run L cs s)
  unfolding run
  run-IsServing [] s later serving = serving
  run-IsServing (c ∷ cs) s (now, later) serving =
      run-IsServing cs (step L c s) later (step-IsServing c s now serving)

  pub step-quiet :
      (c : Call L) (s : Settings L)
      → IsQuiet c
      → s.settings_ready ≡ true
      → (step L c s).reports ≡ s.reports
  unfolding step on_watch_event
  step-quiet (inits files given watch) s quiet ready =
      ap (λ u. u.reports) (init-ready files given watch s ready)
  step-quiet (loads files) s quiet ready = absurd quiet
  step-quiet (watch_fires files none) s quiet ready = absurd quiet
  step-quiet (watch_fires files (some _)) s quiet ready = refl
  step-quiet (configures recorder ref) s quiet ready = absurd quiet

  pub step-load :
      (files : L.Files) (c : Call L) (s : Settings L)
      → IsReload files c
      → step L c s ≡ (load L files s).1
  unfolding step on_watch_event
  step-load files c s (inl e) = ap (λ d. step L d s) e
  step-load files c s (inr e) = ap (λ d. step L d s) e

  pub load-silent :
      (files : L.Files) (s : Settings L)
      → (load L files s).0 ≡ ok tt
      → (load L files s).1.reports ≡ s.reports
  unfolding load
  load-silent files s fine = ground arith

  pub boot-IsServing :
      (files : L.Files) (given : List String) (watch : Bool) (pod_name pod_namespace : String)
      → let (r, t) = boot L files given watch pod_name pod_namespace (new_settings L) in
        r ≡ ok tt → IsServing (event_reference pod_name pod_namespace) t × (t.reports.events ≡ [])
  unfolding boot configure_events
  boot-IsServing files given watch pod_name pod_namespace fine =
      let s = new_settings L in
      let done' : (init L files given watch s).0 ≡ ok tt = ground arith in
      let same : (boot L files given watch pod_name pod_namespace s).1
          ≡ configure_events L true (event_reference pod_name pod_namespace)
              (init L files given watch s).1 =
        ground arith in
      let started = init_once L files files given [] watch true s done' in
      (
        subst (IsServing (event_reference pod_name pod_namespace)) (sym same)
            (record { ready = started.0; recorder = refl; target = refl }),
        ap (λ u. u.reports.events) same ∙ fresh-quiet files given watch,
      )

  -- A Load that fails, in settings that serve.
  pub failed-load :
      (files : L.Files) (pod_name pod_namespace : String) (s : Settings L) {e : SettingsError}
      → IsServing (event_reference pod_name pod_namespace) s
      → (load L files s).0 ≡ err e
      → let events = (load L files s).1.reports.events in
        (pod_name ≡ "" → events ≡ s.reports.events)
        × (pod_name ≢ ""
            → events
              ≡ failure_event at_reload e (record {
                api_version = "v1";
                kind = "Pod";
                name = pod_name;
                namespace = pod_namespace;
              })
                ∷ s.reports.events)
  unfolding event_reference
  failed-load files pod_name pod_namespace s {e} serving failed =
      let now = ap (λ u. u.events) (load-reports files s failed) in
      let events = record_reload_failure-events at_reload e s.reports in
      (
        λ unset. now ∙ events.2 (serving.target ∙ ground arith),
        λ set. now ∙ events.0 _ serving.recorder (serving.target ∙ ground arith),
      )
