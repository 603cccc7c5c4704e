-- ===== src/Settings/History.antt =====
-- The package over any sequence of its calls: what a snapshot can be.
use soyplane.Base.{
  ◌≡◌, String, Bool, true, false, Option, none, some, List, [], ◌∷◌, map, arith, Result, ok, err,
}
use soyplane.Settings.{
  SoyplaneSettings, SettingsError, valid, Libraries, hydrate_settings, Settings, new_settings,
  load_providers, load, init, on_watch_event, snapshot, configure_events, chosen_paths,
  ObjectReference,
}

module _ (L : Libraries) where
  -- A call into the package, with the files as they are at that moment.
  pub data Call : Type 0 where
    inits : L.Files → List String → Bool → Call
    loads : L.Files → Call
    watch_fires : L.Files → Option String → Call
    configures : Bool → Option ObjectReference → Call

  unfoldable pub step : Call → Settings L → Settings L
  step (inits files given watch) s = (init L files given watch s).1
  step (loads files) s = (load L files s).1
  step (watch_fires files e) s = on_watch_event L files e s
  step (configures recorder ref) s = configure_events L recorder ref s

  unfoldable pub run : List Call → Settings L → Settings L
  unfolding step
  run [] s = s
  run (c ∷ cs) s = run cs (step c s)

  -- Settings that are ready were hydrated from the tree that is active.
  pub record IsHydrated (s : Settings L) : Type 0 where
    pub hydrated : s.settings_ready ≡ true → hydrate_settings L (some s.tree) ≡ ok s.cached

  -- What `loadProviders` returns is a tree with the settings that it hydrates to.
  abbrev Agrees : Result SettingsError (L.Tree × SoyplaneSettings) → Type 0
  Agrees (ok (tree, cfg)) = hydrate_settings L (some tree) ≡ ok cfg
  Agrees (err _) = Unit

  load_providers-Agrees :
      (files : L.Files) (provs : List L.Provider) → Agrees (load_providers L files provs)
  unfolding load_providers
  load_providers-Agrees files provs = ground arith

  load-IsHydrated :
      (files : L.Files) (s : Settings L) → IsHydrated s → IsHydrated (load L files s).1
  unfolding load
  load-IsHydrated files s v = ground (arith, load_providers-Agrees files s.providers)

  init-IsHydrated :
      (files : L.Files) (given : List String) (watch : Bool) (s : Settings L)
      → IsHydrated s
      → IsHydrated (init L files given watch s).1
  unfolding init
  init-IsHydrated files given true s v =
      ground (arith, load_providers-Agrees files (map L.file_provider (chosen_paths L given s)))
  init-IsHydrated files given false s v =
      ground (arith, load_providers-Agrees files (map L.file_provider (chosen_paths L given s)))

  step-IsHydrated : (c : Call) (s : Settings L) → IsHydrated s → IsHydrated (step c s)
  unfolding step on_watch_event configure_events
  step-IsHydrated (inits files given watch) s v = init-IsHydrated files given watch s v
  step-IsHydrated (loads files) s v = load-IsHydrated files s v
  step-IsHydrated (watch_fires files none) s v = load-IsHydrated files s v
  step-IsHydrated (watch_fires files (some _)) s v = v
  step-IsHydrated (configures recorder ref) s v = record { hydrated = v.hydrated }

  run-IsHydrated : (cs : List Call) (s : Settings L) → IsHydrated s → IsHydrated (run cs s)
  unfolding run
  run-IsHydrated [] s v = v
  run-IsHydrated (c ∷ cs) s v = run-IsHydrated cs (step c s) (step-IsHydrated c s v)

  hydrate_settings-valid :
      (tree : L.Tree) {cfg : SoyplaneSettings}
      → hydrate_settings L (some tree) ≡ ok cfg
      → L.validate cfg ≡ valid
  unfolding hydrate_settings
  hydrate_settings-valid tree h = ground arith

  -- After any sequence of calls of the package on files that may change in between, a snapshot
  -- that is returned has passed validation, and is what the active tree hydrates to: no failed or
  -- half-done reload is ever visible.
  pub snapshot_validated :
      (cs : List Call) {cfg : SoyplaneSettings}
      → snapshot L (run cs (new_settings L)) ≡ ok cfg
      → (L.validate cfg ≡ valid)
        × (hydrate_settings L (some (run cs (new_settings L)).tree) ≡ ok cfg)
  unfolding snapshot new_settings
  snapshot_validated cs {cfg} h =
      let v : IsHydrated (run cs (new_settings L)) =
        run-IsHydrated cs (new_settings L) (record { hydrated = λ r. cc }) in
      let e : hydrate_settings L (some (run cs (new_settings L)).tree) ≡ ok cfg = ground arith in
      (hydrate_settings-valid _ e, e)
