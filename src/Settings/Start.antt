-- ===== src/Settings/Start.antt =====
-- What the `required` tags of schema.go give, and what holds until an `Init` succeeds.
use soyplane.Base.{
  ◌≡◌, ◌≢◌, refl, String, Bool, true, false, none, some, List, [], ◌∷◌, map, arith, ok, err,
  Result-cases, inl, inr,
}
use soyplane.Settings.{
  SoyplaneSettings, zero_settings, SettingsError, not_loaded, valid, Libraries, hydrate_settings,
  Settings, new_settings, chosen_paths, load_providers, load, reload_locked, init, on_watch_event,
  execution, configure_events, ExecutionSettings, snapshot,
}
use soyplane.Settings.History.{
  Call, inits, loads, watch_fires, configures, step, run, snapshot_validated,
}

-- Documented behaviour of the libraries: `required` refuses the zero value of a field, a new
-- tree holds no value, and go-defaults sets only fields that have a `default` tag, which `Test`
-- has not.
pub record AreLawful (L : Libraries) : Type 0 where
  pub required_test : (cfg : SoyplaneSettings) → L.validate cfg ≡ valid → cfg.test ≡ true
  pub required_image :
      (cfg : SoyplaneSettings) → L.validate cfg ≡ valid → cfg.execution.default_image ≢ ""
  pub unmarshal_empty : L.unmarshal L.new_tree zero_settings ≡ ok zero_settings
  pub defaults_test : (cfg : SoyplaneSettings) → (L.set_defaults cfg).test ≡ cfg.test

module _ (L : Libraries) (laws : AreLawful L) where
  -- If, after any calls of the package, a snapshot is returned, the execution settings are those
  -- of the snapshot and name an image, and `test` is true. Assumed of the validator: it refuses
  -- the zero value of a required field.
  pub execution_image :
      (cs : List (Call L)) {cfg : SoyplaneSettings}
      → snapshot L (run L cs (new_settings L)) ≡ ok cfg
      → (execution L (run L cs (new_settings L)) ≡ ok cfg.execution)
        × (cfg.execution.default_image ≢ "")
        × (cfg.test ≡ true)
  unfolding execution
  execution_image cs {cfg} h =
      let (v, _) = snapshot_validated L cs h in
      (ground arith, laws.required_image cfg v, laws.required_test cfg v)

  -- Nothing has been published, no providers are configured, and the default paths are those the
  -- package starts with.
  record IsUnstarted (s : Settings L) : Type 0 where
    not_ready : s.settings_ready ≡ false
    no_providers : s.providers ≡ []
    default_paths : s.default_config_paths ≡ (new_settings L).default_config_paths

  empty_refused : (files : L.Files) → (e : SettingsError) × (load_providers L files [] ≡ err e)
  unfolding load_providers hydrate_settings
  empty_refused files = elim (Result-cases (load_providers L files [])) [
    | inr found ↦ found
    | inl (fresh, loaded) ↦ absurd (
        ground (
          arith,
          laws.unmarshal_empty,
          laws.defaults_test zero_settings,
          laws.required_test (L.set_defaults zero_settings),
        ))
  ]

  load-IsUnstarted :
      (files : L.Files) (s : Settings L) → IsUnstarted s → IsUnstarted (load L files s).1
  unfolding load
  load-IsUnstarted files s u = ground (arith, empty_refused files)

  -- Each `Init` among the calls, made when its turn comes, returns an error.
  abbrev pub NoneStarts : List (Call L) → Settings L → Type 0
  NoneStarts [] s = Unit
  NoneStarts (inits files given watch ∷ cs) s =
      ((init L files given watch s).0 ≢ ok tt) × NoneStarts cs (step L (inits files given watch) s)
  NoneStarts (loads files ∷ cs) s = NoneStarts cs (step L (loads files) s)
  NoneStarts (watch_fires files e ∷ cs) s = NoneStarts cs (step L (watch_fires files e) s)
  NoneStarts (configures recorder ref ∷ cs) s = NoneStarts cs (step L (configures recorder ref) s)

  init-IsUnstarted :
      (files : L.Files) (given : List String) (watch : Bool) (s : Settings L)
      → IsUnstarted s
      → (init L files given watch s).0 ≢ ok tt
      → IsUnstarted (init L files given watch s).1
  unfolding init
  init-IsUnstarted files given true s u h = ground arith
  init-IsUnstarted files given false s u h = ground arith

  run-IsUnstarted :
      (cs : List (Call L)) (s : Settings L)
      → NoneStarts cs s
      → IsUnstarted s
      → IsUnstarted (run L cs s)
  unfolding run on_watch_event configure_events
  run-IsUnstarted [] s n u = u
  run-IsUnstarted (inits files given watch ∷ cs) s (h, n) u =
      run-IsUnstarted cs _ n (init-IsUnstarted files given watch s u h)
  run-IsUnstarted (loads files ∷ cs) s n u =
      run-IsUnstarted cs (step L (loads files) s) n (load-IsUnstarted files s u)
  run-IsUnstarted (watch_fires files none ∷ cs) s n u =
      run-IsUnstarted cs (step L (watch_fires files none) s) n (load-IsUnstarted files s u)
  run-IsUnstarted (watch_fires files (some e) ∷ cs) s n u =
      run-IsUnstarted cs (step L (watch_fires files (some e)) s) n u
  run-IsUnstarted (configures recorder ref ∷ cs) s n u =
      run-IsUnstarted cs (step L (configures recorder ref) s) n (record {
        not_ready = u.not_ready;
        no_providers = u.no_providers;
        default_paths = u.default_paths;
      })

  -- While every `Init` so far has failed, the execution settings are refused as not loaded,
  -- whatever forced loads, watch events and other calls came in between; and the next `Init`
  -- whose files load, asked for no watch, succeeds and publishes what they hold. Assumed of the
  -- libraries: an empty tree holds no value, `test` has no default, and the validator refuses the
  -- zero value of a required field.
  same_paths :
      (given : List String) (s : Settings L)
      → IsUnstarted s
      → chosen_paths L given s ≡ chosen_paths L given (new_settings L)
  same_paths [] s u = u.default_paths
  same_paths (path ∷ paths) s u = refl

  -- While every `Init` so far has failed, the execution settings are refused as not loaded,
  -- whatever forced loads, watch events and other calls came in between; and the next `Init`
  -- whose files load, be they named or, with none named, the default one, succeeds when it is
  -- asked for no watch and publishes what they hold. Assumed of the libraries: an empty tree
  -- holds no value, `test` has no default, and the validator refuses the zero value of a required
  -- field.
  pub unstarted_then_init :
      (cs : List (Call L)) (files : L.Files) (given : List String)
      {fresh : L.Tree × SoyplaneSettings}
      → NoneStarts cs (new_settings L)
      → load_providers L files (map L.file_provider (chosen_paths L given (new_settings L)))
        ≡ ok fresh
      → let s = run L cs (new_settings L) in
        let (r, t) = init L files given false s in
        (execution L s ≡ err not_loaded) × (r ≡ ok tt) × (execution L t ≡ ok fresh.1.execution)
  unfolding init execution
  unstarted_then_init cs files given n loaded =
      let u = run-IsUnstarted cs (new_settings L) n (
        unfold new_settings in
        record { not_ready = refl; no_providers = refl; default_paths = refl }) in
      ground (arith, same_paths given (run L cs (new_settings L)) u)

  -- No call takes the settings back.
  pub run-ready :
      (cs : List (Call L)) (s : Settings L)
      → s.settings_ready ≡ true
      → (run L cs s).settings_ready ≡ true
  unfolding run step init load reload_locked on_watch_event configure_events
  run-ready [] s r = r
  run-ready (inits files given true ∷ cs) s r = run-ready cs _ (ground arith)
  run-ready (inits files given false ∷ cs) s r = run-ready cs _ (ground arith)
  run-ready (loads files ∷ cs) s r = run-ready cs (load L files s).1 (ground arith)
  run-ready (watch_fires files none ∷ cs) s r = run-ready cs (load L files s).1 (ground arith)
  run-ready (watch_fires files (some e) ∷ cs) s r = run-ready cs s r
  run-ready (configures recorder ref ∷ cs) s r = run-ready cs (configure_events L recorder ref s) r

  -- After an `Init` that succeeded, among any calls, the execution settings are there and name an
  -- image.
  pub ready-execution :
      (cs : List (Call L))
      → (run L cs (new_settings L)).settings_ready ≡ true
      → (cfg : ExecutionSettings) × (execution L (run L cs (new_settings L)) ≡ ok cfg)
        × (cfg.default_image ≢ "")
  unfolding snapshot
  ready-execution cs r =
      let s = run L cs (new_settings L) in
      let (e, image, _) = execution_image cs {cfg = s.cached} (ground arith) in
      (s.cached.execution, e, image)
