-- ===== src/Manager/Started.antt =====
-- A manager whose steps before its start have all succeeded has settings from then on.
use soyplane.Base.{
  ◌>>◌, pure, ◌≡◌, ◌≢◌, refl, sym, ap, ◌∙◌, String, Bool, true, List, [], ◌∷◌, arith, ok,
  Option-cases, Result-cases, inl, inr, subst,
}
use soyplane.Settings.{
  Libraries, Settings, ExecutionSettings, new_settings, execution, init, configure_events,
}
use soyplane.Settings.History.{Call as SettingsCall, inits, configures, step, run}
use soyplane.Settings.Start.{AreLawful, run-ready, ready-execution}
use soyplane.Settings.Reload.{init_once}
use soyplane.Manager.{boot, event_reference}
use soyplane.Manager.Flags.{Flags}
use soyplane.Manager.Main.{
  call, start_manager, Platform, webhook_cert_watcher, metrics_cert_watcher, Process, main,
}
use soyplane.Manager.Ready.{
  boot_steps, start_step, run_steps, main_runs_steps, run_steps-append, run_steps-settings,
  settings_after, SettingsStart,
}

module _ (P : Platform) (L : Libraries) (files : L.Files) (f : Flags)
    (pod_name pod_namespace : String) where
  -- Among the steps, the settings are started once.
  boot_steps-settings :
      (s : Settings L)
      → (settings_after P L files f pod_name pod_namespace (boot_steps P f) s
          ≡ (boot L files f.config_files f.watch_config pod_name pod_namespace s).1)
        × (SettingsStart P L files f pod_name pod_namespace (boot_steps P f) s
            → (boot L files f.config_files f.watch_config pod_name pod_namespace s).0 ≡ ok tt)
  boot_steps-settings s = elim (Option-cases (webhook_cert_watcher P f)) [
    | inl w ↦ elim (Option-cases (metrics_cert_watcher P f)) [
      | inl m ↦ rw (w, m) (refl, λ h. h.0)
      | inr (_, m) ↦ rw (w, m) (refl, λ h. h.0)
    ]
    | inr (_, w) ↦ elim (Option-cases (metrics_cert_watcher P f)) [
      | inl m ↦ rw (w, m) (refl, λ h. h.0)
      | inr (_, m) ↦ rw (w, m) (refl, λ h. h.0)
    ]
  ]

  -- A start of the settings that succeeds is an `Init` that succeeds and a `ConfigureEvents`.
  boot-run :
      (given : List String) (watch : Bool) (s : Settings L)
      → (boot L files given watch pod_name pod_namespace s).0 ≡ ok tt
      → ((init L files given watch s).0 ≡ ok tt)
        × ((boot L files given watch pod_name pod_namespace s).1
            ≡ run L
                (inits files given watch
                  ∷ configures true (event_reference pod_name pod_namespace)
                  ∷ [])
                s)
  unfolding boot run step
  boot-run given watch s h = elim (Result-cases (init L files given watch s).0) [
    | inr (e, failed) ↦ absurd (ground arith)
    | inl (tt, fine) ↦ (fine, ground arith)
  ]

  settings_are_started :
      (laws : AreLawful L) (p : Process P L) (cs : List (SettingsCall L))
      → p.settings ≡ new_settings L
      → (run_steps P L files f pod_name pod_namespace (boot_steps P f) p).0 ≡ ok tt
      → let t = (run_steps P L files f pod_name pod_namespace (boot_steps P f) p).1.settings in
        (cfg : ExecutionSettings) × (execution L (run L cs t) ≡ ok cfg) × (cfg.default_image ≢ "")
  unfolding run step configure_events
  settings_are_started laws p cs new h =
      let s0 = new_settings L in
      let (same, starts) =
        run_steps-settings P L files f pod_name pod_namespace (boot_steps P f) p h in
      let (is_boot, once) = boot_steps-settings s0 in
      let (init_fine, boot_is) = boot-run f.config_files f.watch_config s0 (
        once
          (subst (SettingsStart P L files f pod_name pod_namespace (boot_steps P f)) new starts)) in
      let ready = init_once L files files f.config_files [] f.watch_config true s0 init_fine in
      let calls =
        inits files f.config_files f.watch_config
        ∷ configures true (event_reference pod_name pod_namespace)
        ∷ cs in
      let settled =
        same
        ∙ ap (settings_after P L files f pod_name pod_namespace (boot_steps P f)) new
        ∙ is_boot
        ∙ boot_is in
      let found = ready-execution L laws calls (run-ready L laws cs _ ready.0) in
      subst
        (λ t.
          (cfg : ExecutionSettings) × (execution L (run L cs t) ≡ ok cfg)
          × (cfg.default_image ≢ ""))
        (sym settled) found

  -- In a process that began with the settings package's initial variables, if all the steps of
  -- `main` before the start of the manager succeed (the certificate watchers, the manager, the
  -- settings, the three controllers and the checks), then `main` is the start of the manager from
  -- there, and the settings are there: whatever calls of the settings package follow, on whatever
  -- files, `Execution` returns settings with an image. Assumed of the validator: it refuses the
  -- zero value of a required field.
  pub started_manager_has_settings :
      (laws : AreLawful L) (p : Process P L) (cs : List (SettingsCall L))
      → p.settings ≡ new_settings L
      → (run_steps P L files f pod_name pod_namespace (boot_steps P f) p).0 ≡ ok tt
      → let t = (run_steps P L files f pod_name pod_namespace (boot_steps P f) p).1 in
        (main P L files f pod_name pod_namespace p
          ≡ (call P L start_manager "problem running manager" >> pure tt) t)
        × ((cfg : ExecutionSettings) × (execution L (run L cs t.settings) ≡ ok cfg)
            × (cfg.default_image ≢ ""))
  started_manager_has_settings laws p cs new fine = (
    main_runs_steps P L files f pod_name pod_namespace p
        ∙ run_steps-append P L files f pod_name pod_namespace (boot_steps P f) (start_step ∷ []) p
            fine,
    settings_are_started laws p cs new fine,
  )
