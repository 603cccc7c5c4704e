-- ===== src/Manager/Ready.antt =====
-- In which order the manager starts, and what holds once it has.
use soyplane.Base.{
  Action, ◌>>◌, pure, ◌≡◌, refl, sym, ap, ◌∙◌, String, Option, none, some, List, [], ◌∷◌, ◌++◌,
  arith, ok, Option-cases, inl, inr, then-ok, then-next, subst,
}
use soyplane.Settings.{Libraries, Settings}
use soyplane.Manager.{boot}
use soyplane.Manager.Flags.{Flags}
use soyplane.Manager.Main.{
  CertWatcher, Call, new_cert_watcher, new_manager, setup_with_manager, add_runnable,
  add_healthz_check, add_readyz_check, start_manager, Platform, Exit, manager_options,
  webhook_cert_watcher, metrics_cert_watcher, Process, call, start_settings, main,
}

-- One thing that the program does as it starts: a call with the message for its failure, or the
-- start of the settings.
pub data BootStep : Type 0 where
  calls : Call → String → BootStep
  starts_settings : BootStep

abbrev of_watcher : (CertWatcher → Call) → Option CertWatcher → String → List BootStep
of_watcher f none message = []
of_watcher f (some watcher) message = calls (f watcher) message ∷ []

abbrev pub start_step : BootStep
start_step = calls start_manager "problem running manager"

module _ (P : Platform) where
  -- The order of docs: certificates, manager, settings, the three controllers, the certificate
  -- watchers, the health checks, and last the start.
  abbrev pub boot_steps : Flags → List BootStep
  boot_steps f =
      of_watcher new_cert_watcher (webhook_cert_watcher P f)
        "Failed to initialize webhook certificate watcher"
      ++ (of_watcher new_cert_watcher (metrics_cert_watcher P f)
            "to initialize metrics certificate watcher"
          ++ (calls (new_manager (manager_options P f)) "unable to start manager"
              ∷ starts_settings
              ∷ calls (setup_with_manager "TofuExecution") "unable to create controller"
              ∷ calls (setup_with_manager "TofuStack") "unable to create controller"
              ∷ calls (setup_with_manager "TofuModule") "unable to create controller"
              ∷ (of_watcher add_runnable (metrics_cert_watcher P f)
                    "unable to add metrics certificate watcher to manager"
                  ++ (of_watcher add_runnable (webhook_cert_watcher P f)
                        "unable to add webhook certificate watcher to manager"
                      ++ (calls add_healthz_check "unable to set up health check"
                          ∷ calls add_readyz_check "unable to set up ready check"
                          ∷ [])))))

  module _ (L : Libraries) (files : L.Files) (f : Flags) (pod_name pod_namespace : String) where
    abbrev run_step : BootStep → Action (Process P L) Exit (Unit {0})
    run_step (calls c message) = call P L c message
    run_step starts_settings = start_settings P L files f pod_name pod_namespace

    -- One step after the other, up to the first that fails.
    abbrev pub run_steps : List BootStep → Action (Process P L) Exit (Unit {0})
    run_steps [] = pure tt
    run_steps (one ∷ more) = run_step one >> run_steps more

    -- `main` is these steps.
    pub main_runs_steps :
        (p : Process P L)
        → main P L files f pod_name pod_namespace p
          ≡ run_steps (boot_steps f ++ (start_step ∷ [])) p
    unfolding main
    main_runs_steps p = elim (Option-cases (webhook_cert_watcher P f)) [
      | inl w ↦ elim (Option-cases (metrics_cert_watcher P f)) [
        | inl m ↦ rw (w, m) refl
        | inr (_, m) ↦ rw (w, m) refl
      ]
      | inr (_, w) ↦ elim (Option-cases (metrics_cert_watcher P f)) [
        | inl m ↦ rw (w, m) refl
        | inr (_, m) ↦ rw (w, m) refl
      ]
    ]

    -- Steps that succeed leave the rest to be done.
    pub run_steps-append :
        (steps rest : List BootStep) (p : Process P L)
        → (run_steps steps p).0 ≡ ok tt
        → run_steps (steps ++ rest) p ≡ run_steps rest (run_steps steps p).1
    run_steps-append [] rest p h = refl
    run_steps-append (one ∷ more) rest p h =
        let ((_, fine), same) = then-ok (run_step one) (run_steps more) p h in
        let next = (run_step one p).1 in
        then-next (run_step one) (run_steps (more ++ rest)) p fine
        ∙ run_steps-append more rest next (ap (λ r. r.0) (sym same) ∙ h)
        ∙ ap (λ r. run_steps rest r.1) (sym same)

    -- What the steps do to the settings, and that they start them.
    abbrev pub settings_after : List BootStep → Settings L → Settings L
    settings_after [] s = s
    settings_after (calls c message ∷ more) s = settings_after more s
    settings_after (starts_settings ∷ more) s =
        settings_after more (boot L files f.config_files f.watch_config pod_name pod_namespace s).1

    abbrev pub SettingsStart : List BootStep → Settings L → Type 0
    SettingsStart [] s = Unit
    SettingsStart (calls c message ∷ more) s = SettingsStart more s
    SettingsStart (starts_settings ∷ more) s =
        ((boot L files f.config_files f.watch_config pod_name pod_namespace s).0 ≡ ok tt)
        × SettingsStart more (boot L files f.config_files f.watch_config pod_name pod_namespace s).1

    pub run_steps-settings :
        (steps : List BootStep) (p : Process P L)
        → (run_steps steps p).0 ≡ ok tt
        → ((run_steps steps p).1.settings ≡ settings_after steps p.settings)
          × SettingsStart steps p.settings
    unfolding call start_settings
    run_steps-settings [] p h = (refl, tt)
    run_steps-settings (calls c message ∷ more) p h =
        let (_, same) = then-ok (call P L c message) (run_steps more) p h in
        let kept : (call P L c message p).1.settings ≡ p.settings = ground arith in
        let rest =
          run_steps-settings more (call P L c message p).1 (sym (ap (λ r. r.0) same) ∙ h) in
        (
          ap (λ r. r.1.settings) same ∙ rest.0 ∙ ap (settings_after more) kept,
          subst (SettingsStart more) kept rest.1,
        )
    run_steps-settings (starts_settings ∷ more) p h =
        let ((_, fine), same) =
          then-ok (start_settings P L files f pod_name pod_namespace) (run_steps more) p h in
        let next = (start_settings P L files f pod_name pod_namespace p).1 in
        let booted = boot L files f.config_files f.watch_config pod_name pod_namespace p.settings in
        let started : booted.0 ≡ ok tt = ground arith in
        let kept : next.settings ≡ booted.1 = ground arith in
        let rest = run_steps-settings more next (sym (ap (λ r. r.0) same) ∙ h) in
        (
          ap (λ r. r.1.settings) same ∙ rest.0 ∙ ap (settings_after more) kept,
          (started, subst (SettingsStart more) kept rest.1),
        )
