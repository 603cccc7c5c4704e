-- ===== src/Manager/Order.antt =====
-- The manager calls `settings.Init` before `settings.ConfigureEvents`.
use soyplane.Base.{◌≡◌, ◌≢◌, String, Bool, List, [], ◌∷◌, arith, ok, err, ap, ◌∙◌, All}
use soyplane.Settings.{
  Libraries, SettingsError, new_settings, init, load, at_reload, increment, failure_event,
}
use soyplane.Settings.History.{Call, step, run}
use soyplane.Settings.Reload.{init_stage, init_failed, load_failed}
use soyplane.Manager.{boot}
use soyplane.Manager.Serving.{
  ComesLater, IsReload, IsQuiet, fresh-quiet, run-IsServing, step-quiet, step-load, load-silent,
  boot-IsServing, failed-load,
}

module _ (L : Libraries) where
  -- A manager whose settings cannot be started has counted that failure, and has sent no event of
  -- it, whatever POD_NAME says. One that started has sent none so far; and after any later calls
  -- of the settings package but ConfigureEvents, a Load or a changed file whose reload fails is
  -- counted and sends one event of that failure, to the manager's pod, if POD_NAME is set, and
  -- none if it is not, while a reload that succeeds, another Init and a watcher's own error count
  -- and send nothing.
  pub boot_reports_only_reloads :
      (files : L.Files) (given : List String) (watch : Bool) (pod_name pod_namespace : String)
      → let s = new_settings L in
        let (r, t) = boot L files given watch pod_name pod_namespace s in
        ((e : SettingsError)
          → r ≡ err e
          → (t.reports.failures ≡ increment (init_stage L files given s) s.reports.failures)
            × (t.reports.events ≡ []))
        × (r ≡ ok tt
            → (t.reports.events ≡ [])
              × ((cs : List (Call L)) (c : Call L)
                  → All (ComesLater L) cs
                  → let u = run L cs t in
                    let v = step L c u in
                    (IsQuiet L c → v.reports ≡ u.reports)
                    × ((files' : L.Files)
                        → IsReload L files' c
                        → ((load L files' u).0 ≡ ok tt → v.reports ≡ u.reports)
                          × ((e : SettingsError)
                              → (load L files' u).0 ≡ err e
                              → (v.reports.failures ≡ increment at_reload u.reports.failures)
                                × (pod_name ≡ "" → v.reports.events ≡ u.reports.events)
                                × (pod_name ≢ ""
                                    → v.reports.events
                                      ≡ failure_event at_reload e (record {
                                        api_version = "v1";
                                        kind = "Pod";
                                        name = pod_name;
                                        namespace = pod_namespace;
                                      })
                                        ∷ u.reports.events)))))
  unfolding boot
  boot_reports_only_reloads files given watch pod_name pod_namespace =
      let s = new_settings L in
      let t = (boot L files given watch pod_name pod_namespace s).1 in
      (
        λ e h.
            let bad : (init L files given watch s).0 ≡ err e = ground arith in
            let same : t ≡ (init L files given watch s).1 = ground arith in
            (
              ap (λ u. u.reports.failures) same ∙ (init_failed L files given watch s bad).1,
              ap (λ u. u.reports.events) same ∙ fresh-quiet L files given watch,
            ),
        λ fine.
            let (serving, silent) =
              boot-IsServing L files given watch pod_name pod_namespace fine in
            (
              silent,
              λ cs c later.
                  let now = run-IsServing L cs t later serving in
                  let u = run L cs t in
                  (
                    λ quiet. step-quiet L c u quiet now.ready,
                    λ files' reloads.
                        let at = ap (λ w. w.reports) (step-load L files' c u reloads) in
                        (
                          λ loaded. at ∙ load-silent L files' u loaded,
                          λ e failed.
                              let (unsent, sent) =
                                failed-load L files' pod_name pod_namespace u now failed in
                              let events = ap (λ w. w.events) at in
                              (
                                ap (λ w. w.failures) at ∙ (load_failed L files' u failed).1,
                                λ h. events ∙ unsent h,
                                λ h. events ∙ sent h,
                              ),
                        ),
                  ),
            ),
      )
