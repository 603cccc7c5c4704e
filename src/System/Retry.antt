-- ===== src/System/Retry.antt =====
-- A job with a failed pod, which its controller may still retry: what the execution and its module
-- make of it.
use soyplane.Base.{◌<◌, ◌≡◌, ◌≢◌, ap, ◌∙◌, List, [], ◌∷◌, some, ok, inr, newest_first, format_int}
use soyplane.Api.{NamespacedName, TofuModule, TofuExecution, Job}
use soyplane.Children.{latest}
use soyplane.Settings.{Libraries, Settings}
use soyplane.Cluster.{Cluster, done, Requeue}
use soyplane.Cluster.Laws.{TracksOwners, ListsCreated, CreatesLater, UpdatesExecutions}
use soyplane.Cluster.Interference.{KeepsExecutions, KeepsModules, ListsUpdated}
use soyplane.ModuleController.{owned_executions, current_generation}
use soyplane.ModuleController
use soyplane.ModuleController.Runs.{IsChild, Sees as SeesModule}
use soyplane.ModuleController.Progress.{reconcile_starts_due_run}
use soyplane.ExecutionController
use soyplane.ExecutionController.{job_time, owned_jobs, requeue_for}
use soyplane.ExecutionController.Phases.{failed_pod_is_final}
use soyplane.ExecutionController.Cycle.{Sees, reconcile_execution_settles}
use soyplane.System.Report.{reported, reconcile-report}

module _ (C : Cluster) (L : Libraries) (cfg : Settings L) where
  -- Where a module's newest child is of another generation and owns one job, of which a pod has
  -- failed, whatever other pods of it are active or have succeeded: a Reconcile of the child that
  -- returned without an error leaves it with the phase Failed, leaves the jobs as they were, and
  -- is followed by Reconciles that write nothing and ask for no further call; and then a
  -- Reconcile of the module that returned without an error has created the next run, the newest
  -- child now, of the module's present generation. Assumed of the cluster: a created execution is
  -- listed, as it was given, with a creation time later than all listed before; owner references
  -- are tracked; a status update replaces what later reads and lists of that kind find, and no
  -- job; and calls on jobs and on executions leave the modules alone.
  pub failed_pod_frees_module :
      KeepsExecutions C
      → KeepsModules C
      → ListsUpdated C
      → UpdatesExecutions C
      → TracksOwners C
      → ListsCreated C
      → CreatesLater C
      → {name key : NamespacedName} {s : C.State} {mdl : TofuModule} {children : List TofuExecution}
        {x : TofuExecution} {jobs : List Job} (job : Job)
      → SeesModule C name s mdl children
      → latest (owned_executions C mdl children) ≡ some x
      → current_generation x ≢ format_int mdl.meta.generation
      → Sees C key s x jobs
      → newest_first job_time (owned_jobs C x jobs) ≡ job ∷ []
      → 0 < job.status.failed
      → {r : Requeue} → (ExecutionController.reconcile C L cfg key s).0 ≡ ok r
      → let (_, t) = ExecutionController.reconcile C L cfg key s in
        (ModuleController.reconcile C name t).0 ≡ ok done
        → ((x' : TofuExecution) × (C.get_execution key t ≡ ok x') × (x'.status.phase ≡ "Failed"))
          × (C.list_jobs x.meta.namespace t ≡ ok jobs)
          × (ExecutionController.reconcile C L cfg key t ≡ (ok done, t))
          × ((y : TofuExecution) × (children' : List TofuExecution) × (C.list_executions
                  mdl.meta.namespace
                  (ModuleController.reconcile C name t).1
                ≡ ok children')
              × (latest (owned_executions C mdl children') ≡ some y)
              × IsChild C mdl y
              × (current_generation y ≡ format_int mdl.meta.generation))
  failed_pod_frees_module execs modules lists statuses owners created clock {name} {key} {s} {mdl}
        {children} {x} {jobs} job sees newest other sees_exec sorted failed fine started =
      let (shows, ended, ends) = failed_pod_is_final job failed in
      let (read, listed, rests) =
        reconcile_execution_settles C L cfg statuses job sees_exec sorted fine in
      let (_, after, newest') =
        reconcile-report C execs modules lists L cfg sees newest sees_exec sorted fine in
      let (_, t) = ExecutionController.reconcile C L cfg key s in
      (
        (reported x job, read, shows),
        listed,
        rests ∙ ap (λ r. (ok r, t)) ends,
        reconcile_starts_due_run C after owners created clock
            (inr (reported x job, newest', other, ended)) started,
      )
