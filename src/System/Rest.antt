-- ===== src/System/Rest.antt =====
-- Where the controllers come to rest: an execution with its job, and the module that asked for it.
use soyplane.Base.{
  ◌≡◌, refl, sym, ap, ◌∙◌, true, false, some, List, [], ◌∷◌, arith, ok, All, newest_first, subst,
}
use soyplane.Api.{NamespacedName, TofuModule, TofuExecution, Job}
use soyplane.Phase.{is_execution_terminal}
use soyplane.Children.{latest}
use soyplane.Settings.{Libraries, Settings}
use soyplane.Cluster.{Cluster, done, Requeue}
use soyplane.Cluster.Laws.{UpdatesModules, UpdatesExecutions, DeletesJobs}
use soyplane.Cluster.Interference.{KeepsExecutions, KeepsModules, KeepsRuns, ListsUpdated}
use soyplane.ModuleController.{
  owned_executions, is_outdated, has_news, observed, update_module_status,
}
use soyplane.ModuleController
use soyplane.ModuleController.Runs.{Sees as SeesModule}
use soyplane.ModuleController.Rest.{reconcile-updates, reconcile_settles}
use soyplane.ExecutionController
use soyplane.ExecutionController.{
  job_time, owned_jobs, delete_stale, job_of, phase_of, requeue_for, sync_execution,
}
use soyplane.ExecutionController.Sync.{expected_status_idem}
use soyplane.ExecutionController.Stale.{HaveOwnNames}
use soyplane.ExecutionController.Jobs.{
  AllDelete, job_of-newest, job_of_keeps_newest, newest_first-one,
}
use soyplane.ExecutionController.Phases.{requeue_for_iff}
use soyplane.ExecutionController.Cycle.{
  Sees, reconcile_starts_or_syncs, one_job, sync-written, sync-quiet,
}
use soyplane.ExecutionController.Effect.{delete_stale-reads}
use soyplane.System.Report.{reported, reconcile-report}

-- What the work queues may hand out again.
pub data Task : Type 0 where
  module_task : Task
  execution_task : Task

module _ (C : Cluster) (L : Libraries) (cfg : Settings L) where
  abbrev pub run_task : NamespacedName → NamespacedName → Task → C.State → C.State
  run_task name key module_task s = (ModuleController.reconcile C name s).1
  run_task name key execution_task s = (ExecutionController.reconcile C L cfg key s).1

  abbrev pub run_tasks : NamespacedName → NamespacedName → List Task → C.State → C.State
  run_tasks name key [] s = s
  run_tasks name key (task ∷ tasks) s = run_tasks name key tasks (run_task name key task s)

  run_tasks-rest :
      (name key : NamespacedName) (tasks : List Task) (s : C.State)
      → (ModuleController.reconcile C name s).1 ≡ s
      → (ExecutionController.reconcile C L cfg key s).1 ≡ s
      → run_tasks name key tasks s ≡ s
  run_tasks-rest name key [] s still quiet = refl
  run_tasks-rest name key (module_task ∷ tasks) s still quiet =
      ap (run_tasks name key tasks) still ∙ run_tasks-rest name key tasks s still quiet
  run_tasks-rest name key (execution_task ∷ tasks) s still quiet =
      ap (run_tasks name key tasks) quiet ∙ run_tasks-rest name key tasks s still quiet

  -- The jobs, once the stale ones are deleted.
  cleared :
      KeepsExecutions C
      → DeletesJobs C
      → {key : NamespacedName} {s : C.State} {x : TofuExecution} {jobs : List Job} {job : Job}
        {stale : List Job}
      → Sees C key s x jobs
      → All (λ j. j.meta.namespace ≡ x.meta.namespace) jobs
      → HaveOwnNames jobs
      → newest_first job_time (owned_jobs C x jobs) ≡ job ∷ stale
      → AllDelete C stale s
      → (jobs' : List Job) × Sees C key (delete_stale C stale s).1 x jobs'
        × (newest_first job_time (owned_jobs C x jobs') ≡ job ∷ [])
  cleared execs deletes {key} {s} {x} {jobs} {job} {stale} sees here own sorted gone =
      let ns = x.meta.namespace in
      let kept = job_of_keeps_newest C x s jobs job stale sees.jobs_read sorted in
      let (jobs', listed, only, _) = (kept.2 deletes here own gone).0 in
      let at = ap (λ r. r.1) (job_of-newest C x s jobs job stale sees.jobs_read sorted) in
      (
        jobs',
        record {
          execution_read = delete_stale-reads C ns execs key stale s ∙ sees.execution_read;
          jobs_read = ap (C.list_jobs ns) (sym at) ∙ listed;
        },
        ap (newest_first job_time) only ∙ newest_first-one job,
      )

  module _ (runs : KeepsRuns C) where
    update-Sees :
        (mdl : TofuModule) (exec : TofuExecution) {key : NamespacedName} {s : C.State}
        {x : TofuExecution} {jobs : List Job}
        → Sees C key s x jobs
        → Sees C key (update_module_status C mdl exec s).1 x jobs
    unfolding update_module_status
    update-Sees mdl exec {key} {s} {x} {jobs} sees =
        let m = observed mdl exec in
        let reads = runs.module_update_reads key m s in
        let lists = runs.module_update_jobs x.meta.namespace m s in
        record {
          execution_read = ground (arith, reads, sees.execution_read);
          jobs_read = ground (arith, lists, sees.jobs_read);
        }

    -- The work on a run ends. Where a module's newest child has jobs, in its namespace and with
    -- names of their own, all but the newest of which can be deleted, and its status, once in
    -- line with the newest job, is not outdated: after a Reconcile of the child that returned
    -- without an error and one of the module, whose status update is accepted, neither Reconcile
    -- writes anything any more, whatever number of them is run in whatever order; and once the
    -- newest job gives a terminal phase, neither asks to be called again. Assumed of the cluster:
    -- a status update replaces what later reads and lists of that kind find, and nothing of
    -- another kind; deleted jobs are listed no more; and calls on jobs leave executions and
    -- modules alone.
    pub controllers_come_to_rest :
        KeepsExecutions C
        → KeepsModules C
        → ListsUpdated C
        → UpdatesModules C
        → UpdatesExecutions C
        → DeletesJobs C
        → {name key : NamespacedName} {s : C.State} {mdl : TofuModule}
          {children : List TofuExecution} {x : TofuExecution} {jobs : List Job} {job : Job}
          {stale : List Job}
        → SeesModule C name s mdl children
        → latest (owned_executions C mdl children) ≡ some x
        → Sees C key s x jobs
        → All (λ j. j.meta.namespace ≡ x.meta.namespace) jobs
        → HaveOwnNames jobs
        → newest_first job_time (owned_jobs C x jobs) ≡ job ∷ stale
        → AllDelete C stale s
        → is_outdated mdl (reported x job) ≡ false
        → {r : Requeue} → (ExecutionController.reconcile C L cfg key s).0 ≡ ok r
        → let t = (ExecutionController.reconcile C L cfg key s).1 in
          (update_module_status C mdl (reported x job) t).0 ≡ ok (has_news mdl (reported x job))
          → let u = (ModuleController.reconcile C name t).1 in
            (ModuleController.reconcile C name u ≡ (ok done, u))
            × (ExecutionController.reconcile C L cfg key u ≡ (ok (requeue_for job), u))
            × ((tasks : List Task) → run_tasks name key tasks u ≡ u)
            × (is_execution_terminal (phase_of job.status) ≡ true → requeue_for job ≡ done)
    unfolding owned_jobs
    controllers_come_to_rest execs modules lists updates statuses deletes {name} {key} {s} {mdl}
          {children} {x} {jobs} {job} {stale} sees newest sees_exec here own sorted gone current
          fine smooth =
        let (jobs', sees', alone) = cleared execs deletes sees_exec here own sorted gone in
        let ran = (reconcile_starts_or_syncs C L cfg sees_exec).1 job stale sorted in
        let (l', after, newest') =
          reconcile-report C execs modules lists L cfg sees newest sees_exec sorted fine in
        let t = (ExecutionController.reconcile C L cfg key s).1 in
        let u = (ModuleController.reconcile C name t).1 in
        let synced =
          sync-written C L cfg statuses key _ x jobs' job sees' (ap (λ r. r.0) (sym ran) ∙ fine) in
        let at_t : Sees C key t (reported x job) jobs' =
          subst (λ z. Sees C key z (reported x job) jobs') (ap (λ r. r.1) (sym ran)) synced in
        let at_u : Sees C key u (reported x job) jobs' =
          subst (λ z. Sees C key z (reported x job) jobs')
            (sym (reconcile-updates C after newest' current))
            (update-Sees mdl (reported x job) at_t) in
        let still = (reconcile_settles C after updates newest' current smooth).1 in
        let quiet : ExecutionController.reconcile C L cfg key u ≡ (ok (requeue_for job), u) =
          one_job C L cfg job at_u alone
          ∙ sync-quiet C L cfg (reported x job) job u (expected_status_idem job x.status) in
        (
          still,
          quiet,
          λ tasks. run_tasks-rest name key tasks u (ap (λ r. r.1) still) (ap (λ r. r.1) quiet),
          (requeue_for_iff job).1,
        )
