-- ===== src/System/Report.antt =====
-- How the end of a job reaches the module: two controllers, one after the other.
use soyplane.Base.{
  ◌≡◌, refl, sym, ap, ◌∙◌, false, some, List, [], ◌∷◌, map, arith, ok, Bool-cases, inl, inr,
  newest_first,
}
use soyplane.Api.{NamespacedName, TofuModule, TofuExecution, Job}
use soyplane.Children.{latest}
use soyplane.Children.View.{latest-map}
use soyplane.Settings.{Libraries, Settings}
use soyplane.Cluster.{Cluster, done, Requeue}
use soyplane.Cluster.Laws.{UpdatesModules}
use soyplane.Cluster.Interference.{with_status_of, KeepsExecutions, KeepsModules, ListsUpdated}
use soyplane.ModuleController.{owned_executions, is_outdated, has_news, update_module_status}
use soyplane.ModuleController
use soyplane.ModuleController.Runs.{Sees as SeesModule}
use soyplane.ModuleController.Rest.{reconcile_settles}
use soyplane.ExecutionController
use soyplane.ExecutionController.{
  job_time, owned_jobs, delete_stale, phase_of, sync_status, sync_execution,
}
use soyplane.ExecutionController.Sync.{expected_status, sync_status_exact}
use soyplane.ExecutionController.Cycle.{Sees, reconcile_starts_or_syncs}
use soyplane.ExecutionController.Effect.{delete_stale-lists_executions, delete_stale-reads}

-- The execution with the status that its job implies.
abbrev pub reported : TofuExecution → Job → TofuExecution
reported exec job = record exec { status = expected_status job exec.status }

module _ (C : Cluster) (execs : KeepsExecutions C) (modules : KeepsModules C)
    (lists : ListsUpdated C) where
  delete_stale-modules :
      (k : NamespacedName) (jobs : List Job) (s : C.State)
      → C.get_module k (delete_stale C jobs s).1 ≡ C.get_module k s
  unfolding delete_stale
  delete_stale-modules k [] s = refl
  delete_stale-modules k (j ∷ jobs) s =
      delete_stale-modules k jobs (C.delete_job j s).1 ∙ modules.delete_job_modules k j s

  sync-modules :
      (k : NamespacedName) (x : TofuExecution) (job : Job) (s : C.State)
      → C.get_module k (sync_execution C x job s).1 ≡ C.get_module k s
  unfolding sync_execution
  sync-modules k x job s =
      let (same, _) = sync_status_exact job x.status in
      ground (arith, modules.update_modules k (reported x job) s)

  -- After the status of the newest child is written, that child is the newest with that status.
  sync-latest :
      (mdl : TofuModule) (name : NamespacedName) (x : TofuExecution) (job : Job) (s : C.State)
      (l : List TofuExecution)
      → C.get_execution name s ≡ ok x
      → C.list_executions mdl.meta.namespace s ≡ ok l
      → latest (owned_executions C mdl l) ≡ some x
      → {r : Requeue} → (sync_execution C x job s).0 ≡ ok r
      → (l' : List TofuExecution) × (C.list_executions mdl.meta.namespace
            (sync_execution C x job s).1
          ≡ ok l')
        × (latest (owned_executions C mdl l') ≡ some (reported x job))
  unfolding sync_execution owned_executions
  sync-latest mdl name x job s l read listed newest fine =
      let (same, exact) = sync_status_exact job x.status in
      let put = with_status_of (reported x job) in
      elim (Bool-cases (sync_status job x.status).1) [
        | inr quiet ↦
            let kept : reported x job ≡ x = ap (λ st. record x { status = st }) (exact.0 quiet) in
            (l, ground (arith, listed), newest ∙ ap some (sym kept))
        | inl changed ↦
            let itself : put x ≡ reported x job = ground arith in
            let wrote : (C.update_execution_status (reported x job) s).0 ≡ ok tt =
              ground (arith, same) in
            let shown =
              lists.update_lists mdl.meta.namespace name x (expected_status job x.status) s l read
                listed wrote in
            (
              map put l,
              ground (arith, same, shown),
              latest-map (λ z. C.is_controlled_by z.meta mdl.meta) put (λ z. ground arith)
                    (λ z. ground arith) l newest
                  ∙ ap some itself,
            )
      ]

  -- What the module's Reconcile reads after that of its newest child.
  pub reconcile-report :
      (L : Libraries) (cfg : Settings L) {name key : NamespacedName} {s : C.State}
      {mdl : TofuModule} {children : List TofuExecution} {x : TofuExecution} {jobs : List Job}
      {job : Job} {stale : List Job}
      → SeesModule C name s mdl children
      → latest (owned_executions C mdl children) ≡ some x
      → Sees C key s x jobs
      → newest_first job_time (owned_jobs C x jobs) ≡ job ∷ stale
      → {r : Requeue} → (ExecutionController.reconcile C L cfg key s).0 ≡ ok r
      → (l' : List TofuExecution) × SeesModule C name
          (ExecutionController.reconcile C L cfg key s).1
          mdl
          l'
        × (latest (owned_executions C mdl l') ≡ some (reported x job))
  reconcile-report L cfg {name} {key} {s} {mdl} {children} {x} {jobs} {job} {stale} sees newest
        sees_exec sorted fine =
      let ns = mdl.meta.namespace in
      let ran = (reconcile_starts_or_syncs C L cfg sees_exec).1 job stale sorted in
      let s' = (delete_stale C stale s).1 in
      let read = delete_stale-reads C ns execs key stale s ∙ sees_exec.execution_read in
      let listed = delete_stale-lists_executions C ns execs stale s ∙ sees.children_read in
      let (l', listed', newest') =
        sync-latest mdl key x job s' children read listed newest (ap (λ r. r.0) (sym ran) ∙ fine) in
      (
        l',
        record {
          module_read =
              ap (λ r. C.get_module name r.1) ran
              ∙ sync-modules name x job s'
              ∙ delete_stale-modules name stale s
              ∙ sees.module_read;
          children_read = ap (λ r. C.list_executions ns r.1) ran ∙ listed';
        },
        newest',
      )

  -- Where a module's newest child has a job, and its status, once in line with the newest job, is
  -- not outdated, a Reconcile of the child that returned without an error and then a Reconcile of
  -- the module, whose status update is accepted, leave a module that shows the child's name and
  -- the phase that the job gives; and the next Reconcile of the module writes nothing. Assumed of
  -- the cluster: a status update replaces what later reads and lists of that kind find, and calls
  -- on jobs and on executions leave the modules alone.
  pub job_phase_reaches_module :
      UpdatesModules C
      → (L : Libraries) (cfg : Settings L) {name key : NamespacedName} {s : C.State}
        {mdl : TofuModule} {children : List TofuExecution} {x : TofuExecution} {jobs : List Job}
        {job : Job} {stale : List Job}
      → SeesModule C name s mdl children
      → latest (owned_executions C mdl children) ≡ some x
      → Sees C key s x jobs
      → newest_first job_time (owned_jobs C x jobs) ≡ job ∷ stale
      → is_outdated mdl (reported x job) ≡ false
      → {r : Requeue} → (ExecutionController.reconcile C L cfg key s).0 ≡ ok r
      → let t = (ExecutionController.reconcile C L cfg key s).1 in
        (update_module_status C mdl (reported x job) t).0 ≡ ok (has_news mdl (reported x job))
        → let u = (ModuleController.reconcile C name t).1 in
          ((mdl' : TofuModule) × (C.get_module name u ≡ ok mdl')
            × (mdl'.status.last_execution_name ≡ x.meta.name)
            × (mdl'.status.phase ≡ phase_of job.status))
          × (ModuleController.reconcile C name u ≡ (ok done, u))
  job_phase_reaches_module updates L cfg sees newest sees_exec sorted current fine smooth =
      let (_, after, newest') = reconcile-report L cfg sees newest sees_exec sorted fine in
      reconcile_settles C after updates newest' current smooth
