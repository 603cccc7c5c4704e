-- ===== src/ExecutionController/Cycle.antt =====
-- One Reconcile of an execution after another: when a job is started, and when nothing is left
-- to write.
use soyplane.Base.{
  ◌≡◌, sym, ap, ◌∙◌, true, false, List, [], ◌∷◌, arith, ok, err, Bool-cases, inl, inr, newest_first,
}
use soyplane.Api.{NamespacedName, TofuModule, TofuExecution, Job}
use soyplane.Settings.{Libraries, Settings, SettingsError, execution}
use soyplane.Cluster.{Cluster, Error, invalid_settings, done, Requeue}
use soyplane.Cluster.Laws.{HandlesNotFound, UpdatesExecutions}
use soyplane.ExecutionController.{
  job_time, module_key, owned_jobs, delete_stale, choose_job, job_of, sync_status, sync_execution,
  requeue_for, start_job, reconcile,
}
use soyplane.ExecutionController.Sync.{expected_status, sync_status_exact, expected_status_idem}
use soyplane.ExecutionController.Jobs.{job_of-newest, delete_none}

module _ (C : Cluster) where
  -- What Reconcile reads: the execution, and the jobs of its namespace.
  pub record Sees (name : NamespacedName) (s : C.State) (x : TofuExecution) (l : List Job)
      : Type 0 where
    pub execution_read : C.get_execution name s ≡ ok x
    pub jobs_read : C.list_jobs x.meta.namespace s ≡ ok l

  module _ (L : Libraries) (cfg : Settings L) where
    -- Where the execution and the jobs can be read: with no job owned, Reconcile starts one,
    -- whatever phase the execution shows, an ended one too; with some, it deletes all but the
    -- newest and then brings the status in line with that one.
    pub reconcile_starts_or_syncs :
        {name : NamespacedName} {s : C.State} {x : TofuExecution} {l : List Job}
        → Sees name s x l
        → (owned_jobs C x l ≡ [] → reconcile C L cfg name s ≡ start_job C L cfg x s)
          × ((first : Job) (stale : List Job)
              → newest_first job_time (owned_jobs C x l) ≡ first ∷ stale
              → reconcile C L cfg name s ≡ sync_execution C x first (delete_stale C stale s).1)
    unfolding reconcile job_of choose_job
    reconcile_starts_or_syncs {name} {s} {x} {l} sees = (
      λ nothing. ground (arith, sees.execution_read, sees.jobs_read),
      λ first stale sorted.
          ground
            (arith, sees.execution_read, job_of-newest C x s l first stale sees.jobs_read sorted),
    )

    -- Where no job is owned, the module can be read and the execution settings are refused, as
    -- they are until they are loaded, Reconcile returns that refusal as its error and writes
    -- nothing: no job is started.
    pub refuses_without_settings :
        {name : NamespacedName} {s : C.State} {x : TofuExecution} {l : List Job} {mdl : TofuModule}
        {e : SettingsError}
        → Sees name s x l
        → owned_jobs C x l ≡ []
        → C.get_module (module_key x) s ≡ ok mdl
        → execution L cfg ≡ err e
        → reconcile C L cfg name s ≡ (err (invalid_settings e), s)
    unfolding start_job
    refuses_without_settings {name} {s} {x} {l} {mdl} {e} sees nothing found refused =
        (reconcile_starts_or_syncs sees).0 nothing ∙ ground (arith, found, refused)

    -- An execution that is gone is no error; any other failed read of it, a failed list of jobs
    -- and, where no job is owned, a failed read of its module are returned; and in all these
    -- cases nothing is written.
    pub reconcile_execution_read_errors :
        HandlesNotFound C
        → (name : NamespacedName) (s : C.State) (e : Error)
        → (C.get_execution name s ≡ err e
            → C.is_not_found e ≡ true
            → reconcile C L cfg name s ≡ (ok done, s))
          × (C.get_execution name s ≡ err e
              → C.is_not_found e ≡ false
              → reconcile C L cfg name s ≡ (err e, s))
          × ((x : TofuExecution)
              → C.get_execution name s ≡ ok x
              → C.list_jobs x.meta.namespace s ≡ err e
              → reconcile C L cfg name s ≡ (err e, s))
          × ((x : TofuExecution) (l : List Job)
              → Sees name s x l
              → owned_jobs C x l ≡ []
              → C.get_module (module_key x) s ≡ err e
              → reconcile C L cfg name s ≡ (err e, s))
    unfolding reconcile job_of start_job
    reconcile_execution_read_errors handles name s e = (
      λ h n. ground (arith, handles.ignore_not_found_lem e),
      λ h n. ground (arith, handles.ignore_not_found_lem e),
      λ x h l. ground arith,
      λ x l sees nothing h. (reconcile_starts_or_syncs sees).0 nothing ∙ ground arith,
    )

    -- With one job: what is written, and nothing if the status is in line already.
    pub sync-quiet :
        (x : TofuExecution) (job : Job) (s : C.State)
        → expected_status job x.status ≡ x.status
        → sync_execution C x job s ≡ (ok (requeue_for job), s)
    unfolding sync_execution
    sync-quiet x job s e =
        let (same, exact) = sync_status_exact job x.status in let quiet = exact.1 e in ground arith

    pub one_job :
        {name : NamespacedName} {s : C.State} {x : TofuExecution} {l : List Job} (job : Job)
        → Sees name s x l
        → newest_first job_time (owned_jobs C x l) ≡ job ∷ []
        → reconcile C L cfg name s ≡ sync_execution C x job s
    one_job {name} {s} {x} {l} job sees sorted =
        (reconcile_starts_or_syncs sees).1 job [] sorted
        ∙ ap (sync_execution C x job) (delete_none C s)

    pub sync-written :
        UpdatesExecutions C
        → (name : NamespacedName) (s : C.State) (x : TofuExecution) (l : List Job) (job : Job)
        → Sees name s x l
        → {r : Requeue} → (sync_execution C x job s).0 ≡ ok r
        → Sees name
            (sync_execution C x job s).1
            (record x { status = expected_status job x.status })
            l
    unfolding sync_execution
    sync-written updates name s x l job sees fine =
        let (same, exact) = sync_status_exact job x.status in
        let stay =
          updates.jobs_stay (record x { status = expected_status job x.status }) x.meta.namespace
            s in
        let read =
          updates.get_updated name x (expected_status job x.status) s sees.execution_read in
        elim (Bool-cases (sync_status job x.status).1) [
          | inl changed ↦ record {
            execution_read = ground (arith, same, read);
            jobs_read = ground (arith, same, stay, sees.jobs_read);
          }
          | inr quiet ↦ record {
            execution_read = ground (arith, exact.0 quiet, sees.execution_read);
            jobs_read = ground (arith, sees.jobs_read);
          }
        ]

    -- Where the execution owns one job, a Reconcile that returned without an error leaves the
    -- execution with a status in line with the job and the jobs as they were, and the next
    -- Reconcile writes nothing at all. Assumed of the cluster: a status update that is accepted
    -- replaces what a later read finds, and no job.
    pub reconcile_execution_settles :
        UpdatesExecutions C
        → {name : NamespacedName} {s : C.State} {x : TofuExecution} {l : List Job} (job : Job)
        → Sees name s x l
        → newest_first job_time (owned_jobs C x l) ≡ job ∷ []
        → {r : Requeue} → (reconcile C L cfg name s).0 ≡ ok r
        → let t = (reconcile C L cfg name s).1 in
          (C.get_execution name t ≡ ok (record x { status = expected_status job x.status }))
          × (C.list_jobs x.meta.namespace t ≡ ok l)
          × (reconcile C L cfg name t ≡ (ok (requeue_for job), t))
    unfolding owned_jobs
    reconcile_execution_settles updates {name} {s} {x} {l} job sees sorted fine =
        let ran = one_job job sees sorted in
        let after = sync-written updates name s x l job sees (ap (λ t. t.0) (sym ran) ∙ fine) in
        let x' : TofuExecution = record x { status = expected_status job x.status } in
        let t = (sync_execution C x job s).1 in
        rw ran (
          after.execution_read,
          after.jobs_read,
          one_job job after sorted ∙ sync-quiet x' job t (expected_status_idem job x.status),
        )
