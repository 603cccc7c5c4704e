-- ===== src/ExecutionController/Reconcile.antt =====
-- The reconciler of TofuExecution objects, method by method.
use soyplane.Base.{
  ◌||◌, Option, none, some, List, [], ◌∷◌, Result, ok, err, Action, pure, fail, reads, lift,
  attempt, ◌>>=◌, ◌>>◌, if◌then◌else◌, ◌==◌, string_comparable, select, newest_first,
}
use soyplane.Api.{NamespacedName, Time, TofuModule, TofuExecution, Job}
use soyplane.Settings.{Libraries, Settings, SettingsError, ExecutionSettings}
use soyplane.Settings
use soyplane.Cluster.{
  Cluster, Error, invalid_settings, Requeue, done, requeue_now, requeue_after_5s,
}
use soyplane.ExecutionController.Status.{phase_of, sync_status}
use soyplane.ExecutionController.Construct.{new_job}

abbrev pub job_time : Job → Time
job_time job = job.meta.creation_timestamp

abbrev pub module_key : TofuExecution → NamespacedName
module_key execution = record {
  namespace = execution.spec.module_ref.namespace;
  name = execution.spec.module_ref.name;
}

-- The error that constructJobFromExecution makes of a refused `settings.Execution()`.
abbrev pub wrapped : Result SettingsError ExecutionSettings → Result Error ExecutionSettings
wrapped (ok cfg) = ok cfg
wrapped (err e) = err (invalid_settings e)

-- `result` of the last lines of Reconcile.
unfoldable pub requeue_for : Job → Requeue
requeue_for job =
    let phase = phase_of job.status in
    if phase == "Running" || phase == "Pending" then requeue_after_5s else done

module _ (C : Cluster) where
  abbrev Does : Type 0 → Type 0
  Does A = Action C.State Error A

  -- getModule
  unfoldable pub get_module : NamespacedName → Does TofuModule
  get_module name = reads (C.get_module name)

  unfoldable pub owned_jobs : TofuExecution → List Job → List Job
  owned_jobs execution = select (λ job. C.is_controlled_by job.meta execution.meta)

  -- The loop over the stale jobs: an error of Delete is logged and dropped.
  unfoldable pub delete_stale : List Job → Does (Unit {0})
  delete_stale [] = pure tt
  delete_stale (stale ∷ rest) = attempt (C.delete_job stale) >> delete_stale rest

  abbrev pub keep_first : List Job → Does (Option Job)
  keep_first [] = pure none
  keep_first (first ∷ stale) = delete_stale stale >> pure (some first)

  -- The `switch` on the number of owned jobs.
  unfoldable pub choose_job : List Job → Does (Option Job)
  unfolding delete_stale
  choose_job [] = pure none
  choose_job (only ∷ []) = pure (some only)
  choose_job (one ∷ two ∷ more) = keep_first (newest_first job_time (one ∷ two ∷ more))

  -- The method `job`.
  unfoldable pub job_of : TofuExecution → Does (Option Job)
  unfolding owned_jobs choose_job
  job_of execution = do
    children ← reads (C.list_jobs execution.meta.namespace)
    choose_job (owned_jobs execution children)

  -- Reconcile where a job exists.
  unfoldable pub sync_execution : TofuExecution → Job → Does Requeue
  unfolding sync_status requeue_for
  sync_execution execution job =
      let (status, changed) = sync_status job execution.status in
      let write = C.update_execution_status (record execution { status = status }) in
      if changed then write >> pure (requeue_for job) else pure (requeue_for job)

  module _ (L : Libraries) (cfg : Settings L) where
    unfoldable pub construct_job : TofuExecution → Does Job
    unfolding new_job
    construct_job execution = do
      mdl ← reads (C.get_module (module_key execution))
      settings ← lift (wrapped (Settings.execution L cfg))
      let job = new_job mdl settings.default_image execution
      meta ← lift (C.set_controller_reference execution.meta "TofuExecution" job.meta)
      pure (record job { meta = meta })

    -- Reconcile where no job exists.
    unfoldable pub start_job : TofuExecution → Does Requeue
    unfolding construct_job
    start_job execution = do job ← construct_job execution; C.create_job job; pure requeue_now

    unfoldable pub reconcile_execution : TofuExecution → Does Requeue
    unfolding job_of sync_execution start_job
    reconcile_execution execution = do
      job ← job_of execution
      elim job [ none ↦ start_job execution | some job ↦ sync_execution execution job ]

    abbrev not_fetched : Option Error → Does Requeue
    not_fetched none = pure done
    not_fetched (some e) = fail e

    abbrev fetched : Result Error TofuExecution → Does Requeue
    fetched (ok execution) = reconcile_execution execution
    fetched (err e) = not_fetched (C.ignore_not_found e)

    unfoldable pub reconcile : NamespacedName → Does Requeue
    unfolding reconcile_execution
    reconcile name = attempt (reads (C.get_execution name)) >>= fetched
