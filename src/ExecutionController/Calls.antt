-- ===== src/ExecutionController/Calls.antt =====
-- Every call on the cluster that a Reconcile of an execution makes, with what it answers.
use soyplane.Base.{
  if◌then◌else◌, ◌≡◌, ◌≢◌, refl, ap, ◌∙◌, List, [], ◌∷◌, arith, ok, err, Bool-cases, inl, inr,
  newest_first,
}
use soyplane.Api.{NamespacedName, ObjectMeta, TofuModule, TofuExecution, Job}
use soyplane.Phase.{is_execution_terminal}
use soyplane.Settings.{Libraries, Settings, ExecutionSettings, execution}
use soyplane.Cluster.{Cluster, Error, Requeue, done, requeue_now, requeue_after_5s}
use soyplane.ExecutionController.{
  job_time, module_key, owned_jobs, delete_stale, phase_of, requeue_for, sync_status,
  sync_execution, new_job, start_job, reconcile,
}
use soyplane.ExecutionController.Phases.{requeue_for_iff}
use soyplane.ExecutionController.Sync.{expected_status, sync_status_exact}
use soyplane.ExecutionController.Cycle.{Sees, reconcile_starts_or_syncs}

-- While the phase that the job gives is not terminal, another look in five seconds.
abbrev pub next_look : Job → Requeue
next_look job = if is_execution_terminal (phase_of job.status) then done else requeue_after_5s

requeue_for-next_look : (job : Job) → requeue_for job ≡ next_look job
requeue_for-next_look job = let (waits, ends) = requeue_for_iff job in ground (arith, waits, ends)

module _ (C : Cluster) where
  -- Each job of the list deleted, one after the other, whatever the server answers.
  abbrev pub all_deleted : List Job → C.State → C.State
  all_deleted [] s = s
  all_deleted (job ∷ jobs) s = all_deleted jobs (C.delete_job job s).1

  delete_stale-all_deleted :
      (jobs : List Job) (s : C.State) → (delete_stale C jobs s).1 ≡ all_deleted jobs s
  unfolding delete_stale
  delete_stale-all_deleted [] s = refl
  delete_stale-all_deleted (job ∷ jobs) s = delete_stale-all_deleted jobs (C.delete_job job s).1

  -- The execution with the status that its job implies.
  abbrev pub in_line : TofuExecution → Job → TofuExecution
  in_line x job = record x { status = expected_status job x.status }

  sync_execution-calls :
      (x : TofuExecution) (job : Job) (s : C.State)
      → let update = C.update_execution_status (in_line x job) s in
        ((in_line x job).status ≡ x.status → sync_execution C x job s ≡ (ok (next_look job), s))
        × ((in_line x job).status ≢ x.status
            → (update.0 ≡ ok tt → sync_execution C x job s ≡ (ok (next_look job), update.1))
              × ((e : Error) → update.0 ≡ err e → sync_execution C x job s ≡ (err e, update.1)))
  unfolding sync_execution
  sync_execution-calls x job s =
      let (same, exact) = sync_status_exact job x.status in
      let next = requeue_for-next_look job in
      (
        λ quiet. ground (arith, exact.1 quiet, next),
        λ news. elim (Bool-cases (sync_status job x.status).1) [
          | inr still ↦ absurd (news (exact.0 still))
          | inl changed ↦ (λ fine. ground (arith, same, next), λ e refused. ground (arith, same))
        ],
      )

  module _ (L : Libraries) (cfg : Settings L) where
    -- Where the execution and the jobs can be read, these are all the writes of a Reconcile, and
    -- its answer. With no job owned, the module read, the settings loaded and the owner set: it
    -- creates the job that is made of these, and asks to be called again at once, or returns the
    -- error of that creation. With some owned: it deletes every one but the newest, one after the
    -- other, whatever the server answers; where the status that the newest implies is not the one
    -- that was read, it updates that, and returns the error of a refused update; and else it asks
    -- to be called again in five seconds, or not at all if the phase that the job gives is
    -- terminal. Neither depends on the phase that the execution shows.
    pub reconcile_calls :
        {name : NamespacedName} {s : C.State} {x : TofuExecution} {l : List Job}
        → Sees C name s x l
        → (owned_jobs C x l ≡ []
            → (mdl : TofuModule) (settings : ExecutionSettings) (meta : ObjectMeta)
            → C.get_module (module_key x) s ≡ ok mdl
            → execution L cfg ≡ ok settings
            → C.set_controller_reference x.meta "TofuExecution"
                (new_job mdl settings.default_image x).meta
              ≡ ok meta
            → let create =
                C.create_job (record (new_job mdl settings.default_image x) { meta = meta }) s in
              ((stored : Job)
                → create.0 ≡ ok stored
                → reconcile C L cfg name s ≡ (ok requeue_now, create.1))
              × ((e : Error) → create.0 ≡ err e → reconcile C L cfg name s ≡ (err e, create.1)))
          × ((job : Job) (stale : List Job)
              → newest_first job_time (owned_jobs C x l) ≡ job ∷ stale
              → let t = all_deleted stale s in
                let update = C.update_execution_status (in_line x job) t in
                ((in_line x job).status ≡ x.status
                  → reconcile C L cfg name s ≡ (ok (next_look job), t))
                × ((in_line x job).status ≢ x.status
                    → (update.0 ≡ ok tt → reconcile C L cfg name s ≡ (ok (next_look job), update.1))
                      × ((e : Error)
                          → update.0 ≡ err e
                          → reconcile C L cfg name s ≡ (err e, update.1))))
    unfolding start_job
    reconcile_calls {name} {s} {x} {l} sees =
        let (starts, syncs) = reconcile_starts_or_syncs C L cfg sees in
        (
          λ nothing mdl settings meta found ready set.
              let ran = starts nothing in
              (λ stored made. ran ∙ ground arith, λ e refused. ran ∙ ground arith),
          λ job stale sorted.
              let ran =
                syncs job stale sorted
                ∙ ap (sync_execution C x job) (delete_stale-all_deleted stale s) in
              let (quiet, news) = sync_execution-calls x job (all_deleted stale s) in
              (
                λ same. ran ∙ quiet same,
                λ differs.
                    let (fine, refused) = news differs in
                    (λ e. ran ∙ fine e, λ e h. ran ∙ refused e h),
              ),
        )
