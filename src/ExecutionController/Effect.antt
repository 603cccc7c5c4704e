-- ===== src/ExecutionController/Effect.antt =====
-- What a Reconcile of an execution, whatever it returns, does to the executions of a namespace.
use soyplane.Base.{
  ◌≡◌, ◌⊎◌, refl, ap, ◌∙◌, String, List, [], ◌∷◌, map, arith, ok, err, Result-cases, Bool-cases,
  inl, inr, newest_first, newest_first-nil,
}
use soyplane.Api.{NamespacedName, TofuExecution, Job}
use soyplane.Settings.{Libraries, Settings}
use soyplane.Cluster.{Cluster, Error}
use soyplane.Cluster.Interference.{with_status_of, KeepsExecutions, ListsUpdated}
use soyplane.ExecutionController.{
  job_time, owned_jobs, delete_stale, sync_status, sync_execution, construct_job, start_job, job_of,
  reconcile,
}
use soyplane.ExecutionController.Sync.{expected_status, sync_status_exact}
use soyplane.ExecutionController.Cycle.{Sees, reconcile_starts_or_syncs}

module _ (C : Cluster) (ns : String) where
  abbrev IsSame : C.State → C.State → Type 0
  IsSame s t = C.list_executions ns t ≡ C.list_executions ns s

  -- The execution read has the status of its newest job, in every list of the namespace.
  pub record Writes (name : NamespacedName) (s t : C.State) : Type 0 where
    pub exec : TofuExecution
    pub jobs : List Job
    pub sees : Sees C name s exec jobs
    pub first : Job
    pub stale : List Job
    pub sorted : newest_first job_time (owned_jobs C exec jobs) ≡ first ∷ stale
    pub written :
        (l : List TofuExecution)
        → C.list_executions ns s ≡ ok l
        → C.list_executions ns t
          ≡ ok (map (with_status_of (record exec { status = expected_status first exec.status })) l)

  pub delete_stale-lists_executions :
      KeepsExecutions C → (jobs : List Job) (s : C.State) → IsSame s (delete_stale C jobs s).1
  unfolding delete_stale
  delete_stale-lists_executions keeps [] s = refl
  delete_stale-lists_executions keeps (j ∷ jobs) s =
      delete_stale-lists_executions keeps jobs (C.delete_job j s).1 ∙ keeps.delete_job_lists ns j s

  pub delete_stale-reads :
      KeepsExecutions C
      → (k : NamespacedName) (jobs : List Job) (s : C.State)
      → C.get_execution k (delete_stale C jobs s).1 ≡ C.get_execution k s
  unfolding delete_stale
  delete_stale-reads keeps k [] s = refl
  delete_stale-reads keeps k (j ∷ jobs) s =
      delete_stale-reads keeps k jobs (C.delete_job j s).1 ∙ keeps.delete_job_reads k j s

  module _ (L : Libraries) (cfg : Settings L) (keeps : KeepsExecutions C)
      (lists : ListsUpdated C) where
    construct_job-state : (x : TofuExecution) (s : C.State) → (construct_job C L cfg x s).1 ≡ s
    unfolding construct_job
    construct_job-state x s = ground arith

    start_job-IsSame : (x : TofuExecution) (s : C.State) → IsSame s (start_job C L cfg x s).1
    unfolding start_job
    start_job-IsSame x s =
        let unwritten = construct_job-state x s in
        elim (Result-cases (construct_job C L cfg x s).0) [
          | inr (e, refused) ↦ ground arith
          | inl (job, made) ↦ ground (arith, keeps.create_job_lists ns job s)
        ]

    -- An update of the status that is in line with a job, or none if it is already.
    sync_execution-effect :
        (name : NamespacedName) (x : TofuExecution) (job : Job) (s : C.State)
        → C.get_execution name s ≡ ok x
        → IsSame s (sync_execution C x job s).1
          ⊎ ((l : List TofuExecution)
              → C.list_executions ns s ≡ ok l
              → C.list_executions ns (sync_execution C x job s).1
                ≡ ok (map (with_status_of (record x { status = expected_status job x.status })) l))
    unfolding sync_execution
    sync_execution-effect name x job s read =
        let (same, _) = sync_status_exact job x.status in
        let y : TofuExecution = record x { status = expected_status job x.status } in
        elim (Bool-cases (sync_status job x.status).1) [
          | inr quiet ↦ inl (ground arith)
          | inl changed ↦ elim (Result-cases (C.update_execution_status y s).0) [
            | inr (e, refused) ↦ inl (ground (arith, same, lists.update_refused ns y s e refused))
            | inl (_, fine) ↦ inr (λ l listed.
                ground (arith, same, lists.update_lists ns name x y.status s l read listed fine))
          ]
        ]

    unread :
        {name : NamespacedName} {s : C.State} {e : Error}
        → C.get_execution name s ≡ err e
        → IsSame s (reconcile C L cfg name s).1
    unfolding reconcile
    unread {name} {s} {e} gone = ground arith

    unlisted-IsSame :
        {name : NamespacedName} {s : C.State} {x : TofuExecution} {e : Error}
        → C.get_execution name s ≡ ok x
        → C.list_jobs x.meta.namespace s ≡ err e
        → IsSame s (reconcile C L cfg name s).1
    unfolding reconcile job_of
    unlisted-IsSame read unlisted = ground arith

    -- By the jobs that are owned, newest first.
    by_jobs :
        {name : NamespacedName} {s : C.State} {x : TofuExecution} {jobs : List Job}
        (sees : Sees C name s x jobs) (l : List Job)
        → newest_first job_time (owned_jobs C x jobs) ≡ l
        → IsSame s (reconcile C L cfg name s).1 ⊎ Writes name s (reconcile C L cfg name s).1
    by_jobs {name} {s} {x} {jobs} sees [] none_owned =
        let ran =
          (reconcile_starts_or_syncs C L cfg sees).0 (newest_first-nil job_time _ none_owned) in
        inl (ap (λ r. C.list_executions ns r.1) ran ∙ start_job-IsSame x s)
    by_jobs {name} {s} {x} {jobs} sees (first ∷ stale) sorted =
        let ran = (reconcile_starts_or_syncs C L cfg sees).1 first stale sorted in
        let s' = (delete_stale C stale s).1 in
        let same = delete_stale-lists_executions keeps stale s in
        let read = delete_stale-reads keeps name stale s ∙ sees.execution_read in
        let after = ap (λ r. C.list_executions ns r.1) ran in
        elim (sync_execution-effect name x first s' read) [
          | inl unchanged ↦ inl (after ∙ unchanged ∙ same)
          | inr written ↦ inr (record {
            exec = x;
            jobs = jobs;
            sees = sees;
            first = first;
            stale = stale;
            sorted = sorted;
            written = λ l listed. after ∙ written l (same ∙ listed);
          })
        ]

    -- Reconcile brings the execution's status in line with its newest job, in every list, or
    -- changes no list of executions.
    pub reconcile-effect :
        (name : NamespacedName) (s : C.State)
        → IsSame s (reconcile C L cfg name s).1 ⊎ Writes name s (reconcile C L cfg name s).1
    reconcile-effect name s = elim (Result-cases (C.get_execution name s)) [
      | inr (e, gone) ↦ inl (unread gone)
      | inl (x, read) ↦ elim (Result-cases (C.list_jobs x.meta.namespace s)) [
        | inr (e, unlisted) ↦ inl (unlisted-IsSame read unlisted)
        | inl (jobs, listed) ↦ by_jobs (record { execution_read = read; jobs_read = listed }) _ refl
      ]
    ]
