-- ===== src/ExecutionController/Jobs.antt =====
-- The method `job`: of several owned jobs the newest is kept and the others are deleted.
use native.Mathlib.Nat.{le_refl}
use soyplane.Base.{
  ◌≡◌, ◌≤◌, refl, sym, ap, ◌∙◌, subst, String, Bool, not, some, List, [], ◌∷◌, arith, ok, All,
  select, string_comparable, insert_newest, All-select, newest_first-singleton, newest_first,
  newest_first-IsNewestFirst, All-of-newest_first, All-newest_first, IsNewestFirst,
}
use soyplane.Api.{TofuExecution, Job}
use soyplane.Cluster.{Cluster}
use soyplane.Cluster.Laws.{DeletesJobs, without_job}
use soyplane.ExecutionController.{
  job_time, owned_jobs, delete_stale, choose_job, keep_first, job_of,
}
use soyplane.ExecutionController.Stale.{
  without_jobs, HaveOwnNames, select-without_jobs, newest_first-without_jobs, without_jobs_self,
  without_jobs-first, HaveOwnNames-newest_first, HaveOwnNames-select, IsAbsent, without_jobs-absent,
  IsAbsent-unchosen,
}

pub newest_first-one : (job : Job) → newest_first job_time (job ∷ []) ≡ job ∷ []
unfolding newest_first insert_newest
newest_first-one job = refl

-- Is the job controlled by the execution?
abbrev pub is_mine : (C : Cluster) → TofuExecution → Job → Bool
is_mine C execution job = C.is_controlled_by job.meta execution.meta

module _ (C : Cluster) where
  pub delete_none : (s : C.State) → (delete_stale C [] s).1 ≡ s
  unfolding delete_stale
  delete_none s = refl

  -- Every call of Delete by the loop returns without an error.
  abbrev pub AllDelete : List Job → C.State → Type 0
  AllDelete [] s = Unit
  AllDelete (job ∷ jobs) s =
      ((C.delete_job job s).0 ≡ ok tt) × AllDelete jobs (C.delete_job job s).1

  delete_stale-ok : (jobs : List Job) (s : C.State) → (delete_stale C jobs s).0 ≡ ok tt
  unfolding delete_stale
  delete_stale-ok [] s = refl
  delete_stale-ok (job ∷ jobs) s = delete_stale-ok jobs (C.delete_job job s).1

  delete_stale-lists :
      DeletesJobs C
      → (ns : String) (jobs l : List Job) (s : C.State) → All (λ job. job.meta.namespace ≡ ns) jobs
      → AllDelete jobs s
      → C.list_jobs ns s ≡ ok l
      → C.list_jobs ns (delete_stale C jobs s).1 ≡ ok (without_jobs jobs l)
  unfolding delete_stale without_jobs
  delete_stale-lists deletes ns [] l s here fine listed = listed
  delete_stale-lists deletes ns (job ∷ jobs) l s (at, here) (done', fine) listed =
      delete_stale-lists deletes ns jobs (without_job job l) (C.delete_job job s).1 here fine
        (deletes.delete_lists ns job s l at done' listed)

  -- What the `switch` does, in terms of the sorted list, for any number of owned jobs but 0.
  choose_job-newest :
      (owned : List Job) (first : Job) (stale : List Job) (s : C.State)
      → newest_first job_time owned ≡ first ∷ stale
      → choose_job C owned s ≡ (ok (some first), (delete_stale C stale s).1)
  unfolding choose_job newest_first insert_newest
  choose_job-newest [] first stale s e = cc
  choose_job-newest (x ∷ []) first stale s e = ground arith
  choose_job-newest (x ∷ y ∷ more) first stale s e =
      ap (λ l. keep_first C l s) e ∙ ground (arith, delete_stale-ok stale s)

  pub job_of-newest :
      (execution : TofuExecution) (s : C.State) (l : List Job) (first : Job) (stale : List Job)
      → C.list_jobs execution.meta.namespace s ≡ ok l
      → newest_first job_time (owned_jobs C execution l) ≡ first ∷ stale
      → job_of C execution s ≡ (ok (some first), (delete_stale C stale s).1)
  unfolding job_of
  job_of-newest execution s l first stale listed sorted =
      rw listed (choose_job-newest (owned_jobs C execution l) first stale s sorted)

  -- The owned jobs and the others, once the stale ones are deleted.
  owned_after :
      (execution : TofuExecution) (l : List Job) (first : Job) (stale : List Job)
      → HaveOwnNames l
      → newest_first job_time (owned_jobs C execution l) ≡ first ∷ stale
      → owned_jobs C execution (without_jobs stale l) ≡ first ∷ []
  unfolding owned_jobs
  owned_after execution l first stale own sorted =
      let names = HaveOwnNames-newest_first _ (HaveOwnNames-select (is_mine C execution) l own) in
      newest_first-singleton job_time _ (
        ap (newest_first job_time) (select-without_jobs _ stale l)
        ∙ newest_first-without_jobs stale _
        ∙ ap (without_jobs stale) sorted
        ∙ without_jobs-first first stale stale (subst HaveOwnNames sorted names).0
        ∙ ap (λ m. first ∷ m) (without_jobs_self stale))

  others_after :
      (execution : TofuExecution) (l : List Job) (first : Job) (stale : List Job)
      → HaveOwnNames l
      → newest_first job_time (owned_jobs C execution l) ≡ first ∷ stale
      → select (λ job. not (is_mine C execution job)) (without_jobs stale l)
        ≡ select (λ job. not (is_mine C execution job)) l
  unfolding owned_jobs
  others_after execution l first stale own sorted =
      let others = select (λ job. not (is_mine C execution job)) l in
      let absent =
        All-newest_first job_time (IsAbsent others) _
          (IsAbsent-unchosen (is_mine C execution) l own) in
      select-without_jobs _ stale l
      ∙ without_jobs-absent stale others (subst (All (IsAbsent others)) sorted absent).1

  -- Once the stale jobs are deleted, the others are listed.
  stale_deleted :
      (execution : TofuExecution) (s : C.State) (l : List Job) (first : Job) (stale : List Job)
      → C.list_jobs execution.meta.namespace s ≡ ok l
      → newest_first job_time (owned_jobs C execution l) ≡ first ∷ stale
      → DeletesJobs C
      → All (λ job. job.meta.namespace ≡ execution.meta.namespace) l
      → AllDelete stale s
      → C.list_jobs execution.meta.namespace (delete_stale C stale s).1 ≡ ok (without_jobs stale l)
  unfolding owned_jobs
  stale_deleted execution s l first stale listed sorted deletes here fine =
      let ns = execution.meta.namespace in
      let mine =
        All-newest_first job_time (λ job. job.meta.namespace ≡ ns) _
          (All-select _ (is_mine C execution) l here) in
      delete_stale-lists deletes ns stale l s
        (subst (All (λ job. job.meta.namespace ≡ ns)) sorted mine).1 fine listed

  -- Where the jobs of the execution's namespace can be listed and some are owned, the method
  -- `job` returns the newest owned job, none being newer, whatever the server answers to the
  -- Deletes of the others. If moreover the listed jobs are of that namespace and have names of
  -- their own, every Delete of the others succeeds, and a deleted job is listed no more, then
  -- afterwards the newest is the one job that is owned, the jobs of other owners are as they
  -- were, and another call returns the same job and changes nothing.
  pub job_of_keeps_newest :
      (execution : TofuExecution) (s : C.State) (l : List Job) (first : Job) (stale : List Job)
      → C.list_jobs execution.meta.namespace s ≡ ok l
      → newest_first job_time (owned_jobs C execution l) ≡ first ∷ stale
      → let t = (job_of C execution s).1 in
        ((job_of C execution s).0 ≡ ok (some first))
        × All (λ job. job_time job ≤ job_time first) (owned_jobs C execution l)
        × (DeletesJobs C
            → All (λ job. job.meta.namespace ≡ execution.meta.namespace) l
            → HaveOwnNames l
            → AllDelete stale s
            → ((l' : List Job) × (C.list_jobs execution.meta.namespace t ≡ ok l')
                × (owned_jobs C execution l' ≡ first ∷ [])
                × (select (λ job. not (is_mine C execution job)) l'
                    ≡ select (λ job. not (is_mine C execution job)) l))
              × (job_of C execution t ≡ (ok (some first), t)))
  job_of_keeps_newest execution s l first stale listed sorted =
      let ns = execution.meta.namespace in
      let ran = job_of-newest execution s l first stale listed sorted in
      let top =
        subst (IsNewestFirst job_time) sorted
          (newest_first-IsNewestFirst job_time (owned_jobs C execution l)) in
      let newest : All (λ job. job_time job ≤ job_time first)
          (newest_first job_time (owned_jobs C execution l)) =
        subst (All (λ job. job_time job ≤ job_time first)) (sym sorted)
          (le_refl (job_time first), top.0) in
      (
        ap (λ t. t.0) ran,
        All-of-newest_first job_time _ _ newest,
        λ deletes here own fine.
            let now = stale_deleted execution s l first stale listed sorted deletes here fine in
            let listed' = ap (λ t. C.list_jobs ns t.1) ran ∙ now in
            let only = owned_after execution l first stale own sorted in
            (
              (
                without_jobs stale l,
                listed',
                only,
                others_after execution l first stale own sorted,
              ),
              job_of-newest execution _ _ first [] listed'
                    (ap (newest_first job_time) only ∙ newest_first-one first)
                  ∙ ap (λ t. (ok (some first), t)) (delete_none _),
            ),
      )
