-- ===== src/ExecutionController/Stale.antt =====
-- Lists of jobs from which some are deleted by name.
use soyplane.Base.{
  ◌≡◌, ◌≢◌, refl, sym, ap, ◌∙◌, Bool, not, List, [], ◌∷◌, arith, Bool-cases, inl, inr, All, select,
  string_comparable, insert_newest, All-insert_newest, All-select, ltb, select-newest_first,
  newest_first, All-newest_first,
}
use soyplane.Api.{Job}
use soyplane.Cluster.Laws.{without_job}
use soyplane.ExecutionController.{job_time}

-- The list once all of the jobs in front are deleted.
unfoldable pub without_jobs : List Job → List Job → List Job
without_jobs [] l = l
without_jobs (job ∷ jobs) l = without_jobs jobs (without_job job l)

-- No two jobs of the list have one name.
abbrev pub HaveOwnNames : List Job → Type 0
HaveOwnNames [] = Unit
HaveOwnNames (job ∷ jobs) = All (λ other. other.meta.name ≢ job.meta.name) jobs × HaveOwnNames jobs

-- Deleting by name and choosing by owner commute.
select-without_job :
    (p : Job → Bool) (job : Job) (l : List Job)
    → select p (without_job job l) ≡ without_job job (select p l)
unfolding without_job
select-without_job p job [] = refl
select-without_job p job (x ∷ l) = ground (arith, select-without_job p job l)

pub select-without_jobs :
    (p : Job → Bool) (jobs l : List Job)
    → select p (without_jobs jobs l) ≡ without_jobs jobs (select p l)
unfolding without_jobs
select-without_jobs p [] l = refl
select-without_jobs p (job ∷ jobs) l =
    select-without_jobs p jobs (without_job job l)
    ∙ ap (without_jobs jobs) (select-without_job p job l)

pub newest_first-without_jobs :
    (jobs l : List Job)
    → newest_first job_time (without_jobs jobs l) ≡ without_jobs jobs (newest_first job_time l)
unfolding without_jobs without_job
newest_first-without_jobs [] l = refl
newest_first-without_jobs (job ∷ jobs) l =
    newest_first-without_jobs jobs (without_job job l)
    ∙ ap (without_jobs jobs) (sym (select-newest_first job_time _ l))

-- Only the kept job is left of a list whose others are all deleted.
without_job-fresh :
    (job first : Job) (l : List Job)
    → first.meta.name ≢ job.meta.name
    → without_job job (first ∷ l) ≡ first ∷ without_job job l
unfolding without_job
without_job-fresh job first l h = ground arith

without_job-nil : (job : Job) → without_job job [] ≡ []
unfolding without_job
without_job-nil job = refl

without_job_self : (job : Job) (l : List Job) → without_job job (job ∷ l) ≡ without_job job l
unfolding without_job
without_job_self job l = ground arith

without_jobs_comm :
    (job : Job) (jobs l : List Job)
    → without_jobs jobs (without_job job l) ≡ without_job job (without_jobs jobs l)
unfolding without_job
without_jobs_comm job jobs l = sym (select-without_jobs _ jobs l)

pub without_jobs_self : (jobs : List Job) → without_jobs jobs jobs ≡ []
unfolding without_jobs
without_jobs_self [] = refl
without_jobs_self (job ∷ jobs) =
    ap (without_jobs jobs) (without_job_self job jobs)
    ∙ without_jobs_comm job jobs jobs
    ∙ ap (without_job job) (without_jobs_self jobs)
    ∙ without_job-nil job

pub without_jobs-first :
    (first : Job) (jobs l : List Job)
    → All (λ other. other.meta.name ≢ first.meta.name) jobs
    → without_jobs jobs (first ∷ l) ≡ first ∷ without_jobs jobs l
unfolding without_jobs
without_jobs-first first [] l h = refl
without_jobs-first first (job ∷ jobs) l (hj, h) =
    ap (without_jobs jobs) (without_job-fresh job first l (λ e. hj (sym e)))
    ∙ without_jobs-first first jobs (without_job job l) h

All-insert :
    (first x : Job) (l : List Job)
    → x.meta.name ≢ first.meta.name
    → All (λ o. o.meta.name ≢ first.meta.name) l
    → All (λ o. o.meta.name ≢ first.meta.name) (insert_newest job_time x l)
All-insert first x l = All-insert_newest job_time _ x l

HaveOwnNames-insert :
    (x : Job) (l : List Job)
    → All (λ other. other.meta.name ≢ x.meta.name) l
    → HaveOwnNames l
    → HaveOwnNames (insert_newest job_time x l)
unfolding insert_newest
HaveOwnNames-insert x [] h own = (tt, tt)
HaveOwnNames-insert x (y ∷ l) (hy, h) (ynew, own) =
    elim (Bool-cases (ltb (job_time x) (job_time y))) [
      | inl later ↦
          rw later (All-insert y x l (λ e. hy (sym e)) ynew, HaveOwnNames-insert x l h own)
      | inr other ↦ rw other ((hy, h), (ynew, own))
    ]

pub HaveOwnNames-newest_first :
    (l : List Job) → HaveOwnNames l → HaveOwnNames (newest_first job_time l)
unfolding newest_first
HaveOwnNames-newest_first [] own = tt
HaveOwnNames-newest_first (x ∷ l) (hx, own) =
    HaveOwnNames-insert x (newest_first job_time l) (All-newest_first job_time _ l hx)
      (HaveOwnNames-newest_first l own)

pub HaveOwnNames-select :
    (p : Job → Bool) (l : List Job) → HaveOwnNames l → HaveOwnNames (select p l)
HaveOwnNames-select p [] own = tt
HaveOwnNames-select p (x ∷ l) (hx, own) = elim (Bool-cases (p x)) [
  | inl kept ↦ rw kept (All-select _ p l hx, HaveOwnNames-select p l own)
  | inr dropped ↦ rw dropped (HaveOwnNames-select p l own)
]

without_job-absent :
    (job : Job) (l : List Job) → All (λ o. o.meta.name ≢ job.meta.name) l → without_job job l ≡ l
unfolding without_job
without_job-absent job [] h = refl
without_job-absent job (x ∷ l) (hx, h) = ground (arith, without_job-absent job l h)

-- No job of the list is named like `job`.
abbrev pub IsAbsent : List Job → Job → Type 0
IsAbsent l job = All (λ o. o.meta.name ≢ job.meta.name) l

pub without_jobs-absent : (jobs l : List Job) → All (IsAbsent l) jobs → without_jobs jobs l ≡ l
unfolding without_jobs
without_jobs-absent [] l h = refl
without_jobs-absent (job ∷ jobs) l (hj, h) =
    ap (without_jobs jobs) (without_job-absent job l hj) ∙ without_jobs-absent jobs l h

-- Of jobs with names of their own, no unchosen one is named like a chosen one.
pub IsAbsent-unchosen :
    (p : Job → Bool) (l : List Job)
    → HaveOwnNames l
    → All (IsAbsent (select (λ o. not (p o)) l)) (select p l)
IsAbsent-unchosen p [] own = tt
IsAbsent-unchosen p (x ∷ l) (hx, own) = elim (Bool-cases (p x)) [
  | inl kept ↦ rw kept (All-select _ _ l hx, IsAbsent-unchosen p l own)
  | inr dropped ↦ rw dropped (both (select p l) (All-select _ p l hx) (IsAbsent-unchosen p l own))
]
  where
    both :
        (jobs : List Job)
        → All (λ o. o.meta.name ≢ x.meta.name) jobs
        → All (IsAbsent (select (λ o. not (p o)) l)) jobs
        → All (IsAbsent (x ∷ select (λ o. not (p o)) l)) jobs
    both [] h k = tt
    both (job ∷ jobs) (hj, h) (kj, k) = ((λ e. hj (sym e), kj), both jobs h k)
