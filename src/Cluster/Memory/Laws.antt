-- ===== src/Cluster/Memory/Laws.antt =====
-- The cluster in memory keeps the laws of `Cluster/Laws`.
use native.Mathlib.Nat.{le_refl}
use soyplane.Base.{
  string_comparable, ℕ, ◌<◌, ◌≤◌, ◌≡◌, refl, String, true, List, [], ◌∷◌, ok, arith, ◌==◌, not,
  ◌&&◌, select, All, All-select, Bool-cases, inl, inr, subst,
}
use soyplane.Api.{NamespacedName, TofuExecution, TofuExecutionStatus, Job}
use soyplane.Cluster.Laws.{
  without_job, HandlesNotFound, TracksOwners, ListsCreated, CreatesLater, KeepsParents,
  UpdatesModules, UpdatesStacks, UpdatesExecutions, DeletesJobs,
}
use soyplane.Cluster.Memory.{next_time, find, replace, is_named, executions_in, jobs_in, memory}

pub memory_handles_not_found : HandlesNotFound memory
memory_handles_not_found = record { ignore_not_found_lem = λ e. refl }

pub memory_tracks_owners : TracksOwners memory
memory_tracks_owners = record {
  set_controls = λ owner kind object result h. ground arith;
  set_keeps = λ owner kind object result h. ground arith;
  controlled_by_refs = λ a b owner h. rw h refl;
}

earlier :
    (l : List TofuExecution) (n : ℕ) → next_time l ≤ n → All (λ z. z.meta.creation_timestamp < n) l
earlier [] n h = tt
earlier (x ∷ l) n h = (ground arith, earlier l n (ground arith))

pub memory_lists_created : ListsCreated memory
memory_lists_created = record {
  create_stores = λ x y s h. record {
    same_spec = ground arith;
    same_namespace = ground arith;
    same_labels = ground arith;
    same_annotations = ground arith;
    same_owners = ground arith;
    no_phase = ground arith;
  };
  create_lists = λ ns x y s l here made listed. ([], l, refl, ground arith);
}

pub memory_creates_later : CreatesLater memory
memory_creates_later = record {
  create_later = λ ns x y s l here made listed.
      let at : next_time s.executions ≡ y.meta.creation_timestamp = ground arith in
      let same : executions_in ns s.executions ≡ l = ground arith in
      subst (λ n. All (λ z. z.meta.creation_timestamp < n) l) at
        (subst (All (λ z. z.meta.creation_timestamp < next_time s.executions)) same (
          All-select _ (λ z. z.meta.namespace == ns) s.executions
            (earlier s.executions (next_time s.executions) (le_refl _))));
}

pub memory_keeps_parents : KeepsParents memory
memory_keeps_parents = record { modules_stay = λ k x s. refl; stacks_stay = λ k x s. refl }

pub memory_updates_modules : UpdatesModules memory
memory_updates_modules = record {
  get_updated = λ k m st s read fine. ground arith;
  get_refused = λ k m s e refused. ground arith;
  executions_stay = λ m ns s. ground arith;
}

pub memory_updates_stacks : UpdatesStacks memory
memory_updates_stacks = record {
  get_updated = λ k m st s read fine. ground arith;
  get_refused = λ k m s e refused. ground arith;
  executions_stay = λ m ns s. ground arith;
}

find-is_named :
    (k : NamespacedName) (x : TofuExecution) (l : List TofuExecution)
    → find k l ≡ ok x
    → is_named k x.meta ≡ true
find-is_named k x [] h = absurd (ground arith)
find-is_named k x (z ∷ l) h = elim (Bool-cases (is_named k z.meta)) [
  | inl here ↦ ground arith
  | inr there ↦ find-is_named k x l (ground arith)
]

find-replace :
    (k : NamespacedName) (x : TofuExecution) (st : TofuExecutionStatus) (l : List TofuExecution)
    → find k l ≡ ok x
    → find k (replace (record x { status = st }) l) ≡ ok (record x { status = st })
find-replace k x st [] h = absurd (ground arith)
find-replace k x st (z ∷ l) h =
    let named = find-is_named k x (z ∷ l) h in
    elim (Bool-cases (is_named k z.meta)) [
      | inl here ↦ ground arith
      | inr there ↦ ground (arith, find-replace k x st l (ground arith))
    ]

pub memory_updates_executions : UpdatesExecutions memory
memory_updates_executions = record {
  get_updated = λ k x st s read fine. find-replace k x st s.executions read;
  jobs_stay = λ x ns s. refl;
}

delete-lists :
    (ns : String) (job : Job) (l : List Job)
    → job.meta.namespace ≡ ns
    → jobs_in ns (
        select
          (λ o. not (o.meta.name == job.meta.name && o.meta.namespace == job.meta.namespace))
          l)
      ≡ without_job job (jobs_in ns l)
unfolding without_job
delete-lists ns job [] h = refl
delete-lists ns job (j ∷ l) h = ground (arith, delete-lists ns job l h)

pub memory_deletes_jobs : DeletesJobs memory
memory_deletes_jobs = record {
  delete_lists = λ ns job s l here fine listed. ground (arith, delete-lists ns job s.jobs here);
}
