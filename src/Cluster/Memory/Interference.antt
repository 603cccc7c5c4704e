-- ===== src/Cluster/Memory/Interference.antt =====
-- The cluster in memory keeps the laws of `Cluster/Interference`.
use soyplane.Base.{
  string_comparable, map-select, sym, ◌≡◌, refl, List, [], ◌∷◌, ok, arith, ◌==◌, ap, ◌∙◌,
}
use soyplane.Api.{ObjectMeta, OwnerReference}
use soyplane.Cluster.Interference.{
  with_status_of, CreatesApart, CreatesJobs, ShowsCreated, KeepsExecutions, KeepsModules, KeepsRuns,
  ListsUpdated, TracksUids,
}
use soyplane.Cluster.Memory.{controls, memory}

pub memory_creates_apart : CreatesApart memory
memory_creates_apart = record {
  create_elsewhere = λ ns x s there. ground arith;
  create_refused = λ ns x s e refused. absurd (ground arith);
}

pub memory_keeps_executions : KeepsExecutions memory
memory_keeps_executions = record {
  create_job_lists = λ ns j s. refl;
  delete_job_lists = λ ns j s. refl;
  delete_job_reads = λ k j s. refl;
}

pub memory_lists_updated : ListsUpdated memory
memory_lists_updated = record {
  update_lists = λ ns k x st s l read listed fine.
      let put = with_status_of (record x { status = st }) in
      let same = map-select (λ z. z.meta.namespace == ns) put (λ z. ground arith) s.executions in
      ap ok (sym same) ∙ ground arith;
  update_refused = λ ns x s e refused. absurd (ground arith);
}

controls-uid :
    (a b : ObjectMeta) (refs : List OwnerReference)
    → a.uid ≡ b.uid
    → controls a refs ≡ controls b refs
controls-uid a b [] e = refl
controls-uid a b (r ∷ refs) e = ground (arith, controls-uid a b refs e)

pub memory_tracks_uids : TracksUids memory
memory_tracks_uids = record {
  controlled_by_uid = λ object a b e. controls-uid a b object.owner_references e;
  set_excludes = λ owner other kind object result none made differ. ground arith;
}

pub memory_keeps_modules : KeepsModules memory
memory_keeps_modules = record { delete_job_modules = λ k j s. refl; update_modules = λ k x s. refl }

pub memory_keeps_runs : KeepsRuns memory
memory_keeps_runs = record {
  module_update_reads = λ k m s. ground arith;
  module_update_jobs = λ ns m s. ground arith;
}

pub memory_shows_created : ShowsCreated memory
memory_shows_created = record { create_reads = λ x y s made. ground arith }

pub memory_creates_jobs : CreatesJobs memory
memory_creates_jobs = record {
  create_job_modules = λ k j s. refl;
  create_job_reads = λ k j s. refl;
}
