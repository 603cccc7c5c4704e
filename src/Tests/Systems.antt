-- ===== src/Tests/Systems.antt =====
-- Histories of the controllers on the cluster in memory.
use text.Mathlib.TextEquality.{eq_iff}
use soyplane.Base.{
  ◌≡◌, ◌≢◌, refl, String, true, false, some, List, [], ◌∷◌, ok, arith, format_int, text_dec,
  newest_first, subst, ◌==◌, ◌&&◌, string_comparable, All, insert, index,
}
use soyplane.Api.{NamespacedName, TofuModule, TofuExecution}
use soyplane.Children.{latest}
use soyplane.Cluster.{done}
use soyplane.Cluster.Memory.{memory}
use soyplane.Cluster.Memory.Laws.{
  memory_tracks_owners, memory_lists_created, memory_creates_later, memory_updates_modules,
  memory_updates_stacks,
}
use soyplane.Cluster.Memory.Interference.{
  memory_creates_apart, memory_keeps_executions, memory_lists_updated, memory_tracks_uids,
  memory_keeps_modules,
}
use soyplane.Runs.{Run}
use soyplane.Runs.Order.{IsOrderly, Extends}
use soyplane.ModuleController
use soyplane.ModuleController.{
  new_execution, owned_executions, is_outdated, has_news, observed, update_module_status,
}
use soyplane.ModuleController.Runs.{Sees as SeesModule}
use soyplane.ExecutionController
use soyplane.ExecutionController.{owned_jobs, phase_of, sync_status, sync_execution, requeue_for}
use soyplane.System.{a_module, IsSane, start, later, module_reconciled, others_act}
use soyplane.System.Owner.{KeepsLaws, owner_runs}
use soyplane.Runs.Bounds.{AtMostOne}
use soyplane.System.Bounds.{IsAtGeneration, one_run_per_generation}
use soyplane.System.History.{history-IsOrderly}
use soyplane.System.Overlap.{
  finish_reconcile, Overlaps, idle, start as start_idle, reads_module, reads_executions, writes,
  meanwhile,
}
use soyplane.System.Overlap.Order.{Overlaps-IsOrderly}
use soyplane.System.Report.{reported, job_phase_reaches_module}
use soyplane.Tests.Fixtures.{key_of, module_at}
use soyplane.Tests.Files.{libraries}
use soyplane.Tests.Modules.{ended}
use soyplane.Tests.Executions.{
  exec, key, job_at, one_job, loaded, store_with, Sees-one, one_sorted, goes_well,
}

memory-KeepsLaws : KeepsLaws memory
memory-KeepsLaws = record {
  owners = memory_tracks_owners;
  lists = memory_lists_created;
  clock = memory_creates_later;
  module_updates = memory_updates_modules;
  stack_updates = memory_updates_stacks;
  apart = memory_creates_apart;
  executions_stay = memory_keeps_executions;
  updates = memory_lists_updated;
  uids = memory_tracks_uids;
}

uids_differ : ◌≢◌ {A = String} "null-module" "null-stack"
uids_differ = ground (arith, eq_iff "null-module" "null-stack")

one_child :
    {l : List TofuExecution} → memory.list_executions "default" ended ≡ ok l → ended.executions ≡ l
unfolding text_dec new_execution
one_child listed = ground arith

ended-IsSane : IsSane memory libraries a_module (module_at 2).meta ended
unfolding text_dec new_execution owned_jobs newest_first
ended-IsSane = record {
  module_uids = λ name mdl read same. refl;
  stack_uids = λ name stk read same. absurd (ground (arith, uids_differ));
  reads_agree = λ name x l read listed.
      subst
        (All (λ z.
          (z.meta.name == x.meta.name && z.meta.namespace == x.meta.namespace) ≡ true
          → z.status.phase ≡ x.status.phase))
        (one_child listed) (λ it. ground arith, tt);
  jobs_kept = λ name x jobs first stale read final listed sorted.
      let none_yet : jobs ≡ [] = ground arith in absurd (ground arith);
}

abbrev parent : NamespacedName
parent = key_of (module_at 2).meta

abbrev runs : List TofuExecution → List Run
runs = owner_runs memory (module_at 2).meta a_module

ended-IsOrderly : IsOrderly (runs ended.executions)
unfolding text_dec new_execution newest_first
ended-IsOrderly = record { sequential = tt; spaced = tt }

ended_lists : memory.list_executions "default" ended ≡ ok ended.executions
unfolding text_dec new_execution
ended_lists = refl

history-IsOrderly_example :
    let t = (ModuleController.reconcile memory parent ended).1 in
    (l : List TofuExecution) × (memory.list_executions "default" t ≡ ok l)
    × IsOrderly (runs l)
    × Extends (runs ended.executions) (runs l)
history-IsOrderly_example =
    history-IsOrderly memory libraries memory-KeepsLaws a_module (module_at 2).meta ended_lists
      ended-IsOrderly (later start ended-IsSane (module_reconciled parent))

two_is_wanted : IsAtGeneration memory a_module (module_at 2).meta 2 ended
two_is_wanted wanted (name, mdl, read, own, is) = ground arith

one_run_per_generation_example :
    let t = (ModuleController.reconcile memory parent ended).1 in
    (l : List TofuExecution) × (memory.list_executions "default" t ≡ ok l)
    × AtMostOne (format_int 2) (runs ended.executions) (runs l)
one_run_per_generation_example =
    one_run_per_generation memory libraries memory-KeepsLaws a_module (module_at 2).meta 2
      ended_lists (later start ended-IsSane (module_reconciled parent)) (two_is_wanted, tt)

-- The module and its executions are read, someone does something else, and then comes the write.
ended-Overlaps :
    Overlaps memory libraries
      (module_at 2).meta
      ended
      idle
      (finish_reconcile memory (module_at 2) ended.executions ended).1
unfolding text_dec new_execution
ended-Overlaps = writes (
    meanwhile
      (reads_executions ended.executions
        (reads_module parent (module_at 2) start_idle refl refl refl) refl)
      ended-IsSane (others_act (λ ns. refl)) tt)

Overlaps-IsOrderly_example :
    let t = (finish_reconcile memory (module_at 2) ended.executions ended).1 in
    (l : List TofuExecution) × (memory.list_executions "default" t ≡ ok l)
    × IsOrderly (runs l)
    × Extends (runs ended.executions) (runs l)
Overlaps-IsOrderly_example =
    Overlaps-IsOrderly memory libraries memory-KeepsLaws (module_at 2).meta ended_lists
      ended-IsOrderly ended-Overlaps

Sees-child : SeesModule memory parent (store_with one_job) (module_at 2) (exec ∷ [])
unfolding text_dec new_execution
Sees-child = record { module_read = refl; children_read = refl }

child_is_latest : latest (owned_executions memory (module_at 2) (exec ∷ [])) ≡ some exec
unfolding text_dec owned_executions latest newest_first
child_is_latest = refl

child_is_current : is_outdated (module_at 2) (reported exec (job_at "a" 3)) ≡ false
unfolding text_dec is_outdated new_execution format_int index insert
child_is_current = refl

update_goes_well :
    let child = reported exec (job_at "a" 3) in
    (update_module_status memory
      (module_at 2)
      child
      (ExecutionController.reconcile memory libraries loaded key (store_with one_job)).1).0
    ≡ ok (has_news (module_at 2) child)
unfolding text_dec has_news update_module_status observed new_execution
    ExecutionController.reconcile owned_jobs newest_first phase_of sync_status sync_execution
    requeue_for
update_goes_well = refl

job_phase_reaches_module_example :
    let t = (ExecutionController.reconcile memory libraries loaded key (store_with one_job)).1 in
    let u = (ModuleController.reconcile memory parent t).1 in
    ((mdl : TofuModule) × (memory.get_module parent u ≡ ok mdl)
      × (mdl.status.last_execution_name ≡ "null-module-1")
      × (mdl.status.phase ≡ "Running"))
    × (ModuleController.reconcile memory parent u ≡ (ok done, u))
unfolding phase_of
job_phase_reaches_module_example =
    job_phase_reaches_module memory memory_keeps_executions memory_keeps_modules
      memory_lists_updated memory_updates_modules libraries loaded Sees-child child_is_latest
      Sees-one one_sorted child_is_current goes_well update_goes_well
