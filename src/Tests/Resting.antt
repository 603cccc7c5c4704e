-- ===== src/Tests/Resting.antt =====
-- A module whose run has two jobs, the newer one with a pod that succeeded: at rest after two
-- Reconciles.
use text.Mathlib.TextEquality.{eq_iff}
use soyplane.Base.{
  ◌≡◌, ◌≢◌, refl, String, true, false, some, List, [], ◌∷◌, ok, arith, format_int, text_dec,
  newest_first, insert_newest, index, insert,
}
use soyplane.Api.{Job}
use soyplane.Phase.{is_execution_terminal}
use soyplane.Children.{latest}
use soyplane.Cluster.{done}
use soyplane.Cluster.Memory.{Store, memory}
use soyplane.Cluster.Memory.Laws.{
  memory_updates_modules, memory_updates_executions, memory_deletes_jobs,
}
use soyplane.Cluster.Memory.Interference.{
  memory_keeps_executions, memory_keeps_modules, memory_keeps_runs, memory_lists_updated,
}
use soyplane.ModuleController
use soyplane.ModuleController.{
  new_execution, owned_executions, is_outdated, has_news, observed, update_module_status,
}
use soyplane.ModuleController.Runs.{Sees as SeesModule}
use soyplane.ExecutionController
use soyplane.ExecutionController.{
  job_time, owned_jobs, phase_of, sync_status, sync_execution, requeue_for,
}
use soyplane.ExecutionController.Cycle.{Sees}
use soyplane.System.Report.{reported}
use soyplane.System.Rest.{Task, run_tasks, controllers_come_to_rest}
use soyplane.Tests.Fixtures.{key_of, module_at}
use soyplane.Tests.Files.{libraries}
use soyplane.Tests.Executions.{exec, key, job_at, running_pod, loaded, store_with}

abbrev ended_job : Job
ended_job = record (job_at "a" 3) { status = record running_pod { active = 0; succeeded = 1 } }

abbrev stale_job : Job
stale_job = job_at "b" 2

abbrev jobs : List Job
jobs = stale_job ∷ ended_job ∷ []

abbrev store : Store
store = store_with jobs

Sees-parent : SeesModule memory (key_of (module_at 2).meta) store (module_at 2) (exec ∷ [])
unfolding text_dec new_execution
Sees-parent = record { module_read = refl; children_read = refl }

child_is_latest : latest (owned_executions memory (module_at 2) (exec ∷ [])) ≡ some exec
unfolding text_dec owned_executions latest newest_first
child_is_latest = refl

Sees-jobs : Sees memory key store exec jobs
unfolding text_dec new_execution
Sees-jobs = record { execution_read = refl; jobs_read = refl }

names_differ : ◌≢◌ {A = String} "a" "b"
names_differ = ground (arith, eq_iff "a" "b")

jobs_sorted : newest_first job_time (owned_jobs memory exec jobs) ≡ ended_job ∷ stale_job ∷ []
unfolding text_dec owned_jobs newest_first insert_newest
jobs_sorted = refl

child_is_current : is_outdated (module_at 2) (reported exec ended_job) ≡ false
unfolding text_dec is_outdated new_execution format_int index insert
child_is_current = refl

sync_goes_well : (ExecutionController.reconcile memory libraries loaded key store).0 ≡ ok done
unfolding text_dec ExecutionController.reconcile owned_jobs phase_of sync_status sync_execution
    requeue_for new_execution newest_first insert_newest
sync_goes_well = refl

report_goes_well :
    let child = reported exec ended_job in
    (update_module_status memory
      (module_at 2)
      child
      (ExecutionController.reconcile memory libraries loaded key store).1).0
    ≡ ok (has_news (module_at 2) child)
unfolding text_dec has_news update_module_status observed new_execution
    ExecutionController.reconcile owned_jobs newest_first phase_of sync_status sync_execution
    requeue_for
report_goes_well = refl

controllers_come_to_rest_example :
    let parent = key_of (module_at 2).meta in
    let t = (ExecutionController.reconcile memory libraries loaded key store).1 in
    let u = (ModuleController.reconcile memory parent t).1 in
    (ModuleController.reconcile memory parent u ≡ (ok done, u))
    × (ExecutionController.reconcile memory libraries loaded key u
        ≡ (ok (requeue_for ended_job), u))
    × ((tasks : List Task) → run_tasks memory libraries loaded parent key tasks u ≡ u)
    × (is_execution_terminal (phase_of ended_job.status) ≡ true → requeue_for ended_job ≡ done)
unfolding text_dec new_execution
controllers_come_to_rest_example =
    controllers_come_to_rest memory libraries loaded memory_keeps_runs memory_keeps_executions
      memory_keeps_modules memory_lists_updated memory_updates_modules memory_updates_executions
      memory_deletes_jobs Sees-parent child_is_latest Sees-jobs (refl, (refl, tt))
      ((names_differ, tt), (tt, tt)) jobs_sorted (refl, tt) child_is_current sync_goes_well
      report_goes_well
