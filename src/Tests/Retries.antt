-- ===== src/Tests/Retries.antt =====
-- A module at generation 2, whose run of generation 1 has a job with one pod that failed and one
-- that is active.
use text.Mathlib.TextEquality.{eq_iff}
use soyplane.Base.{
  ◌≡◌, ◌≢◌, refl, String, some, List, [], ◌∷◌, ok, arith, format_int, text_dec, newest_first,
  insert_newest, index, insert,
}
use soyplane.Api.{TofuExecution, Job}
use soyplane.Phase.{is_execution_terminal}
use soyplane.Children.{latest}
use soyplane.Cluster.{done}
use soyplane.Cluster.Memory.{Store, memory}
use soyplane.Cluster.Memory.Laws.{
  memory_tracks_owners, memory_lists_created, memory_creates_later, memory_updates_executions,
}
use soyplane.Cluster.Memory.Interference.{
  memory_keeps_executions, memory_keeps_modules, memory_lists_updated,
}
use soyplane.ModuleController
use soyplane.ModuleController.{new_execution, owned_executions, current_generation, is_outdated}
use soyplane.ModuleController.Runs.{IsChild, Sees as SeesModule}
use soyplane.ExecutionController
use soyplane.ExecutionController.{
  job_time, owned_jobs, phase_of, sync_status, sync_execution, requeue_for,
}
use soyplane.ExecutionController.Cycle.{Sees}
use soyplane.System.Retry.{failed_pod_frees_module}
use soyplane.Tests.Fixtures.{key_of, module_at, empty_store}
use soyplane.Tests.Files.{libraries}
use soyplane.Tests.Executions.{exec, key, job_at, failed_pod, loaded}

abbrev old_run : TofuExecution
old_run = record exec {
  meta = record exec.meta { annotations = (new_execution (module_at 1)).meta.annotations };
}

abbrev retried : Job
retried = record (job_at "a" 3) { status = failed_pod }

abbrev store : Store
store = record empty_store { executions = old_run ∷ []; jobs = retried ∷ [] }

Sees-parent : SeesModule memory (key_of (module_at 2).meta) store (module_at 2) (old_run ∷ [])
unfolding text_dec new_execution
Sees-parent = record { module_read = refl; children_read = refl }

run_is_latest : latest (owned_executions memory (module_at 2) (old_run ∷ [])) ≡ some old_run
unfolding text_dec owned_executions latest newest_first
run_is_latest = refl

texts_differ : ◌≢◌ {A = String} "1" "2"
texts_differ = ground (arith, eq_iff "1" "2")

run_is_old : current_generation old_run ≢ format_int 2
unfolding text_dec new_execution format_int index insert
run_is_old = texts_differ

Sees-retried : Sees memory key store old_run (retried ∷ [])
unfolding text_dec new_execution
Sees-retried = record { execution_read = refl; jobs_read = refl }

job_is_alone : newest_first job_time (owned_jobs memory old_run (retried ∷ [])) ≡ retried ∷ []
unfolding text_dec owned_jobs newest_first insert_newest
job_is_alone = refl

sync_goes_well : (ExecutionController.reconcile memory libraries loaded key store).0 ≡ ok done
unfolding text_dec ExecutionController.reconcile owned_jobs phase_of sync_status sync_execution
    requeue_for new_execution newest_first insert_newest
sync_goes_well = refl

next_run_starts :
    let (_, t) = ExecutionController.reconcile memory libraries loaded key store in
    (ModuleController.reconcile memory (key_of (module_at 2).meta) t).0 ≡ ok done
unfolding text_dec ExecutionController.reconcile owned_jobs phase_of sync_status sync_execution
    requeue_for new_execution newest_first insert_newest ModuleController.reconcile owned_executions
    latest is_outdated is_execution_terminal format_int index insert
next_run_starts = refl

failed_pod_frees_module_example :
    let (_, t) = ExecutionController.reconcile memory libraries loaded key store in
    ((x : TofuExecution) × (memory.get_execution key t ≡ ok x) × (x.status.phase ≡ "Failed"))
    × (memory.list_jobs "default" t ≡ ok (retried ∷ []))
    × (ExecutionController.reconcile memory libraries loaded key t ≡ (ok done, t))
    × ((y : TofuExecution) × (children : List TofuExecution) × (memory.list_executions "default"
            (ModuleController.reconcile memory (key_of (module_at 2).meta) t).1
          ≡ ok children)
        × (latest (owned_executions memory (module_at 2) children) ≡ some y)
        × IsChild memory (module_at 2) y
        × (current_generation y ≡ format_int 2))
unfolding new_execution
failed_pod_frees_module_example =
    failed_pod_frees_module memory libraries loaded memory_keeps_executions memory_keeps_modules
      memory_lists_updated memory_updates_executions memory_tracks_owners memory_lists_created
      memory_creates_later retried Sees-parent run_is_latest run_is_old Sees-retried job_is_alone
      (omega arith) sync_goes_well next_run_starts
