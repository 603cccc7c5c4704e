-- ===== src/Tests/Jobs.antt =====
-- The job that is made for an execution, and the phases and the status that a job gives.
use text.Mathlib.TextEquality.{eq_iff}
use soyplane.Base.{◌≡◌, ◌↔◌, ◌<>◌, refl, true, false, [], ◌∷◌, ok, arith, text_dec}
use soyplane.Api.{Job}
use soyplane.Phase.{is_execution_terminal}
use soyplane.Children.{empty_status}
use soyplane.Settings.{execution, snapshot}
use soyplane.Cluster.Memory.{memory}
use soyplane.ModuleController.{new_execution}
use soyplane.ExecutionController.{phase_of, sync_status, construct_job, new_job, image_of}
use soyplane.ExecutionController.Phases.{IsPhase, SomePodEnded, phase_of_terminal_iff}
use soyplane.ExecutionController.Sync.{expected_status, sync_status_exact}
use soyplane.ExecutionController.Handover.{repository, image_of_engine}
use soyplane.Tests.Fixtures.{module_at}
use soyplane.Tests.Files.{libraries}
use soyplane.Tests.Executions.{exec, running_pod, job_at, store_with, loaded}

abbrev pub made_job : Job
made_job =
    let job = new_job (module_at 2) "tofuutils/tenv:latest" exec in
    record job {
      meta = record job.meta {
        owner_references =
            record {
              kind = "TofuExecution";
              name = "null-module-1";
              uid = "null-module-1";
              controller = true;
            }
            ∷ [];
      };
    }

pub job_is_made : (construct_job memory libraries loaded exec (store_with [])).0 ≡ ok made_job
unfolding text_dec new_execution construct_job execution snapshot new_job
job_is_made = refl

image_of_engine_example :
    image_of "tofuutils/tenv:latest" exec.spec.engine ≡ repository exec.spec.engine.name <> ":1.9.0"
unfolding new_execution
image_of_engine_example =
    (image_of_engine "tofuutils/tenv:latest" (module_at 2) exec).1
      (ground (arith, eq_iff "1.9.0" ""))

sync_status_exact_example :
    ((sync_status (job_at "a" 3) empty_status).0 ≡ expected_status (job_at "a" 3) empty_status)
    × (((sync_status (job_at "a" 3) empty_status).1 ≡ false)
        ↔ (expected_status (job_at "a" 3) empty_status ≡ empty_status))
sync_status_exact_example = sync_status_exact (job_at "a" 3) empty_status

phase_of_terminal_iff_example :
    IsPhase (phase_of running_pod)
    × ((is_execution_terminal (phase_of running_pod) ≡ true) ↔ SomePodEnded running_pod)
phase_of_terminal_iff_example = phase_of_terminal_iff running_pod
