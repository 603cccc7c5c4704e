-- ===== src/Tests/Lives.antt =====
-- The whole life of the first run of a module, whose job succeeds.
use soyplane.Base.{true, [], ◌∷◌}
use soyplane.Api.{TofuModule, Job}
use soyplane.Cluster.Memory.{Store, memory}
use soyplane.ModuleController
use soyplane.ModuleController.{is_outdated}
use soyplane.ExecutionController
use soyplane.ExecutionController.{new_job}
use soyplane.System.Life.{module_step}
use soyplane.Tests.Fixtures.{module_at, empty_store}
use soyplane.Tests.Executions.{running_pod}
use soyplane.Tests.Waking.{module_run}

abbrev new_module : TofuModule
new_module = module_at 2

abbrev started : Store
started = record empty_store { executions = module_run ∷ [] }

abbrev its_job : Job
its_job =
    let job = new_job new_module "tofuutils/tenv:latest" module_run in
    record job {
      meta = record job.meta {
        owner_references =
            record { kind = "TofuExecution"; name = "null-module-1"; uid = "1"; controller = true }
            ∷ [];
      };
    }

abbrev succeeded_job : Job
succeeded_job = record its_job { status = record running_pod { active = 0; succeeded = 1 } }

abbrev ended : Store
ended = record started { jobs = succeeded_job ∷ [] }

abbrev with_job : Store
with_job = record started { jobs = its_job ∷ [] }

abbrev after_start : Store
after_start = module_step memory new_module empty_store
