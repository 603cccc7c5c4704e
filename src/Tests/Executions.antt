-- ===== src/Tests/Executions.antt =====
-- The execution controller against the cluster in memory.
use text.Mathlib.TextEquality.{eq_iff}
use soyplane.Base.{
  ◌≡◌, ◌≢◌, refl, ap, String, true, not, some, List, [], ◌∷◌, ℕ, ok, err, arith, select,
  newest_first, insert_newest, text_dec,
}
use soyplane.Api.{NamespacedName, TofuExecution, Job, JobStatus}
use soyplane.Children.{empty_meta, empty_status}
use soyplane.Settings.{Settings, not_loaded, new_settings, execution, snapshot}
use soyplane.Cluster.{done, requeue_after_5s, api, invalid_settings}
use soyplane.Cluster.Memory.{Store, memory}
use soyplane.Cluster.Memory.Laws.{
  memory_handles_not_found, memory_updates_executions, memory_deletes_jobs,
}
use soyplane.ModuleController.{new_execution}
use soyplane.ExecutionController.{
  job_time, phase_of, sync_status, requeue_for, empty_job_status, owned_jobs, job_of,
  sync_execution, new_job, reconcile,
}
use soyplane.ExecutionController.Sync.{expected_status}
use soyplane.ExecutionController.Jobs.{is_mine, job_of_keeps_newest}
use soyplane.ExecutionController.Calls.{next_look, in_line, reconcile_calls}
use soyplane.ExecutionController.Cycle.{
  Sees, refuses_without_settings, reconcile_execution_read_errors, reconcile_execution_settles,
}
use soyplane.Tests.Fixtures.{module_at, empty_store}
use soyplane.Tests.Files.{libraries, defaulted}

abbrev pub exec : TofuExecution
exec = record {
  meta = record (new_execution (module_at 2)).meta {
    name = "null-module-1";
    uid = "null-module-1";
    creation_timestamp = 1;
    owner_references =
        record { kind = "TofuModule"; name = "null-module"; uid = "null-module"; controller = true }
        ∷ [];
  };
  spec = (new_execution (module_at 2)).spec;
  status = empty_status;
}

abbrev pub key : NamespacedName
key = record { namespace = "default"; name = "null-module-1" }

abbrev pub running_pod : JobStatus
running_pod = record empty_job_status { active = 1; start_time = some 7 }

abbrev pub failed_pod : JobStatus
failed_pod = record empty_job_status { active = 1; failed = 1 }

-- A job of the execution, created at some time.
abbrev pub job_at : String → ℕ → Job
job_at name time = record {
  meta = record empty_meta {
    name = name;
    namespace = "default";
    creation_timestamp = time;
    owner_references =
        record {
          kind = "TofuExecution";
          name = "null-module-1";
          uid = "null-module-1";
          controller = true;
        }
        ∷ [];
  };
  template = (new_job (module_at 2) "tofu" exec).template;
  status = running_pod;
}

abbrev pub store_with : List Job → Store
store_with jobs = record empty_store { executions = exec ∷ []; jobs = jobs }

abbrev pub loaded : Settings libraries
loaded = record (new_settings libraries) { cached = defaulted; settings_ready = true }

abbrev two_jobs : List Job
two_jobs = job_at "b" 2 ∷ job_at "a" 3 ∷ []

abbrev pub one_job : List Job
one_job = job_at "a" 3 ∷ []

Sees-two : Sees memory key (store_with two_jobs) exec two_jobs
unfolding text_dec new_execution
Sees-two = record { execution_read = refl; jobs_read = refl }

pub Sees-one : Sees memory key (store_with one_job) exec one_job
unfolding text_dec new_execution
Sees-one = record { execution_read = refl; jobs_read = refl }

Sees-none : Sees memory key (store_with []) exec []
unfolding text_dec new_execution
Sees-none = record { execution_read = refl; jobs_read = refl }

names_differ : ◌≢◌ {A = String} "a" "b"
names_differ = ground (arith, eq_iff "a" "b")

two_sorted :
    newest_first job_time (owned_jobs memory exec two_jobs) ≡ job_at "a" 3 ∷ job_at "b" 2 ∷ []
unfolding text_dec owned_jobs newest_first insert_newest
two_sorted = refl

pub one_sorted : newest_first job_time (owned_jobs memory exec one_job) ≡ job_at "a" 3 ∷ []
unfolding text_dec owned_jobs newest_first insert_newest
one_sorted = refl

pub goes_well : (reconcile memory libraries loaded key (store_with one_job)).0 ≡ ok requeue_after_5s
unfolding text_dec reconcile owned_jobs phase_of sync_status sync_execution requeue_for
    new_execution
goes_well = refl

job_of_keeps_newest_example :
    let s = store_with two_jobs in
    let t = (job_of memory exec s).1 in
    ((l : List Job) × (memory.list_jobs "default" t ≡ ok l)
      × (owned_jobs memory exec l ≡ job_at "a" 3 ∷ [])
      × (select (λ job. not (is_mine memory exec job)) l
          ≡ select (λ job. not (is_mine memory exec job)) two_jobs))
    × (job_of memory exec t ≡ (ok (some (job_at "a" 3)), t))
unfolding new_execution text_dec
job_of_keeps_newest_example =
    (job_of_keeps_newest memory exec (store_with two_jobs) two_jobs (job_at "a" 3)
        (job_at "b" 2 ∷ []) refl two_sorted).2
      memory_deletes_jobs (refl, (refl, tt)) ((names_differ, tt), (tt, tt)) (refl, tt)

reconcile_execution_settles_example :
    let t = (reconcile memory libraries loaded key (store_with one_job)).1 in
    (memory.get_execution key t
      ≡ ok (record exec { status = expected_status (job_at "a" 3) exec.status }))
    × (memory.list_jobs exec.meta.namespace t ≡ ok one_job)
    × (reconcile memory libraries loaded key t ≡ (ok (requeue_for (job_at "a" 3)), t))
reconcile_execution_settles_example =
    reconcile_execution_settles memory libraries loaded memory_updates_executions (job_at "a" 3)
      Sees-one one_sorted goes_well

running_is_no_blank : ◌≢◌ {A = String} "Running" ""
running_is_no_blank = ground (arith, eq_iff "Running" "")

status_is_news : (in_line memory exec (job_at "a" 3)).status ≢ exec.status
unfolding phase_of
status_is_news same = running_is_no_blank (ap (λ st. st.phase) same)

reconcile_calls_example :
    let s = store_with two_jobs in
    let t = (memory.delete_job (job_at "b" 2) s).1 in
    reconcile memory libraries loaded key s ≡ (
      ok (next_look (job_at "a" 3)),
      (memory.update_execution_status (in_line memory exec (job_at "a" 3)) t).1,
    )
reconcile_calls_example =
    (((reconcile_calls memory libraries loaded Sees-two).1 (job_at "a" 3) (job_at "b" 2 ∷ [])
          two_sorted).1
        status_is_news).0
      refl

no_job : owned_jobs memory exec [] ≡ []
unfolding owned_jobs
no_job = refl

refuses_without_settings_example :
    reconcile memory libraries (new_settings libraries) key (store_with [])
    ≡ (err (invalid_settings not_loaded), store_with [])
unfolding text_dec new_execution execution snapshot new_settings
refuses_without_settings_example =
    refuses_without_settings memory libraries (new_settings libraries) {mdl = module_at 2}
      {e = not_loaded} Sees-none no_job refl refl

abbrev gone_key : NamespacedName
gone_key = record { namespace = "default"; name = "gone" }

reconcile_execution_read_errors_example :
    reconcile memory libraries loaded gone_key empty_store ≡ (ok done, empty_store)
reconcile_execution_read_errors_example =
    (reconcile_execution_read_errors memory libraries loaded memory_handles_not_found gone_key
        empty_store (api "NotFound" "not found")).0
      refl (unfold text_dec in refl)
