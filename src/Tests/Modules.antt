-- ===== src/Tests/Modules.antt =====
-- The module controller against the cluster in memory.
use text.Mathlib.TextEquality.{eq_iff}
use soyplane.Base.{
  at_time, insert_newest, ◌≡◌, ◌≢◌, ◌↔◌, ◌≤◌, refl, String, true, false, some, List, [], ◌∷◌, ℕ, ok,
  All, arith, inl, inr, format_int, text_dec, index, newest_first, insert, ◌∙◌, ap,
}
use soyplane.Api.{NamespacedName, TofuModule, TofuExecution}
use soyplane.Phase.{is_execution_terminal}
use soyplane.ModuleController.Progress.{reconcile_starts_due_run}
use soyplane.Runs.{plan}
use soyplane.ModuleController.Refine.{module_runs, reconcile_refines_plan}
use soyplane.ModuleController.Marker.{outdated_iff}
use soyplane.ModuleController.Errors.{reconcile_read_errors, observed_generation_ahead}
use soyplane.Children.{creation_time, empty_status, latest}
use soyplane.Children.Serial.{IsSerial}
use soyplane.Children.Latest.{latest_first_of_newest}
use soyplane.Cluster.{done, api}
use soyplane.Cluster.Memory.{Store, memory}
use soyplane.Cluster.Memory.Laws.{
  memory_handles_not_found, memory_tracks_owners, memory_lists_created, memory_creates_later,
  memory_keeps_parents, memory_updates_modules,
}
use soyplane.ModuleController.{
  new_execution, owned_executions, current_generation, is_outdated, has_news, observed,
  update_module_status, reconcile,
}
use soyplane.ModuleController.Runs.{IsChild, Sees}
use soyplane.ModuleController.Repeat.{reconcile-IsSerial}
use soyplane.ModuleController.Rest.{reconcile_twice, reconcile_settles}
use soyplane.Tests.Fixtures.{key_of, module_at, empty_store}

-- The child that the module has at one generation.
abbrev child_at : ℕ → String → TofuExecution
child_at generation phase = record {
  meta = record (new_execution (module_at generation)).meta {
    name = "null-module-1";
    creation_timestamp = 1;
    owner_references =
        record { kind = "TofuModule"; name = "null-module"; uid = "null-module"; controller = true }
        ∷ [];
  };
  spec = (new_execution (module_at generation)).spec;
  status = record empty_status { phase = phase };
}

abbrev store_with : TofuExecution → Store
store_with child = record empty_store { executions = child ∷ [] }

abbrev pub ended : Store
ended = store_with (child_at 1 "Succeeded")

abbrev running : Store
running = store_with (child_at 1 "Running")

Sees-ended : Sees memory (key_of (module_at 2).meta) ended (module_at 2) ended.executions
unfolding text_dec new_execution
Sees-ended = record { module_read = refl; children_read = refl }

Sees-running : Sees memory (key_of (module_at 2).meta) running (module_at 2) running.executions
unfolding text_dec new_execution
Sees-running = record { module_read = refl; children_read = refl }

ended_is_latest :
    latest (owned_executions memory (module_at 2) ended.executions) ≡ some (child_at 1 "Succeeded")
unfolding text_dec owned_executions latest newest_first
ended_is_latest = refl

running_is_latest :
    latest (owned_executions memory (module_at 2) running.executions) ≡ some (child_at 1 "Running")
unfolding text_dec owned_executions latest newest_first
running_is_latest = refl

ended-IsSerial : IsSerial (owned_executions memory (module_at 2) ended.executions)
unfolding text_dec owned_executions is_execution_terminal
ended-IsSerial = (inl refl, tt)

ended_goes_well : (reconcile memory (key_of (module_at 2).meta) ended).0 ≡ ok done
unfolding text_dec reconcile owned_executions latest new_execution is_outdated is_execution_terminal
    format_int index newest_first insert
ended_goes_well = refl

reconcile-IsSerial_example :
    (children : List TofuExecution) × (memory.list_executions "default"
        (reconcile memory (key_of (module_at 2).meta) ended).1
      ≡ ok children)
    × IsSerial (owned_executions memory (module_at 2) children)
reconcile-IsSerial_example =
    reconcile-IsSerial memory Sees-ended memory_tracks_owners memory_lists_created
      memory_creates_later memory_updates_modules ended-IsSerial ended_goes_well

reconcile_twice_example :
    let t = (reconcile memory (key_of (module_at 2).meta) ended).1 in
    memory.list_executions "default" (reconcile memory (key_of (module_at 2).meta) t).1
    ≡ memory.list_executions "default" t
reconcile_twice_example =
    reconcile_twice memory Sees-ended memory_tracks_owners memory_lists_created memory_creates_later
      memory_keeps_parents memory_updates_modules ended_goes_well "default"

running_is_current : is_outdated (module_at 2) (child_at 1 "Running") ≡ false
unfolding text_dec is_outdated new_execution format_int index insert
running_is_current = refl

running_is_news : has_news (module_at 2) (child_at 1 "Running") ≡ true
unfolding text_dec has_news
running_is_news = refl

update_goes_well :
    (update_module_status memory (module_at 2) (child_at 1 "Running") running).0
    ≡ ok (has_news (module_at 2) (child_at 1 "Running"))
unfolding text_dec has_news update_module_status observed new_execution
update_goes_well = refl

reconcile_settles_example :
    let k = key_of (module_at 2).meta in
    let t = (reconcile memory k running).1 in
    ((mdl : TofuModule) × (memory.get_module k t ≡ ok mdl)
      × (mdl.status.last_execution_name ≡ "null-module-1")
      × (mdl.status.phase ≡ "Running"))
    × (reconcile memory k t ≡ (ok done, t))
reconcile_settles_example =
    reconcile_settles memory Sees-running memory_updates_modules running_is_latest
      running_is_current update_goes_well

outdated_iff_example : (is_outdated (module_at 2) (child_at 1 "Succeeded") ≡ true) ↔ (
    ((module_at 1).meta.generation ≢ (module_at 2).meta.generation)
    × (is_execution_terminal "Succeeded" ≡ true))
outdated_iff_example = outdated_iff (module_at 1) (module_at 2) (child_at 1 "Succeeded") refl

abbrev gone_key : NamespacedName
gone_key = record { namespace = "default"; name = "gone" }

reconcile_read_errors_example : reconcile memory gone_key empty_store ≡ (ok done, empty_store)
unfolding text_dec
reconcile_read_errors_example =
    (reconcile_read_errors memory memory_handles_not_found gone_key empty_store
        (api "NotFound" "not found")).0
      refl refl

blank_is_no_name : ◌≢◌ {A = String} "" "null-module-1"
blank_is_no_name = ground (arith, eq_iff "" "null-module-1")

update_is_accepted :
    (update_module_status memory (module_at 2) (child_at 1 "Running") running).0 ≡ ok true
update_is_accepted = update_goes_well ∙ ap ok running_is_news

observed_generation_ahead_example :
    (mdl : TofuModule) × (memory.get_module
        (key_of (module_at 2).meta)
        (reconcile memory (key_of (module_at 2).meta) running).1
      ≡ ok mdl)
    × (mdl.status.last_execution_name ≡ "null-module-1")
    × (mdl.status.phase ≡ "Running")
    × (mdl.status.observed_generation ≡ 2)
    × (current_generation (child_at 1 "Running") ≢ format_int mdl.status.observed_generation)
unfolding text_dec is_execution_terminal
observed_generation_ahead_example =
    observed_generation_ahead memory memory_updates_modules Sees-running (module_at 1)
      running_is_latest refl (ground arith) refl (inl blank_is_no_name) update_is_accepted

abbrev later_child : TofuExecution
later_child =
    let child = child_at 2 "Running" in
    record child { meta = record child.meta { creation_timestamp = 5 } }

latest_first_of_newest_example :
    All (λ y. creation_time y ≤ 5) (child_at 1 "Succeeded" ∷ later_child ∷ [])
    × ((rest : List TofuExecution) × (at_time creation_time 5
            (child_at 1 "Succeeded" ∷ later_child ∷ [])
          ≡ later_child ∷ rest))
unfolding latest newest_first insert_newest
latest_first_of_newest_example =
    latest_first_of_newest (child_at 1 "Succeeded" ∷ later_child ∷ []) refl

ended_has_ended : is_execution_terminal "Succeeded" ≡ true
unfolding is_execution_terminal text_dec
ended_has_ended = refl

ended_is_old : current_generation (child_at 1 "Succeeded") ≢ format_int 2
unfolding text_dec new_execution format_int index insert
ended_is_old = ground (arith, eq_iff "1" "2")

reconcile_starts_due_run_example :
    (y : TofuExecution) × (children : List TofuExecution) × (memory.list_executions "default"
        (reconcile memory (key_of (module_at 2).meta) ended).1
      ≡ ok children)
    × (latest (owned_executions memory (module_at 2) children) ≡ some y)
    × IsChild memory (module_at 2) y
    × (current_generation y ≡ format_int 2)
reconcile_starts_due_run_example =
    reconcile_starts_due_run memory Sees-ended memory_tracks_owners memory_lists_created
      memory_creates_later
      (inr (child_at 1 "Succeeded", ended_is_latest, ended_is_old, ended_has_ended)) ended_goes_well

reconcile_refines_plan_example :
    (children : List TofuExecution) × (memory.list_executions "default"
        (reconcile memory (key_of (module_at 2).meta) ended).1
      ≡ ok children)
    × (module_runs memory (module_at 2) children
        ≡ plan (format_int 2) (module_runs memory (module_at 2) ended.executions))
reconcile_refines_plan_example =
    reconcile_refines_plan memory Sees-ended memory_tracks_owners memory_lists_created
      memory_creates_later memory_updates_modules ended_goes_well
