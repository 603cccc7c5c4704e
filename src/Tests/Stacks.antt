-- ===== src/Tests/Stacks.antt =====
-- The stack controller against the cluster in memory.
use soyplane.Base.{
  ◌≡◌, refl, String, true, List, [], ◌∷◌, ℕ, ok, inl, format_int, text_dec, index, newest_first,
  insert,
}
use soyplane.Api.{TofuExecution}
use soyplane.Phase.{is_execution_terminal}
use soyplane.Runs.{plan}
use soyplane.StackController.Refine.{stack_runs, reconcile_stack_refines_plan}
use soyplane.Children.{empty_status, latest}
use soyplane.Children.Serial.{IsSerial}
use soyplane.Cluster.{done}
use soyplane.Cluster.Memory.{Store, memory}
use soyplane.Cluster.Memory.Laws.{
  memory_tracks_owners, memory_lists_created, memory_creates_later, memory_updates_stacks,
}
use soyplane.StackController.{new_execution, owned_executions, is_outdated, reconcile}
use soyplane.StackController.Runs.{Sees}
use soyplane.StackController.Repeat.{reconcile_stack-IsSerial}
use soyplane.Tests.Fixtures.{key_of, stack_at, empty_store}

-- The child that the stack has at one generation.
abbrev child_at : ℕ → String → TofuExecution
child_at generation phase = record {
  meta = record (new_execution (stack_at generation)).meta {
    name = "null-stack-1";
    creation_timestamp = 1;
    owner_references =
        record { kind = "TofuStack"; name = "null-stack"; uid = "null-stack"; controller = true }
        ∷ [];
  };
  spec = (new_execution (stack_at generation)).spec;
  status = record empty_status { phase = phase };
}

abbrev store_with : TofuExecution → Store
store_with child = record empty_store { executions = child ∷ [] }

abbrev ended : Store
ended = store_with (child_at 1 "Succeeded")

Sees-ended : Sees memory (key_of (stack_at 2).meta) ended (stack_at 2) ended.executions
unfolding text_dec new_execution
Sees-ended = record { stack_read = refl; children_read = refl }

ended-IsSerial : IsSerial (owned_executions memory (stack_at 2) ended.executions)
unfolding text_dec owned_executions is_execution_terminal
ended-IsSerial = (inl refl, tt)

ended_goes_well : (reconcile memory (key_of (stack_at 2).meta) ended).0 ≡ ok done
unfolding text_dec reconcile owned_executions latest new_execution is_outdated is_execution_terminal
    format_int index newest_first insert
ended_goes_well = refl

reconcile_stack-IsSerial_example :
    (children : List TofuExecution) × (memory.list_executions "default"
        (reconcile memory (key_of (stack_at 2).meta) ended).1
      ≡ ok children)
    × IsSerial (owned_executions memory (stack_at 2) children)
reconcile_stack-IsSerial_example =
    reconcile_stack-IsSerial memory Sees-ended memory_tracks_owners memory_lists_created
      memory_creates_later memory_updates_stacks ended-IsSerial ended_goes_well

reconcile_stack_refines_plan_example :
    (children : List TofuExecution) × (memory.list_executions "default"
        (reconcile memory (key_of (stack_at 2).meta) ended).1
      ≡ ok children)
    × (stack_runs memory (stack_at 2) children
        ≡ plan (format_int 2) (stack_runs memory (stack_at 2) ended.executions))
reconcile_stack_refines_plan_example =
    reconcile_stack_refines_plan memory Sees-ended memory_tracks_owners memory_lists_created
      memory_creates_later memory_updates_stacks ended_goes_well
