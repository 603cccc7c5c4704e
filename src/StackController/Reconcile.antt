-- ===== src/StackController/Reconcile.antt =====
-- The reconciler of TofuStack objects, method by method.
use soyplane.Base.{
  String, Bool, true, false, ◌||◌, ◌&&◌, not, Option, none, some, List, Result, ok, err, Action,
  pure, fail, reads, lift, attempt, ◌>>=◌, ◌>>◌, if◌then◌else◌, ◌==◌, string_comparable, select,
  clone, or_make, index, insert, format_int,
}
use soyplane.Api.{NamespacedName, ObjectRef, TofuStack, TofuExecution}
use soyplane.Phase.{stack_generation_annotation, is_execution_terminal}
use soyplane.Children.{empty_meta, empty_status, generate_name_or, latest}
use soyplane.Cluster.{Cluster, Error, Requeue, done}

-- The stack's module, in the stack's own namespace if the reference names none.
unfoldable pub resolved_ref : TofuStack → ObjectRef
resolved_ref stk =
    let ref = stk.spec.module_ref in
    if ref.namespace == "" then record ref { namespace = stk.meta.namespace } else ref

-- createExecution down to its call of SetControllerReference.
unfoldable pub new_execution : TofuStack → TofuExecution
unfolding generate_name_or resolved_ref
new_execution stk =
    let template = stk.spec.execution_template in
    record {
      meta = record empty_meta {
        generate_name = generate_name_or template.metadata.generate_name stk.meta.name;
        namespace = stk.meta.namespace;
        labels = clone template.metadata.labels;
        annotations = some (
            insert stack_generation_annotation (format_int stk.meta.generation)
              (or_make (clone template.metadata.annotations)));
      };
      spec = record template.spec { module_ref = resolved_ref stk };
      status = empty_status;
    }

-- The marker that Reconcile compares with the stack's generation.
abbrev pub current_generation : TofuExecution → String
current_generation exec = index exec.meta.annotations stack_generation_annotation

-- Does the stack's spec ask for a new run, and has the last one ended?
unfoldable pub is_outdated : TofuStack → TofuExecution → Bool
unfolding is_execution_terminal
is_outdated stk exec =
    not (current_generation exec == format_int stk.meta.generation)
    && is_execution_terminal exec.status.phase

-- Does updateStackStatus assign a field?
unfoldable pub has_news : TofuStack → TofuExecution → Bool
has_news stk exec =
    not (stk.status.last_execution_name == exec.meta.name)
    || not (stk.status.phase == exec.status.phase)

-- The stack with the status that updateStackStatus writes.
unfoldable pub observed : TofuStack → TofuExecution → TofuStack
observed stk exec = record stk {
  status = record stk.status {
    last_execution_name = exec.meta.name;
    phase = exec.status.phase;
    observed_generation = stk.meta.generation;
  };
}

module _ (C : Cluster) where
  abbrev Does : Type 0 → Type 0
  Does A = Action C.State Error A

  unfoldable pub create_execution : TofuStack → Does TofuExecution
  create_execution stk = do
    let exec = new_execution stk
    meta ← lift (C.set_controller_reference stk.meta "TofuStack" exec.meta)
    C.create_execution (record exec { meta = meta })

  -- The loop of lastExecution.
  unfoldable pub owned_executions : TofuStack → List TofuExecution → List TofuExecution
  owned_executions stk = select (λ exec. C.is_controlled_by exec.meta stk.meta)

  unfoldable pub last_execution : TofuStack → Does (Option TofuExecution)
  last_execution stk = do
    children ← reads (C.list_executions stk.meta.namespace)
    pure (latest (owned_executions stk children))

  -- The answer of updateStackStatus to the API's: a conflict is no error.
  abbrev answer : Result Error (Unit {0}) → Does Bool
  answer (ok _) = pure true
  answer (err e) = if C.is_conflict e then pure false else fail e

  unfoldable pub update_stack_status : TofuStack → TofuExecution → Does Bool
  update_stack_status stk exec =
      let written = attempt (C.update_stack_status (observed stk exec)) >>= answer in
      if has_news stk exec then written else pure false

  -- Reconcile where there is a last execution.
  unfoldable pub reconcile_child : TofuStack → TofuExecution → Does Requeue
  unfolding create_execution update_stack_status
  reconcile_child stk exec =
      if is_outdated stk exec
      then create_execution stk >> pure done
      else update_stack_status stk exec >> pure done

  -- Reconcile once the stack is fetched.
  unfoldable pub reconcile_stack : TofuStack → Does Requeue
  unfolding last_execution reconcile_child create_execution
  reconcile_stack stk = do
    last ← last_execution stk
    elim last [ none ↦ create_execution stk >> pure done | some exec ↦ reconcile_child stk exec ]

  -- What Reconcile returns when its Get fails.
  abbrev not_fetched : Option Error → Does Requeue
  not_fetched none = pure done
  not_fetched (some e) = fail e

  abbrev fetched : Result Error TofuStack → Does Requeue
  fetched (ok stk) = reconcile_stack stk
  fetched (err e) = not_fetched (C.ignore_not_found e)

  unfoldable pub reconcile : NamespacedName → Does Requeue
  unfolding reconcile_stack
  reconcile name = attempt (reads (C.get_stack name)) >>= fetched
