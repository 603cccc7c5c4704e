-- ===== src/ModuleController/Reconcile.antt =====
-- The reconciler of TofuModule objects, method by method.
use soyplane.Base.{
  String, Bool, true, false, ◌||◌, ◌&&◌, not, Option, none, some, List, Result, ok, err, Action,
  pure, fail, reads, lift, attempt, ◌>>=◌, ◌>>◌, if◌then◌else◌, ◌==◌, string_comparable, select,
  clone, or_make, index, insert, format_int,
}
use soyplane.Api.{NamespacedName, TofuModule, TofuExecution}
use soyplane.Phase.{module_generation_annotation, is_execution_terminal}
use soyplane.Children.{empty_meta, empty_status, generate_name_or, latest}
use soyplane.Cluster.{Cluster, Error, Requeue, done}

-- createExecution down to its call of SetControllerReference.
unfoldable pub new_execution : TofuModule → TofuExecution
unfolding generate_name_or
new_execution mdl =
    let template = mdl.spec.execution_template in
    record {
      meta = record empty_meta {
        generate_name = generate_name_or template.metadata.generate_name mdl.meta.name;
        namespace = mdl.meta.namespace;
        labels = some (or_make (clone template.metadata.labels));
        annotations = some (
            insert module_generation_annotation (format_int mdl.meta.generation)
              (or_make (clone template.metadata.annotations)));
      };
      spec = record template.spec {
        module_ref = record { name = mdl.meta.name; namespace = mdl.meta.namespace };
      };
      status = empty_status;
    }

-- The marker that Reconcile compares with the module's generation.
abbrev pub current_generation : TofuExecution → String
current_generation exec = index exec.meta.annotations module_generation_annotation

-- Does the module's spec ask for a new run, and has the last one ended?
unfoldable pub is_outdated : TofuModule → TofuExecution → Bool
unfolding is_execution_terminal
is_outdated mdl exec =
    not (current_generation exec == format_int mdl.meta.generation)
    && is_execution_terminal exec.status.phase

-- Does updateModuleStatus assign a field?
unfoldable pub has_news : TofuModule → TofuExecution → Bool
has_news mdl exec =
    not (mdl.status.last_execution_name == exec.meta.name)
    || not (mdl.status.phase == exec.status.phase)

-- The module with the status that updateModuleStatus writes.
unfoldable pub observed : TofuModule → TofuExecution → TofuModule
observed mdl exec = record mdl {
  status = record mdl.status {
    last_execution_name = exec.meta.name;
    phase = exec.status.phase;
    observed_generation = mdl.meta.generation;
  };
}

module _ (C : Cluster) where
  abbrev Does : Type 0 → Type 0
  Does A = Action C.State Error A

  unfoldable pub create_execution : TofuModule → Does TofuExecution
  create_execution mdl = do
    let exec = new_execution mdl
    meta ← lift (C.set_controller_reference mdl.meta "TofuModule" exec.meta)
    C.create_execution (record exec { meta = meta })

  -- The loop of lastExecution.
  unfoldable pub owned_executions : TofuModule → List TofuExecution → List TofuExecution
  owned_executions mdl = select (λ exec. C.is_controlled_by exec.meta mdl.meta)

  unfoldable pub last_execution : TofuModule → Does (Option TofuExecution)
  last_execution mdl = do
    children ← reads (C.list_executions mdl.meta.namespace)
    pure (latest (owned_executions mdl children))

  -- The answer of updateModuleStatus to the API's: a conflict is no error.
  abbrev answer : Result Error (Unit {0}) → Does Bool
  answer (ok _) = pure true
  answer (err e) = if C.is_conflict e then pure false else fail e

  unfoldable pub update_module_status : TofuModule → TofuExecution → Does Bool
  update_module_status mdl exec =
      let written = attempt (C.update_module_status (observed mdl exec)) >>= answer in
      if has_news mdl exec then written else pure false

  -- Reconcile where there is a last execution.
  unfoldable pub reconcile_child : TofuModule → TofuExecution → Does Requeue
  unfolding create_execution update_module_status
  reconcile_child mdl exec =
      if is_outdated mdl exec
      then create_execution mdl >> pure done
      else update_module_status mdl exec >> pure done

  -- Reconcile once the module is fetched.
  unfoldable pub reconcile_module : TofuModule → Does Requeue
  unfolding last_execution reconcile_child create_execution
  reconcile_module mdl = do
    last ← last_execution mdl
    elim last [ none ↦ create_execution mdl >> pure done | some exec ↦ reconcile_child mdl exec ]

  -- What Reconcile returns when its Get fails.
  abbrev not_fetched : Option Error → Does Requeue
  not_fetched none = pure done
  not_fetched (some e) = fail e

  abbrev fetched : Result Error TofuModule → Does Requeue
  fetched (ok mdl) = reconcile_module mdl
  fetched (err e) = not_fetched (C.ignore_not_found e)

  unfoldable pub reconcile : NamespacedName → Does Requeue
  unfolding reconcile_module
  reconcile name = attempt (reads (C.get_module name)) >>= fetched
