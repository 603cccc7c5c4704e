-- ===== src/System/Life.antt =====
-- The life of a run: from a module that is due for one to the outcome of the run's job.
use soyplane.Base.{◌≡◌, some, List, ok}
use soyplane.Api.{ObjectMeta, NamespacedName, TofuModule, TofuExecution}
use soyplane.Children.{latest}
use soyplane.Settings.{Libraries, Settings}
use soyplane.Cluster.{Cluster}
use soyplane.Cluster.Laws.{TracksOwners, ListsCreated, CreatesLater, KeepsParents, UpdatesModules}
use soyplane.Cluster.Interference.{
  KeepsExecutions, KeepsModules, ListsUpdated, ShowsCreated, CreatesJobs,
}
use soyplane.ModuleController.{owned_executions}
use soyplane.ModuleController
use soyplane.ModuleController.Runs.{Sees as SeesModule}
use soyplane.ExecutionController
use soyplane.ExecutionController.Cycle.{Sees}

abbrev pub key_of : ObjectMeta → NamespacedName
key_of meta = record { namespace = meta.namespace; name = meta.name }

module _ (C : Cluster) where
  -- The states that a Reconcile of the module, and of the run, leave.
  abbrev pub module_step : TofuModule → C.State → C.State
  module_step mdl s = (ModuleController.reconcile C (key_of mdl.meta) s).1

  abbrev pub run_step : (L : Libraries) → Settings L → TofuExecution → C.State → C.State
  run_step L cfg y s = (ExecutionController.reconcile C L cfg (key_of y.meta) s).1

  -- Others leave the module, the execution and the list of executions as they are; time goes by,
  -- and pods come and go.
  pub record Meanwhile (mdl : TofuModule) (y : TofuExecution) (s t : C.State) : Type 0 where
    pub same_module : C.get_module (key_of mdl.meta) t ≡ C.get_module (key_of mdl.meta) s
    pub same_execution : C.get_execution (key_of y.meta) t ≡ C.get_execution (key_of y.meta) s
    pub same_list : C.list_executions mdl.meta.namespace t ≡ C.list_executions mdl.meta.namespace s

  -- What the API server does that a life of a run rests on.
  pub record CarriesRuns : Type 0 where
    pub owners : TracksOwners C
    pub lists : ListsCreated C
    pub clock : CreatesLater C
    pub parents : KeepsParents C
    pub shows : ShowsCreated C
    pub jobs : CreatesJobs C
    pub updates : UpdatesModules C
    pub executions_stay : KeepsExecutions C
    pub modules_stay : KeepsModules C
    pub shown : ListsUpdated C

  module _ (laws : CarriesRuns) (mdl : TofuModule) where
    abbrev parent : NamespacedName
    parent = key_of mdl.meta

    -- Both the module and its new run can be read, and the run is the newest child.
    pub record Begun (y : TofuExecution) (s : C.State) : Type 0 where
      pub children : List TofuExecution
      pub sees : SeesModule C parent s mdl children
      pub newest : latest (owned_executions C mdl children) ≡ some y
      pub read : C.get_execution (key_of y.meta) s ≡ ok y
