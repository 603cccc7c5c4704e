-- ===== src/Cluster/Interference.antt =====
-- Documented behaviour that histories of several controllers assume: how the calls on one kind
-- of object show in the reads of another.
use soyplane.Base.{
  ◌≡◌, ◌≢◌, String, false, List, [], ok, err, if◌then◌else◌, ◌==◌, ◌&&◌, string_comparable, map,
}
use soyplane.Api.{ObjectMeta, NamespacedName, TofuModule, TofuExecution, TofuExecutionStatus, Job}
use soyplane.Cluster.{Cluster, Error}

-- The execution with the status of the other one, if that is the same object.
abbrev pub with_status_of : TofuExecution → TofuExecution → TofuExecution
with_status_of y z =
    if z.meta.name == y.meta.name && z.meta.namespace == y.meta.namespace
    then record z { status = y.status }
    else z

module _ (C : Cluster) where
  -- A creation shows in no other namespace, and a refused one nowhere.
  pub record CreatesApart : Type 0 where
    pub create_elsewhere :
        (ns : String) (x : TofuExecution) (s : C.State)
        → x.meta.namespace ≢ ns
        → C.list_executions ns (C.create_execution x s).1 ≡ C.list_executions ns s
    pub create_refused :
        (ns : String) (x : TofuExecution) (s : C.State) (e : Error)
        → (C.create_execution x s).0 ≡ err e
        → C.list_executions ns (C.create_execution x s).1 ≡ C.list_executions ns s

  -- Calls on jobs leave the executions alone.
  pub record KeepsExecutions : Type 0 where
    pub create_job_lists :
        (ns : String) (j : Job) (s : C.State)
        → C.list_executions ns (C.create_job j s).1 ≡ C.list_executions ns s
    pub delete_job_lists :
        (ns : String) (j : Job) (s : C.State)
        → C.list_executions ns (C.delete_job j s).1 ≡ C.list_executions ns s
    pub delete_job_reads :
        (k : NamespacedName) (j : Job) (s : C.State)
        → C.get_execution k (C.delete_job j s).1 ≡ C.get_execution k s

  -- A status update of an execution shows in the lists, and a refused one does not.
  pub record ListsUpdated : Type 0 where
    pub update_lists :
        (ns : String) (k : NamespacedName) (x : TofuExecution) (st : TofuExecutionStatus)
        (s : C.State) (l : List TofuExecution)
        → C.get_execution k s ≡ ok x
        → C.list_executions ns s ≡ ok l
        → (C.update_execution_status (record x { status = st }) s).0 ≡ ok tt
        → C.list_executions ns (C.update_execution_status (record x { status = st }) s).1
          ≡ ok (map (with_status_of (record x { status = st })) l)
    pub update_refused :
        (ns : String) (x : TofuExecution) (s : C.State) (e : Error)
        → (C.update_execution_status x s).0 ≡ err e
        → C.list_executions ns (C.update_execution_status x s).1 ≡ C.list_executions ns s

  -- IsControlledBy compares UIDs, and SetControllerReference gives an object that had no owner
  -- one controller.
  pub record TracksUids : Type 0 where
    pub controlled_by_uid :
        (object a b : ObjectMeta)
        → a.uid ≡ b.uid
        → C.is_controlled_by object a ≡ C.is_controlled_by object b
    pub set_excludes :
        (owner other : ObjectMeta) (kind : String) (object result : ObjectMeta)
        → object.owner_references ≡ []
        → C.set_controller_reference owner kind object ≡ ok result
        → other.uid ≢ owner.uid
        → C.is_controlled_by result other ≡ false

  -- Calls on jobs, and status updates of executions, leave the modules alone.
  pub record KeepsModules : Type 0 where
    pub delete_job_modules :
        (k : NamespacedName) (j : Job) (s : C.State)
        → C.get_module k (C.delete_job j s).1 ≡ C.get_module k s
    pub update_modules :
        (k : NamespacedName) (x : TofuExecution) (s : C.State)
        → C.get_module k (C.update_execution_status x s).1 ≡ C.get_module k s

  -- Status updates of modules leave the executions and the jobs alone.
  pub record KeepsRuns : Type 0 where
    pub module_update_reads :
        (k : NamespacedName) (m : TofuModule) (s : C.State)
        → C.get_execution k (C.update_module_status m s).1 ≡ C.get_execution k s
    pub module_update_jobs :
        (ns : String) (m : TofuModule) (s : C.State)
        → C.list_jobs ns (C.update_module_status m s).1 ≡ C.list_jobs ns s

  -- A created execution can be read by its name.
  pub record ShowsCreated : Type 0 where
    pub create_reads :
        (x y : TofuExecution) (s : C.State)
        → (C.create_execution x s).0 ≡ ok y
        → C.get_execution
            (record { namespace = y.meta.namespace; name = y.meta.name })
            (C.create_execution x s).1
          ≡ ok y

  -- Creating a job leaves the modules and the executions alone.
  pub record CreatesJobs : Type 0 where
    pub create_job_modules :
        (k : NamespacedName) (j : Job) (s : C.State)
        → C.get_module k (C.create_job j s).1 ≡ C.get_module k s
    pub create_job_reads :
        (k : NamespacedName) (j : Job) (s : C.State)
        → C.get_execution k (C.create_job j s).1 ≡ C.get_execution k s
