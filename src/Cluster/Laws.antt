-- ===== src/Cluster/Laws.antt =====
-- Behaviour of the API server and of apimachinery that theorems assume, by topic. It is documented
-- but for `CreatesLater`, which no document promises: the server counts creation times in seconds,
-- so that two objects made within a second have the same time. The laws that speak of a read
-- after a write hold of a client that reads what was written; a reconciler whose cache is behind
-- gets no such promise, and theorems that need none say so by not taking these.
use soyplane.Base.{
  ◌<◌, ◌≡◌, String, true, none, some, List, ◌∷◌, ◌++◌, ok, err, if◌then◌else◌, ◌==◌,
  string_comparable, not, select, All,
}
use soyplane.Api.{
  ObjectMeta, NamespacedName, TofuModule, TofuModuleStatus, TofuStack, TofuStackStatus,
  TofuExecution, TofuExecutionStatus, Job,
}
use soyplane.Cluster.{Cluster, Error}

-- The jobs of the list but those named as `job` is.
unfoldable pub without_job : Job → List Job → List Job
without_job job = select (λ other. not (other.meta.name == job.meta.name))

module _ (C : Cluster) where
  -- client.IgnoreNotFound
  pub record HandlesNotFound : Type 0 where
    pub ignore_not_found_lem :
        (e : Error) → C.ignore_not_found e ≡ (if C.is_not_found e then none else some e)

  -- ctrl.SetControllerReference adds an owner reference and nothing else; IsControlledBy reads
  -- only the owner references.
  pub record TracksOwners : Type 0 where
    pub set_controls :
        (owner : ObjectMeta) (kind : String) (object result : ObjectMeta)
        → C.set_controller_reference owner kind object ≡ ok result
        → C.is_controlled_by result owner ≡ true
    pub set_keeps :
        (owner : ObjectMeta) (kind : String) (object result : ObjectMeta)
        → C.set_controller_reference owner kind object ≡ ok result
        → result ≡ record object { owner_references = result.owner_references }
    pub controlled_by_refs :
        (a b owner : ObjectMeta)
        → a.owner_references ≡ b.owner_references
        → C.is_controlled_by a owner ≡ C.is_controlled_by b owner

  -- What the server stores of a new execution: all but the name, the identity and the status.
  pub record Stored (given stored : TofuExecution) : Type 0 where
    pub same_spec : stored.spec ≡ given.spec
    pub same_namespace : stored.meta.namespace ≡ given.meta.namespace
    pub same_labels : stored.meta.labels ≡ given.meta.labels
    pub same_annotations : stored.meta.annotations ≡ given.meta.annotations
    pub same_owners : stored.meta.owner_references ≡ given.meta.owner_references
    pub no_phase : stored.status.phase ≡ ""

  -- A created execution is listed, among those that were.
  pub record ListsCreated : Type 0 where
    pub create_stores :
        (x y : TofuExecution) (s : C.State) → (C.create_execution x s).0 ≡ ok y → Stored x y
    pub create_lists :
        (ns : String) (x y : TofuExecution) (s : C.State) (l : List TofuExecution)
        → x.meta.namespace ≡ ns
        → (C.create_execution x s).0 ≡ ok y
        → C.list_executions ns s ≡ ok l
        → (before : List TofuExecution) × (after : List TofuExecution) × (l ≡ before ++ after)
          × (C.list_executions ns (C.create_execution x s).1 ≡ ok (before ++ (y ∷ after)))

  -- The creation time of a new execution is later than all that are listed. No document promises
  -- this: it says that no two executions of a namespace are created in one second, and that the
  -- clock is never set back.
  pub record CreatesLater : Type 0 where
    pub create_later :
        (ns : String) (x y : TofuExecution) (s : C.State) (l : List TofuExecution)
        → x.meta.namespace ≡ ns
        → (C.create_execution x s).0 ≡ ok y
        → C.list_executions ns s ≡ ok l
        → All (λ z. z.meta.creation_timestamp < y.meta.creation_timestamp) l

  -- Creating an execution leaves the modules and the stacks alone.
  pub record KeepsParents : Type 0 where
    pub modules_stay :
        (k : NamespacedName) (x : TofuExecution) (s : C.State)
        → C.get_module k (C.create_execution x s).1 ≡ C.get_module k s
    pub stacks_stay :
        (k : NamespacedName) (x : TofuExecution) (s : C.State)
        → C.get_stack k (C.create_execution x s).1 ≡ C.get_stack k s

  -- A status update replaces the status that a later read finds, and no other object; a refused
  -- one replaces nothing.
  pub record UpdatesModules : Type 0 where
    pub get_updated :
        (k : NamespacedName) (m : TofuModule) (st : TofuModuleStatus) (s : C.State)
        → C.get_module k s ≡ ok m
        → (C.update_module_status (record m { status = st }) s).0 ≡ ok tt
        → C.get_module k (C.update_module_status (record m { status = st }) s).1
          ≡ ok (record m { status = st })
    pub get_refused :
        (k : NamespacedName) (m : TofuModule) (s : C.State) (e : Error)
        → (C.update_module_status m s).0 ≡ err e
        → C.get_module k (C.update_module_status m s).1 ≡ C.get_module k s
    pub executions_stay :
        (m : TofuModule) (ns : String) (s : C.State)
        → C.list_executions ns (C.update_module_status m s).1 ≡ C.list_executions ns s

  pub record UpdatesStacks : Type 0 where
    pub get_updated :
        (k : NamespacedName) (m : TofuStack) (st : TofuStackStatus) (s : C.State)
        → C.get_stack k s ≡ ok m
        → (C.update_stack_status (record m { status = st }) s).0 ≡ ok tt
        → C.get_stack k (C.update_stack_status (record m { status = st }) s).1
          ≡ ok (record m { status = st })
    pub get_refused :
        (k : NamespacedName) (m : TofuStack) (s : C.State) (e : Error)
        → (C.update_stack_status m s).0 ≡ err e
        → C.get_stack k (C.update_stack_status m s).1 ≡ C.get_stack k s
    pub executions_stay :
        (m : TofuStack) (ns : String) (s : C.State)
        → C.list_executions ns (C.update_stack_status m s).1 ≡ C.list_executions ns s

  pub record UpdatesExecutions : Type 0 where
    pub get_updated :
        (k : NamespacedName) (x : TofuExecution) (st : TofuExecutionStatus) (s : C.State)
        → C.get_execution k s ≡ ok x
        → (C.update_execution_status (record x { status = st }) s).0 ≡ ok tt
        → C.get_execution k (C.update_execution_status (record x { status = st }) s).1
          ≡ ok (record x { status = st })
    pub jobs_stay :
        (x : TofuExecution) (ns : String) (s : C.State)
        → C.list_jobs ns (C.update_execution_status x s).1 ≡ C.list_jobs ns s

  -- A job that was deleted is listed no more, and the others are.
  pub record DeletesJobs : Type 0 where
    pub delete_lists :
        (ns : String) (job : Job) (s : C.State) (l : List Job)
        → job.meta.namespace ≡ ns
        → (C.delete_job job s).0 ≡ ok tt
        → C.list_jobs ns s ≡ ok l
        → C.list_jobs ns (C.delete_job job s).1 ≡ ok (without_job job l)
