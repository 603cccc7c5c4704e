-- ===== src/System.antt =====
-- The three controllers on one cluster, in any order. A step is a whole Reconcile of one object,
-- whatever it returns, or anything else that happens: a user edits a module or a stack, a pod
-- ends, a job is created, time goes by.
pub mod Owner
pub mod Parents
pub mod Moves
pub mod History
pub mod Bounds
pub mod Report
pub mod Rest
pub mod Retry
pub mod Life
pub mod Overlap
use soyplane.Base.{
  string_comparable, ◌≡◌, ◌≢◌, String, true, List, ◌∷◌, ok, ◌==◌, ◌&&◌, All, newest_first,
}
use soyplane.Api.{ObjectMeta, NamespacedName, TofuModule, TofuStack, TofuExecution, Job}
use soyplane.Phase.{is_execution_terminal}
use soyplane.Settings.{Libraries, Settings}
use soyplane.Cluster.{Cluster}
use soyplane.ModuleController
use soyplane.StackController
use soyplane.ExecutionController
use soyplane.ExecutionController.{job_time, owned_jobs, phase_of}

-- The objects that executions belong to.
pub data Kind : Type 0 where
  a_module : Kind
  a_stack : Kind

module _ (C : Cluster) (L : Libraries) where
  pub data Step (s : C.State) : C.State → Type 0 where
    module_reconciled : (name : NamespacedName) → Step s (ModuleController.reconcile C name s).1
    stack_reconciled : (name : NamespacedName) → Step s (StackController.reconcile C name s).1
    execution_reconciled :
        (cfg : Settings L) (name : NamespacedName)
        → Step s (ExecutionController.reconcile C L cfg name s).1
    -- Whatever leaves the executions as they are listed.
    others_act :
        {t : C.State} → ((ns : String) → C.list_executions ns t ≡ C.list_executions ns s) → Step s t

  -- What the cluster promises, at the states of a history, of the parent of this kind with the
  -- UID and in the namespace of `owner`: the UID is its own, Get and List agree, and an execution
  -- that has ended keeps the job that ended it, with a failed or succeeded pod.
  pub record IsSane (kind : Kind) (owner : ObjectMeta) (s : C.State) : Type 0 where
    pub module_uids :
        (name : NamespacedName) (mdl : TofuModule)
        → C.get_module name s ≡ ok mdl
        → owner.uid ≡ mdl.meta.uid
        → kind ≡ a_module
    pub stack_uids :
        (name : NamespacedName) (stk : TofuStack)
        → C.get_stack name s ≡ ok stk
        → owner.uid ≡ stk.meta.uid
        → kind ≡ a_stack
    pub reads_agree :
        (name : NamespacedName) (x : TofuExecution) (l : List TofuExecution)
        → C.get_execution name s ≡ ok x
        → C.list_executions owner.namespace s ≡ ok l
        → All
            (λ z.
              (z.meta.name == x.meta.name && z.meta.namespace == x.meta.namespace) ≡ true
              → z.status.phase ≡ x.status.phase)
            l
    pub jobs_kept :
        (name : NamespacedName) (x : TofuExecution) (jobs : List Job) (first : Job)
        (stale : List Job)
        → C.get_execution name s ≡ ok x
        → is_execution_terminal x.status.phase ≡ true
        → C.list_jobs x.meta.namespace s ≡ ok jobs
        → newest_first job_time (owned_jobs C x jobs) ≡ first ∷ stale
        → is_execution_terminal (phase_of first.status) ≡ true

  -- The states that follow one another from `s`, all of them sane.
  pub data Leads (kind : Kind) (owner : ObjectMeta) (s : C.State) : C.State → Type 0 where
    start : Leads kind owner s s
    later :
        {t u : C.State}
        → Leads kind owner s t
        → IsSane kind owner t
        → Step t u
        → Leads kind owner s u

  -- What holds at each state of a history before its last step.
  abbrev pub AllAlong :
      {kind : Kind} {owner : ObjectMeta} {s t : C.State}
      → (C.State → Type 0)
      → Leads kind owner s t
      → Type 0
  AllAlong P start = Unit
  AllAlong P (later {t = t} before sane step) = P t × AllAlong P before

  -- A step that reconciles no module and no stack of the owner's UID.
  abbrev pub IsForeign : (owner : ObjectMeta) {s t : C.State} → Step s t → Type 0
  IsForeign owner {s} (module_reconciled name) =
      (mdl : TofuModule) → C.get_module name s ≡ ok mdl → owner.uid ≢ mdl.meta.uid
  IsForeign owner {s} (stack_reconciled name) =
      (stk : TofuStack) → C.get_stack name s ≡ ok stk → owner.uid ≢ stk.meta.uid
  IsForeign owner (execution_reconciled cfg name) = Unit
  IsForeign owner (others_act same) = Unit
