-- ===== src/System/Overlap.antt =====
-- Reconciles of a module that are not whole steps: between its two reads and its write, the other
-- controllers and the users act.
pub mod Late
pub mod Order
use soyplane.Base.{◌≡◌, ◌>>◌, pure, none, some, List, arith, ok, Option-cases, inl, inr, Action}
use soyplane.Api.{ObjectMeta, NamespacedName, TofuModule, TofuExecution}
use soyplane.Settings.{Libraries}
use soyplane.Children.{latest}
use soyplane.Cluster.{Cluster, Error, Requeue, done}
use soyplane.ModuleController.{create_execution, reconcile_child, owned_executions, reconcile}
use soyplane.ModuleController.Runs.{Sees}
use soyplane.System.{Step, IsForeign, IsSane, a_module}

-- Where the Reconcile of the module is.
pub data Turn : Type 0 where
  idle : Turn
  has_module : TofuModule → Turn
  has_read : TofuModule → List TofuExecution → Turn

module _ (C : Cluster) where
  -- What Reconcile does once it has read the module and the executions.
  unfoldable pub finish_reconcile : TofuModule → List TofuExecution → Action C.State Error Requeue
  finish_reconcile mdl children = elim (latest (owned_executions C mdl children)) [
    | none ↦ create_execution C mdl >> pure done
    | some exec ↦ reconcile_child C mdl exec
  ]

  -- A Reconcile that nothing interrupts reads and then does this.
  pub reconcile-finish_reconcile :
      {name : NamespacedName} {s : C.State} {mdl : TofuModule} {children : List TofuExecution}
      → Sees C name s mdl children
      → reconcile C name s ≡ finish_reconcile mdl children s
  unfolding reconcile finish_reconcile
  reconcile-finish_reconcile {name} {s} {mdl} {children} sees =
      elim (Option-cases (latest (owned_executions C mdl children))) [
        | inl e ↦ ground (arith, sees)
        | inr (exec, e) ↦ ground (arith, sees)
      ]

  module _ (L : Libraries) (owner : ObjectMeta) where
    -- The states that follow one another from `s` while the Reconcile of the owner takes its
    -- turns: it reads the module, then the executions, then writes, or returns early; and at any
    -- time others make steps, none of which reconciles the owner.
    pub data Overlaps (s : C.State) : Turn → C.State → Type 0 where
      start : Overlaps s idle s
      reads_module :
          {t : C.State} (name : NamespacedName) (mdl : TofuModule)
          → Overlaps s idle t
          → C.get_module name t ≡ ok mdl
          → owner.uid ≡ mdl.meta.uid
          → mdl.meta.namespace ≡ owner.namespace
          → Overlaps s (has_module mdl) t
      reads_executions :
          {t : C.State} {mdl : TofuModule} (children : List TofuExecution)
          → Overlaps s (has_module mdl) t
          → C.list_executions mdl.meta.namespace t ≡ ok children
          → Overlaps s (has_read mdl children) t
      writes :
          {t : C.State} {mdl : TofuModule} {children : List TofuExecution}
          → Overlaps s (has_read mdl children) t
          → Overlaps s idle (finish_reconcile mdl children t).1
      gives_up : {turn : Turn} {t : C.State} → Overlaps s turn t → Overlaps s idle t
      meanwhile :
          {turn : Turn} {t u : C.State}
          → Overlaps s turn t
          → IsSane C L a_module owner t
          → (step : Step C L t u) → IsForeign C L owner step
          → Overlaps s turn u
