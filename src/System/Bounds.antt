-- ===== src/System/Bounds.antt =====
-- How many runs a module can have, however often its Reconcile is called.
use soyplane.Base.{◌≡◌, refl, inl, String, ℕ, List, ok, format_int}
use soyplane.Api.{ObjectMeta, TofuExecution}
use soyplane.Settings.{Libraries}
use soyplane.Cluster.{Cluster}
use soyplane.Runs.Bounds.{AtMostOne, Move-AtMostOne}
use soyplane.System.{Kind, Leads, start, later, AllAlong}
use soyplane.System.Owner.{KeepsLaws, owner_runs, IsWanted}
use soyplane.System.Moves.{Step-Moves}

-- The owner, if it is there, has this generation.
abbrev pub IsAtGeneration : (C : Cluster) → Kind → ObjectMeta → ℕ → C.State → Type 0
IsAtGeneration C kind owner g s =
    (wanted : String) → IsWanted C owner kind s wanted → wanted ≡ format_int g

module _ (C : Cluster) (L : Libraries) (laws : KeepsLaws C) (kind : Kind) (owner : ObjectMeta) where
  -- While the module or stack of that UID, wherever it is read, has one generation, at most one
  -- run of it is started, and that for this generation, however often the three controllers
  -- reconcile what objects in what order, and whatever others do to other objects. Assumed of the
  -- cluster: the laws in `KeepsLaws`; that others leave the executions alone; and, at each state
  -- before a step, that no stack has a module's UID, nor a module a stack's, that Get and List
  -- agree on the phases, and that the newest job of an execution that has ended has a pod that
  -- failed or succeeded.
  pub one_run_per_generation :
      (g : ℕ) {s t : C.State} {l : List TofuExecution}
      → C.list_executions owner.namespace s ≡ ok l
      → (history : Leads C L kind owner s t) → AllAlong C L (IsAtGeneration C kind owner g) history
      → (l' : List TofuExecution) × (C.list_executions owner.namespace t ≡ ok l')
        × AtMostOne (format_int g) (owner_runs C owner kind l) (owner_runs C owner kind l')
  one_run_per_generation g {l} listed start along = (l, listed, inl refl)
  one_run_per_generation g {l = l} listed (later before sane step) (here, along) =
      let (l', listed', bound) = one_run_per_generation g listed before along in
      let (l'', listed'', moved) = Step-Moves C L laws owner kind sane step listed' in
      (l'', listed'', Move-AtMostOne (owner_runs C owner kind l) here moved bound)
