-- ===== src/System/History.antt =====
-- What holds of the runs of a module however the controllers and the others take turns.
use soyplane.Base.{◌≡◌, List, ok}
use soyplane.Api.{ObjectMeta, TofuExecution}
use soyplane.Settings.{Libraries}
use soyplane.Cluster.{Cluster}
use soyplane.Runs.Order.{
  IsOrderly, Extends, Extends-refl, Extends-trans, Move-IsOrderly, Move-Extends,
}
use soyplane.System.{Kind, Leads, start, later}
use soyplane.System.Owner.{KeepsLaws, owner_runs}
use soyplane.System.Moves.{Step-Moves}

module _ (C : Cluster) (L : Libraries) (laws : KeepsLaws C) (kind : Kind) (owner : ObjectMeta) where
  -- However the Reconciles of modules, stacks and executions and the acts of others take turns,
  -- each of them whole, and whatever the Reconciles return, an orderly list of the runs of a
  -- module or stack stays orderly: all but the newest have ended, and no two in a row are for one
  -- generation. No run is ever lost or given another generation: the generations of the runs are
  -- those of before, with some in front. Assumed of the cluster: the laws in `KeepsLaws`; that
  -- others leave the executions alone; and, at each state before a step, that no stack has a
  -- module's UID, nor a module a stack's, that Get and List agree on the phases, and that the
  -- newest job of an execution that has ended has a pod that failed or succeeded.
  pub history-IsOrderly :
      {s t : C.State} {l : List TofuExecution}
      → C.list_executions owner.namespace s ≡ ok l
      → IsOrderly (owner_runs C owner kind l)
      → Leads C L kind owner s t
      → (l' : List TofuExecution) × (C.list_executions owner.namespace t ≡ ok l')
        × IsOrderly (owner_runs C owner kind l')
        × Extends (owner_runs C owner kind l) (owner_runs C owner kind l')
  history-IsOrderly {l} listed orderly start =
      (l, listed, orderly, Extends-refl (owner_runs C owner kind l))
  history-IsOrderly {l = l} listed orderly (later before sane step) =
      let (l', listed', orderly', extends) = history-IsOrderly listed orderly before in
      let (l'', listed'', moved) = Step-Moves C L laws owner kind sane step listed' in
      (
        l'',
        listed'',
        Move-IsOrderly moved orderly',
        Extends-trans (owner_runs C owner kind l) (owner_runs C owner kind l')
            (owner_runs C owner kind l'') extends (Move-Extends moved),
      )
