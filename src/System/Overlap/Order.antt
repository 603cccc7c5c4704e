-- ===== src/System/Overlap/Order.antt =====
-- The invariant of the runs where Reconciles overlap with what others do.
use soyplane.Base.{◌≡◌, sym, subst, List, arith, ok, String}
use soyplane.Api.{ObjectMeta, TofuExecution}
use soyplane.Settings.{Libraries}
use soyplane.Cluster.{Cluster}
use soyplane.Runs.{Run, Advance, Move, advances}
use soyplane.Runs.Order.{
  IsOrderly, Extends, Extends-refl, Extends-trans, Move-IsOrderly, Move-Extends, Advance-refl,
}
use soyplane.Runs.Late.{Advance-trans}
use soyplane.System.{a_module}
use soyplane.System.Owner.{KeepsLaws, owner_runs}
use soyplane.System.Moves.{Step-Advances}
use soyplane.System.Overlap.{
  Turn, idle, has_module, has_read, Overlaps, start, reads_module, reads_executions, writes,
  gives_up, meanwhile,
}
use soyplane.System.Overlap.Late.{finish_reconcile-Move}

module _ (C : Cluster) (L : Libraries) (laws : KeepsLaws C) (owner : ObjectMeta) where
  abbrev runs : List TofuExecution → List Run
  runs = owner_runs C owner a_module

  -- What the module that was read is, and what has become of the runs that were.
  abbrev Since : Turn → List TofuExecution → Type 0
  Since idle l = Unit
  Since (has_module mdl) l = (owner.uid ≡ mdl.meta.uid) × (mdl.meta.namespace ≡ owner.namespace)
  Since (has_read mdl children) l =
      (owner.uid ≡ mdl.meta.uid)
      × (mdl.meta.namespace ≡ owner.namespace)
      × Advance (runs children) (runs l)

  Advance-Since :
      (turn : Turn) (l l' : List TofuExecution)
      → Advance (runs l) (runs l')
      → Since turn l
      → Since turn l'
  Advance-Since idle l l' a h = tt
  Advance-Since (has_module mdl) l l' a h = h
  Advance-Since (has_read mdl children) l l' a (own, here, since) =
      (own, here, Advance-trans (runs children) (runs l) (runs l') since a)

  -- The runs as they have become.
  abbrev Orderly : List TofuExecution → Turn → C.State → Type 0
  Orderly l turn t =
      (l' : List TofuExecution) × (C.list_executions owner.namespace t ≡ ok l')
      × IsOrderly (runs l')
      × Extends (runs l) (runs l')
      × Since turn l'

  moved :
      {IsWanted : String → Type 0} (l l' l'' : List TofuExecution)
      → IsOrderly (runs l')
      → Extends (runs l) (runs l')
      → Move IsWanted (runs l') (runs l'')
      → IsOrderly (runs l'') × Extends (runs l) (runs l'')
  moved l l' l'' orderly extends move = (
    Move-IsOrderly move orderly,
    Extends-trans (runs l) (runs l') (runs l'') extends (Move-Extends move),
  )

  Overlaps-Orderly :
      {s t : C.State} {turn : Turn} (l : List TofuExecution)
      → C.list_executions owner.namespace s ≡ ok l
      → IsOrderly (runs l)
      → Overlaps C L owner s turn t
      → Orderly l turn t
  Overlaps-Orderly l listed orderly start = (l, listed, orderly, Extends-refl (runs l), tt)
  Overlaps-Orderly l listed orderly (reads_module name mdl before read own here) =
      let (l', listed', orderly', extends, _) = Overlaps-Orderly l listed orderly before in
      (l', listed', orderly', extends, (own, here))
  Overlaps-Orderly l listed orderly (reads_executions {mdl = mdl} children before read) =
      let (l', listed', orderly', extends, (own, here)) =
        Overlaps-Orderly l listed orderly before in
      let same : children ≡ l' = ground arith in
      (
        l',
        listed',
        orderly',
        extends,
        (own, here, subst (λ c. Advance (runs c) (runs l')) (sym same) (Advance-refl (runs l'))),
      )
  Overlaps-Orderly l listed orderly (writes {t = t} {mdl = mdl} {children = children} before) =
      let (l', listed', orderly', extends, (own, here, since)) =
        Overlaps-Orderly l listed orderly before in
      let (l'', now, move) =
        finish_reconcile-Move C L laws owner mdl children l' t own here listed' since in
      let (orderly'', extends'') = moved l l' l'' orderly' extends move in
      (l'', now, orderly'', extends'', tt)
  Overlaps-Orderly l listed orderly (gives_up before) =
      let (l', listed', orderly', extends, _) = Overlaps-Orderly l listed orderly before in
      (l', listed', orderly', extends, tt)
  Overlaps-Orderly l listed orderly (meanwhile {turn = turn} before sane step foreign) =
      let (l', listed', orderly', extends, since) = Overlaps-Orderly l listed orderly before in
      let (l'', now, ended) = Step-Advances C L laws owner a_module sane step foreign listed' in
      let (orderly'', extends'') =
        moved {IsWanted = λ w. Unit} l l' l'' orderly' extends (advances ended) in
      (l'', now, orderly'', extends'', Advance-Since turn l' l'' ended since)

  -- Orderly runs of a module stay orderly, and none is lost or given another generation, even
  -- when the Reconcile of a module is no whole step: between its read of the module, its read of
  -- the executions and its write, which follows from what it read, others take any number of
  -- steps, and it may return early at any point. Assumed: only one Reconcile of the module runs
  -- at a time, as controller-runtime promises; the steps in between reconcile no object of the
  -- module's UID. Assumed of the cluster: the laws in `KeepsLaws`; that others leave the
  -- executions alone; and, at each state before a step, that no stack has a module's UID, nor a
  -- module a stack's, that Get and List agree on the phases, and that the newest job of an
  -- execution that has ended has a pod that failed or succeeded.
  pub Overlaps-IsOrderly :
      {s t : C.State} {turn : Turn} {l : List TofuExecution}
      → C.list_executions owner.namespace s ≡ ok l
      → IsOrderly (runs l)
      → Overlaps C L owner s turn t
      → (l' : List TofuExecution) × (C.list_executions owner.namespace t ≡ ok l')
        × IsOrderly (runs l')
        × Extends (runs l) (runs l')
  Overlaps-IsOrderly {l = l} listed orderly overlap =
      let (l', listed', orderly', extends, _) = Overlaps-Orderly l listed orderly overlap in
      (l', listed', orderly', extends)
