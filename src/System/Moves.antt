-- ===== src/System/Moves.antt =====
-- Each step of the system is a move of the abstract machine, for the runs of any one owner.
use soyplane.Base.{
  string_comparable, ◌≡◌, sym, ap, ◌∙◌, true, List, map, arith, ok, Bool-cases, inl, inr, ◌==◌,
  ◌&&◌, All-map,
}
use soyplane.Api.{ObjectMeta, NamespacedName, TofuExecution}
use soyplane.Phase.{is_execution_terminal}
use soyplane.Children.View.{StaysEnded, runs_in-changed}
use soyplane.Settings.{Libraries}
use soyplane.Cluster.{Cluster}
use soyplane.Cluster.Interference.{with_status_of}
use soyplane.ModuleController.Effect.{reconcile-effect as module-effect}
use soyplane.StackController.Effect.{reconcile-effect as stack-effect}
use soyplane.ExecutionController.Sync.{expected_status}
use soyplane.ExecutionController.Effect.{Writes, reconcile-effect as execution-effect}
use soyplane.System.{
  Step, module_reconciled, stack_reconciled, execution_reconciled, others_act, IsForeign, IsSane,
  Kind,
}
use soyplane.System.Owner.{KeepsLaws, mine, marker, Moves, Advances, as_move, still-Advances}
use soyplane.System.Parents.{
  module_starts, stack_starts, module_starts-Advances, stack_starts-Advances,
}

module _ (C : Cluster) (L : Libraries) (laws : KeepsLaws C) (owner : ObjectMeta) where
  written-Advances :
      (kind : Kind) {s t : C.State} {l : List TofuExecution} {name : NamespacedName}
      → C.list_executions owner.namespace s ≡ ok l
      → IsSane C L kind owner s
      → Writes C owner.namespace name s t
      → Advances C owner kind l t
  written-Advances kind {s} {t} {l} {name} listed sane new =
      let x = new.exec in
      let y : TofuExecution = record x { status = expected_status new.first x.status } in
      let agree = sane.reads_agree name x l new.sees.execution_read listed in
      let ended = sane.jobs_kept name x new.jobs new.first new.stale new.sees.execution_read in
      let stays : (z : TofuExecution)
          → ((z.meta.name == x.meta.name && z.meta.namespace == x.meta.namespace) ≡ true
              → z.status.phase ≡ x.status.phase)
          → StaysEnded (with_status_of y) z =
        λ z same e.
          elim (Bool-cases (z.meta.name == x.meta.name && z.meta.namespace == x.meta.namespace)) [
            | inl it ↦
                let final =
                  ended (ap is_execution_terminal (sym (same it)) ∙ e) new.sees.jobs_read
                    new.sorted in
                ground arith
            | inr other ↦ ground arith
          ] in
      (
        map (with_status_of y) l,
        new.written l listed,
        runs_in-changed (marker C owner kind) (mine C owner) (with_status_of y) (λ z. ground arith)
            (λ z. ground arith) (λ z. ground arith) l (All-map _ _ stays l agree),
      )

  -- The simulation: whatever step is taken from a sane state, the owner's runs make a move.
  pub Step-Moves :
      (kind : Kind) {s t : C.State} {l : List TofuExecution}
      → IsSane C L kind owner s
      → Step C L s t
      → C.list_executions owner.namespace s ≡ ok l
      → Moves C owner kind l s t
  Step-Moves kind {s} {t} {l} sane (module_reconciled name) listed =
      elim (module-effect C owner.namespace laws.owners laws.apart laws.module_updates name s) [
        | inl same ↦ as_move C owner kind s l (still-Advances C owner kind listed same)
        | inr new ↦ module_starts C L laws owner kind sane listed new
      ]
  Step-Moves kind {s} {t} {l} sane (stack_reconciled name) listed =
      elim (stack-effect C owner.namespace laws.owners laws.apart laws.stack_updates name s) [
        | inl same ↦ as_move C owner kind s l (still-Advances C owner kind listed same)
        | inr new ↦ stack_starts C L laws owner kind sane listed new
      ]
  Step-Moves kind {s} {t} {l} sane (execution_reconciled cfg name) listed =
      elim (execution-effect C owner.namespace L cfg laws.executions_stay laws.updates name s) [
        | inl same ↦ as_move C owner kind s l (still-Advances C owner kind listed same)
        | inr new ↦ as_move C owner kind s l (written-Advances kind listed sane new)
      ]
  Step-Moves kind {s} {t} {l} sane (others_act same) listed =
      as_move C owner kind s l (still-Advances C owner kind listed (same owner.namespace))

  -- Such a step starts no run of the owner, and can only end some.
  pub Step-Advances :
      (kind : Kind) {s t : C.State} {l : List TofuExecution}
      → IsSane C L kind owner s
      → (step : Step C L s t) → IsForeign C L owner step
      → C.list_executions owner.namespace s ≡ ok l
      → Advances C owner kind l t
  Step-Advances kind {s} sane (module_reconciled name) foreign listed =
      elim (module-effect C owner.namespace laws.owners laws.apart laws.module_updates name s) [
        | inl same ↦ still-Advances C owner kind listed same
        | inr new ↦
            module_starts-Advances C L laws owner kind listed new
              (foreign new.mdl new.sees.module_read)
      ]
  Step-Advances kind {s} sane (stack_reconciled name) foreign listed =
      elim (stack-effect C owner.namespace laws.owners laws.apart laws.stack_updates name s) [
        | inl same ↦ still-Advances C owner kind listed same
        | inr new ↦
            stack_starts-Advances C L laws owner kind listed new
              (foreign new.stk new.sees.stack_read)
      ]
  Step-Advances kind {s} sane (execution_reconciled cfg name) foreign listed =
      elim (execution-effect C owner.namespace L cfg laws.executions_stay laws.updates name s) [
        | inl same ↦ still-Advances C owner kind listed same
        | inr new ↦ written-Advances kind listed sane new
      ]
  Step-Advances kind {s} sane (others_act same) foreign listed =
      still-Advances C owner kind listed (same owner.namespace)
