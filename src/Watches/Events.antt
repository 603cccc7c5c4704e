-- ===== src/Watches/Events.antt =====
-- Which controllers hear of a run and of its job.
use soyplane.Base.{
  ◌≡◌, refl, sym, ap, ◌∙◌, true, [], ◌∷◌, ok, arith, string_comparable, Result-cases, inl, inr,
}
use soyplane.Api.{ObjectMeta, TofuModule, TofuStack, TofuExecution, Job}
use soyplane.Settings.{Libraries, Settings, execution}
use soyplane.Cluster.{Cluster}
use soyplane.Cluster.Laws.{TracksOwners, ListsCreated}
use soyplane.Watches.{
  Runtime, tofu_module_controller, tofu_stack_controller, tofu_execution_controller,
}
use soyplane.Watches.Laws.{NamesOwner, Watches, WakesFor, StaysAsleep, request_for}
use soyplane.Watches.Kinds.{kinds_differ, types_known, run_events, job_events}
use soyplane.ModuleController
use soyplane.ModuleController.Runs as ModuleRuns
use soyplane.StackController
use soyplane.StackController.Runs as StackRuns
use soyplane.ExecutionController.{construct_job, module_key, new_job}
use soyplane.ExecutionController.Handover.{built}

module _ (C : Cluster) (names : NamesOwner C) (owners : TracksOwners C) where
  -- The owner of a new execution, once stored.
  module_run :
      ListsCreated C
      → (mdl : TofuModule) (s : C.State) {y : TofuExecution}
      → (ModuleController.create_execution C mdl s).0 ≡ ok y
      → (y.meta.namespace ≡ mdl.meta.namespace)
        × (y.meta.owner_references
            ≡ record {
              kind = "TofuModule";
              name = mdl.meta.name;
              uid = mdl.meta.uid;
              controller = true;
            }
              ∷ [])
  unfolding ModuleController.new_execution
  module_run lists mdl s {y} made =
      let (meta, set, ran) = ModuleRuns.create_execution-given C mdl s made in
      let stored =
        lists.create_stores (record (ModuleController.new_execution mdl) { meta = meta }) y s
          (ap (λ t. t.0) (sym (ran s)) ∙ made) in
      (
        (ModuleRuns.create_execution-IsChild C owners lists mdl s made).same_namespace,
        stored.same_owners ∙ names.set_refers mdl.meta "TofuModule" _ meta refl set,
      )

  stack_run :
      ListsCreated C
      → (stk : TofuStack) (s : C.State) {y : TofuExecution}
      → (StackController.create_execution C stk s).0 ≡ ok y
      → (y.meta.namespace ≡ stk.meta.namespace)
        × (y.meta.owner_references
            ≡ record {
              kind = "TofuStack";
              name = stk.meta.name;
              uid = stk.meta.uid;
              controller = true;
            }
              ∷ [])
  unfolding StackController.new_execution
  stack_run lists stk s {y} made =
      let (meta, set, ran) = StackRuns.create_execution-given C stk s made in
      let stored =
        lists.create_stores (record (StackController.new_execution stk) { meta = meta }) y s
          (ap (λ t. t.0) (sym (ran s)) ∙ made) in
      (
        (StackRuns.create_execution-IsChild C owners lists stk s made).same_namespace,
        stored.same_owners ∙ names.set_refers stk.meta "TofuStack" _ meta refl set,
      )

  job_run :
      (L : Libraries) (cfg : Settings L) (exec : TofuExecution) (s : C.State) {job : Job}
      → (construct_job C L cfg exec s).0 ≡ ok job
      → (job.meta.namespace ≡ exec.meta.namespace)
        × (job.meta.owner_references
            ≡ record {
              kind = "TofuExecution";
              name = exec.meta.name;
              uid = exec.meta.uid;
              controller = true;
            }
              ∷ [])
  unfolding new_job construct_job
  job_run L cfg exec s {job} made = elim (Result-cases (C.get_module (module_key exec) s)) [
    | inr (e, gone) ↦ absurd (ground arith)
    | inl (mdl, found) ↦ elim (Result-cases (execution L cfg)) [
      | inr (e, refused) ↦ absurd (ground arith)
      | inl (settings, ready) ↦
          let linked = (built C L cfg exec s mdl found ready made).0 in
          (
            ap (λ m. m.namespace) (owners.set_keeps exec.meta "TofuExecution" _ job.meta linked),
            names.set_refers exec.meta "TofuExecution" _ job.meta refl linked,
          )
    ]
  ]

  -- Whatever happens to a run that the module's or the stack's controller created, the requests
  -- that follow are these and no other: that controller is asked to reconcile the parent, the
  -- execution controller the run, and the third controller nothing; and whatever happens to a job
  -- that was made for an execution, as the server stores it, asks the execution controller for
  -- that execution, and the other two for nothing. Assumed: of controller-runtime's builder, what
  -- For and Owns ask for when the scheme knows the kinds, of which Job comes from client-go; of
  -- SetControllerReference, that it writes the owner's kind and name; and that a stored object
  -- keeps the namespace and the owners it was created with.
  pub events_reach_their_controllers :
      (R : Runtime)
      → Watches R
      → ListsCreated C
      → (L : Libraries) (cfg : Settings L) (mdl : TofuModule) (s1 : C.State) {run1 : TofuExecution}
      → (ModuleController.create_execution C mdl s1).0 ≡ ok run1
      → (stk : TofuStack) (s2 : C.State) {run2 : TofuExecution}
      → (StackController.create_execution C stk s2).0 ≡ ok run2
      → (exec : TofuExecution) (s3 : C.State) {job : Job}
      → (construct_job C L cfg exec s3).0 ≡ ok job
      → (stored : ObjectMeta) → stored.namespace ≡ job.meta.namespace
      → stored.owner_references ≡ job.meta.owner_references
      → (WakesFor R tofu_module_controller "TofuExecution" run1.meta (request_for mdl.meta)
          × WakesFor R tofu_execution_controller "TofuExecution" run1.meta (request_for run1.meta)
          × StaysAsleep R tofu_stack_controller "TofuExecution" run1.meta)
        × (WakesFor R tofu_stack_controller "TofuExecution" run2.meta (request_for stk.meta)
            × WakesFor R tofu_execution_controller "TofuExecution" run2.meta (request_for run2.meta)
            × StaysAsleep R tofu_module_controller "TofuExecution" run2.meta)
        × (WakesFor R tofu_execution_controller "Job" stored (request_for exec.meta)
            × StaysAsleep R tofu_module_controller "Job" stored
            × StaysAsleep R tofu_stack_controller "Job" stored)
  events_reach_their_controllers R watches lists L cfg mdl s1 made1 stk s2 made2 exec s3 made stored
        ns refs =
      let (module_known, stack_known, _) = types_known R.client_go in
      let (run_module, run_stack, module_stack, _, _, _) = kinds_differ in
      let (ns1, one1) = module_run lists mdl s1 made1 in
      let (ns2, one2) = stack_run lists stk s2 made2 in
      let (ns3, one3) = job_run L cfg exec s3 made in
      (
        run_events R watches tofu_module_controller tofu_stack_controller _ mdl.meta refl
            (λ e. run_module (sym e)) (λ e. run_stack (sym e)) module_stack module_known ns1 one1,
        run_events R watches tofu_stack_controller tofu_module_controller _ stk.meta refl
            (λ e. run_stack (sym e)) (λ e. run_module (sym e)) (λ e. module_stack (sym e))
            stack_known ns2 one2,
        job_events R watches stored exec.meta (ns ∙ ns3) (refs ∙ one3),
      )
