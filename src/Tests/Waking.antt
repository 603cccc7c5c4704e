-- ===== src/Tests/Waking.antt =====
-- A runtime that keeps the laws of Watches; and on the cluster in memory, a run of a module, one
-- of a stack and a job, with what is asked for when they change.
use soyplane.Base.{
  ◌≡◌, refl, sym, subst, String, Bool, true, false, List, [], ◌∷◌, ◌++◌, ok, arith, ◌==◌, ◌&&◌, ◌⊎◌,
  inl, inr, string_comparable, text_dec, format_int,
}
use soyplane.Api.{ObjectMeta, NamespacedName, OwnerReference}
use soyplane.Cluster.Memory.{memory}
use soyplane.Watches.{Controller, Runtime}
use soyplane.Watches.Laws.{IsIn, NamesOwner, Watches, request_for, request_for_owner}
use soyplane.Scheme.{knows, manager_scheme, agent_scheme}
use soyplane.Api.{TofuExecution}
use soyplane.Children.{empty_status}
use soyplane.Cluster.Memory.Laws.{memory_tracks_owners, memory_lists_created}
use soyplane.ModuleController
use soyplane.StackController
use soyplane.Watches.{tofu_module_controller, tofu_stack_controller, tofu_execution_controller}
use soyplane.Watches.Laws.{WakesFor, StaysAsleep}
use soyplane.Watches.Events.{events_reach_their_controllers}
use soyplane.Tests.Fixtures.{module_at, stack_at, empty_store}
use soyplane.Tests.Files.{libraries}
use soyplane.Tests.Executions.{exec, loaded, store_with}
use soyplane.Tests.Jobs.{made_job, job_is_made}

-- The list if the test holds, and nothing otherwise.
abbrev when : {A : Type 0} → Bool → List A → List A
when true l = l
when false l = []

abbrev owner_requests : Controller → ObjectMeta → List OwnerReference → List NamespacedName
owner_requests c object [] = []
owner_requests c object (ref ∷ refs) =
    when (ref.controller && ref.kind == c.reconciles) (request_for_owner object ref ∷ [])
    ++ owner_requests c object refs

abbrev object_requests : Controller → String → ObjectMeta → List NamespacedName
object_requests c kind object = when (kind == c.reconciles) (request_for object ∷ [])

abbrev parent_requests : Controller → String → ObjectMeta → List NamespacedName
parent_requests c kind object =
    when (kind == c.owns) (owner_requests c object object.owner_references)

abbrev runtime : Runtime
runtime = record {
  client_go = "Pod" ∷ "Job" ∷ [];
  requests = λ c kind object. object_requests c kind object ++ parent_requests c kind object;
}

is_itself : (kind : String) → (kind == kind) ≡ true
is_itself kind = ground arith

when-IsIn : {A : Type 0} {b : Bool} (x : A) (l : List A) → b ≡ true → IsIn x l → IsIn x (when b l)
when-IsIn x l holds h = subst (λ b. IsIn x (when b l)) (sym holds) h

IsIn-when : {A : Type 0} (b : Bool) (x : A) (l : List A) → IsIn x (when b l) → (b ≡ true) × IsIn x l
IsIn-when true x l h = (refl, h)
IsIn-when false x l h = absurd h

IsIn-left : {A : Type 0} (x : A) (l k : List A) → IsIn x l → IsIn x (l ++ k)
IsIn-left x [] k h = absurd h
IsIn-left x (y ∷ l) k (inl e) = inl e
IsIn-left x (y ∷ l) k (inr deep) = inr (IsIn-left x l k deep)

IsIn-right : {A : Type 0} (x : A) (l k : List A) → IsIn x k → IsIn x (l ++ k)
IsIn-right x [] k h = h
IsIn-right x (y ∷ l) k h = inr (IsIn-right x l k h)

IsIn-either : {A : Type 0} (x : A) (l k : List A) → IsIn x (l ++ k) → IsIn x l ⊎ IsIn x k
IsIn-either x [] k h = inr h
IsIn-either x (y ∷ l) k (inl e) = inl (inl e)
IsIn-either x (y ∷ l) k (inr deep) = elim (IsIn-either x l k deep) [
  | inl left ↦ inl (inr left)
  | inr right ↦ inr right
]

owner_asked :
    (c : Controller) (object : ObjectMeta) (ref : OwnerReference) (refs : List OwnerReference)
    → IsIn ref refs
    → ref.controller ≡ true
    → ref.kind ≡ c.reconciles
    → IsIn (request_for_owner object ref) (owner_requests c object refs)
owner_asked c object ref [] among controls kind = absurd among
owner_asked c object ref (r ∷ refs) (inl e) controls kind =
    let wanted = request_for_owner object r in
    subst (λ x. IsIn (request_for_owner object x) (owner_requests c object (r ∷ refs))) (sym e)
      (IsIn-left wanted (when (r.controller && r.kind == c.reconciles) (wanted ∷ [])) _
        (when-IsIn wanted (wanted ∷ []) (ground arith) (inl refl)))
owner_asked c object ref (r ∷ refs) (inr deep) controls kind =
    IsIn-right (request_for_owner object ref) _ (owner_requests c object refs)
      (owner_asked c object ref refs deep controls kind)

owner_found :
    (c : Controller) (object : ObjectMeta) (request : NamespacedName) (refs : List OwnerReference)
    → IsIn request (owner_requests c object refs)
    → (ref : OwnerReference) × IsIn ref refs
      × (ref.controller ≡ true)
      × (ref.kind ≡ c.reconciles)
      × (request ≡ request_for_owner object ref)
owner_found c object request [] asked = absurd asked
owner_found c object request (r ∷ refs) asked =
    elim (IsIn-either request
      (when (r.controller && r.kind == c.reconciles) (request_for_owner object r ∷ [])) _ asked) [
        | inr deep ↦
            let (ref, among, controls, kind, e) = owner_found c object request refs deep in
            (ref, inr among, controls, kind, e)
        | inl here ↦
            let (test, only) = IsIn-when (r.controller && r.kind == c.reconciles) request _ here in
            (
              r,
              inl refl,
              ground arith,
              ground arith,
              elim only [ inl e ↦ e | inr nowhere ↦ absurd nowhere ],
            )
      ]

runtime-Watches : Watches runtime
unfolding knows manager_scheme text_dec
runtime-Watches = record {
  jobs_known = refl;
  for_object = λ c object known.
      let wanted = request_for object in
      IsIn-left wanted (object_requests c c.reconciles object) _
        (when-IsIn wanted (wanted ∷ []) (is_itself c.reconciles) (inl refl));
  for_owner = λ c object ref known owned among controls kind.
      let wanted = request_for_owner object ref in
      IsIn-right wanted (object_requests c c.owns object) _ (
        when-IsIn wanted (owner_requests c object object.owner_references) (is_itself c.owns)
          (owner_asked c object ref object.owner_references among controls kind));
  nothing_else = λ c kind object request asked.
      elim (IsIn-either request (object_requests c kind object) _ asked) [
        | inl itself ↦
            let (test, only) = IsIn-when (kind == c.reconciles) request _ itself in
            inl (ground arith, elim only [ inl e ↦ e | inr nowhere ↦ absurd nowhere ])
        | inr parent ↦
            let (test, among) = IsIn-when (kind == c.owns) request _ parent in
            inr (ground arith, owner_found c object request object.owner_references among)
      ];
}

memory-NamesOwner : NamesOwner memory
memory-NamesOwner = record { set_refers = λ owner kind object result none set. ground arith }

-- An execution as the server stores it.
abbrev stored_run : TofuExecution → String → OwnerReference → TofuExecution
stored_run given name owner = record given {
  meta = record given.meta {
    name = name;
    uid = "1";
    creation_timestamp = 1;
    owner_references = owner ∷ [];
  };
  status = empty_status;
}

abbrev pub module_run : TofuExecution
module_run =
    stored_run (ModuleController.new_execution (module_at 2)) "null-module-1"
      (record { kind = "TofuModule"; name = "null-module"; uid = "null-module"; controller = true })

abbrev stack_run : TofuExecution
stack_run =
    stored_run (StackController.new_execution (stack_at 2)) "null-stack-1"
      (record { kind = "TofuStack"; name = "null-stack"; uid = "null-stack"; controller = true })

pub module_run_created :
    (ModuleController.create_execution memory (module_at 2) empty_store).0 ≡ ok module_run
unfolding text_dec ModuleController.new_execution ModuleController.create_execution format_int
module_run_created = refl

stack_run_created :
    (StackController.create_execution memory (stack_at 2) empty_store).0 ≡ ok stack_run
unfolding text_dec StackController.new_execution StackController.create_execution format_int
stack_run_created = refl

events_reach_their_controllers_example :
    (WakesFor runtime tofu_module_controller "TofuExecution" module_run.meta
        (record { namespace = "default"; name = "null-module" })
      × WakesFor runtime tofu_execution_controller "TofuExecution" module_run.meta
          (request_for module_run.meta)
      × StaysAsleep runtime tofu_stack_controller "TofuExecution" module_run.meta)
    × (WakesFor runtime tofu_stack_controller "TofuExecution" stack_run.meta
          (record { namespace = "default"; name = "null-stack" })
        × WakesFor runtime tofu_execution_controller "TofuExecution" stack_run.meta
            (request_for stack_run.meta)
        × StaysAsleep runtime tofu_module_controller "TofuExecution" stack_run.meta)
    × (WakesFor runtime tofu_execution_controller "Job" made_job.meta (request_for exec.meta)
        × StaysAsleep runtime tofu_module_controller "Job" made_job.meta
        × StaysAsleep runtime tofu_stack_controller "Job" made_job.meta)
events_reach_their_controllers_example =
    events_reach_their_controllers memory memory-NamesOwner memory_tracks_owners runtime
      runtime-Watches memory_lists_created libraries loaded (module_at 2) empty_store
      module_run_created (stack_at 2) empty_store stack_run_created exec (store_with []) job_is_made
      made_job.meta refl refl

agent_knows_what_it_fetches :
    (knows agent_scheme "TofuExecution" ≡ true) × (knows agent_scheme "TofuModule" ≡ true)
unfolding knows agent_scheme text_dec
agent_knows_what_it_fetches = (refl, refl)
