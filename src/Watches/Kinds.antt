-- ===== src/Watches/Kinds.antt =====
-- The kinds are different, the schemes know them, and what follows for the requests of an object
-- by its owner.
use text.Mathlib.TextEquality.{eq_iff}
use soyplane.Base.{
  ◌≡◌, ◌≢◌, refl, sym, ap, ◌∙◌, subst, String, true, [], ◌∷◌, arith, ◌++◌, List, string_comparable,
  text_dec,
}
use soyplane.Api.{ObjectMeta}
use soyplane.Scheme.{knows, manager_scheme}
use soyplane.Watches.{
  Controller, Runtime, tofu_module_controller, tofu_stack_controller, tofu_execution_controller,
}
use soyplane.Watches.Laws.{
  Watches, WakesFor, StaysAsleep, request_for, object-WakesFor, owner-WakesFor, foreign-StaysAsleep,
}

pub kinds_differ :
    (◌≢◌ {A = String} "TofuExecution" "TofuModule")
    × (◌≢◌ {A = String} "TofuExecution" "TofuStack")
    × (◌≢◌ {A = String} "TofuModule" "TofuStack")
    × (◌≢◌ {A = String} "Job" "TofuExecution")
    × (◌≢◌ {A = String} "Job" "TofuModule")
    × (◌≢◌ {A = String} "Job" "TofuStack")
kinds_differ = (
  ground (arith, eq_iff "TofuExecution" "TofuModule"),
  ground (arith, eq_iff "TofuExecution" "TofuStack"),
  ground (arith, eq_iff "TofuModule" "TofuStack"),
  ground (arith, eq_iff "Job" "TofuExecution"),
  ground (arith, eq_iff "Job" "TofuModule"),
  ground (arith, eq_iff "Job" "TofuStack"),
)

knows-append :
    (kinds more : List String) (kind : String)
    → knows more kind ≡ true
    → knows (kinds ++ more) kind ≡ true
unfolding knows
knows-append [] more kind known = known
knows-append (k ∷ kinds) more kind known = ground (arith, knows-append kinds more kind known)

-- The types of this repository are known, whatever client-go's scheme holds.
pub types_known :
    (client_go : List String)
    → (knows (manager_scheme client_go) "TofuModule" ≡ true)
      × (knows (manager_scheme client_go) "TofuStack" ≡ true)
      × (knows (manager_scheme client_go) "TofuExecution" ≡ true)
unfolding manager_scheme knows text_dec
types_known client_go = (
  knows-append client_go _ "TofuModule" refl,
  knows-append client_go _ "TofuStack" refl,
  knows-append client_go _ "TofuExecution" refl,
)

module _ (R : Runtime) (watches : Watches R) where
  -- A run that belongs to a parent, which is of one of two kinds: who hears of it.
  pub run_events :
      (mine other : Controller) (o parent : ObjectMeta)
      → mine.owns ≡ "TofuExecution"
      → mine.reconciles ≢ "TofuExecution"
      → other.reconciles ≢ "TofuExecution"
      → mine.reconciles ≢ other.reconciles
      → knows (manager_scheme R.client_go) mine.reconciles ≡ true
      → o.namespace ≡ parent.namespace
      → o.owner_references
        ≡ record { kind = mine.reconciles; name = parent.name; uid = parent.uid; controller = true }
          ∷ []
      → WakesFor R mine "TofuExecution" o (request_for parent)
        × WakesFor R tofu_execution_controller "TofuExecution" o (request_for o)
        × StaysAsleep R other "TofuExecution" o
  run_events mine other o parent owns here there apart known ns one =
      let runs_known = (types_known R.client_go).2 in
      let key : record { namespace = o.namespace; name = parent.name } ≡ request_for parent =
        ap (λ n. record { namespace = n; name = parent.name }) ns in
      (
        subst (λ kind. WakesFor R mine kind o (request_for parent)) owns
            (subst (WakesFor R mine mine.owns o) key (
              owner-WakesFor R watches mine o one known
                (ap (knows (manager_scheme R.client_go)) owns ∙ runs_known)
                (λ e. here (sym e ∙ owns)) refl refl)),
        object-WakesFor R watches tofu_execution_controller o runs_known kinds_differ.3,
        foreign-StaysAsleep R watches other o one "TofuExecution" (λ e. there (sym e)) apart,
      )

  -- A job that an execution owns: who hears of it.
  pub job_events :
      (o owner : ObjectMeta)
      → o.namespace ≡ owner.namespace
      → o.owner_references
        ≡ record { kind = "TofuExecution"; name = owner.name; uid = owner.uid; controller = true }
          ∷ []
      → WakesFor R tofu_execution_controller "Job" o (request_for owner)
        × StaysAsleep R tofu_module_controller "Job" o
        × StaysAsleep R tofu_stack_controller "Job" o
  job_events o owner ns one =
      let (run_module, run_stack, _, job_run, job_module, job_stack) = kinds_differ in
      let key : record { namespace = o.namespace; name = owner.name } ≡ request_for owner =
        ap (λ n. record { namespace = n; name = owner.name }) ns in
      (
        subst (WakesFor R tofu_execution_controller "Job" o) key (
            owner-WakesFor R watches tofu_execution_controller o one (types_known R.client_go).2
              watches.jobs_known job_run refl refl),
        foreign-StaysAsleep R watches tofu_module_controller o one "Job" job_module run_module,
        foreign-StaysAsleep R watches tofu_stack_controller o one "Job" job_stack run_stack,
      )
