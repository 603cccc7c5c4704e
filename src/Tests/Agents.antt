-- ===== src/Tests/Agents.antt =====
-- The agent on a machine that logs what it is asked to do.
use soyplane.Base.{◌≡◌, ◌≢◌, refl, String, List, [], ◌∷◌, ok, err, text_dec}
use soyplane.Api.{TofuModule, TofuExecution}
use soyplane.Children.{empty_status}
use soyplane.Agent.{Host, main}
use soyplane.Agent.Outcome.{execution_key, module_of_execution, ChecksOut, main-ChecksOut}
use soyplane.Tests.Fixtures.{meta_of, template, module_at}

abbrev exec : TofuExecution
exec = record { meta = meta_of "run" 1; spec = template.spec; status = empty_status }

-- The calls so far, the last one first.
abbrev machine : Host
machine = record {
  State = List (List String);
  new_client = λ s. ok tt;
  get_execution = λ k s. ok exec;
  get_module = λ k s. ok (module_at 1);
  mkdir_all = λ dir s. (ok tt, ("mkdir" ∷ dir ∷ []) ∷ s);
  run_command = λ dir args s. (ok tt, args ∷ s);
}

-- The same machine, where the module is missing.
abbrev no_module : Host
no_module = record machine { get_module = λ k s. err "not found" }

ends_well : (main machine "run" "default" []).0 ≡ ok tt
unfolding main text_dec
ends_well = refl

main-ChecksOut_example :
    (◌≢◌ {A = String} "run" "")
    × (◌≢◌ {A = String} "default" "")
    × ((exec' : TofuExecution) × (mdl : TofuModule) × (machine.get_execution
            (execution_key machine "run" "default")
            []
          ≡ ok exec')
        × (machine.get_module (module_of_execution machine exec') [] ≡ ok mdl)
        × ChecksOut machine mdl [] (main machine "run" "default" []).1)
main-ChecksOut_example = main-ChecksOut machine "run" "default" [] ends_well
