-- ===== src/Agent/Outcome.antt =====
-- What a run of the agent has done when it ends.
use soyplane.Base.{
  ◌≡◌, ◌≢◌, subst, sym, ap, ◌∙◌, string_comparable, Result, ◌<>◌, String, Result-cases, inl, inr,
  arith, ok, err, List, [], ◌∷◌,
}
use soyplane.Api.{NamespacedName, TofuModule, TofuExecution}
use soyplane.Agent.{Host, clone_git_module, execute, run, main}

abbrev pub work_dir : String
work_dir = "/tmp/tf-module"

abbrev pub clone_command : TofuModule → List String
clone_command mdl = "git" ∷ "clone" ∷ "--depth" ∷ "1" ∷ mdl.spec.source ∷ "." ∷ []

abbrev pub checkout_command : TofuModule → List String
checkout_command mdl = "git" ∷ "checkout" ∷ mdl.spec.version ∷ []

module _ (H : Host) (mdl : TofuModule) (s : H.State) where
  -- The three calls that change the machine, each made where the last one ended.
  abbrev dir_made : Result String (Unit {0}) × H.State
  dir_made = H.mkdir_all work_dir s

  abbrev cloned : Result String (Unit {0}) × H.State
  cloned = H.run_command work_dir (clone_command mdl) dir_made.1

  abbrev checked_out : Result String (Unit {0}) × H.State
  checked_out = H.run_command work_dir (checkout_command mdl) cloned.1

  -- The directory was made, the repository cloned and, exactly if the module names a version,
  -- that version checked out; each without an error, and the machine is left as after the last.
  pub data ChecksOut (t : H.State) : Type 0 where
    newest :
        dir_made.0 ≡ ok tt → cloned.0 ≡ ok tt → mdl.spec.version ≡ "" → t ≡ cloned.1 → ChecksOut t
    versioned :
        dir_made.0 ≡ ok tt
        → cloned.0 ≡ ok tt
        → mdl.spec.version ≢ ""
        → checked_out.0 ≡ ok tt
        → t ≡ checked_out.1
        → ChecksOut t

  clone_git_module-ChecksOut :
      (clone_git_module H mdl.spec.source mdl.spec.version work_dir s).0 ≡ ok tt
      → ChecksOut (clone_git_module H mdl.spec.source mdl.spec.version work_dir s).1
  unfolding clone_git_module
  clone_git_module-ChecksOut h = elim (Result-cases dir_made.0) [
    | inr (e, bad) ↦ absurd (ground arith)
    | inl (_, made) ↦ elim (Result-cases cloned.0) [
      | inr (e, bad) ↦ absurd (ground arith)
      | inl (_, copied) ↦ elim (string_comparable.dec mdl.spec.version "") [
        | yes none ↦ newest made copied none (ground arith)
        | no some ↦ elim (Result-cases checked_out.0) [
          | inr (e, bad) ↦ absurd (ground arith)
          | inl (_, fine) ↦ versioned made copied some fine (ground arith)
        ]
      ]
    ]
  ]

  execute-ChecksOut : (execute H mdl s).0 ≡ ok tt → ChecksOut (execute H mdl s).1
  unfolding execute
  execute-ChecksOut h =
      let fine : (clone_git_module H mdl.spec.source mdl.spec.version work_dir s).0 ≡ ok tt =
        ground arith in
      let same : (execute H mdl s).1
          ≡ (clone_git_module H mdl.spec.source mdl.spec.version work_dir s).1 =
        ground arith in
      subst ChecksOut (sym same) (clone_git_module-ChecksOut fine)

module _ (H : Host) where
  abbrev pub execution_key : String → String → NamespacedName
  execution_key name namespace = record { namespace = namespace; name = name }

  abbrev pub module_of_execution : TofuExecution → NamespacedName
  module_of_execution exec = record {
    namespace = exec.spec.module_ref.namespace;
    name = exec.spec.module_ref.name;
  }

  run-ChecksOut :
      (name namespace : String) (s : H.State)
      → (run H name namespace s).0 ≡ ok tt
      → (exec : TofuExecution) × (mdl : TofuModule) × (H.get_execution
            (execution_key name namespace)
            s
          ≡ ok exec)
        × (H.get_module (module_of_execution exec) s ≡ ok mdl)
        × ChecksOut H mdl s (run H name namespace s).1
  unfolding run execute
  run-ChecksOut name namespace s h = elim (Result-cases (H.new_client s)) [
    | inr (e, bad) ↦ absurd (ground arith)
    | inl (_, connected) ↦ elim (Result-cases (H.get_execution (execution_key name namespace) s)) [
      | inr (e, bad) ↦ absurd (ground arith)
      | inl (exec, read) ↦ elim (Result-cases (H.get_module (module_of_execution exec) s)) [
        | inr (e, bad) ↦ absurd (ground arith)
        | inl (mdl, found) ↦
            let ran : run H name namespace s ≡ execute H mdl s = ground arith in
            (
              exec,
              mdl,
              read,
              found,
              subst (λ r. ChecksOut H mdl s r.1) (sym ran)
                  (execute-ChecksOut H mdl s (ap (λ r. r.0) (sym ran) ∙ h)),
            )
      ]
    ]
  ]

  -- An agent that ends without an error had both its variables set and found its execution and
  -- that execution's module; it has made the directory, cloned the module's source there and,
  -- exactly if the module names a version, checked that out, each without an error, and has done
  -- nothing else to the machine.
  pub main-ChecksOut :
      (name namespace : String) (s : H.State)
      → (main H name namespace s).0 ≡ ok tt
      → (name ≢ "")
        × (namespace ≢ "")
        × ((exec : TofuExecution) × (mdl : TofuModule) × (H.get_execution
                (execution_key name namespace)
                s
              ≡ ok exec)
            × (H.get_module (module_of_execution exec) s ≡ ok mdl)
            × ChecksOut H mdl s (main H name namespace s).1)
  unfolding main
  main-ChecksOut name namespace s h = elim (string_comparable.dec name "") [
    | yes a ↦ absurd (ground arith)
    | no a ↦ elim (string_comparable.dec namespace "") [
      | yes b ↦ absurd (ground arith)
      | no b ↦
          let fine : (run H name namespace s).0 ≡ ok tt = ground arith in
          let same : (main H name namespace s).1 ≡ (run H name namespace s).1 = ground arith in
          let (exec, mdl, read, found, out) = run-ChecksOut name namespace s fine in
          (a, b, (exec, mdl, read, found, subst (ChecksOut H mdl s) (sym same) out))
    ]
  ]

  -- Once connected, a failed read of the execution and a failed read of its module, for the same
  -- reason, give one and the same error, "failed to fetch execution", and leave the machine
  -- alone.
  pub fetch_failures_look_alike :
      (name namespace : String) (s : H.State) (e : String)
      → H.new_client s ≡ ok tt
      → (H.get_execution (execution_key name namespace) s ≡ err e
          → run H name namespace s ≡ (err ("failed to fetch execution: " <> e), s))
        × ((exec : TofuExecution)
            → H.get_execution (execution_key name namespace) s ≡ ok exec
            → H.get_module (module_of_execution exec) s ≡ err e
            → run H name namespace s ≡ (err ("failed to fetch execution: " <> e), s))
  unfolding run
  fetch_failures_look_alike name namespace s e connected =
      (λ h. ground arith, λ exec h g. ground arith)
