-- ===== src/Agent.antt =====
-- internal/agent and cmd/agent: the program inside a job's pod. The machine it runs on and the
-- Kubernetes client are a parameter, `Host`; an error is its text.
pub mod Outcome
use soyplane.Base.{
  String, ◌<>◌, Bool, ◌||◌, Option, none, some, List, [], ◌∷◌, Result, ok, err, Action, pure, fail,
  reads, attempt, ◌>>=◌, ◌>>◌, if◌then◌else◌, ◌==◌, string_comparable,
}
use soyplane.Api.{NamespacedName, TofuModule, TofuExecution}

pub record Host : Type 1 where
  pub State : Type 0
  -- ctrl.GetConfigOrDie and ctrlclient.New
  pub new_client : State → Result String (Unit {0})
  pub get_execution : NamespacedName → State → Result String TofuExecution
  pub get_module : NamespacedName → State → Result String TofuModule
  -- os.MkdirAll
  pub mkdir_all : String → State → Result String (Unit {0}) × State
  -- exec.Command(args...).Run() in a directory
  pub run_command : String → List String → State → Result String (Unit {0}) × State

module _ (H : Host) where
  abbrev pub Does : Type 0 → Type 0
  Does A = Action H.State String A

  -- `fmt.Errorf(prefix + "%w", err)` around a call.
  abbrev pub prefixed : {A : Type 0} → String → Result String A → Does A
  prefixed prefix (ok a) = pure a
  prefixed prefix (err e) = fail (prefix <> e)

  unfoldable pub fetch_tofu_execution : String → String → Does TofuExecution
  fetch_tofu_execution name namespace =
      reads (H.get_execution (record { namespace = namespace; name = name }))

  unfoldable pub fetch_tofu_module : String → String → Does TofuModule
  fetch_tofu_module name namespace =
      reads (H.get_module (record { namespace = namespace; name = name }))

  unfoldable pub checkout : String → String → Does (Unit {0})
  checkout version work_dir =
      attempt (H.run_command work_dir ("git" ∷ "checkout" ∷ version ∷ []))
      >>= prefixed ("git checkout " <> (version <> " failed: "))

  abbrev pub make_work_dir : String → Does (Unit {0})
  make_work_dir work_dir =
      attempt (H.mkdir_all work_dir) >>= prefixed "failed to create working directory: "

  abbrev pub git_clone : String → String → Does (Unit {0})
  git_clone source work_dir =
      attempt (H.run_command work_dir ("git" ∷ "clone" ∷ "--depth" ∷ "1" ∷ source ∷ "." ∷ []))
      >>= prefixed "git clone failed: "

  unfoldable pub clone_git_module : String → String → String → Does (Unit {0})
  unfolding checkout
  clone_git_module source version work_dir = do
    make_work_dir work_dir
    git_clone source work_dir
    if version == "" then pure tt else checkout version work_dir

  -- `Runner.Execute`
  unfoldable pub execute : TofuModule → Does (Unit {0})
  unfolding clone_git_module
  execute mdl =
      attempt (clone_git_module mdl.spec.source mdl.spec.version "/tmp/tf-module")
      >>= prefixed "module checkout failed: "

  -- `Run`
  unfoldable pub run : String → String → Does (Unit {0})
  unfolding fetch_tofu_execution fetch_tofu_module execute
  run name namespace = do
    attempt (reads H.new_client) >>= prefixed "failed to create k8s client: "
    exec ← attempt (fetch_tofu_execution name namespace) >>= prefixed "failed to fetch execution: "
    let ref = exec.spec.module_ref
    mdl ←
        attempt (fetch_tofu_module ref.name ref.namespace)
        >>= prefixed "failed to fetch execution: "
    execute mdl

  -- `main`, from the two environment variables; `fail` is log.Fatal, which ends with status 1.
  unfoldable pub main : String → String → Does (Unit {0})
  unfolding run
  main name namespace =
      if name == "" || namespace == ""
      then fail "Missing TOFU_EXECUTION_NAME or TOFU_EXECUTION_NAMESPACE"
      else (attempt (run name namespace) >>= prefixed "Agent run failed: ")
