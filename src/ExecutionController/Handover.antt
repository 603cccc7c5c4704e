-- ===== src/ExecutionController/Handover.antt =====
-- From the module controller to the job: what a run of a module executes.
use text.Mathlib.TextLemmas.{append_assoc}
use text.Mathlib.TextEquality.{eq_iff}
use soyplane.Base.{
  if◌then◌else◌, ◌==◌, ◌||◌, string_comparable, ◌≡◌, ◌≢◌, ◌<>◌, sym, ap, ◌∙◌, String, arith, ok,
  Result-cases, inl, inr,
}
use soyplane.Api.{TofuModule, TofuExecution, Job}
use soyplane.Settings.{Libraries, Settings, ExecutionSettings, execution}
use soyplane.Cluster.{Cluster}
use soyplane.ExecutionController.{
  module_key, image_of, script_of, new_job, construct_job, engine_name_of,
}

module _ (C : Cluster) (L : Libraries) (cfg : Settings L) where
  -- What a job that constructJobFromExecution returned was made of.
  pub built :
      (exec : TofuExecution) (s : C.State) {job : Job} (mdl : TofuModule)
      {settings : ExecutionSettings}
      → C.get_module (module_key exec) s ≡ ok mdl
      → execution L cfg ≡ ok settings
      → (construct_job C L cfg exec s).0 ≡ ok job
      → (C.set_controller_reference exec.meta "TofuExecution"
            (new_job mdl settings.default_image exec).meta
          ≡ ok job.meta)
        × (job.template ≡ (new_job mdl settings.default_image exec).template)
        × (job.status ≡ (new_job mdl settings.default_image exec).status)
        × ((construct_job C L cfg exec s).1 ≡ s)
  unfolding construct_job
  built exec s {job} mdl {settings} found ready made =
      elim (Result-cases (
        C.set_controller_reference exec.meta "TofuExecution"
          (new_job mdl settings.default_image exec).meta)) [
            | inr (e, refused) ↦ absurd (ground arith)
            | inl (meta, e) ↦
                let same : job ≡ record (new_job mdl settings.default_image exec) { meta = meta } =
                  ground arith in
                (
                  e ∙ ap (λ j. ok j.meta) (sym same),
                  ap (λ j. j.template) same,
                  ap (λ j. j.status) same,
                  ground arith,
                )
          ]

-- The repositories of the two known engines; any other engine's name is its repository.
abbrev pub repository : String → String
repository name =
    if name == "" || name == "tofu"
    then "ghcr.io/opentofu/opentofu"
    else if name == "terraform"
    then "hashicorp/terraform"
    else name

engines_differ :
    (◌≢◌ {A = String} "tofu" "terraform")
    × (◌≢◌ {A = String} "tofu" "")
    × (◌≢◌ {A = String} "terraform" "")
engines_differ = (
  ground (arith, eq_iff "tofu" "terraform"),
  ground (arith, eq_iff "tofu" ""),
  ground (arith, eq_iff "terraform" ""),
)

-- The image comes from the configuration if the engine has no version, and is otherwise the
-- repository of the engine tagged with that version; and an engine without a name runs the
-- script of "tofu".
pub image_of_engine :
    (default_image : String) (mdl : TofuModule) (exec : TofuExecution)
    → let engine = exec.spec.engine in
      (engine.version ≡ "" → image_of default_image engine ≡ default_image)
      × (engine.version ≢ ""
          → image_of default_image engine ≡ repository engine.name <> (":" <> engine.version))
      × (engine.name ≡ ""
          → script_of mdl exec
            ≡ script_of mdl (record exec {
              spec = record exec.spec { engine = record engine { name = "tofu" } };
            }))
unfolding image_of script_of engine_name_of
image_of_engine default_image mdl exec =
    let v = exec.spec.engine.version in
    (
      λ h. ground arith,
      λ h. ground (
        arith,
        append_assoc "hashicorp/terraform" ":" v,
        append_assoc "ghcr.io/opentofu/opentofu" ":" v,
        engines_differ,
      ),
      λ h. ground (arith, engines_differ),
    )
