-- ===== src/ExecutionController/Construct.antt =====
-- constructJobFromExecution: the job that runs an execution.
use soyplane.Base.{
  String, ◌<>◌, false, none, some, [], ◌∷◌, GoMap, clone, or_make, if◌then◌else◌, ◌==◌,
  string_comparable,
}
use soyplane.Api.{EngineSpec, TofuModule, TofuExecution, Job, JobStatus}
use soyplane.Children.{empty_meta}

-- `JobStatus{}`
abbrev pub empty_job_status : JobStatus
empty_job_status = record {
  active = 0;
  succeeded = 0;
  failed = 0;
  terminating = none;
  has_uncounted_terminated_pods = false;
  start_time = none;
  completion_time = none;
}

unfoldable pub job_name_of : TofuExecution → String
job_name_of execution =
    let template = execution.spec.job_template.metadata.generate_name in
    if template == "" then execution.meta.name else template

unfoldable pub engine_name_of : EngineSpec → String
engine_name_of engine = if engine.name == "" then "tofu" else engine.name

unfoldable pub workdir_of : TofuModule → String
workdir_of mdl = if mdl.spec.workdir == "" then "." else mdl.spec.workdir

-- The `switch` on the engine's name; an empty version keeps the configured image.
unfoldable pub image_of : String → EngineSpec → String
unfolding engine_name_of
image_of default_image engine =
    let name = engine_name_of engine in
    if engine.version == ""
    then default_image
    else if name == "terraform"
    then "hashicorp/terraform:" <> engine.version
    else if name == "tofu"
    then "ghcr.io/opentofu/opentofu:" <> engine.version
    else name <> (":" <> engine.version)

-- `cmd`: Go's raw text keeps its line breaks and tabs.
unfoldable pub script_of : TofuModule → TofuExecution → String
unfolding engine_name_of workdir_of
script_of mdl execution =
    let engine = engine_name_of execution.spec.engine in
    "mkdir workspace;\n\tcd workspace;\n\tgit clone "
    <> (mdl.spec.source
        <> (" .;\n\tcd "
            <> (workdir_of mdl
                <> (";\n\t"
                    <> (engine <> (" init;\n\t" <> (engine <> (" " <> execution.spec.action))))))))

-- `newJob`, from the module and the default image.
unfoldable pub new_job : TofuModule → String → TofuExecution → Job
unfolding job_name_of image_of script_of
new_job mdl default_image execution =
    let template = execution.spec.job_template in
    let labels : GoMap String = some (or_make (clone template.metadata.labels)) in
    let annotations : GoMap String = some (or_make (clone template.metadata.annotations)) in
    record {
      meta = record empty_meta {
        generate_name = job_name_of execution <> "-";
        namespace = execution.meta.namespace;
        labels = labels;
        annotations = annotations;
      };
      template = record {
        labels = labels;
        annotations = annotations;
        spec = record {
          restart_policy = "Never";
          service_account_name = template.service_account_name;
          containers =
              record {
                name = "simulate-tofu";
                image = image_of default_image execution.spec.engine;
                command = "sh" ∷ "-exc" ∷ script_of mdl execution ∷ [];
                env = template.env;
                env_from = template.env_from;
              }
              ∷ [];
        };
      };
      status = empty_job_status;
    }
