-- ===== src/Tests/Fixtures.antt =====
-- Objects like those of config/samples, and clusters that hold them.
use soyplane.Base.{String, none, some, [], ◌∷◌, ℕ, false}
use soyplane.Api.{
  ObjectMeta, NamespacedName, ObjectMetadata, TofuModule, TofuStack, ExecutionTemplateSpec,
}
use soyplane.Children.{empty_meta}
use soyplane.Cluster.Memory.{Store}

abbrev pub key_of : ObjectMeta → NamespacedName
key_of m = record { namespace = m.namespace; name = m.name }

abbrev pub meta_of : String → ℕ → ObjectMeta
meta_of name generation = record empty_meta {
  name = name;
  namespace = "default";
  uid = name;
  generation = generation;
}

abbrev pub no_metadata : ObjectMetadata
no_metadata = record { labels = none; annotations = none; generate_name = "" }

abbrev pub template : ExecutionTemplateSpec
template = record {
  metadata = record no_metadata { labels = some (("soyplane.io/purpose", "prototype") ∷ []) };
  spec = record {
    action = "plan";
    module_ref = record { name = "null-module"; namespace = "default" };
    job_template = record {
      metadata = no_metadata;
      env = [];
      env_from = [];
      service_account_name = "runner";
    };
    engine = record { name = ""; version = "1.9.0" };
  };
}

-- A module at some generation.
abbrev pub module_at : ℕ → TofuModule
module_at generation = record {
  meta = meta_of "null-module" generation;
  spec = record {
    source = "https://github.com/soyplane-io/sample-tofu-modules.git";
    version = "v1";
    workdir = "null-module";
    backend = record { type = ""; value_sources = none; raw_config = ""; config = none };
    providers = [];
    variables = none;
    value_sources = none;
    outputs = [];
    execution_template = template;
    auto_apply = false;
    drift_detection = none;
  };
  status = record {
    phase = "";
    observed_generation = 0;
    last_plan = none;
    last_apply = none;
    conditions = [];
    last_execution_name = "";
  };
}

abbrev pub stack_at : ℕ → TofuStack
stack_at generation = record {
  meta = meta_of "null-stack" generation;
  spec = record {
    module_ref = record { name = "null-module"; namespace = "default" };
    execution_template = template;
    auto_apply = false;
    drift_detection = none;
  };
  status = record {
    phase = "";
    observed_generation = 0;
    last_plan = none;
    last_apply = none;
    conditions = [];
    last_execution_name = "";
  };
}

-- Nothing but the two parents.
abbrev pub empty_store : Store
empty_store = record { mdl = module_at 2; stack = stack_at 2; executions = []; jobs = [] }
