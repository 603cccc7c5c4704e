-- ===== src/Tests/Copies.antt =====
-- A module with labels, variables and a plan, copied; and the runs and the job that are made from
-- a template with labels.
use soyplane.Base.{◌≡◌, refl, ◌<◌, ℕ, String, true, none, some, [], ◌∷◌, All, arith}
use soyplane.DeepCopy.Memory.{Ref, plain}
use soyplane.DeepCopy.Memory.Laws.{plain-IsDeep, AreDistinct, AreApart}
use soyplane.DeepCopy.Library.{Library, IsDeepLibrary}
use soyplane.DeepCopy.Values.{ObjectMetadataLayout, object_metadata_copier}
use soyplane.DeepCopy.Values.Laws.{object_metadata-IsDeep}
use soyplane.DeepCopy.Execution.{ExecutionSummaryLayout}
use soyplane.DeepCopy.Module.{TofuModuleLayout}
use soyplane.DeepCopy.Objects.{
  tofu_module, copier, deep_copy_object, reached, deep_copies_are_independent,
}
use soyplane.ModuleController
use soyplane.StackController
use soyplane.ExecutionController.{new_job}
use soyplane.DeepCopy.Template.{ExecutionTemplateSpecLayout}
use soyplane.Sharing.Maps.{HasMaps, AreOwn, next_job}
use soyplane.Sharing.Laws.{
  used, new_module_run, new_stack_run, HoldsRun, HoldsJob, new_objects_have_own_maps,
}
use soyplane.Tests.Fixtures.{module_at, stack_at}

-- Metadata with maps; the other structs of the libraries hold nothing to follow.
abbrev library : Library
library = record {
  TypeMeta = String;
  ObjectMeta = ObjectMetadataLayout;
  ListMeta = String;
  Time = ℕ;
  Condition = String;
  EnvVar = String;
  EnvFromSource = String;
  Json = String;
  object_meta = object_metadata_copier;
  list_meta = plain;
  time = plain;
  condition = plain;
  env_var = plain;
  env_from_source = plain;
  json = plain;
}

library-IsDeepLibrary : IsDeepLibrary library
library-IsDeepLibrary = record {
  object_meta = object_metadata-IsDeep;
  list_meta = plain-IsDeep;
  time = plain-IsDeep;
  condition = plain-IsDeep;
  env_var = plain-IsDeep;
  env_from_source = plain-IsDeep;
  json = plain-IsDeep;
}

abbrev at {ℓ} : {A : Type ℓ} → ℕ → A → Ref A
at a x = record { address = a; target = x }

abbrev metadata : ObjectMetadataLayout
metadata = record {
  labels = some (at 4 (("app", "soyplane") ∷ []));
  annotations = none;
  generate_name = "";
}

abbrev summary : ExecutionSummaryLayout library
summary = record {
  revision = "";
  started_at = some (at 7 1);
  finished_at = none;
  summary = "Plan running";
  triggered_by = "";
  job_name = "job";
}

abbrev original : Ref (TofuModuleLayout library)
original = at 2 (record {
  type_meta = "TofuModule";
  meta = metadata;
  spec = record {
    source = "https://github.com/soyplane-io/sample-tofu-modules.git";
    version = "v1";
    workdir = "null-module";
    backend = record { type = ""; raw_config = ""; config = none; value_sources = none };
    providers = some (at 8 []);
    variables = some (at 5 (("region", "\"eu\"") ∷ []));
    value_sources = none;
    outputs = none;
    execution_template = record {
      metadata = record { labels = none; annotations = none; generate_name = "" };
      spec = record {
        action = "plan";
        module_ref = record { name = ""; namespace = "" };
        job_template = record {
          metadata = record { labels = none; annotations = none; generate_name = "" };
          env = none;
          env_from = none;
          service_account_name = "runner";
        };
        engine = record { name = ""; version = "1.9.0" };
      };
    };
    auto_apply = true;
    drift_detection = none;
  };
  status = record {
    phase = "Running";
    observed_generation = 2;
    last_plan = some (at 6 summary);
    last_apply = none;
    conditions = none;
    last_execution_name = "null-module-1";
  };
})

original_below : All (λ a. a < 10) (reached library tofu_module original)
original_below = omega arith

deep_copies_are_independent_example :
    (deep_copy_object library tofu_module none 10 ≡ (none, 10))
    × ((q : Ref (TofuModuleLayout library)) × (m : ℕ) × (deep_copy_object library tofu_module
            (some original)
            10
          ≡ (some (some q), m))
        × ((copier library tofu_module).contents q.target
            ≡ (copier library tofu_module).contents original.target)
        × AreDistinct (reached library tofu_module q)
        × AreApart (reached library tofu_module original) (reached library tofu_module q)
        × All (λ a. a < m) (reached library tofu_module q))
deep_copies_are_independent_example =
    deep_copies_are_independent library library-IsDeepLibrary tofu_module original 10 original_below

abbrev template : ExecutionTemplateSpecLayout library
template = record {
  metadata = record {
    labels = some (at 4 (("soyplane.io/purpose", "prototype") ∷ []));
    annotations = none;
    generate_name = "";
  };
  spec = record original.target.spec.execution_template.spec {
    module_ref = record { name = "null-module"; namespace = "default" };
  };
}

template_below : All (λ a. a < 10) (used library template 10)
template_below = omega arith

template-HasMaps : HasMaps template.metadata (module_at 2).spec.execution_template.metadata
template-HasMaps = record { same_labels = refl; same_annotations = refl }

job_template-HasMaps :
    HasMaps template.spec.job_template.metadata
      (module_at 2).spec.execution_template.spec.job_template.metadata
job_template-HasMaps = record { same_labels = refl; same_annotations = refl }

new_objects_have_own_maps_example :
    let run1 = new_module_run library template 10 (module_at 2) in
    let run2 = new_stack_run library template 10 (stack_at 2) in
    let exec1 = ModuleController.new_execution (module_at 2) in
    AreOwn library (4 ∷ []) run1
    × AreOwn library (4 ∷ []) run2
    × HoldsRun library run1.0 exec1
    × HoldsRun library run2.0 (StackController.new_execution (stack_at 2))
    × HoldsJob library (next_job library run1) (new_job (module_at 2) "tofu" exec1)
new_objects_have_own_maps_example =
    new_objects_have_own_maps library template 10 template_below (module_at 2) (stack_at 2) "tofu"
      template-HasMaps template-HasMaps job_template-HasMaps
