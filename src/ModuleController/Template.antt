-- ===== src/ModuleController/Template.antt =====
-- What createExecution hands to the API server.
use soyplane.Base.{◌≡◌, ◌≢◌, refl, String, index, index-insert_ne, index-or_make, ◌∙◌}
use soyplane.Api.{TofuModule}
use soyplane.Phase.{module_generation_annotation}
use soyplane.ModuleController.{new_execution}

-- The template's labels, and its annotations but for the marker, are those of the new execution;
-- its spec is the template's with the reference set to the module, whatever the template had.
pub new_execution_template :
    (mdl : TofuModule) (key : String)
    → let exec = new_execution mdl in
      let template = mdl.spec.execution_template in
      (index exec.meta.labels key ≡ index template.metadata.labels key)
      × (module_generation_annotation ≢ key
          → index exec.meta.annotations key ≡ index template.metadata.annotations key)
      × (exec.spec.action ≡ template.spec.action)
      × (exec.spec.job_template ≡ template.spec.job_template)
      × (exec.spec.engine ≡ template.spec.engine)
      × (exec.spec.module_ref.namespace ≡ mdl.meta.namespace)
      × (exec.spec.module_ref.name ≡ mdl.meta.name)
unfolding new_execution
new_execution_template mdl key =
    let template = mdl.spec.execution_template in
    (
      index-or_make template.metadata.labels key,
      λ other. index-insert_ne _ key _ _ other ∙ index-or_make template.metadata.annotations key,
      refl,
      refl,
      refl,
      refl,
      refl,
    )
