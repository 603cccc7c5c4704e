-- ===== src/Sharing.antt =====
-- The maps in memory of the objects that the controllers make: createExecution of
-- tofumodule_controller.go and tofustack_controller.go, and constructJobFromExecution, in
-- internal/controller/opentofu. All else that they assign, slices too, is copied by value.
pub mod Maps
pub mod Laws
use soyplane.Base.{String, Option, none, some, List, [], ◌∷◌, ℕ, suc, insert, format_int, GoMap}
use soyplane.Api.{ObjectRef}
use soyplane.Phase.{module_generation_annotation, stack_generation_annotation}
use soyplane.DeepCopy.Memory.{Ref, Allocates, GoMapRef, Slice}
use soyplane.DeepCopy.Library.{Library}
use soyplane.DeepCopy.Execution.{JobTemplateSpecLayout, TofuExecutionSpecLayout}
use soyplane.DeepCopy.Template.{ExecutionTemplateSpecLayout}

-- A map that was made.
abbrev pub MapRef : Type 0
MapRef = Ref (List (String × String))

-- maps.Clone: nil for nil, and otherwise a new map with the same entries.
unfoldable pub clone_map : GoMapRef String → Allocates (GoMapRef String)
clone_map none n = (none, n)
clone_map (some m) n = (some (record { address = n; target = m.target }), suc n)

-- `if m == nil { m = make(map[string]string) }`
unfoldable pub make_map : GoMapRef String → Allocates MapRef
make_map none n = (record { address = n; target = [] }, suc n)
make_map (some m) n = (m, n)

unfoldable pub clone_or_make : GoMapRef String → Allocates MapRef
clone_or_make m n = let (cloned, k) = clone_map m n in make_map cloned k

-- `m[key] = value`, at the address of the map.
abbrev pub put : String → String → MapRef → MapRef
put key value m = record m { target = insert key value m.target }

module _ (E : Library) where
  -- The maps and the spec of a new execution.
  pub record FilledExecution : Type 0 where
    pub labels : GoMapRef String
    pub annotations : MapRef
    pub spec : TofuExecutionSpecLayout E

  unfoldable pub fill_module_execution :
      ObjectRef → ℕ → ExecutionTemplateSpecLayout E → Allocates FilledExecution
  fill_module_execution parent generation template n =
      let (labels, m1) = clone_or_make template.metadata.labels n in
      let (annotations, m2) = clone_or_make template.metadata.annotations m1 in
      (
        record {
          labels = some labels;
          annotations = put module_generation_annotation (format_int generation) annotations;
          spec = record template.spec { module_ref = parent };
        },
        m2,
      )

  -- The labels of a stack's execution stay nil where the template has none.
  unfoldable pub fill_stack_execution :
      ObjectRef → ℕ → ExecutionTemplateSpecLayout E → Allocates FilledExecution
  fill_stack_execution target generation template n =
      let (labels, m1) = clone_map template.metadata.labels n in
      let (annotations, m2) = clone_or_make template.metadata.annotations m1 in
      (
        record {
          labels = labels;
          annotations = put stack_generation_annotation (format_int generation) annotations;
          spec = record template.spec { module_ref = target };
        },
        m2,
      )

  -- The maps and the slices of a new job.
  pub record FilledJob : Type 0 where
    pub labels : MapRef
    pub annotations : MapRef
    pub pod_labels : MapRef
    pub pod_annotations : MapRef
    pub env : Slice E.EnvVar
    pub env_from : Slice E.EnvFromSource

  unfoldable pub fill_job : JobTemplateSpecLayout E → Allocates FilledJob
  fill_job template n =
      let (labels, m1) = clone_or_make template.metadata.labels n in
      let (annotations, m2) = clone_or_make template.metadata.annotations m1 in
      let (pod_labels, m3) = clone_or_make template.metadata.labels m2 in
      let (pod_annotations, m4) = clone_or_make template.metadata.annotations m3 in
      (
        record {
          labels = labels;
          annotations = annotations;
          pod_labels = pod_labels;
          pod_annotations = pod_annotations;
          env = template.env;
          env_from = template.env_from;
        },
        m4,
      )
