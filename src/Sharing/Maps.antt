-- ===== src/Sharing/Maps.antt =====
-- The maps that are filled in lie in a row, behind all memory that was in use.
use soyplane.Base.{
  ◌≡◌, refl, sym, subst, ◌<◌, ℕ, suc, String, none, some, List, [], ◌∷◌, ◌++◌, arith, All, GoMap,
  or_make, clone, insert, format_int,
}
use native.Mathlib.Nat.{le_refl}
use soyplane.Phase.{module_generation_annotation, stack_generation_annotation}
use soyplane.Api.{ObjectRef, ObjectMetadata}
use soyplane.DeepCopy.Memory.{GoMapRef, Fresh}
use soyplane.DeepCopy.Memory.Laws.{
  AreDistinct, AreApart, Fresh-append, Fresh-AreDistinct, Fresh-AreApart,
}
use soyplane.DeepCopy.Library.{Library}
use soyplane.DeepCopy.Values.{ObjectMetadataLayout}
use soyplane.DeepCopy.Execution.{JobTemplateSpecLayout}
use soyplane.DeepCopy.Template.{ExecutionTemplateSpecLayout}
use soyplane.Sharing.{
  clone_map, make_map, clone_or_make, FilledExecution, FilledJob, fill_module_execution,
  fill_stack_execution, fill_job,
}

-- The entries of a map, which is nil or lies in memory.
abbrev pub entries : GoMapRef String → GoMap String
entries none = none
entries (some m) = some m.target

abbrev pub map_addresses : GoMapRef String → List ℕ
map_addresses none = []
map_addresses (some m) = m.address ∷ []

clone_or_make-makes :
    (m : GoMapRef String) (n : ℕ)
    → clone_or_make m n ≡ (record { address = n; target = or_make (clone (entries m)) }, suc n)
unfolding clone_or_make clone_map make_map
clone_or_make-makes none n = refl
clone_or_make-makes (some m) n = refl

pub clone_map-entries :
    (m : GoMapRef String) (n : ℕ) → entries (clone_map m n).0 ≡ clone (entries m)
unfolding clone_map
clone_map-entries none n = refl
clone_map-entries (some m) n = refl

pub clone_map-Fresh :
    (m : GoMapRef String) (n : ℕ) → Fresh n (map_addresses (clone_map m n).0) (clone_map m n).1
unfolding clone_map
clone_map-Fresh none n = le_refl n
clone_map-Fresh (some m) n = (le_refl n, le_refl (suc n))

-- Metadata in memory, and by its value.
pub record HasMaps (x : ObjectMetadataLayout) (value : ObjectMetadata) : Type 0 where
  pub same_labels : entries x.labels ≡ value.labels
  pub same_annotations : entries x.annotations ≡ value.annotations

module _ (E : Library) where
  -- The maps of a new execution and of a job that is made for it.
  abbrev pub new_maps : FilledExecution E → FilledJob E → List ℕ
  new_maps x job =
      map_addresses x.labels
      ++ (x.annotations.address ∷ job.labels.address ∷ job.annotations.address
          ∷ job.pod_labels.address ∷ job.pod_annotations.address ∷ [])

  -- The job, with its four maps in a row.
  abbrev pub job_at : JobTemplateSpecLayout E → ℕ → FilledJob E
  job_at template n =
      let labels = or_make (clone (entries template.metadata.labels)) in
      let annotations = or_make (clone (entries template.metadata.annotations)) in
      record {
        labels = record { address = n; target = labels };
        annotations = record { address = suc n; target = annotations };
        pod_labels = record { address = suc (suc n); target = labels };
        pod_annotations = record { address = suc (suc (suc n)); target = annotations };
        env = template.env;
        env_from = template.env_from;
      }

  pub fill_job-job_at :
      (template : JobTemplateSpecLayout E) (n : ℕ)
      → fill_job E template n ≡ (job_at template n, suc (suc (suc (suc n))))
  unfolding fill_job
  fill_job-job_at template n =
      let labels = template.metadata.labels in
      let annotations = template.metadata.annotations in
      rw
        (
          clone_or_make-makes labels n,
          clone_or_make-makes annotations (suc n),
          clone_or_make-makes labels (suc (suc n)),
          clone_or_make-makes annotations (suc (suc (suc n))),
        )
        refl

  abbrev pub next_job : FilledExecution E × ℕ → FilledJob E
  next_job (x, m) = (fill_job E x.spec.job_template m).0

  -- A filled execution and a job made for it next: their maps are all different, and none is in
  -- use.
  abbrev pub AreOwn : List ℕ → FilledExecution E × ℕ → Type 0
  AreOwn used r =
      AreDistinct (new_maps r.0 (next_job r)) × AreApart used (new_maps r.0 (next_job r))

  pub Fresh-AreOwn :
      (used : List ℕ) (n m : ℕ) (r : FilledExecution E × ℕ)
      → All (λ a. a < n) used
      → Fresh n (map_addresses r.0.labels) m
      → r.0.annotations.address ≡ m
      → r.1 ≡ suc m
      → AreOwn used r
  Fresh-AreOwn used n m (x, k) below labels at next =
      let template = x.spec.job_template in
      let maps = new_maps x (job_at template k) in
      let all : Fresh n maps (suc (suc (suc (suc k)))) =
        Fresh-append n _ m _ _ labels
          (omega arith, (omega arith, (le_refl _, (le_refl _, (le_refl _, le_refl _))))) in
      subst (λ j. AreDistinct (new_maps x j.0) × AreApart used (new_maps x j.0))
        (sym (fill_job-job_at template k))
        (Fresh-AreDistinct n maps _ all, Fresh-AreApart n used maps _ below all)

  module _ (ref : ObjectRef) (generation : ℕ) (template : ExecutionTemplateSpecLayout E)
      (n : ℕ) where
    -- What the module's createExecution fills in, with its two maps in a row.
    abbrev pub module_run_at : FilledExecution E × ℕ
    module_run_at = (
      record {
        labels =
            some
              (record { address = n; target = or_make (clone (entries template.metadata.labels)) });
        annotations = record {
          address = suc n;
          target =
              insert module_generation_annotation (format_int generation)
                (or_make (clone (entries template.metadata.annotations)));
        };
        spec = record template.spec { module_ref = ref };
      },
      suc (suc n),
    )

    pub fill_module_execution-made :
        fill_module_execution E ref generation template n ≡ module_run_at
    unfolding fill_module_execution
    fill_module_execution-made =
        rw
          (
            clone_or_make-makes template.metadata.labels n,
            clone_or_make-makes template.metadata.annotations (suc n),
          )
          refl

    -- And the stack's: the labels are cloned, and left nil where they are nil.
    abbrev pub stack_run_at : FilledExecution E × ℕ
    stack_run_at =
        let (labels, m) = clone_map template.metadata.labels n in
        (
          record {
            labels = labels;
            annotations = record {
              address = m;
              target =
                  insert stack_generation_annotation (format_int generation)
                    (or_make (clone (entries template.metadata.annotations)));
            };
            spec = record template.spec { module_ref = ref };
          },
          suc m,
        )

    pub fill_stack_execution-made : fill_stack_execution E ref generation template n ≡ stack_run_at
    unfolding fill_stack_execution
    fill_stack_execution-made =
        let (_, m) = clone_map template.metadata.labels n in
        rw (clone_or_make-makes template.metadata.annotations m) refl
