-- ===== src/DeepCopy/Values.antt =====
-- Metadata, outputs and the references of values, as they lie in memory.
pub mod Laws
use soyplane.Base.{String, Option, ◌++◌}
use soyplane.Api.{ConfigMapKeyRef, KeyRef, OutputTarget, SecretKeyRef}
use soyplane.DeepCopy.Memory.{
  Ref, Allocates, Copier, plain, deep_copy, pointer, by_deep_copy, slice, map_of, Slice, GoMapRef,
}

pub record ObjectMetadataLayout : Type 0 where
  pub labels : GoMapRef String
  pub annotations : GoMapRef String
  pub generate_name : String

unfoldable pub copy_object_metadata : ObjectMetadataLayout → Allocates ObjectMetadataLayout
copy_object_metadata x n =
    let (labels, m1) = (map_of plain).copy x.labels n in
    let (annotations, m2) = (map_of plain).copy x.annotations m1 in
    (record x { labels = labels; annotations = annotations }, m2)

abbrev pub object_metadata_copier : Copier ObjectMetadataLayout
object_metadata_copier = record {
  copy = copy_object_metadata;
  addresses = λ x. (map_of plain).addresses x.labels ++ (map_of plain).addresses x.annotations;
  contents = λ x. record x {
    labels = (map_of plain).contents x.labels;
    annotations = (map_of plain).contents x.annotations;
  };
}

abbrev pub deep_copy_object_metadata :
    Option (Ref ObjectMetadataLayout) → Allocates (Option (Ref ObjectMetadataLayout))
deep_copy_object_metadata = deep_copy object_metadata_copier

pub record OutputSpecLayout : Type 0 where
  pub from : String
  pub to : Slice OutputTarget

unfoldable pub copy_output_spec : OutputSpecLayout → Allocates OutputSpecLayout
copy_output_spec x n = let (to, m) = (slice plain).copy x.to n in (record x { to = to }, m)

abbrev pub output_spec_copier : Copier OutputSpecLayout
output_spec_copier = record {
  copy = copy_output_spec;
  addresses = λ x. (slice plain).addresses x.to;
  contents = λ x. record x { to = (slice plain).contents x.to };
}

abbrev pub deep_copy_output_spec :
    Option (Ref OutputSpecLayout) → Allocates (Option (Ref OutputSpecLayout))
deep_copy_output_spec = deep_copy output_spec_copier

pub record ValueFromLayout : Type 0 where
  pub secret_ref : Option (Ref KeyRef)
  pub config_map_ref : Option (Ref KeyRef)

unfoldable pub copy_value_from : ValueFromLayout → Allocates ValueFromLayout
copy_value_from x n =
    let (secret_ref, m1) = (pointer plain).copy x.secret_ref n in
    let (config_map_ref, m2) = (pointer plain).copy x.config_map_ref m1 in
    (record x { secret_ref = secret_ref; config_map_ref = config_map_ref }, m2)

abbrev pub value_from_copier : Copier ValueFromLayout
value_from_copier = record {
  copy = copy_value_from;
  addresses =
      λ x. (pointer plain).addresses x.secret_ref ++ (pointer plain).addresses x.config_map_ref;
  contents = λ x. record x {
    secret_ref = (pointer plain).contents x.secret_ref;
    config_map_ref = (pointer plain).contents x.config_map_ref;
  };
}

abbrev pub deep_copy_value_from :
    Option (Ref ValueFromLayout) → Allocates (Option (Ref ValueFromLayout))
deep_copy_value_from = deep_copy value_from_copier

pub record ValueSourceLayout : Type 0 where
  pub secret_ref : Option (Ref SecretKeyRef)
  pub config_map_ref : Option (Ref ConfigMapKeyRef)

unfoldable pub copy_value_source : ValueSourceLayout → Allocates ValueSourceLayout
copy_value_source x n =
    let (secret_ref, m1) = (pointer plain).copy x.secret_ref n in
    let (config_map_ref, m2) = (pointer plain).copy x.config_map_ref m1 in
    (record x { secret_ref = secret_ref; config_map_ref = config_map_ref }, m2)

abbrev pub value_source_copier : Copier ValueSourceLayout
value_source_copier = record {
  copy = copy_value_source;
  addresses =
      λ x. (pointer plain).addresses x.secret_ref ++ (pointer plain).addresses x.config_map_ref;
  contents = λ x. record x {
    secret_ref = (pointer plain).contents x.secret_ref;
    config_map_ref = (pointer plain).contents x.config_map_ref;
  };
}

abbrev pub deep_copy_value_source :
    Option (Ref ValueSourceLayout) → Allocates (Option (Ref ValueSourceLayout))
deep_copy_value_source = deep_copy value_source_copier

-- The values of a map are copied by DeepCopy.
abbrev pub value_from_map : Copier (GoMapRef ValueFromLayout)
value_from_map = map_of (by_deep_copy value_from_copier)

-- The values of a map are copied by DeepCopy.
abbrev pub value_source_map : Copier (GoMapRef ValueSourceLayout)
value_source_map = map_of (by_deep_copy value_source_copier)
