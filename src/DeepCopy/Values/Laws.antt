-- ===== src/DeepCopy/Values/Laws.antt =====
-- Those copies are deep.
use soyplane.DeepCopy.Memory.{IsDeep, plain, pointer, by_deep_copy, slice, map_of}
use soyplane.DeepCopy.Memory.Laws.{
  plain-IsDeep, pointer-IsDeep, by_deep_copy-IsDeep, slice-IsDeep, map_of-IsDeep, Fresh-append,
}
use soyplane.DeepCopy.Values.{
  copy_object_metadata, object_metadata_copier, copy_output_spec, output_spec_copier,
  copy_value_from, value_from_copier, copy_value_source, value_source_copier, value_from_map,
  value_source_map,
}

pub object_metadata-IsDeep : IsDeep object_metadata_copier
unfolding copy_object_metadata
object_metadata-IsDeep =
    let labels_deep : IsDeep (map_of plain) = map_of-IsDeep plain plain-IsDeep in
    let annotations_deep : IsDeep (map_of plain) = map_of-IsDeep plain plain-IsDeep in
    record {
      same = λ x n.
          let m1 = ((map_of plain).copy x.labels n).1 in
          λ i. record x {
            labels = labels_deep.same x.labels n i;
            annotations = annotations_deep.same x.annotations m1 i;
          };
      fresh = λ x n.
          let m1 = ((map_of plain).copy x.labels n).1 in
          Fresh-append n _ m1 _ _ (labels_deep.fresh x.labels n)
            (annotations_deep.fresh x.annotations m1);
    }

pub output_spec-IsDeep : IsDeep output_spec_copier
unfolding copy_output_spec
output_spec-IsDeep =
    let to_deep : IsDeep (slice plain) = slice-IsDeep plain plain-IsDeep in
    record {
      same = λ x n. λ i. record x { to = to_deep.same x.to n i };
      fresh = λ x n. to_deep.fresh x.to n;
    }

pub value_from-IsDeep : IsDeep value_from_copier
unfolding copy_value_from
value_from-IsDeep =
    let secret_ref_deep : IsDeep (pointer plain) = pointer-IsDeep plain plain-IsDeep in
    let config_map_ref_deep : IsDeep (pointer plain) = pointer-IsDeep plain plain-IsDeep in
    record {
      same = λ x n.
          let m1 = ((pointer plain).copy x.secret_ref n).1 in
          λ i. record x {
            secret_ref = secret_ref_deep.same x.secret_ref n i;
            config_map_ref = config_map_ref_deep.same x.config_map_ref m1 i;
          };
      fresh = λ x n.
          let m1 = ((pointer plain).copy x.secret_ref n).1 in
          Fresh-append n _ m1 _ _ (secret_ref_deep.fresh x.secret_ref n)
            (config_map_ref_deep.fresh x.config_map_ref m1);
    }

pub value_source-IsDeep : IsDeep value_source_copier
unfolding copy_value_source
value_source-IsDeep =
    let secret_ref_deep : IsDeep (pointer plain) = pointer-IsDeep plain plain-IsDeep in
    let config_map_ref_deep : IsDeep (pointer plain) = pointer-IsDeep plain plain-IsDeep in
    record {
      same = λ x n.
          let m1 = ((pointer plain).copy x.secret_ref n).1 in
          λ i. record x {
            secret_ref = secret_ref_deep.same x.secret_ref n i;
            config_map_ref = config_map_ref_deep.same x.config_map_ref m1 i;
          };
      fresh = λ x n.
          let m1 = ((pointer plain).copy x.secret_ref n).1 in
          Fresh-append n _ m1 _ _ (secret_ref_deep.fresh x.secret_ref n)
            (config_map_ref_deep.fresh x.config_map_ref m1);
    }

pub value_from_map-IsDeep : IsDeep value_from_map
value_from_map-IsDeep =
    map_of-IsDeep (by_deep_copy value_from_copier)
      (by_deep_copy-IsDeep value_from_copier value_from-IsDeep)

pub value_source_map-IsDeep : IsDeep value_source_map
value_source_map-IsDeep =
    map_of-IsDeep (by_deep_copy value_source_copier)
      (by_deep_copy-IsDeep value_source_copier value_source-IsDeep)
