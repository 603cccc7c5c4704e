-- ===== src/DeepCopy/Plain/Laws.antt =====
-- Those copies are deep.
use soyplane.DeepCopy.Memory.{IsDeep}
use soyplane.DeepCopy.Memory.Laws.{plain-IsDeep}
use soyplane.DeepCopy.Plain.{
  copy_object_ref, object_ref_copier, copy_engine_spec, engine_spec_copier, copy_key_ref,
  key_ref_copier, copy_output_target, output_target_copier, copy_tofu_provider_ref,
  tofu_provider_ref_copier, copy_drift_detection_spec, drift_detection_spec_copier,
  copy_secret_key_ref, secret_key_ref_copier, copy_config_map_key_ref, config_map_key_ref_copier,
  copy_tofu_provider_status, tofu_provider_status_copier,
}

pub object_ref-IsDeep : IsDeep object_ref_copier
unfolding copy_object_ref
object_ref-IsDeep = record { same = plain-IsDeep.same; fresh = plain-IsDeep.fresh }

pub engine_spec-IsDeep : IsDeep engine_spec_copier
unfolding copy_engine_spec
engine_spec-IsDeep = record { same = plain-IsDeep.same; fresh = plain-IsDeep.fresh }

pub key_ref-IsDeep : IsDeep key_ref_copier
unfolding copy_key_ref
key_ref-IsDeep = record { same = plain-IsDeep.same; fresh = plain-IsDeep.fresh }

pub output_target-IsDeep : IsDeep output_target_copier
unfolding copy_output_target
output_target-IsDeep = record { same = plain-IsDeep.same; fresh = plain-IsDeep.fresh }

pub tofu_provider_ref-IsDeep : IsDeep tofu_provider_ref_copier
unfolding copy_tofu_provider_ref
tofu_provider_ref-IsDeep = record { same = plain-IsDeep.same; fresh = plain-IsDeep.fresh }

pub drift_detection_spec-IsDeep : IsDeep drift_detection_spec_copier
unfolding copy_drift_detection_spec
drift_detection_spec-IsDeep = record { same = plain-IsDeep.same; fresh = plain-IsDeep.fresh }

pub secret_key_ref-IsDeep : IsDeep secret_key_ref_copier
unfolding copy_secret_key_ref
secret_key_ref-IsDeep = record { same = plain-IsDeep.same; fresh = plain-IsDeep.fresh }

pub config_map_key_ref-IsDeep : IsDeep config_map_key_ref_copier
unfolding copy_config_map_key_ref
config_map_key_ref-IsDeep = record { same = plain-IsDeep.same; fresh = plain-IsDeep.fresh }

pub tofu_provider_status-IsDeep : IsDeep tofu_provider_status_copier
unfolding copy_tofu_provider_status
tofu_provider_status-IsDeep = record { same = plain-IsDeep.same; fresh = plain-IsDeep.fresh }
