-- ===== src/DeepCopy/Plain.antt =====
-- The structs that hold no pointer, slice or map: their DeepCopyInto is an assignment.
pub mod Laws
use soyplane.Base.{Option, []}
use soyplane.Api.{
  ConfigMapKeyRef, DriftDetectionSpec, EngineSpec, KeyRef, ObjectRef, OutputTarget, SecretKeyRef,
  TofuProviderRef, TofuProviderStatus,
}
use soyplane.DeepCopy.Memory.{Ref, Allocates, Copier, deep_copy}

unfoldable pub copy_object_ref : ObjectRef → Allocates ObjectRef
copy_object_ref x n = (x, n)

abbrev pub object_ref_copier : Copier ObjectRef
object_ref_copier = record { copy = copy_object_ref; addresses = λ x. []; contents = λ x. x }

abbrev pub deep_copy_object_ref : Option (Ref ObjectRef) → Allocates (Option (Ref ObjectRef))
deep_copy_object_ref = deep_copy object_ref_copier

unfoldable pub copy_engine_spec : EngineSpec → Allocates EngineSpec
copy_engine_spec x n = (x, n)

abbrev pub engine_spec_copier : Copier EngineSpec
engine_spec_copier = record { copy = copy_engine_spec; addresses = λ x. []; contents = λ x. x }

abbrev pub deep_copy_engine_spec : Option (Ref EngineSpec) → Allocates (Option (Ref EngineSpec))
deep_copy_engine_spec = deep_copy engine_spec_copier

unfoldable pub copy_key_ref : KeyRef → Allocates KeyRef
copy_key_ref x n = (x, n)

abbrev pub key_ref_copier : Copier KeyRef
key_ref_copier = record { copy = copy_key_ref; addresses = λ x. []; contents = λ x. x }

abbrev pub deep_copy_key_ref : Option (Ref KeyRef) → Allocates (Option (Ref KeyRef))
deep_copy_key_ref = deep_copy key_ref_copier

unfoldable pub copy_output_target : OutputTarget → Allocates OutputTarget
copy_output_target x n = (x, n)

abbrev pub output_target_copier : Copier OutputTarget
output_target_copier = record { copy = copy_output_target; addresses = λ x. []; contents = λ x. x }

abbrev pub deep_copy_output_target :
    Option (Ref OutputTarget) → Allocates (Option (Ref OutputTarget))
deep_copy_output_target = deep_copy output_target_copier

unfoldable pub copy_tofu_provider_ref : TofuProviderRef → Allocates TofuProviderRef
copy_tofu_provider_ref x n = (x, n)

abbrev pub tofu_provider_ref_copier : Copier TofuProviderRef
tofu_provider_ref_copier = record {
  copy = copy_tofu_provider_ref;
  addresses = λ x. [];
  contents = λ x. x;
}

abbrev pub deep_copy_tofu_provider_ref :
    Option (Ref TofuProviderRef) → Allocates (Option (Ref TofuProviderRef))
deep_copy_tofu_provider_ref = deep_copy tofu_provider_ref_copier

unfoldable pub copy_drift_detection_spec : DriftDetectionSpec → Allocates DriftDetectionSpec
copy_drift_detection_spec x n = (x, n)

abbrev pub drift_detection_spec_copier : Copier DriftDetectionSpec
drift_detection_spec_copier = record {
  copy = copy_drift_detection_spec;
  addresses = λ x. [];
  contents = λ x. x;
}

abbrev pub deep_copy_drift_detection_spec :
    Option (Ref DriftDetectionSpec) → Allocates (Option (Ref DriftDetectionSpec))
deep_copy_drift_detection_spec = deep_copy drift_detection_spec_copier

unfoldable pub copy_secret_key_ref : SecretKeyRef → Allocates SecretKeyRef
copy_secret_key_ref x n = (x, n)

abbrev pub secret_key_ref_copier : Copier SecretKeyRef
secret_key_ref_copier = record {
  copy = copy_secret_key_ref;
  addresses = λ x. [];
  contents = λ x. x;
}

abbrev pub deep_copy_secret_key_ref :
    Option (Ref SecretKeyRef) → Allocates (Option (Ref SecretKeyRef))
deep_copy_secret_key_ref = deep_copy secret_key_ref_copier

unfoldable pub copy_config_map_key_ref : ConfigMapKeyRef → Allocates ConfigMapKeyRef
copy_config_map_key_ref x n = (x, n)

abbrev pub config_map_key_ref_copier : Copier ConfigMapKeyRef
config_map_key_ref_copier = record {
  copy = copy_config_map_key_ref;
  addresses = λ x. [];
  contents = λ x. x;
}

abbrev pub deep_copy_config_map_key_ref :
    Option (Ref ConfigMapKeyRef) → Allocates (Option (Ref ConfigMapKeyRef))
deep_copy_config_map_key_ref = deep_copy config_map_key_ref_copier

unfoldable pub copy_tofu_provider_status : TofuProviderStatus → Allocates TofuProviderStatus
copy_tofu_provider_status x n = (x, n)

abbrev pub tofu_provider_status_copier : Copier TofuProviderStatus
tofu_provider_status_copier = record {
  copy = copy_tofu_provider_status;
  addresses = λ x. [];
  contents = λ x. x;
}

abbrev pub deep_copy_tofu_provider_status :
    Option (Ref TofuProviderStatus) → Allocates (Option (Ref TofuProviderStatus))
deep_copy_tofu_provider_status = deep_copy tofu_provider_status_copier
