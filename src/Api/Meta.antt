-- ===== src/Api/Meta.antt =====
-- Object metadata: `ObjectMetadata` and `ObjectRef` of api/opentofu/v1alpha1, and the fields of
-- metav1.ObjectMeta that the controllers use. A time is its instant as a number.
use soyplane.Base.{ℕ, String, Bool, List, GoMap}

-- metav1.Time
abbrev pub Time : Type 0
Time = ℕ

-- metav1.OwnerReference
pub record OwnerReference : Type 0 where
  pub kind : String
  pub name : String
  pub uid : String
  pub controller : Bool

-- metav1.ObjectMeta. The API server counts `generation` from 1, so it is never negative.
pub record ObjectMeta : Type 0 where
  pub name : String
  pub generate_name : String
  pub namespace : String
  pub uid : String
  pub generation : ℕ
  pub creation_timestamp : Time
  pub labels : GoMap String
  pub annotations : GoMap String
  pub owner_references : List OwnerReference

-- types.NamespacedName
pub record NamespacedName : Type 0 where
  pub namespace : String
  pub name : String

-- The metadata of a template.
pub record ObjectMetadata : Type 0 where
  pub labels : GoMap String
  pub annotations : GoMap String
  pub generate_name : String

pub record ObjectRef : Type 0 where
  pub name : String
  pub namespace : String

-- metav1.Condition: no code here looks inside one, so its serialised form stands for it.
abbrev pub Condition : Type 0
Condition = String

-- apiextv1.JSON holds the raw bytes.
abbrev pub Json : Type 0
Json = String
