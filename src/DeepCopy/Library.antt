-- ===== src/DeepCopy/Library.antt =====
-- The structs of apimachinery and of the core API that ours hold, with their own copies.
pub mod Laws
use soyplane.DeepCopy.Memory.{Copier, IsDeep, GoMapRef, map_of, by_deep_copy}

-- TypeMeta is copied by assignment.
pub record Library : Type 1 where
  pub TypeMeta : Type 0
  pub ObjectMeta : Type 0
  pub ListMeta : Type 0
  pub Time : Type 0
  pub Condition : Type 0
  pub EnvVar : Type 0
  pub EnvFromSource : Type 0
  pub Json : Type 0
  pub object_meta : Copier ObjectMeta
  pub list_meta : Copier ListMeta
  pub time : Copier Time
  pub condition : Copier Condition
  pub env_var : Copier EnvVar
  pub env_from_source : Copier EnvFromSource
  pub json : Copier Json

-- What their authors promise of DeepCopyInto.
pub record IsDeepLibrary (E : Library) : Type 0 where
  pub object_meta : IsDeep E.object_meta
  pub list_meta : IsDeep E.list_meta
  pub time : IsDeep E.time
  pub condition : IsDeep E.condition
  pub env_var : IsDeep E.env_var
  pub env_from_source : IsDeep E.env_from_source
  pub json : IsDeep E.json

-- A map of JSON values: each is copied by DeepCopy.
abbrev pub json_map : (E : Library) → Copier (GoMapRef E.Json)
json_map E = map_of (by_deep_copy E.json)
