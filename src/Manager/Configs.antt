-- ===== src/Manager/Configs.antt =====
-- What the -configs flag makes of its values.
use soyplane.Base.{
  string_comparable, ◌≡◌, ◌≢◌, refl, ap, ◌∙◌, String, List, [], ◌∷◌, ◌++◌, arith, ◌==◌, All,
  All-append, All-map, inl, inr, Bool-cases, split_commas, join_commas, trim_space, HasNoComma,
  split_commas-join_commas, split_commas-All, trim_space-HasNoComma, trim_space_twice,
}
use soyplane.Manager.Flags.{trimmed_parts, add_configs}

-- A path that the flag can name: not empty, with no comma, and no space around it.
pub record IsPlain (path : String) : Type 0 where
  pub not_empty : path ≢ ""
  pub no_comma : HasNoComma path
  pub trimmed : trim_space path ≡ path

trimmed_parts-IsPlain :
    (parts : List String) → All HasNoComma parts → All IsPlain (trimmed_parts parts)
unfolding trimmed_parts
trimmed_parts-IsPlain [] h = tt
trimmed_parts-IsPlain (part ∷ parts) (hp, h) = elim (Bool-cases (trim_space part == "")) [
  | inl blank ↦ rw blank (trimmed_parts-IsPlain parts h)
  | inr ink ↦ rw ink (
    record {
      not_empty = ground arith;
      no_comma = trim_space-HasNoComma part hp;
      trimmed = trim_space_twice part;
    },
    trimmed_parts-IsPlain parts h,
  )
]

trimmed_parts-plain : (paths : List String) → All IsPlain paths → trimmed_parts paths ≡ paths
unfolding trimmed_parts
trimmed_parts-plain [] h = refl
trimmed_parts-plain (path ∷ paths) (hp, h) =
    ground (arith, hp.not_empty, hp.trimmed, trimmed_parts-plain paths h)

-- Plain paths joined by commas come back as they were, behind those that were given before; and
-- whatever text the flag is given, the paths that it adds are plain: none is empty, none holds a
-- comma and none has space around it.
pub add_configs-join_commas :
    (config_files : List String) (path : String) (paths : List String) (v : String)
    → All IsPlain (path ∷ paths)
    → All IsPlain config_files
    → (add_configs (join_commas (path ∷ paths)) config_files ≡ config_files ++ (path ∷ paths))
      × All IsPlain (add_configs v config_files)
unfolding add_configs
add_configs-join_commas config_files path paths v h known = (
  ap (λ parts. config_files ++ trimmed_parts parts)
        (split_commas-join_commas path paths
          (All-map _ _ (λ p plain. plain.no_comma) (path ∷ paths) h))
      ∙ ap (λ l. config_files ++ l) (trimmed_parts-plain (path ∷ paths) h),
  All-append IsPlain config_files _ known
      (trimmed_parts-IsPlain (split_commas v) (split_commas-All v)),
)
