-- ===== src/Tests/Files.antt =====
-- Configuration libraries that read a settings value straight from a file of that path.
use soyplane.Base.{
  String, true, none, List, [], ◌∷◌, Result, ok, err, if◌then◌else◌, ◌==◌, string_comparable, arith,
  refl,
}
use soyplane.Settings.{SoyplaneSettings, zero_settings, Validation, valid, invalid, Libraries}
use soyplane.Settings.Start.{AreLawful}

abbrev Files : Type 0
Files = List (String × SoyplaneSettings)

abbrev read : Files → String → SoyplaneSettings → Result String SoyplaneSettings
read [] path tree = err "no such file"
read ((p, cfg) ∷ files) path tree =
    let rest = read files path tree in if p == path then ok cfg else rest

abbrev with_image : SoyplaneSettings → SoyplaneSettings
with_image cfg =
    if cfg.execution.default_image == ""
    then record cfg { execution = record { default_image = "tofuutils/tenv:latest" } }
    else cfg

abbrev check : SoyplaneSettings → Validation
check cfg =
    let refused = λ (field : String).
      invalid (record { struct_namespace = field; tag = "required"; value = "" } ∷ []) in
    if cfg.execution.default_image == ""
    then refused "SoyplaneSettings.Execution.DefaultImage"
    else if cfg.test
    then valid
    else refused "SoyplaneSettings.Test"

abbrev pub libraries : Libraries
libraries = record {
  Tree = SoyplaneSettings;
  Provider = String;
  Files = Files;
  new_tree = zero_settings;
  file_provider = λ path. path;
  load = λ files path tree. read files path tree;
  unmarshal = λ tree cfg. ok tree;
  set_defaults = with_image;
  validate = check;
  is_watchable = λ path. true;
  watch = λ files path. none;
}

pub libraries_are_lawful : AreLawful libraries
libraries_are_lawful = record {
  required_test = λ cfg h. ground arith;
  required_image = λ cfg h. ground arith;
  unmarshal_empty = refl;
  defaults_test = λ cfg. ground arith;
}

-- A good file, and none.
abbrev pub good : Files
good = ("config.yaml", record { execution = record { default_image = "" }; test = true }) ∷ []

abbrev pub gone : Files
gone = []

abbrev pub defaulted : SoyplaneSettings
defaulted = record { execution = record { default_image = "tofuutils/tenv:latest" }; test = true }
