-- ===== src/Tests/Boot.antt =====
-- The manager's start, on a platform that accepts and records every call.
use text.Mathlib.TextEquality.{eq_iff}
use native.Mathlib.Decide.{ℕ_discrete}
use soyplane.Base.{
  ◌>>◌, pure, ◌≡◌, ◌≢◌, refl, ◌<>◌, none, List, [], ◌∷◌, ok, arith, text_dec, All, trim_space,
  trim_left, trim_right, is_space, join_commas,
}
use soyplane.Settings.{
  ExecutionSettings, new_settings, init, load_providers, hydrate_settings, execution,
}
use soyplane.Settings.History.{loads, watch_fires, run}
use soyplane.Manager.{boot}
use soyplane.Manager.Flags.{Flags, default_flags, add_configs}
use soyplane.Manager.Configs.{IsPlain, add_configs-join_commas}
use soyplane.Manager.Main.{
  main, start_manager, Call, Platform, Process, cert_watcher, call, start_settings,
}
use soyplane.Manager.Ready.{boot_steps, run_steps}
use soyplane.Manager.Started.{started_manager_has_settings}
use soyplane.Tests.Files.{libraries, libraries_are_lawful, good, gone}

abbrev recorder : Platform
recorder = record {
  State = List Call;
  perform = λ c calls. (ok tt, c ∷ calls);
  join = λ directory name. directory <> "/" <> name;
}

-- A manager with a webhook certificate and one settings file.
abbrev flags : Flags
flags = record default_flags { webhook_cert_path = "/certs"; config_files = "config.yaml" ∷ [] }

abbrev fresh : Process recorder libraries
fresh = record { host = []; settings = new_settings libraries }

steps_go_well :
    (run_steps recorder libraries good flags "manager" "soyplane-system"
      (boot_steps recorder flags)
      fresh).0
    ≡ ok tt
unfolding cert_watcher call start_settings boot init new_settings load_providers hydrate_settings
    text_dec
steps_go_well = refl

started_manager_has_settings_example :
    let t =
      (run_steps recorder libraries good flags "manager" "soyplane-system"
        (boot_steps recorder flags)
        fresh).1 in
    (main recorder libraries good flags "manager" "soyplane-system" fresh
      ≡ (call recorder libraries start_manager "problem running manager" >> pure tt) t)
    × ((cfg : ExecutionSettings) × (execution libraries
            (run libraries (loads gone ∷ watch_fires gone none ∷ []) t.settings)
          ≡ ok cfg)
        × (cfg.default_image ≢ ""))
started_manager_has_settings_example =
    started_manager_has_settings recorder libraries good flags "manager" "soyplane-system"
      libraries_are_lawful fresh (loads gone ∷ watch_fires gone none ∷ []) refl steps_go_well

paths-IsPlain : All IsPlain ("a.yaml" ∷ "b.yaml" ∷ [])
unfolding trim_space trim_left trim_right is_space ℕ_discrete
paths-IsPlain = (
  record {
    not_empty = ground (arith, eq_iff "a.yaml" "");
    no_comma = (refl, (refl, (refl, (refl, (refl, (refl, tt))))));
    trimmed = refl;
  },
  (
    record {
      not_empty = ground (arith, eq_iff "b.yaml" "");
      no_comma = (refl, (refl, (refl, (refl, (refl, (refl, tt))))));
      trimmed = refl;
    },
    tt,
  ),
)

add_configs-join_commas_example :
    (add_configs "a.yaml,b.yaml" [] ≡ "a.yaml" ∷ "b.yaml" ∷ [])
    × All IsPlain (add_configs " a , ,b" [])
unfolding join_commas
add_configs-join_commas_example =
    add_configs-join_commas [] "a.yaml" ("b.yaml" ∷ []) " a , ,b" paths-IsPlain tt
