-- ===== src/Manager/Flags.antt =====
-- The command line of the manager: the flags with their defaults, and the value of -configs.
use soyplane.Base.{
  string_comparable, String, Bool, true, false, List, [], ◌∷◌, ◌++◌, if◌then◌else◌, ◌==◌,
  split_commas, trim_space,
}

pub record Flags : Type 0 where
  pub metrics_addr : String
  pub metrics_cert_path : String
  pub metrics_cert_name : String
  pub metrics_cert_key : String
  pub webhook_cert_path : String
  pub webhook_cert_name : String
  pub webhook_cert_key : String
  pub enable_leader_election : Bool
  pub probe_addr : String
  pub secure_metrics : Bool
  pub enable_http2 : Bool
  pub config_files : List String
  pub watch_config : Bool

-- The flags where the command line sets none.
abbrev pub default_flags : Flags
default_flags = record {
  metrics_addr = "0";
  metrics_cert_path = "";
  metrics_cert_name = "tls.crt";
  metrics_cert_key = "tls.key";
  webhook_cert_path = "";
  webhook_cert_name = "tls.crt";
  webhook_cert_key = "tls.key";
  enable_leader_election = false;
  probe_addr = ":8081";
  secure_metrics = true;
  enable_http2 = false;
  config_files = [];
  watch_config = true;
}

-- The loop over the parts of one -configs value.
unfoldable pub trimmed_parts : List String → List String
trimmed_parts [] = []
trimmed_parts (part ∷ parts) =
    let f = trim_space part in let rest = trimmed_parts parts in if f == "" then rest else f ∷ rest

-- The callback of the flag: it may be given more than once.
unfoldable pub add_configs : String → List String → List String
unfolding trimmed_parts
add_configs v config_files = config_files ++ trimmed_parts (split_commas v)
