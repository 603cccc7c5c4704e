-- ===== src/Manager/Main.antt =====
-- `main` of cmd/manager/main.go. What it calls of controller-runtime is a parameter, `Platform`.
use soyplane.Base.{
  ◌>>◌, string_comparable, String, Bool, Option, none, some, List, [], ◌∷◌, ◌++◌, Result, ok, err,
  Action, pure, fail, if◌then◌else◌, ◌==◌,
}
use soyplane.Settings.{Libraries, Settings, SettingsError}
use soyplane.Manager.{boot}
use soyplane.Manager.Flags.{Flags}

-- A certificate watcher, by its two files.
pub record CertWatcher : Type 0 where
  pub cert_file : String
  pub key_file : String

-- The functions in `tlsOpts`.
pub data TlsOption : Type 0 where
  disable_http2 : TlsOption
  get_certificate : CertWatcher → TlsOption

-- metricsserver.Options; the filter is filters.WithAuthenticationAndAuthorization, or nil.
pub record MetricsOptions : Type 0 where
  pub bind_address : String
  pub secure_serving : Bool
  pub has_filter : Bool
  pub tls_opts : List TlsOption

-- ctrl.Options, with the TLS options of the webhook server.
pub record ManagerOptions : Type 0 where
  pub metrics : MetricsOptions
  pub webhook_tls_opts : List TlsOption
  pub health_probe_bind_address : String
  pub leader_election : Bool
  pub leader_election_id : String

-- The calls that can fail.
pub data Call : Type 0 where
  new_cert_watcher : CertWatcher → Call
  new_manager : ManagerOptions → Call
  setup_with_manager : String → Call
  add_runnable : CertWatcher → Call
  add_healthz_check : Call
  add_readyz_check : Call
  start_manager : Call

pub record Platform : Type 1 where
  pub State : Type 0
  pub perform : Call → State → Result String (Unit {0}) × State
  -- filepath.Join
  pub join : String → String → String

-- What the program logs before it ends with status 1.
pub data Exit : Type 0 where
  call_failed : String → String → Exit
  settings_failed : SettingsError → Exit

unfoldable pub http_options : Bool → List TlsOption
http_options enable_http2 = if enable_http2 then [] else disable_http2 ∷ []

abbrev pub certificate_options : Option CertWatcher → List TlsOption
certificate_options none = []
certificate_options (some watcher) = get_certificate watcher ∷ []

module _ (P : Platform) where
  -- The watcher that is made if a directory is given.
  unfoldable pub cert_watcher : String → String → String → Option CertWatcher
  cert_watcher path name key =
      if path == ""
      then none
      else some (record { cert_file = P.join path name; key_file = P.join path key })

  abbrev pub webhook_cert_watcher : Flags → Option CertWatcher
  webhook_cert_watcher f = cert_watcher f.webhook_cert_path f.webhook_cert_name f.webhook_cert_key

  abbrev pub metrics_cert_watcher : Flags → Option CertWatcher
  metrics_cert_watcher f = cert_watcher f.metrics_cert_path f.metrics_cert_name f.metrics_cert_key

  unfoldable pub metrics_server_options : Flags → MetricsOptions
  unfolding http_options cert_watcher
  metrics_server_options f = record {
    bind_address = f.metrics_addr;
    secure_serving = f.secure_metrics;
    has_filter = f.secure_metrics;
    tls_opts = http_options f.enable_http2 ++ certificate_options (metrics_cert_watcher f);
  }

  unfoldable pub manager_options : Flags → ManagerOptions
  unfolding metrics_server_options http_options cert_watcher
  manager_options f = record {
    metrics = metrics_server_options f;
    webhook_tls_opts = http_options f.enable_http2 ++ certificate_options (webhook_cert_watcher f);
    health_probe_bind_address = f.probe_addr;
    leader_election = f.enable_leader_election;
    leader_election_id = "184686c6.soyplane.io";
  }

  module _ (L : Libraries) where
    -- The host, and the variables of the settings package.
    pub record Process : Type 0 where
      pub host : P.State
      pub settings : Settings L

    abbrev pub Does : Type 0 → Type 0
    Does A = Action Process Exit A

    abbrev pub finish : String → Result String (Unit {0}) → Does (Unit {0})
    finish message (ok _) = pure tt
    finish message (err e) = fail (call_failed message e)

    unfoldable pub call : Call → String → Does (Unit {0})
    call c message p =
        let (r, host) = P.perform c p.host in finish message r (record p { host = host })

    abbrev pub init_watcher : Option CertWatcher → String → Does (Unit {0})
    init_watcher none message = pure tt
    init_watcher (some watcher) message = call (new_cert_watcher watcher) message

    abbrev pub add_watcher : Option CertWatcher → String → Does (Unit {0})
    add_watcher none message = pure tt
    add_watcher (some watcher) message = call (add_runnable watcher) message

    abbrev pub finish_settings : Result SettingsError (Unit {0}) → Does (Unit {0})
    finish_settings (ok _) = pure tt
    finish_settings (err e) = fail (settings_failed e)

    -- The settings, and where their failures are reported.
    unfoldable pub start_settings : L.Files → Flags → String → String → Does (Unit {0})
    start_settings files f pod_name pod_namespace p =
        let (r, settings) =
          boot L files f.config_files f.watch_config pod_name pod_namespace p.settings in
        finish_settings r (record p { settings = settings })

    unfoldable pub main : L.Files → Flags → String → String → Does (Unit {0})
    unfolding manager_options start_settings call cert_watcher
    main files f pod_name pod_namespace = do
      init_watcher (webhook_cert_watcher f) "Failed to initialize webhook certificate watcher"
      init_watcher (metrics_cert_watcher f) "to initialize metrics certificate watcher"
      call (new_manager (manager_options f)) "unable to start manager"
      start_settings files f pod_name pod_namespace
      call (setup_with_manager "TofuExecution") "unable to create controller"
      call (setup_with_manager "TofuStack") "unable to create controller"
      call (setup_with_manager "TofuModule") "unable to create controller"
      add_watcher (metrics_cert_watcher f) "unable to add metrics certificate watcher to manager"
      add_watcher (webhook_cert_watcher f) "unable to add webhook certificate watcher to manager"
      call add_healthz_check "unable to set up health check"
      call add_readyz_check "unable to set up ready check"
      call start_manager "problem running manager"
      pure tt
