-- ===== src/Config/Defs.antt =====
-- src/config/mod.rs: the configuration and its validation. The arguments are what `clap` has parsed;
-- a URL is its scheme and the rest, a path and a text are their bytes. A duration is in seconds.
use newghost.Prelude.{ℕ, Bool, true, false, not, ◌||◌, Option, none, some, List, [], ◌∷◌, ltb, ◌==◌}
use newghost.Prelude.Outcome.{Outcome, ok, ◌>>=◌, ◌>>◌, reject_if}
use newghost.Net.{SocketAddr}
use newghost.Net.Blank.{is_blank}
use newghost.Auth.{bytes_eq}

pub data ConfigField : Type 0 where
  max_pending_intents max_sessions iroh_connect_timeout_secs : ConfigField
  wss_connect_timeout_secs socks5_total_timeout_secs graceful_timeout_secs : ConfigField
  force_kill_after_secs burst_alert_threshold burst_alert_window_secs : ConfigField
  burst_min_log_interval_secs burst_ring_capacity payload_capacity_bytes operator_uid : ConfigField

pub data ConfigError : Type 0 where
  empty_auth_token invalid_remote_wss_scheme invalid_shutdown_ordering empty_tls_path : ConfigError
  non_positive_value : ConfigField → ConfigError

pub record RemoteUrl : Type 0 where
  pub scheme : List ℕ
  pub rest : List ℕ

pub data OrigDstTransparentSocketMode : Type 0 where
  disabled required : OrigDstTransparentSocketMode

pub record ClientTlsConfig : Type 0 where
  pub trust_anchor_path : List ℕ
  pub server_name_override : Option (List ℕ)

pub record ClientConfig : Type 0 where
  pub listen_addr : SocketAddr
  pub remote_wss_url : RemoteUrl
  pub tls : Option ClientTlsConfig

pub record ServerConfig : Type 0 where
  pub server_listen_addr : SocketAddr
  pub tls_cert_path : List ℕ
  pub tls_key_path : List ℕ

pub record OrigDstLiveConfig : Type 0 where
  pub listener_addr : SocketAddr
  pub payload_capacity : ℕ
  pub uid : ℕ
  pub preserve_baseline_proxy_addr : SocketAddr
  pub transparent_socket_mode : OrigDstTransparentSocketMode

pub data RuntimeMode : Type 0 where
  client : ClientConfig → RuntimeMode
  server : ServerConfig → RuntimeMode
  orig_dst_live : OrigDstLiveConfig → RuntimeMode

pub record LimitsConfig : Type 0 where
  pub pending_intents : ℕ
  pub sessions : ℕ

pub record TimeoutConfig : Type 0 where
  pub iroh_connect_timeout : ℕ
  pub wss_connect_timeout : ℕ
  pub socks5_total_timeout : ℕ
  pub graceful_timeout : ℕ
  pub force_kill_after : ℕ

pub record BurstDetectionConfig : Type 0 where
  pub alert_threshold : ℕ
  pub alert_window : ℕ
  pub min_log_interval : ℕ
  pub ring_capacity : ℕ

pub record AppConfig : Type 0 where
  pub runtime_mode : RuntimeMode
  pub auth_token : List ℕ
  pub limits : LimitsConfig
  pub timeouts : TimeoutConfig
  pub burst_detection : BurstDetectionConfig

-- The name of a client's server comes beside the path of its trust anchor.
pub data ModeArgs : Type 0 where
  client_args : SocketAddr → RemoteUrl → Option (List ℕ) → Option (List ℕ) → ModeArgs
  server_args : SocketAddr → List ℕ → List ℕ → ModeArgs
  orig_dst_live_args : SocketAddr → ℕ → ℕ → SocketAddr → OrigDstTransparentSocketMode → ModeArgs

pub record CliArgs : Type 0 where
  pub mode : ModeArgs
  pub token : List ℕ
  pub limit_args : LimitsConfig
  pub timeout_args : TimeoutConfig
  pub burst_args : BurstDetectionConfig

abbrev pub Checked : Type 0 → Type 0
Checked A = Outcome ConfigError A

unfoldable pub validate_non_empty_token : List ℕ → Checked (Unit {0})
validate_non_empty_token token = reject_if (is_blank token) empty_auth_token

-- The three functions `validate_positive`, which differ in the width of the value.
unfoldable pub validate_positive : ConfigField → ℕ → Checked (Unit {0})
validate_positive field value = reject_if (value == 0) (non_positive_value field)

unfoldable pub validate_limits : LimitsConfig → Checked (Unit {0})
unfolding validate_positive
validate_limits limits = do
  validate_positive max_pending_intents limits.pending_intents
  validate_positive max_sessions limits.sessions

unfoldable pub validate_timeouts : TimeoutConfig → Checked (Unit {0})
unfolding validate_positive
validate_timeouts timeouts = do
  validate_positive iroh_connect_timeout_secs timeouts.iroh_connect_timeout
  validate_positive wss_connect_timeout_secs timeouts.wss_connect_timeout
  validate_positive socks5_total_timeout_secs timeouts.socks5_total_timeout
  validate_positive graceful_timeout_secs timeouts.graceful_timeout
  validate_positive force_kill_after_secs timeouts.force_kill_after

unfoldable pub validate_burst : BurstDetectionConfig → Checked (Unit {0})
unfolding validate_positive
validate_burst burst = do
  validate_positive burst_alert_threshold burst.alert_threshold
  validate_positive burst_alert_window_secs burst.alert_window
  validate_positive burst_min_log_interval_secs burst.min_log_interval
  validate_positive burst_ring_capacity burst.ring_capacity

-- `wss`
abbrev pub wss_scheme : List ℕ
wss_scheme = 119 ∷ 115 ∷ 115 ∷ []

-- The name without a trust anchor is dropped.
abbrev pub client_tls : Option (List ℕ) → Option (List ℕ) → Option ClientTlsConfig
client_tls none name = none
client_tls (some path) name =
    some (record { trust_anchor_path = path; server_name_override = name })

abbrev is_empty : List ℕ → Bool
is_empty [] = true
is_empty (b ∷ bs) = false

unfoldable pub runtime_mode_of : ModeArgs → Checked RuntimeMode
unfolding validate_positive
runtime_mode_of (client_args listen url anchor name) = do
  reject_if (not (bytes_eq url.scheme wss_scheme)) invalid_remote_wss_scheme
  ok (client (record { listen_addr = listen; remote_wss_url = url; tls = client_tls anchor name }))
runtime_mode_of (server_args listen cert key) = do
  reject_if (is_empty cert || is_empty key) empty_tls_path
  ok (server (record { server_listen_addr = listen; tls_cert_path = cert; tls_key_path = key }))
runtime_mode_of (orig_dst_live_args listener capacity operator baseline socket_mode) = do
  validate_positive payload_capacity_bytes capacity
  validate_positive operator_uid operator
  ok (
      orig_dst_live (record {
        listener_addr = listener;
        payload_capacity = capacity;
        uid = operator;
        preserve_baseline_proxy_addr = baseline;
        transparent_socket_mode = socket_mode;
      }))

unfoldable pub try_from : CliArgs → Checked AppConfig
unfolding validate_non_empty_token validate_limits validate_timeouts validate_burst runtime_mode_of
try_from value = do
  validate_non_empty_token value.token
  validate_limits value.limit_args
  validate_timeouts value.timeout_args
  validate_burst value.burst_args
  reject_if (ltb value.timeout_args.force_kill_after value.timeout_args.graceful_timeout)
      invalid_shutdown_ordering
  mode ← runtime_mode_of value.mode
  ok (record {
    runtime_mode = mode;
    auth_token = value.token;
    limits = value.limit_args;
    timeouts = value.timeout_args;
    burst_detection = value.burst_args;
  })
