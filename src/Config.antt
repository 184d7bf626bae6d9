-- ===== src/Config.antt =====
-- app/config.py: the settings that the environment gives. Parameters: `str.lower` and `str.upper`;
-- `urlparse`, of which three parts are read. `load_dotenv` comes before: the environment is the one
-- that it leaves.
pub mod Parsing
pub mod Parts
pub mod Loading
pub mod Settings
pub mod Soundness
use realynk.Base.{
  ℕ, ◌+◌, ◌*◌, Bool, true, false, not, ◌&&◌, ◌||◌, Option, none, some, List, [], ◌∷◌, Text, codes,
  any, is_empty, ltb, strip, text_eq, if◌then◌else◌,
}
use realynk.Config.Parsing.{ℤ}

-- `os.environ`
abbrev pub Environment : Type 0
Environment = Text → Option Text

-- the parts of a parsed URL that are read; a missing host is empty
pub record Url : Type 0 where
  pub scheme : Text
  pub hostname : Text
  pub path : Text

-- `"*"`, or a list of origins
pub data Origins : Type 0 where
  all_origins : Origins
  origins : List Text → Origins

-- the six entries of `parsed_rates`
pub record Rates : Type 0 where
  pub rate_limit_default_requests : ℕ
  pub rate_limit_default_window_seconds : ℕ
  pub auth_rate_limit_requests : ℕ
  pub auth_rate_limit_window_seconds : ℕ
  pub socket_rate_limit_events : ℕ
  pub socket_rate_limit_window_seconds : ℕ

pub record Config : Type 0 where
  pub app_name : Text
  pub app_env : Text
  pub debug : Bool
  pub host : Text
  pub port : ℕ
  pub database_url : Text
  pub secret_key : Text
  pub jwt_secret_key : Text
  pub jwt_access_token_expires_minutes : ℕ
  pub cors_origins : Origins
  pub database_pool_recycle : ℤ
  pub database_pool_size : ℕ
  pub database_max_overflow : ℕ
  pub typing_timeout_seconds : ℤ
  pub notification_retention_days : ℤ
  pub supabase_url : Text
  pub supabase_service_role_key : Text
  pub supabase_storage_bucket : Text
  pub max_attachment_size_mb : ℕ
  pub max_total_attachment_size_mb : ℕ
  pub max_attachments_per_message : ℕ
  pub attachment_signed_url_expires_seconds : ℕ
  pub rate_limit_enabled : Bool
  pub rates : Rates
  pub max_request_body_size_bytes : ℕ
  pub max_query_params : ℤ
  pub max_header_size : ℤ
  pub trust_proxy : Bool
  pub cors_allow_credentials : Bool
  pub cors_allowed_methods : List Text
  pub cors_allowed_headers : List Text
  pub socketio_max_http_buffer_size : ℕ
  pub hsts_enabled : Bool
  pub log_level : Text
  pub log_format : Text
  pub metrics_enabled : Bool
  pub metrics_endpoint_enabled : Bool
  pub slow_request_threshold_ms : ℕ
  pub database_pool_timeout : ℕ
  pub jwt_algorithm : Text
