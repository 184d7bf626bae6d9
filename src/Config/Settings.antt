-- ===== src/Config/Settings.antt =====
-- `Config.flask_settings`, and `_coalesce_env`.
use realynk.Base.{
  ℕ, ◌+◌, ◌*◌, Bool, true, false, List, [], ◌∷◌, Text, codes, is_empty, text_eq, if◌then◌else◌,
}
use realynk.Config.Parsing.{ℤ, pos, is_one_of}
use realynk.Config.{Environment, Origins, Config}
use realynk.Config.Parts.{getenv_stripped}

-- the values of `SQLALCHEMY_ENGINE_OPTIONS`
pub data EngineOption : Type 0 where
  option_flag : Bool → EngineOption
  option_number : ℤ → EngineOption

-- the values of the dict
pub data Setting : Type 0 where
  text : Text → Setting
  number : ℤ → Setting
  flag : Bool → Setting
  cors : Origins → Setting
  engine_options : List (Text × EngineOption) → Setting

abbrev natural : ℕ → Setting
natural n = number (pos n)

unfoldable pub flask_settings : Config → List (Text × Setting)
flask_settings c =
    (codes "APP_NAME", text c.app_name)
    ∷ (codes "APP_ENV", text c.app_env)
    ∷ (codes "DEBUG", flag c.debug)
    ∷ (codes "TESTING", flag (text_eq c.app_env (codes "testing")))
    ∷ (codes "SECRET_KEY", text c.secret_key)
    ∷ (codes "JWT_SECRET_KEY", text c.jwt_secret_key)
    ∷ (codes "JWT_ACCESS_TOKEN_EXPIRES_MINUTES", natural c.jwt_access_token_expires_minutes)
    ∷ (codes "SQLALCHEMY_DATABASE_URI", text c.database_url)
    ∷ (codes "SQLALCHEMY_TRACK_MODIFICATIONS", flag false)
    ∷ (
      codes "SQLALCHEMY_ENGINE_OPTIONS",
      engine_options (
          (codes "pool_pre_ping", option_flag true)
          ∷ (codes "pool_recycle", option_number c.database_pool_recycle)
          ∷ (codes "pool_size", option_number (pos c.database_pool_size))
          ∷ (codes "max_overflow", option_number (pos c.database_max_overflow))
          ∷ (codes "pool_timeout", option_number (pos c.database_pool_timeout))
          ∷ []),
    )
    ∷ (codes "HOST", text c.host)
    ∷ (codes "PORT", natural c.port)
    ∷ (codes "CORS_ORIGINS", cors c.cors_origins)
    ∷ (codes "SOCKETIO_ASYNC_MODE", text (codes "threading"))
    ∷ (codes "SOCKETIO_MAX_HTTP_BUFFER_SIZE", natural c.socketio_max_http_buffer_size)
    ∷ (codes "TYPING_TIMEOUT_SECONDS", number c.typing_timeout_seconds)
    ∷ (codes "NOTIFICATION_RETENTION_DAYS", number c.notification_retention_days)
    ∷ (codes "SUPABASE_URL", text c.supabase_url)
    ∷ (codes "SUPABASE_SERVICE_ROLE_KEY", text c.supabase_service_role_key)
    ∷ (codes "SUPABASE_STORAGE_BUCKET", text c.supabase_storage_bucket)
    ∷ (codes "MAX_ATTACHMENT_SIZE_MB", natural c.max_attachment_size_mb)
    ∷ (codes "MAX_TOTAL_ATTACHMENT_SIZE_MB", natural c.max_total_attachment_size_mb)
    ∷ (codes "MAX_ATTACHMENTS_PER_MESSAGE", natural c.max_attachments_per_message)
    ∷ (
      codes "ATTACHMENT_SIGNED_URL_EXPIRES_SECONDS",
      natural c.attachment_signed_url_expires_seconds,
    )
    ∷ (codes "RATE_LIMIT_ENABLED", flag c.rate_limit_enabled)
    ∷ (codes "RATE_LIMIT_DEFAULT_REQUESTS", natural c.rates.rate_limit_default_requests)
    ∷ (codes "RATE_LIMIT_DEFAULT_WINDOW_SECONDS", natural c.rates.rate_limit_default_window_seconds)
    ∷ (codes "AUTH_RATE_LIMIT_REQUESTS", natural c.rates.auth_rate_limit_requests)
    ∷ (codes "AUTH_RATE_LIMIT_WINDOW_SECONDS", natural c.rates.auth_rate_limit_window_seconds)
    ∷ (codes "SOCKET_RATE_LIMIT_EVENTS", natural c.rates.socket_rate_limit_events)
    ∷ (codes "SOCKET_RATE_LIMIT_WINDOW_SECONDS", natural c.rates.socket_rate_limit_window_seconds)
    ∷ (codes "MAX_REQUEST_BODY_SIZE_BYTES", natural c.max_request_body_size_bytes)
    ∷ (codes "MAX_QUERY_PARAMS", number c.max_query_params)
    ∷ (codes "MAX_HEADER_SIZE", number c.max_header_size)
    ∷ (codes "TRUST_PROXY", flag c.trust_proxy)
    ∷ (codes "CORS_ALLOW_CREDENTIALS", flag c.cors_allow_credentials)
    ∷ (codes "HSTS_ENABLED", flag c.hsts_enabled)
    ∷ (codes "LOG_LEVEL", text c.log_level)
    ∷ (codes "LOG_FORMAT", text c.log_format)
    ∷ (codes "METRICS_ENABLED", flag c.metrics_enabled)
    ∷ (codes "METRICS_ENDPOINT_ENABLED", flag c.metrics_endpoint_enabled)
    ∷ (codes "SLOW_REQUEST_THRESHOLD_MS", natural c.slow_request_threshold_ms)
    ∷ (codes "JWT_ALGORITHM", text c.jwt_algorithm)
    ∷ (
      codes "MAX_CONTENT_LENGTH",
      natural (c.max_total_attachment_size_mb * 1024 * 1024 + 1024 * 1024),
    )
    ∷ []

-- `_coalesce_env`
unfoldable pub coalesce_env : (Text → Text) → Environment → Text → Text → Text
coalesce_env lower env name default =
    let value = getenv_stripped env name [] in
    if is_empty value
    then default
    else if is_one_of (codes "change-me" ∷ codes "change-me-too" ∷ []) (lower value)
    then default
    else value
