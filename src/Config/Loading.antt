-- ===== src/Config/Loading.antt =====
-- `Config.from_environment`: the numbers, and the whole. `str` and `_as_int` on the two sizes of the
-- pool, which are numbers already, are left out.
use realynk.Base.{ℕ, ◌*◌, not, none, some, [], ◌∷◌, Text, codes, ltb, text_eq, if◌then◌else◌}
use realynk.Config.Parsing.{Loaded, loaded, reject_if, at_most, is_one_of, ◌>>=◌}
use realynk.Config.{Environment, Url, Rates, Config}
use realynk.Config.Parts.{
  getenv_stripped, text_setting, int_setting, positive_setting, is_production, allowed_log_levels,
  load_database_url, load_origins, load_app_env, load_secrets, bool_setting, load_debug,
  load_credentials,
}

unfoldable pub load_rates : Environment → Loaded Rates
load_rates env = do
  requests ← positive_setting env (codes "RATE_LIMIT_DEFAULT_REQUESTS") (codes "120") (some 1000000)
  window ←
      positive_setting env (codes "RATE_LIMIT_DEFAULT_WINDOW_SECONDS") (codes "60") (some 1000000)
  auth_requests ←
      positive_setting env (codes "AUTH_RATE_LIMIT_REQUESTS") (codes "10") (some 1000000)
  auth_window ←
      positive_setting env (codes "AUTH_RATE_LIMIT_WINDOW_SECONDS") (codes "60") (some 1000000)
  events ← positive_setting env (codes "SOCKET_RATE_LIMIT_EVENTS") (codes "60") (some 1000000)
  socket_window ←
      positive_setting env (codes "SOCKET_RATE_LIMIT_WINDOW_SECONDS") (codes "60") (some 1000000)
  loaded (record {
    rate_limit_default_requests = requests;
    rate_limit_default_window_seconds = window;
    auth_rate_limit_requests = auth_requests;
    auth_rate_limit_window_seconds = auth_window;
    socket_rate_limit_events = events;
    socket_rate_limit_window_seconds = socket_window;
  })

-- the limits on one attachment and on those of a message
unfoldable pub load_attachment_sizes : Environment → Loaded (ℕ × ℕ)
load_attachment_sizes env = do
  one ← positive_setting env (codes "MAX_ATTACHMENT_SIZE_MB") (codes "25") none
  total ← positive_setting env (codes "MAX_TOTAL_ATTACHMENT_SIZE_MB") (codes "50") none
  _ ← reject_if (ltb total one) (codes "MAX_TOTAL_ATTACHMENT_SIZE_MB")
  loaded (one, total)

-- `if not 1 <= port <= 65535`
unfoldable pub load_port : Environment → Loaded ℕ
load_port env = positive_setting env (codes "PORT") (codes "5000") (some 65535)

unfoldable pub load_max_overflow : Environment → Loaded ℕ
load_max_overflow env = do
  value ← int_setting env (codes "DATABASE_MAX_OVERFLOW") (codes "2")
  at_most 100 value (codes "DATABASE_MAX_OVERFLOW")

module _ (lower upper : Text → Text) where
  unfoldable pub load_jwt_algorithm : Environment → Loaded Text
  load_jwt_algorithm env = do
    let algorithm = upper (getenv_stripped env (codes "JWT_ALGORITHM") (codes "HS256"))
    _ ← reject_if (not (text_eq algorithm (codes "HS256"))) (codes "JWT_ALGORITHM")
    loaded algorithm

  -- the level and the format
  unfoldable pub load_logging : Environment → Text → Loaded (Text × Text)
  load_logging env app_env = do
    let log_level = upper (getenv_stripped env (codes "LOG_LEVEL") (codes "INFO"))
    _ ← reject_if (not (is_one_of allowed_log_levels log_level)) (codes "LOG_LEVEL")
    let log_format = lower (
        getenv_stripped env (codes "LOG_FORMAT")
          (if is_production app_env then codes "json" else codes "text"))
    _ ←
        reject_if (not (is_one_of (codes "json" ∷ codes "text" ∷ []) log_format))
          (codes "LOG_FORMAT")
    loaded (log_level, log_format)

  unfoldable pub from_environment : (Text → Url) → Environment → Loaded Config
  from_environment urlparse env = do
    app_env ← load_app_env lower env
    database_url ← load_database_url urlparse env app_env
    cors_origins ← load_origins env
    (secret_key, jwt_secret_key) ← load_secrets lower env app_env
    debug ← load_debug lower env app_env
    cors_allow_credentials ← load_credentials lower env app_env cors_origins
    jwt_algorithm ← load_jwt_algorithm env
    (log_level, log_format) ← load_logging env app_env
    port ← load_port env
    pool_size ← positive_setting env (codes "DATABASE_POOL_SIZE") (codes "5") (some 100)
    max_overflow ← load_max_overflow env
    rates ← load_rates env
    (max_attachment_size_mb, max_total_attachment_size_mb) ← load_attachment_sizes env
    minutes ←
        positive_setting env (codes "JWT_ACCESS_TOKEN_EXPIRES_MINUTES") (codes "60")
          (some (60 * 24 * 30))
    pool_recycle ← int_setting env (codes "DATABASE_POOL_RECYCLE") (codes "1800")
    pool_timeout ← positive_setting env (codes "DB_POOL_TIMEOUT") (codes "30") none
    typing_timeout ← int_setting env (codes "TYPING_TIMEOUT_SECONDS") (codes "5")
    retention ← int_setting env (codes "NOTIFICATION_RETENTION_DAYS") (codes "90")
    max_attachments ← positive_setting env (codes "MAX_ATTACHMENTS_PER_MESSAGE") (codes "10") none
    url_expires ←
        positive_setting env (codes "ATTACHMENT_SIGNED_URL_EXPIRES_SECONDS") (codes "600") none
    rate_limit_enabled ← bool_setting lower env (codes "RATE_LIMIT_ENABLED") (codes "true")
    body_size ← positive_setting env (codes "MAX_REQUEST_BODY_SIZE_BYTES") (codes "5242880") none
    query_params ← int_setting env (codes "MAX_QUERY_PARAMS") (codes "50")
    header_size ← int_setting env (codes "MAX_HEADER_SIZE") (codes "8192")
    trust_proxy ← bool_setting lower env (codes "TRUST_PROXY") (codes "false")
    buffer_size ←
        positive_setting env (codes "SOCKETIO_MAX_HTTP_BUFFER_SIZE") (codes "5242880") none
    hsts_enabled ← bool_setting lower env (codes "HSTS_ENABLED") (codes "false")
    metrics_enabled ← bool_setting lower env (codes "METRICS_ENABLED") (codes "true")
    metrics_endpoint_enabled ←
        bool_setting lower env (codes "METRICS_ENDPOINT_ENABLED") (codes "true")
    slow_threshold ← positive_setting env (codes "SLOW_REQUEST_THRESHOLD_MS") (codes "1000") none
    loaded (record {
      app_name = text_setting env (codes "APP_NAME") (codes "Realynk");
      app_env = app_env;
      debug = debug;
      host = text_setting env (codes "HOST") (codes "127.0.0.1");
      port = port;
      database_url = database_url;
      secret_key = secret_key;
      jwt_secret_key = jwt_secret_key;
      jwt_access_token_expires_minutes = minutes;
      cors_origins = cors_origins;
      database_pool_recycle = pool_recycle;
      database_pool_size = pool_size;
      database_max_overflow = max_overflow;
      typing_timeout_seconds = typing_timeout;
      notification_retention_days = retention;
      supabase_url = getenv_stripped env (codes "SUPABASE_URL") [];
      supabase_service_role_key = getenv_stripped env (codes "SUPABASE_SERVICE_ROLE_KEY") [];
      supabase_storage_bucket =
          text_setting env (codes "SUPABASE_STORAGE_BUCKET") (codes "realynk-attachments");
      max_attachment_size_mb = max_attachment_size_mb;
      max_total_attachment_size_mb = max_total_attachment_size_mb;
      max_attachments_per_message = max_attachments;
      attachment_signed_url_expires_seconds = url_expires;
      rate_limit_enabled = rate_limit_enabled;
      rates = rates;
      max_request_body_size_bytes = body_size;
      max_query_params = query_params;
      max_header_size = header_size;
      trust_proxy = trust_proxy;
      cors_allow_credentials = cors_allow_credentials;
      cors_allowed_methods =
          codes "GET"
          ∷ codes "POST"
          ∷ codes "PUT"
          ∷ codes "PATCH"
          ∷ codes "DELETE"
          ∷ codes "OPTIONS"
          ∷ [];
      cors_allowed_headers =
          codes "Content-Type" ∷ codes "Authorization" ∷ codes "X-Request-ID" ∷ [];
      socketio_max_http_buffer_size = buffer_size;
      hsts_enabled = hsts_enabled;
      log_level = log_level;
      log_format = log_format;
      metrics_enabled = metrics_enabled;
      metrics_endpoint_enabled = metrics_endpoint_enabled;
      slow_request_threshold_ms = slow_threshold;
      database_pool_timeout = pool_timeout;
      jwt_algorithm = jwt_algorithm;
    })
