-- ===== src/Config/Soundness.antt =====
-- What every accepted configuration guarantees.
use realynk.Base.{ℕ, ◌≤◌, ◌≡◌, true, false, ◌&&◌, Text, codes, text_eq}
use realynk.Config.Parsing.{is_one_of}
use realynk.Config.{Url, Rates, Config}
use realynk.Config.Parts.{
  is_production, allowed_environments, allowed_log_levels, is_insecure, is_postgres, is_wildcard,
  has_no_origin,
}

abbrev pub IsBetween : ℕ → ℕ → ℕ → Type 0
IsBetween low high n = (low ≤ n) × (n ≤ high)

abbrev pub IsRate : ℕ → Type 0
IsRate n = IsBetween 1 1000000 n

pub record AreBounded (rates : Rates) : Type 0 where
  pub requests : IsRate rates.rate_limit_default_requests
  pub window : IsRate rates.rate_limit_default_window_seconds
  pub auth_requests : IsRate rates.auth_rate_limit_requests
  pub auth_window : IsRate rates.auth_rate_limit_window_seconds
  pub events : IsRate rates.socket_rate_limit_events
  pub socket_window : IsRate rates.socket_rate_limit_window_seconds

pub record IsSafe (lower : Text → Text) (urlparse : Text → Url) (c : Config) : Type 0 where
  pub known_env : is_one_of allowed_environments c.app_env ≡ true
  pub postgres : is_postgres (urlparse c.database_url) ≡ true
  pub some_origin : has_no_origin c.cors_origins ≡ false
  pub two_secrets : text_eq c.jwt_secret_key c.secret_key ≡ false
  pub strong_secret : (is_production c.app_env && is_insecure lower c.secret_key) ≡ false
  pub strong_jwt_secret : (is_production c.app_env && is_insecure lower c.jwt_secret_key) ≡ false
  pub no_debug : (is_production c.app_env && c.debug) ≡ false
  pub no_wildcard :
      (is_production c.app_env && c.cors_allow_credentials && is_wildcard c.cors_origins) ≡ false
  pub algorithm : text_eq c.jwt_algorithm (codes "HS256") ≡ true
  pub level : is_one_of allowed_log_levels c.log_level ≡ true
  pub port : IsBetween 1 65535 c.port
  pub pool : IsBetween 1 100 c.database_pool_size
  pub overflow : c.database_max_overflow ≤ 100
  pub rates : AreBounded c.rates
  pub one_attachment : IsBetween 1 c.max_total_attachment_size_mb c.max_attachment_size_mb
  pub minutes : IsBetween 1 43200 c.jwt_access_token_expires_minutes
