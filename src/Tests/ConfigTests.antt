-- ===== src/Tests/ConfigTests.antt =====
-- A production environment.
use realynk.Base.{
  ℕ, ◌-◌, ◌≡◌, refl, ◌&&◌, Option, none, some, List, [], ◌∷◌, Text, codes, leb, map, text_eq, strip,
  if◌then◌else◌,
}
use realynk.Config.{Environment, Url, Config}
use realynk.Config.Parsing.{
  Loaded, loaded, configuration_error, int_of, as_int, as_bool, positive, at_most, parts_of,
  reject_if, ◌>>=◌,
}
use realynk.Config.Parts.{
  allowed_environments, allowed_log_levels, insecure_secrets, default_database_url, database_url_of,
  load_database_url, load_origins, load_app_env, load_secrets, load_debug, load_credentials,
}
use realynk.Config.Loading.{
  load_rates, load_attachment_sizes, load_port, load_max_overflow, load_jwt_algorithm, load_logging,
  from_environment,
}
use realynk.Tests.Platforms.{ascii_lower}

abbrev ascii_upper : Text → Text
ascii_upper s = map (λ c. if leb 97 c && leb c 122 then c - 32 else c) s

-- a host and a path for every URL with the scheme
abbrev local_url : Text → Url
local_url value = record {
  scheme = codes "postgresql";
  hostname = codes "localhost";
  path = codes "/realynk";
}

abbrev value_in : List (Text × Text) → Environment
value_in [] name = none
value_in ((k, v) ∷ rest) name = if text_eq k name then some v else value_in rest name

abbrev live : Environment
live = value_in (
    (codes "APP_ENV", codes " Production")
    ∷ (codes "DATABASE_URL", codes "postgresql://localhost/realynk")
    ∷ (codes "SECRET_KEY", codes "one long secret")
    ∷ (codes "JWT_SECRET_KEY", codes "another long secret")
    ∷ (codes "PORT", codes " 8080 ")
    ∷ [])

abbrev port_of : Loaded Config → Option ℕ
port_of (loaded c) = some c.port
port_of (configuration_error name) = none

live_loads : port_of (from_environment ascii_lower ascii_upper local_url live) ≡ some 8080
unfolding int_of as_int as_bool positive at_most parts_of strip reject_if ◌>>=◌ allowed_environments
    allowed_log_levels insecure_secrets default_database_url database_url_of load_database_url
    load_origins load_app_env load_secrets load_debug load_credentials load_rates
    load_attachment_sizes load_port load_max_overflow load_jwt_algorithm load_logging
    from_environment
live_loads = refl
