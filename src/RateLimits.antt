-- ===== src/RateLimits.antt =====
-- app/security/rate_limiter.py, with the buckets of app/models/rate_limit_bucket.py and
-- app/repositories/security_repository.py. A time is its whole second; a fraction of a second is cut
-- off by `_window_start`, and no other part of the limiter reads it.
pub mod Counting
use realynk.Base.{
  ℕ, ◌+◌, ◌-◌, Bool, true, false, ◌&&◌, Option, none, some, List, ◌∷◌, Text, codes, ◌==◌, find, leb,
  text_eq, update_where, if◌then◌else◌,
}

pub record RateLimitBucket : Type 0 where
  pub id : ℕ
  pub key : Text
  pub scope : Text
  pub window_start : ℕ
  pub request_count : ℕ
  pub expires_at : ℕ

-- the settings that the limiter reads
pub record LimitConfig : Type 0 where
  pub enabled : Bool
  pub auth_requests : ℕ
  pub auth_window : ℕ
  pub socket_events : ℕ
  pub socket_window : ℕ
  pub default_requests : ℕ
  pub default_window : ℕ

pub record RateLimitResult : Type 0 where
  pub allowed : Bool
  pub limit : ℕ
  pub remaining : ℕ
  pub reset_at : ℕ
  pub scope : Text

-- `_allowed_limit`: the requests and the seconds of a window
abbrev pub allowed_limit : LimitConfig → Text → ℕ × ℕ
allowed_limit config scope =
    if text_eq scope (codes "AUTH")
    then (config.auth_requests, config.auth_window)
    else if text_eq scope (codes "SOCKET")
    then (config.socket_events, config.socket_window)
    else (config.default_requests, config.default_window)

-- `_window_start`: the time without its microseconds; the length of the window is not used.
abbrev pub start_of_window : ℕ → ℕ → ℕ
start_of_window now window_seconds = now

abbrev pub is_bucket : Text → Text → ℕ → RateLimitBucket → Bool
is_bucket key scope window_start b =
    text_eq b.key key && text_eq b.scope scope && b.window_start == window_start

abbrev pub get_bucket : Text → Text → ℕ → List RateLimitBucket → Option RateLimitBucket
get_bucket key scope window_start buckets = find (is_bucket key scope window_start) buckets

abbrev pub counted : ℕ → ℕ → RateLimitBucket → RateLimitBucket
counted count expires_at b = record b { request_count = count; expires_at = expires_at }

abbrev put_bucket :
    RateLimitBucket → Option RateLimitBucket → List RateLimitBucket → List RateLimitBucket
put_bucket new none buckets = new ∷ buckets
put_bucket new (some b) buckets =
    update_where (λ x. x.id == b.id) (counted new.request_count new.expires_at) buckets

-- `add_rate_limit_event`, with the `uuid4` of a new row as `id`
unfoldable pub add_rate_limit_event :
    ℕ → Text → Text → ℕ → ℕ → ℕ → List RateLimitBucket → List RateLimitBucket
add_rate_limit_event id key scope window_start count expires_at buckets =
    put_bucket
      (record {
        id = id;
        key = key;
        scope = scope;
        window_start = window_start;
        request_count = count;
        expires_at = expires_at;
      })
      (get_bucket key scope window_start buckets) buckets

abbrev pub next_count : Option RateLimitBucket → ℕ
next_count none = 1
next_count (some b) = b.request_count + 1

abbrev save :
    ℕ
    → Text
    → Text
    → ℕ
    → ℕ
    → ℕ
    → Option RateLimitBucket
    → List RateLimitBucket
    → List RateLimitBucket
save id key scope window_start count expires_at none buckets =
    add_rate_limit_event id key scope window_start count expires_at buckets
save id key scope window_start count expires_at (some b) buckets =
    update_where (λ x. x.id == b.id) (counted count expires_at) buckets

-- the limit and the window that a caller gives, or those of the scope
abbrev pub or_default : Option ℕ → ℕ → ℕ
or_default none default = default
or_default (some n) default = n

abbrev checked :
    ℕ → ℕ → ℕ → Text → Text → ℕ → List RateLimitBucket → List RateLimitBucket × RateLimitResult
checked id limit window key scope start buckets =
    let bucket = get_bucket key scope start buckets in
    let count = next_count bucket in
    (
      save id key scope start count (start + window) bucket buckets,
      record {
        allowed = leb count limit;
        limit = limit;
        remaining = limit - count;
        reset_at = start + window;
        scope = scope;
      },
    )

unfoldable pub check_rate_limit :
    LimitConfig
    → ℕ
    → ℕ
    → Text
    → Text
    → Option ℕ
    → Option ℕ
    → List RateLimitBucket
    → List RateLimitBucket × RateLimitResult
unfolding add_rate_limit_event
check_rate_limit config id now key scope limit window_seconds buckets =
    let limit_value = or_default limit (allowed_limit config scope).0 in
    let window_value = or_default window_seconds (allowed_limit config scope).1 in
    if config.enabled
    then checked id limit_value window_value key scope (start_of_window now window_value) buckets
    else (
      buckets,
      record {
        allowed = true;
        limit = or_default limit 0;
        remaining = or_default limit 0;
        reset_at = now;
        scope = scope;
      },
    )
