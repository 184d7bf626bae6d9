-- ===== src/RateLimits/Counting.antt =====
-- How the limiter counts the calls of one second.
use realynk.Base.{
  ℕ, suc, ◌+◌, ◌≡◌, refl, ap, ◌∙◌, true, Option, none, some, List, Text, arith, ◌==◌, leb,
  text_eq_refl, find-update_where_found,
}
use realynk.RateLimits.{
  RateLimitBucket, LimitConfig, allowed_limit, is_bucket, get_bucket, counted, next_count,
  add_rate_limit_event, save, or_default, check_rate_limit,
}

-- the calls that are counted for a key in a second
abbrev pub count_of : Option RateLimitBucket → ℕ
count_of none = 0
count_of (some b) = b.request_count

next_count-count_of : (o : Option RateLimitBucket) → next_count o ≡ suc (count_of o)
next_count-count_of none = refl
next_count-count_of (some b) = omega arith

saved :
    (id : ℕ) (key : Text) (scope : Text) (now expires_at : ℕ) (buckets : List RateLimitBucket)
    (o : Option RateLimitBucket)
    → get_bucket key scope now buckets ≡ o
    → count_of
        (get_bucket key scope now (save id key scope now (next_count o) expires_at o buckets))
      ≡ suc (count_of o)
unfolding add_rate_limit_event
saved id key scope now expires_at buckets none e =
    ground (arith, e, text_eq_refl key, text_eq_refl scope)
saved id key scope now expires_at buckets (some b) e =
    ap count_of (
      find-update_where_found (is_bucket key scope now) (λ x. x.id == b.id)
        (counted (b.request_count + 1) expires_at) buckets b (λ _. refl) (ground arith) e)
    ∙ next_count-count_of (some b)

module _ (config : LimitConfig) (on : config.enabled ≡ true) (key : Text) (scope : Text)
    (limit window_seconds : Option ℕ) where
  -- Where the limiter is on, a call in the second `now` is counted, and is allowed exactly if the
  -- calls counted for its key and scope in that one second, itself included, are at most the limit,
  -- whatever the length of the window.
  pub check_rate_limit-count_of :
      (id now : ℕ) (buckets : List RateLimitBucket)
      → (count_of (
            get_bucket key scope now
              (check_rate_limit config id now key scope limit window_seconds buckets).0)
          ≡ suc (count_of (get_bucket key scope now buckets)))
        × ((check_rate_limit config id now key scope limit window_seconds buckets).1.allowed
            ≡ leb
                (suc (count_of (get_bucket key scope now buckets)))
                (or_default limit (allowed_limit config scope).0))
  unfolding check_rate_limit
  check_rate_limit-count_of id now buckets = (
    ground (
      arith,
      on,
      saved id key scope now (now + or_default window_seconds (allowed_limit config scope).1)
          buckets (get_bucket key scope now buckets) refl,
    ),
    ground (arith, on, next_count-count_of (get_bucket key scope now buckets)),
  )
