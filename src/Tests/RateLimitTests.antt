-- ===== src/Tests/RateLimitTests.antt =====
-- The limiter at work: the third call of a second under a limit of two.
use realynk.Base.{suc, ◌≡◌, refl, true, false, none, some, List, [], ◌∷◌, Text, codes, leb}
use realynk.RateLimits.{
  RateLimitBucket, LimitConfig, get_bucket, check_rate_limit, allowed_limit, or_default,
}
use realynk.RateLimits.Counting.{count_of, check_rate_limit-count_of}

abbrev config : LimitConfig
config = record {
  enabled = true;
  auth_requests = 10;
  auth_window = 60;
  socket_events = 60;
  socket_window = 60;
  default_requests = 120;
  default_window = 60;
}

abbrev key : Text
key = codes "user:1"

abbrev buckets : List RateLimitBucket
buckets =
    record {
      id = 1;
      key = key;
      scope = codes "AUTH";
      window_start = 100;
      request_count = 2;
      expires_at = 160;
    }
    ∷ []

check_rate_limit-count_of_example :
    (count_of (
        get_bucket key
          (codes "AUTH")
          100
          (check_rate_limit config 2 100 key (codes "AUTH") (some 2) none buckets).0)
      ≡ suc (count_of (get_bucket key (codes "AUTH") 100 buckets)))
    × ((check_rate_limit config 2 100 key (codes "AUTH") (some 2) none buckets).1.allowed
        ≡ leb
            (suc (count_of (get_bucket key (codes "AUTH") 100 buckets)))
            (or_default (some 2) (allowed_limit config (codes "AUTH")).0))
check_rate_limit-count_of_example =
    check_rate_limit-count_of config refl key (codes "AUTH") (some 2) none 2 100 buckets

refused : (check_rate_limit config 2 100 key (codes "AUTH") (some 2) none buckets).1.allowed ≡ false
unfolding check_rate_limit
refused = refl

-- In the next second of the same window the count starts again.
allowed_again :
    (check_rate_limit config 2 101 key (codes "AUTH") (some 2) none buckets).1.allowed ≡ true
unfolding check_rate_limit
allowed_again = refl
