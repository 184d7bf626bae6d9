-- ===== src/Auth/Tokens.antt =====
-- Access tokens.
use realynk.Base.{ℕ, ◌+◌, ◌*◌, ◌<◌, ◌≤◌, ◌≡◌, arith}
use realynk.Session.{ok}
use realynk.Auth.{Jwt, IsSigning, Uuids, IsLawful, create_access_token, decode_access_token}

-- Where PyJWT reads what it signed and a UUID is read as it was written, a token names its user
-- from the time at which it is made until the configured number of minutes is over.
pub decode_access_token-create_access_token :
    (jwt : Jwt) (uuids : Uuids)
    → IsSigning jwt
    → IsLawful uuids
    → (minutes now later user_id : ℕ) → now ≤ later
    → later < now + minutes * 60
    → decode_access_token jwt uuids later (create_access_token jwt uuids minutes now user_id)
      ≡ ok user_id
unfolding decode_access_token create_access_token
decode_access_token-create_access_token jwt uuids signing lawful minutes now later user_id made
      soon =
    ground (
      arith,
      signing.decode-encode (uuids.show user_id) now (now + minutes * 60) later made soon,
      lawful.parse-show user_id,
    )
