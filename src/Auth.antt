-- ===== src/Auth.antt =====
-- app/auth/jwt.py and app/auth/decorators.py. PyJWT, the text form of a UUID, and `str.lower` are
-- parameters: `Jwt` signs a subject with its two times, and reads the subject of a token that is
-- valid at a time; `Uuids` writes and reads identifiers.
pub mod Tokens
pub mod Access
use realynk.Base.{
  ℕ, ◌+◌, ◌*◌, ◌<◌, ◌≤◌, ◌≡◌, Bool, true, false, not, ◌||◌, Option, none, some, Text, codes,
  text_eq, is_empty, strip, partition_space, if◌then◌else◌,
}
use realynk.Models.{Db, User, is_active_status}
use realynk.Session.{
  Action, Exn, Result, ok, err, request_error, authentication_required, invalid_token,
  account_inactive, account_restricted, token_error, pure, fetch, lift, catch, raise_if, ◌>>=◌,
  ◌>>◌,
}
use realynk.Permissions.ModerationRules.{of_user, is_restricted}
use realynk.Repositories.{get_user_row}

pub record Jwt : Type 0 where
  pub encode : Text → ℕ → ℕ → Text
  pub decode : ℕ → Text → Option Text

-- A token is read, from its `iat` on and before its `exp`, as the subject that was signed.
pub record IsSigning (jwt : Jwt) : Type 0 where
  pub decode-encode :
      (sub : Text) (iat exp now : ℕ)
      → iat ≤ now
      → now < exp
      → jwt.decode now (jwt.encode sub iat exp) ≡ some sub

pub record Uuids : Type 0 where
  pub show : ℕ → Text
  pub parse : Text → Option ℕ

pub record IsLawful (uuids : Uuids) : Type 0 where
  pub parse-show : (id : ℕ) → uuids.parse (uuids.show id) ≡ some id

-- `JWT_ACCESS_TOKEN_EXPIRES_MINUTES` is given in minutes.
unfoldable pub create_access_token : Jwt → Uuids → ℕ → ℕ → ℕ → Text
create_access_token jwt uuids minutes now user_id =
    jwt.encode (uuids.show user_id) now (now + minutes * 60)

abbrev parse_subject : Uuids → Option Text → Option ℕ
parse_subject uuids none = none
parse_subject uuids (some sub) = uuids.parse sub

abbrev pub or_token_error : Option ℕ → Result ℕ
or_token_error none = err token_error
or_token_error (some id) = ok id

unfoldable pub decode_access_token : Jwt → Uuids → ℕ → Text → Result ℕ
decode_access_token jwt uuids now token =
    or_token_error (parse_subject uuids (jwt.decode now token))

-- `except TokenError`
abbrev pub bad_token : Exn → Exn
bad_token token_error = request_error invalid_token 401
bad_token e = e

-- `scheme.lower() != "bearer" or not token.strip()`
abbrev pub is_unauthenticated : (Text → Text) → Text → Bool
is_unauthenticated lower header =
    not (text_eq (lower (partition_space header).0) (codes "bearer"))
    || is_empty (strip (partition_space header).1)

-- The part of `auth_required` before the view, which gets the user that this returns.
unfoldable pub auth_required : (Text → Text) → Jwt → Uuids → ℕ → Text → Action User
auth_required lower jwt uuids now header = do
  raise_if (is_unauthenticated lower header) (request_error authentication_required 401)
  user_id ←
      catch (lift (decode_access_token jwt uuids now (strip (partition_space header).1))) bad_token
  user ← fetch (get_user_row user_id) (request_error invalid_token 401)
  raise_if (not user.is_active || not (is_active_status user.status))
      (request_error account_inactive 403)
  raise_if (is_restricted now (of_user user)) (request_error account_restricted 403)
  pure user
