-- ===== src/Users.antt =====
-- app/services/user_service.py and app/services/auth_service.py, with the queries of
-- app/repositories/user_repository.py. `str.lower` is a parameter, and so are the two functions of
-- werkzeug: `generate` makes a password hash, and `check` tests a password against one.
pub mod Registration
pub mod Login
use realynk.Base.{
  ℕ, Bool, true, false, not, ◌||◌, ◌&&◌, Option, none, some, List, ◌∷◌, Text, ◌==◌, find, filter,
  any, is_some, is_empty, strip, text_eq, if◌then◌else◌, update_where,
}
use realynk.Models.{Db, User, UserStatus, ModerationRole, is_active_status}
use realynk.Session.{
  Action, Engine, duplicate_user_error, invalid_credentials_error, pure, gets, fetch, raise_if,
  modify, commit, commit_or, ◌>>=◌, ◌>>◌,
}
use realynk.Moderation.{set_user}

abbrev pub get_by_username : Text → Db → Option User
get_by_username username d = find (λ u. text_eq u.username username) d.users

abbrev pub get_by_email : Text → Db → Option User
get_by_email email d = find (λ u. text_eq u.email email) d.users

-- A row has the text as its address or as its name. No name that the schemas accept is an address, so
-- the rows with both are one; were there two, the first of the table stands for PostgreSQL's choice.
abbrev pub get_by_identifier : Text → Db → Option User
get_by_identifier identifier d =
    find (λ u. text_eq u.email identifier || text_eq u.username identifier) d.users

-- `display_name.strip() if display_name else None`
abbrev pub clean_display_name : Option Text → Option Text
clean_display_name none = none
clean_display_name (some name) = if is_empty name then none else some (strip name)

abbrev pub add_user : User → Db → Db
add_user u d = record d { users = u ∷ d.users }

-- a new row, with its `uuid4` and the hash of its password
abbrev pub new_user : ℕ → Text → Text → Option Text → Text → User
new_user id username email display_name password_hash = record {
  id = id;
  username = username;
  email = email;
  password_hash = password_hash;
  display_name = display_name;
  avatar_url = none;
  status = UserStatus.active;
  is_active = true;
  last_login_at = none;
  last_seen_at = none;
  moderation_role = ModerationRole.member;
  suspended_at = none;
  suspension_expires_at = none;
  banned_at = none;
}

-- The fields that a request changes, and their new values.
pub record ProfileUpdates : Type 0 where
  pub display_name : Option (Option Text)
  pub avatar_url : Option (Option Text)

-- `value.strip() if isinstance(value, str) else value`
abbrev strip_text : Option Text → Option Text
strip_text none = none
strip_text (some s) = some (strip s)

abbrev updated : Option (Option Text) → Option Text → Option Text
updated none old = old
updated (some value) old = strip_text value

abbrev pub update_user : ProfileUpdates → User → User
update_user updates u = record u {
  display_name = updated updates.display_name u.display_name;
  avatar_url = updated updates.avatar_url u.avatar_url;
}

unfoldable pub update_profile : Engine → User → ProfileUpdates → Action User
update_profile engine user updates = do
  modify (set_user user (update_user updates))
  commit engine
  pure (update_user updates user)

-- `not user.is_active or user.status != "active" or not user.check_password(password)`
abbrev pub is_refused : (Text → Text → Bool) → Text → User → Bool
is_refused check password u =
    not u.is_active || not (is_active_status u.status) || not (check u.password_hash password)

abbrev pub logged_in : ℕ → User → User
logged_in at u = record u { last_login_at = some at }

module _ (lower : Text → Text) where
  -- `value.strip().lower()`
  abbrev pub normalized : Text → Text
  normalized s = lower (strip s)

  unfoldable pub create_user :
      (Text → Text) → Engine → ℕ → Text → Text → Text → Option Text → Action User
  create_user generate engine id username email password display_name = do
    raise_if (is_some (← gets (get_by_username (normalized username)))) duplicate_user_error
    raise_if (is_some (← gets (get_by_email (normalized email)))) duplicate_user_error
    let u =
        new_user id (normalized username) (normalized email) (clean_display_name display_name)
          (generate password)
    modify (add_user u)
    commit_or engine duplicate_user_error
    pure u

  unfoldable pub authenticate : (Text → Text → Bool) → Engine → ℕ → Text → Text → Action User
  authenticate check engine at identifier password = do
    user ← fetch (get_by_identifier (normalized identifier)) invalid_credentials_error
    raise_if (is_refused check password user) invalid_credentials_error
    modify (set_user user (logged_in at))
    commit engine
    pure (logged_in at user)

abbrev pub with_password : Text → User → User
with_password password_hash u = record u { password_hash = password_hash }

unfoldable pub change_password :
    (Text → Text) → (Text → Text → Bool) → Engine → User → Text → Text → Action (Unit {0})
change_password generate check engine user current_password new_password = do
  raise_if (not (check user.password_hash current_password)) invalid_credentials_error
  modify (set_user user (with_password (generate new_password)))
  commit engine
