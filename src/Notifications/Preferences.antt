-- ===== src/Notifications/Preferences.antt =====
-- app/services/notification_preference_service.py and
-- app/repositories/notification_preference_repository.py, for known notification types.
use realynk.Base.{
  ℕ, ◌≡◌, refl, ap, find-update_where_found, Bool, true, ◌&&◌, Option, none, some, ◌∷◌, arith, ◌==◌,
  find, update_where,
}
use realynk.Models.{Db, User, NotificationType, NotificationPreference, type_eq}
use realynk.Session.{Action, Engine, modify, commit, ◌>>◌}

abbrev pub is_preference : ℕ → NotificationType → NotificationPreference → Bool
is_preference user_id type p = (p.user_id == user_id) && type_eq p.notification_type type

abbrev pub get_preference : ℕ → NotificationType → Db → Option NotificationPreference
get_preference user_id type d = find (is_preference user_id type) d.preferences

-- `DEFAULT_PREFERENCES`: every type is enabled.
abbrev pub default_preference : NotificationType → Bool
default_preference type = true

abbrev enabled_or : Bool → Option NotificationPreference → Bool
enabled_or default none = default
enabled_or default (some p) = p.enabled

unfoldable pub is_enabled : ℕ → NotificationType → Db → Bool
is_enabled user_id type d = enabled_or (default_preference type) (get_preference user_id type d)

abbrev upserted : ℕ → ℕ → NotificationType → Bool → Option NotificationPreference → Db → Db
upserted id user_id type enabled none d = record d {
  preferences =
      record { id = id; user_id = user_id; notification_type = type; enabled = enabled }
      ∷ d.preferences;
}
upserted id user_id type enabled (some preference) d = record d {
  preferences =
      update_where (λ p. p.id == preference.id) (λ p. record p { enabled = enabled }) d.preferences;
}

unfoldable pub upsert_preference : ℕ → ℕ → NotificationType → Bool → Db → Db
upsert_preference id user_id type enabled d =
    upserted id user_id type enabled (get_preference user_id type d) d

unfoldable pub set_preference : Engine → ℕ → User → NotificationType → Bool → Action (Unit {0})
set_preference engine id user type enabled = do
  modify (upsert_preference id user.id type enabled)
  commit engine

type_eq_refl : (type : NotificationType) → type_eq type type ≡ true
type_eq_refl NotificationType.new_message = refl
type_eq_refl NotificationType.mention = refl
type_eq_refl NotificationType.direct_message = refl
type_eq_refl NotificationType.reaction = refl
type_eq_refl NotificationType.channel_invitation = refl
type_eq_refl NotificationType.system = refl

-- A preference that is set holds, whether it was set before or not.
pub is_enabled-upsert_preference :
    (id user_id : ℕ) (type : NotificationType) (enabled : Bool) (d : Db)
    → is_enabled user_id type (upsert_preference id user_id type enabled d) ≡ enabled
unfolding is_enabled upsert_preference
is_enabled-upsert_preference id user_id type enabled d = go (get_preference user_id type d) refl
  where
    go :
        (o : Option NotificationPreference)
        → get_preference user_id type d ≡ o
        → is_enabled user_id type (upserted id user_id type enabled o d) ≡ enabled
    go none e = ground (arith, type_eq_refl type)
    go (some p) e = ap (enabled_or true) (
        find-update_where_found (is_preference user_id type) (λ x. x.id == p.id)
          (λ x. record x { enabled = enabled }) d.preferences p (λ _. refl) (ground arith) e)
