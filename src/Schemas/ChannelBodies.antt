-- ===== src/Schemas/ChannelBodies.antt =====
-- app/schemas/channel.py.
use realynk.Base.{
  ℕ, Bool, not, ◌&&◌, ◌||◌, [], ◌∷◌, ◌++◌, Text, codes, any, is_some, is_empty, length, ltb, leb,
  strip, text_eq, if◌then◌else◌, ◌==◌,
}
use realynk.Auth.{Uuids}
use realynk.Schemas.Json.{
  Json, string, object, Fields, get, is_null, uuid_of, has_key, has_others, is_string_with,
  is_boolean,
}
use realynk.Schemas.Errors.{Errors, error_when, no_object}

unfoldable pub channel_name_min : ℕ
channel_name_min = 2

unfoldable pub channel_name_max : ℕ
channel_name_max = 80

unfoldable pub description_max : ℕ
description_max = 2000

abbrev name_key : Text
name_key = codes "name"

abbrev has_control : Text → Bool
has_control s = any (λ c. ltb c 32 || (c == 127)) s

abbrev is_out_of_range : Text → Bool
is_out_of_range name =
    ltb (length (strip name)) channel_name_min || ltb channel_name_max (length (strip name))

abbrev wrong_length : Errors
wrong_length = (name_key, codes "Channel name must be 2-80 characters") ∷ []

abbrev wrong_characters : Errors
wrong_characters = (name_key, codes "Channel name cannot contain control characters") ∷ []

abbrev new_name_errors : Json → Errors
new_name_errors (string name) =
    if is_empty (strip name)
    then (name_key, codes "Channel name is required") ∷ []
    else if is_out_of_range name
    then wrong_length
    else if has_control name
    then wrong_characters
    else []
new_name_errors j = (name_key, codes "Channel name is required") ∷ []

abbrev name_errors : Json → Errors
name_errors (string name) =
    if is_empty (strip name) || is_out_of_range name
    then wrong_length
    else if has_control name
    then wrong_characters
    else []
name_errors j = wrong_length

-- the tests of the description and of `is_private`, which the two validators share
abbrev detail_errors : Fields → Errors
detail_errors entries =
    let description = get (codes "description") entries in
    error_when
      (not (is_null description)
        && not (is_string_with (λ s. leb (length s) description_max) description))
      (codes "description") (codes "Description must be at most 2000 characters")
    ++ error_when
        (has_key (codes "is_private") entries
          && not (is_boolean (get (codes "is_private") entries)))
        (codes "is_private") (codes "is_private must be a boolean")

unfoldable pub validate_create_channel : Json → Errors
validate_create_channel (object s entries) =
    new_name_errors (get name_key entries)
    ++ (detail_errors entries
        ++ error_when
            (has_key (codes "channel_type") entries
              && not (
                  is_string_with (λ t. text_eq t (codes "text"))
                    (get (codes "channel_type") entries)))
            (codes "channel_type") (codes "Only text channels are supported"))
validate_create_channel j = no_object

unfoldable pub validate_update_channel : Json → Errors
validate_update_channel (object s entries) =
    error_when (has_others (name_key ∷ codes "description" ∷ codes "is_private" ∷ []) entries)
      (codes "fields") (codes "Only name, description, and is_private can be updated")
    ++ ((if has_key name_key entries then name_errors (get name_key entries) else [])
        ++ detail_errors entries)
validate_update_channel j = no_object

unfoldable pub validate_user_id : Uuids → Json → Errors
validate_user_id uuids (object s entries) =
    error_when (not (is_some (uuid_of uuids (get (codes "user_id") entries)))) (codes "user_id")
      (codes "A valid user ID is required")
validate_user_id uuids j = no_object

abbrev is_role : Json → Bool
is_role j = is_string_with (λ r. text_eq r (codes "admin") || text_eq r (codes "member")) j

unfoldable pub validate_role : Json → Errors
validate_role (object s entries) =
    error_when (not (is_role (get (codes "role") entries))) (codes "role")
      (codes "Role must be admin or member")
validate_role j = (codes "role", codes "Role must be admin or member") ∷ []
