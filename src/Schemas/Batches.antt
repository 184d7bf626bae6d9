-- ===== src/Schemas/Batches.antt =====
-- app/schemas/conversation.py, moderation.py, notification.py, reaction.py and read.py.
use realynk.Base.{
  ℕ, ◌*◌, Bool, true, false, not, ◌&&◌, ◌||◌, Option, none, some, List, [], ◌∷◌, ◌++◌, Text, codes,
  any, contains, is_some, is_empty, length, ltb, leb, strip, text_eq, if◌then◌else◌, ◌==◌,
}
use realynk.Auth.{Uuids}
use realynk.Schemas.Json.{
  Json, boolean, number, string, array, object, Items, no_items, item, Fields, no_fields, field,
  get, is_null, uuid_of, has_others, has_not_just, is_string_with, is_boolean,
}
use realynk.Config.Parsing.{ℤ, pos, negsuc, int_of}
use realynk.Schemas.Errors.{Errors, error_when, no_object}

-- the only error, if the test holds, and else what the other tests find
abbrev error_or : Bool → Text → Text → Errors → Errors
error_or true name message rest = (name, message) ∷ []
error_or false name message rest = rest

unfoldable pub validate_create_conversation : Uuids → Json → Errors
validate_create_conversation uuids (object s entries) =
    error_or (has_not_just (codes "user_id" ∷ []) entries) (codes "fields")
      (codes "Only user_id can be provided")
      (error_when (not (is_some (uuid_of uuids (get (codes "user_id") entries)))) (codes "user_id")
        (codes "A valid user ID is required"))
validate_create_conversation uuids j = no_object

unfoldable pub max_reason_length : ℕ
max_reason_length = 1000

unfoldable pub max_duration_seconds : ℕ
max_duration_seconds = 365 * 24 * 60 * 60

unfoldable pub validate_reason : Json → Errors
validate_reason (object s entries) =
    let reason = get (codes "reason") entries in
    error_when
      (not (is_null reason)
        && not (is_string_with (λ r. leb (length (strip r)) max_reason_length) reason))
      (codes "reason") (codes "Reason must be at most 1000 characters")
validate_reason j = no_object

abbrev is_duration : Option ℤ → Bool
is_duration none = false
is_duration (some (negsuc n)) = false
is_duration (some (pos n)) = not (n == 0) && leb n max_duration_seconds

-- `isinstance(value, int)` and its bounds; `True` is the integer 1
abbrev is_allowed_duration : Json → Bool
is_allowed_duration (number s) = is_duration (int_of s)
is_allowed_duration (boolean b) = b
is_allowed_duration j = false

abbrev duration_errors : Bool → Json → Errors
duration_errors required value =
    if required && is_null value
    then (codes "duration_seconds", codes "Duration is required") ∷ []
    else error_when (not (is_null value) && not (is_allowed_duration value))
        (codes "duration_seconds") (codes "Duration must be between 1 and 31536000 seconds")

unfoldable pub validate_duration : Json → Bool → Errors
validate_duration (object s entries) required =
    validate_reason (object s entries)
    ++ duration_errors required (get (codes "duration_seconds") entries)
validate_duration j required = validate_reason j

unfoldable pub notification_types : List Text
notification_types =
    codes "new_message"
    ∷ codes "mention"
    ∷ codes "direct_message"
    ∷ codes "reaction"
    ∷ codes "channel_invitation"
    ∷ codes "system"
    ∷ []

abbrev is_notification_type : Text → Bool
is_notification_type s = any (λ t. text_eq t s) notification_types

unfoldable pub validate_preference : Json → Errors
validate_preference (object s entries) =
    error_or (has_not_just (codes "notification_type" ∷ codes "enabled" ∷ []) entries)
      (codes "fields") (codes "notification_type and enabled are required")
      (error_or
        (not (is_string_with is_notification_type (get (codes "notification_type") entries)))
        (codes "notification_type") (codes "Unknown notification type")
        (error_when (not (is_boolean (get (codes "enabled") entries))) (codes "enabled")
          (codes "enabled must be a boolean")))
validate_preference j = no_object

-- `any(not isinstance(value, bool) for value in payload.values())`
abbrev has_other_value : Fields → Bool
has_other_value no_fields = false
has_other_value (field k v rest) = not (is_boolean v) || has_other_value rest

unfoldable pub validate_bulk_preferences : Json → Errors
validate_bulk_preferences (object s entries) =
    error_when (has_others notification_types entries || has_other_value entries)
      (codes "preferences") (codes "Use known notification types with boolean values")
validate_bulk_preferences j = no_object

unfoldable pub emoji_max_length : ℕ
emoji_max_length = 32

abbrev emoji_errors : Json → Errors
emoji_errors (string s) =
    error_or (is_empty (strip s)) (codes "emoji") (codes "Emoji is required") (
      error_or (ltb emoji_max_length (length s)) (codes "emoji")
        (codes "Emoji must be at most 32 characters")
        (error_when (any (λ c. (c == 0) || (c == 10) || (c == 13)) s) (codes "emoji")
          (codes "Emoji contains invalid characters")))
emoji_errors j = (codes "emoji", codes "Emoji is required") ∷ []

unfoldable pub validate_reaction : Json → Errors
validate_reaction (object s entries) =
    error_or (has_not_just (codes "emoji" ∷ []) entries) (codes "fields")
      (codes "Only emoji can be provided") (emoji_errors (get (codes "emoji") entries))
validate_reaction j = no_object

unfoldable pub max_read_batch : ℕ
max_read_batch = 100

abbrev items_of : Items → List Json
items_of no_items = []
items_of (item j rest) = j ∷ items_of rest

-- the ids, none where one of them cannot be read
abbrev and_id : Option ℕ → Option (List ℕ) → Option (List ℕ)
and_id none rest = none
and_id (some id) none = none
and_id (some id) (some ids) = some (id ∷ ids)

pub ids_of : Uuids → List Json → Option (List ℕ)
ids_of uuids [] = some []
ids_of uuids (j ∷ js) = and_id (uuid_of uuids j) (ids_of uuids js)

-- `len(set(parsed)) != len(parsed)`
abbrev pub has_duplicate : List ℕ → Bool
has_duplicate [] = false
has_duplicate (x ∷ xs) = contains x xs || has_duplicate xs

abbrev unique_ids : Option (List ℕ) → Option (List ℕ) × Errors
unique_ids none = (none, (codes "message_ids", codes "Every message ID must be a valid UUID") ∷ [])
unique_ids (some ids) =
    if has_duplicate ids
    then (none, (codes "message_ids", codes "Message IDs must be unique") ∷ [])
    else (some ids, [])

abbrev batch_of : Uuids → List Json → Option (List ℕ) × Errors
batch_of uuids [] = (none, (codes "message_ids", codes "At least one message ID is required") ∷ [])
batch_of uuids (j ∷ js) =
    if ltb max_read_batch (length (j ∷ js))
    then (none, (codes "message_ids", codes "At most 100 message IDs are allowed") ∷ [])
    else unique_ids (ids_of uuids (j ∷ js))

abbrev values_of : Json → List Json
values_of (array s items) = items_of items
values_of j = []

unfoldable pub validate_message_ids : Uuids → Json → Option (List ℕ) × Errors
unfolding ids_of
validate_message_ids uuids (object s entries) =
    if has_not_just (codes "message_ids" ∷ []) entries
    then (none, (codes "fields", codes "Only message_ids can be provided") ∷ [])
    else batch_of uuids (values_of (get (codes "message_ids") entries))
validate_message_ids uuids j =
    (none, (codes "fields", codes "Only message_ids can be provided") ∷ [])
