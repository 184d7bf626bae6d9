-- ===== src/Schemas/MessageBodies.antt =====
-- app/schemas/message.py. The errors of a body, in the order in which they are found; none where it
-- is accepted.
use realynk.Base.{
  Bool, true, false, not, ◌&&◌, List, [], ◌∷◌, ◌++◌, Text, codes, any, is_some, is_empty, length,
  ltb, strip, text_eq, if◌then◌else◌,
}
use realynk.Auth.{Uuids}
use realynk.Messages.Sending.{max_message_length}
use realynk.Schemas.Json.{Json, string, object, Fields, get, keys, is_null, uuid_of}

pub data FieldError : Type 0 where
  no_object : FieldError
  no_context two_contexts : FieldError
  bad_channel_id bad_conversation_id : FieldError
  no_content long_content : FieldError
  unknown_fields : FieldError

abbrev pub error_if : Bool → FieldError → List FieldError
error_if true e = e ∷ []
error_if false e = []

-- `key` is among the contexts: it is given, and not `None`
abbrev pub is_given : Text → Fields → Bool
is_given key entries = not (is_null (get key entries))

abbrev pub context_errors : Bool → Bool → List FieldError
context_errors false false = no_context ∷ []
context_errors true true = two_contexts ∷ []
context_errors channel conversation = []

-- a given id that is no UUID
abbrev pub is_bad_id : Uuids → Text → Fields → Bool
is_bad_id uuids key entries =
    is_given key entries && not (is_some (uuid_of uuids (get key entries)))

abbrev pub content_errors : Json → List FieldError
content_errors (string s) =
    if is_empty (strip s)
    then no_content ∷ []
    else if ltb max_message_length (length s)
    then long_content ∷ []
    else []
content_errors j = no_content ∷ []

-- `set(payload) - allowed`, whether it has an element
abbrev pub has_unknown : List Text → List Text → Bool
has_unknown allowed names = any (λ name. not (any (λ a. text_eq a name) allowed)) names

abbrev pub channel_key : Text
channel_key = codes "channel_id"

abbrev pub conversation_key : Text
conversation_key = codes "conversation_id"

abbrev pub content_key : Text
content_key = codes "content"

unfoldable pub validate_create_message : Uuids → Json → List FieldError
validate_create_message uuids (object s entries) =
    context_errors (is_given channel_key entries) (is_given conversation_key entries)
    ++ (error_if (is_bad_id uuids channel_key entries) bad_channel_id
        ++ (error_if (is_bad_id uuids conversation_key entries) bad_conversation_id
            ++ (content_errors (get content_key entries)
                ++ error_if
                    (has_unknown (channel_key ∷ conversation_key ∷ content_key ∷ []) (keys entries))
                    unknown_fields)))
validate_create_message uuids j = no_object ∷ []

-- `set(payload) != {"content"}`
abbrev pub is_only_content : Fields → Bool
is_only_content entries =
    any (λ name. text_eq name content_key) (keys entries)
    && not (has_unknown (content_key ∷ []) (keys entries))

unfoldable pub validate_update_message : Json → List FieldError
validate_update_message (object s entries) =
    error_if (not (is_only_content entries)) unknown_fields
    ++ content_errors (get content_key entries)
validate_update_message j = no_object ∷ []
