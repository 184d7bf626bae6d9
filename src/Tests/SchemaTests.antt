-- ===== src/Tests/SchemaTests.antt =====
-- A body for the lobby.
use realynk.Base.{◌≡◌, ◌↔◌, refl, [], ◌∷◌, Text, codes, strip}
use realynk.Auth.{}
use realynk.Messages.Sending.{max_message_length}
use realynk.Schemas.Json.{Json, object, string, null, field, no_fields, get, keys}
use realynk.Schemas.MessageBodies.{validate_create_message, no_content}
use realynk.Schemas.Accepting.{AcceptableBody, validate_create_message-AcceptableBody}
use realynk.Tests.Platforms.{plain_uuids}

-- The lobby's id is one character in the tests' form of a UUID.
abbrev body : Text → Json
body content = object (codes "{…}") (
    field (codes "channel_id") (string (10 ∷ []))
      (field (codes "conversation_id") null (field (codes "content") (string content) no_fields)))

is_accepted : validate_create_message plain_uuids (body (codes "hi")) ≡ []
unfolding validate_create_message get keys strip max_message_length
is_accepted = refl

blank_is_refused : validate_create_message plain_uuids (body (codes "  ")) ≡ no_content ∷ []
unfolding validate_create_message get keys strip max_message_length
blank_is_refused = refl

validate_create_message-AcceptableBody_example :
    (validate_create_message plain_uuids (body (codes "hi")) ≡ [])
    ↔ AcceptableBody plain_uuids (body (codes "hi"))
validate_create_message-AcceptableBody_example =
    validate_create_message-AcceptableBody plain_uuids (body (codes "hi"))
