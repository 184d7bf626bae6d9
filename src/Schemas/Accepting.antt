-- ===== src/Schemas/Accepting.antt =====
-- What an accepted body is.
use realynk.Base.{
  ◌≡◌, ◌↔◌, refl, Bool, true, false, not, List, [], ◌∷◌, ◌++◌, Text, arith, is_empty, length, ltb,
  strip,
}
use realynk.Auth.{Uuids}
use realynk.Messages.Sending.{max_message_length}
use realynk.Schemas.Json.{Json, null, boolean, number, string, array, object, Fields, get, keys}
use realynk.Schemas.MessageBodies.{
  FieldError, bad_channel_id, bad_conversation_id, unknown_fields, error_if, is_given,
  context_errors, is_bad_id, content_errors, has_unknown, channel_key, conversation_key,
  content_key, validate_create_message,
}

-- A dict with one context, which is a UUID, with a content that is a string, not blank and not too
-- long, and with nothing else.
pub record IsAcceptable (uuids : Uuids) (entries : Fields) : Type 0 where
  pub one_context : is_given channel_key entries ≡ not (is_given conversation_key entries)
  pub channel : is_bad_id uuids channel_key entries ≡ false
  pub conversation : is_bad_id uuids conversation_key entries ≡ false
  pub content : Text
  pub reads : get content_key entries ≡ string content
  pub not_blank : is_empty (strip content) ≡ false
  pub bounded : ltb max_message_length (length content) ≡ false
  pub known : has_unknown (channel_key ∷ conversation_key ∷ content_key ∷ []) (keys entries) ≡ false

abbrev pub AcceptableBody : Uuids → Json → Type 0
AcceptableBody uuids (object s entries) = IsAcceptable uuids entries
AcceptableBody uuids j = ⊥

append-nil : {A : Type 0} (xs ys : List A) → xs ++ ys ≡ [] → (xs ≡ []) × (ys ≡ [])
append-nil [] ys h = (refl, h)
append-nil (x ∷ xs) ys h = absurd (ground (arith, h))

error_if-nil : (c : Bool) (e : FieldError) → error_if c e ≡ [] → c ≡ false
error_if-nil true e h = absurd (ground (arith, h))
error_if-nil false e h = refl

context_errors-nil : (a b : Bool) → context_errors a b ≡ [] → a ≡ not b
context_errors-nil true true h = absurd (ground (arith, h))
context_errors-nil true false h = refl
context_errors-nil false true h = refl
context_errors-nil false false h = absurd (ground (arith, h))

-- a content without an error
abbrev IsContent : Json → Text → Type 0
IsContent j content =
    (j ≡ string content)
    × (is_empty (strip content) ≡ false)
    × (ltb max_message_length (length content) ≡ false)

content_errors-nil : (j : Json) → content_errors j ≡ [] → (content : Text) × IsContent j content
content_errors-nil (string s) h = (s, (refl, ground (arith, h), ground (arith, h)))
content_errors-nil null h = absurd (ground (arith, h))
content_errors-nil (boolean b) h = absurd (ground (arith, h))
content_errors-nil (number s) h = absurd (ground (arith, h))
content_errors-nil (array s items) h = absurd (ground (arith, h))
content_errors-nil (object s entries) h = absurd (ground (arith, h))

error_if-false : (c : Bool) (e : FieldError) → c ≡ false → error_if c e ≡ []
error_if-false true e h = absurd (ground (arith, h))
error_if-false false e h = refl

context_errors-one : (a b : Bool) → a ≡ not b → context_errors a b ≡ []
context_errors-one true true h = absurd (ground (arith, h))
context_errors-one true false h = refl
context_errors-one false true h = refl
context_errors-one false false h = absurd (ground (arith, h))

module _ (uuids : Uuids) (entries : Fields) where
  abbrev has_channel : Bool
  has_channel = is_given channel_key entries

  abbrev has_conversation : Bool
  has_conversation = is_given conversation_key entries

  abbrev has_more : Bool
  has_more = has_unknown (channel_key ∷ conversation_key ∷ content_key ∷ []) (keys entries)

  abbrev all_errors : List FieldError
  all_errors =
      context_errors has_channel has_conversation
      ++ (error_if (is_bad_id uuids channel_key entries) bad_channel_id
          ++ (error_if (is_bad_id uuids conversation_key entries) bad_conversation_id
              ++ (content_errors (get content_key entries) ++ error_if has_more unknown_fields)))

  acceptable : all_errors ≡ [] → IsAcceptable uuids entries
  acceptable h =
      let a = append-nil (context_errors has_channel has_conversation) _ h in
      let b = append-nil (error_if (is_bad_id uuids channel_key entries) bad_channel_id) _ a.1 in
      let c =
        append-nil (error_if (is_bad_id uuids conversation_key entries) bad_conversation_id) _
          b.1 in
      let e = append-nil (content_errors (get content_key entries)) _ c.1 in
      let content = content_errors-nil (get content_key entries) e.0 in
      record {
        one_context = context_errors-nil has_channel has_conversation a.0;
        channel = error_if-nil _ _ b.0;
        conversation = error_if-nil _ _ c.0;
        content = content.0;
        reads = content.1.0;
        not_blank = content.1.1;
        bounded = content.1.2;
        known = error_if-nil _ _ e.1;
      }

  no_errors : IsAcceptable uuids entries → all_errors ≡ []
  no_errors h =
      rw
        (
          context_errors-one has_channel has_conversation h.one_context,
          error_if-false (is_bad_id uuids channel_key entries) bad_channel_id h.channel,
          error_if-false (is_bad_id uuids conversation_key entries) bad_conversation_id
              h.conversation,
          h.reads,
          h.not_blank,
          h.bounded,
          error_if-false has_more unknown_fields h.known,
        )
        refl

-- A body is accepted exactly if it is a dict with one context, which reads as a UUID, with a content
-- that is a string, not blank, and of at most 4000 characters, and with no other key.
pub validate_create_message-AcceptableBody :
    (uuids : Uuids) (body : Json)
    → (validate_create_message uuids body ≡ []) ↔ AcceptableBody uuids body
unfolding validate_create_message
validate_create_message-AcceptableBody uuids (object s entries) =
    (acceptable uuids entries, no_errors uuids entries)
validate_create_message-AcceptableBody uuids null = (λ h. ground (arith, h), λ h. absurd h)
validate_create_message-AcceptableBody uuids (boolean b) = (λ h. ground (arith, h), λ h. absurd h)
validate_create_message-AcceptableBody uuids (number s) = (λ h. ground (arith, h), λ h. absurd h)
validate_create_message-AcceptableBody uuids (string s) = (λ h. ground (arith, h), λ h. absurd h)
validate_create_message-AcceptableBody uuids (array s items) =
    (λ h. ground (arith, h), λ h. absurd h)
