-- ===== src/Messages/Sending.antt =====
-- app/services/message_service.py: `create_message`. The notifications are made after the commit of
-- the message, in a transaction of their own, which `later` accepts or rejects; `uuid` gives the
-- ids of their rows.
use realynk.Base.{
  ℕ, ◌≡◌, ◌≢◌, ◌⊎◌, inl, inr, refl, sym, subst, Bool, true, false, not, ◌&&◌, Option, none, some,
  List, [], ◌∷◌, Text, arith, ◌==◌, update_where, is_empty, strip, length, ltb, All, ==_refl,
}
use realynk.Models.{Db, User, Message, Notification}
use realynk.Session.{
  Action, Engine, Result, ok, err, is_ok, RestoresOn, accepted, message_error, account_restricted,
  message_content_required, message_content_too_long, message_send_failed, pure, gets, raise_if,
  modify, attempt, commit_or, ◌>>=◌, ◌>>◌,
}
use realynk.Session.Ends.{Ends, Ends-pure, Ends-gets, Ends-raise_if, Ends-modify, Ends-commit_or}
use realynk.Session.Blocks.{Then, Ends-bind, Tried, Ends-attempt, Ends-weaken}
use realynk.Permissions.ModerationRules.{of_user, is_restricted}
use realynk.Permissions.MessageRules.{Context}
use realynk.Repositories.{get_message}
use realynk.Messages.{find_context, or_given}
use realynk.Messages.Access.{can_reach, find_context-can_reach}
use realynk.Notifications.{Events}
use realynk.Notifications.Delivery.{deliver_all, notify_message}
use realynk.Notifications.Delivery.Batch.{
  IsFor, with_rows, NotifyOutcome, notify_message-NotifyOutcome,
}

unfoldable pub max_message_length : ℕ
max_message_length = 4000

abbrev pub new_message : ℕ → ℕ → User → Text → Option ℕ → Option ℕ → Message
new_message id at user content channel_id conversation_id = record {
  id = id;
  sender_id = user.id;
  channel_id = channel_id;
  conversation_id = conversation_id;
  content = content;
  created_at = at;
  updated_at = at;
  is_edited = false;
  deleted_at = none;
}

abbrev pub add_message : Message → Db → Db
add_message m d = record d { messages = m ∷ d.messages }

-- `context.updated_at = …`, for the context that was found
abbrev pub touch : ℕ → Option ℕ → Option ℕ → Db → Db
touch at (some c) v d = record d {
  channels = update_where (λ x. x.id == c) (λ x. record x { updated_at = at }) d.channels;
}
touch at none (some v) d = record d {
  conversations = update_where (λ x. x.id == v) (λ x. record x { updated_at = at }) d.conversations;
}
touch at none none d = d

abbrev as_given : Message → Message
as_given m = m

unfoldable pub create_message :
    Engine
    → Engine
    → (ℕ → Text)
    → (ℕ → ℕ)
    → ℕ
    → ℕ
    → ℕ
    → User
    → Text
    → Option ℕ
    → Option ℕ
    → Action (Message × List Notification × Events)
create_message engine later show uuid id now at user content channel_id conversation_id = do
  raise_if (is_restricted now (of_user user)) (message_error account_restricted 403)
  raise_if (is_empty (strip content)) (message_error message_content_required 422)
  raise_if (ltb max_message_length (length content)) (message_error message_content_too_long 422)
  _ ← find_context now user.id channel_id conversation_id
  let m = new_message id at user content channel_id conversation_id
  modify (add_message m)
  modify (touch at channel_id conversation_id)
  commit_or engine (message_error message_send_failed 500)
  (made, events) ← attempt ([], []) (notify_message show later uuid at m)
  row ← gets (get_message id)
  pure (or_given as_given m row, made, events)

-- the state with the message, before any notification
abbrev pub with_message : ℕ → Message → Db → Db
with_message at m d = touch at m.channel_id m.conversation_id (add_message m d)

abbrev pub may_send : ℕ → User → Message → Db → Bool
may_send now user m d =
    not (is_restricted now (of_user user))
    && not (is_empty (strip m.content))
    && not (ltb max_message_length (length m.content))
    && can_reach user.id d m.channel_id m.conversation_id

abbrev pub SendOutcome :
    Engine
    → ℕ
    → ℕ
    → User
    → Message
    → Db
    → Result (Message × List Notification × Events)
    → Db
    → Type 0
SendOutcome engine now at user m d (ok (shown, made, events)) d' =
    (may_send now user m d ≡ true)
    × (shown ≡ m)
    × (d' ≡ with_rows made (with_message at m d))
    × (events ≡ deliver_all made d')
    × All (IsFor (with_message at m d) m) made
SendOutcome engine now at user m d (err e) d' =
    (d' ≡ d) × ((may_send now user m d ≡ false) ⊎ (engine (with_message at m d) ≢ accepted))

with_rows-messages : (made : List Notification) (d : Db) → (with_rows made d).messages ≡ d.messages
with_rows-messages [] d = refl
with_rows-messages (n ∷ made) d =
    with_rows-messages made (record d { notifications = n ∷ d.notifications })

touch-messages : (at : ℕ) (c v : Option ℕ) (d : Db) → (touch at c v d).messages ≡ d.messages
touch-messages at (some c) v d = refl
touch-messages at none (some v) d = refl
touch-messages at none none d = refl

get_message-with_rows :
    (at : ℕ) (m : Message) (made : List Notification) (d : Db)
    → get_message m.id (with_rows made (with_message at m d)) ≡ some m
get_message-with_rows at m made d = ground (
  arith,
  with_rows-messages made (with_message at m d),
  touch-messages at m.channel_id m.conversation_id (add_message m d),
  ==_refl m.id,
)

module _ (engine later : Engine) (show : ℕ → Text) (uuid : ℕ → ℕ) (now at : ℕ) (user : User)
    (m : Message) (d : Db) where
  abbrev finish : List Notification × Events → Action (Message × List Notification × Events)
  finish x = gets (get_message m.id) >>= λ row. pure (or_given as_given m row, x.0, x.1)

  finish-SendOutcome :
      (made : List Notification) (events : Events) (d' : Db)
      → may_send now user m d ≡ true
      → NotifyOutcome m (with_message at m d) (ok (made, events)) d'
      → Ends (SendOutcome engine now at user m d) (finish (made, events)) d'
  finish-SendOutcome made events d' may h = Ends-gets _ _ d' (
      Ends-pure (or_given as_given m (get_message m.id d'), made, events) d'
        (may, ground (arith, h.0, get_message-with_rows at m made d), h.0, h.1, h.2))

  notified :
      (r : Result (List Notification × Events)) (d' : Db)
      → may_send now user m d ≡ true
      → NotifyOutcome m (with_message at m d) r d'
      → Tried (Then (SendOutcome engine now at user m d) finish) ([], []) r d'
  notified (ok (made, events)) d' may h = finish-SendOutcome made events d' may h
  notified (err e) d' may h = finish-SendOutcome [] [] d' may (h.0, refl, tt)

  -- the part of the call that has found the context
  abbrev send : Action (Message × List Notification × Events)
  send =
      modify (add_message m)
      >> (modify (touch at m.channel_id m.conversation_id)
          >> (commit_or engine (message_error message_send_failed 500)
              >> (attempt ([], []) (notify_message show later uuid at m) >>= finish)))

  module _ (restores : RestoresOn engine d)
      (restores_later : RestoresOn later (with_message at m d)) where
    send-SendOutcome :
        may_send now user m d ≡ true → Ends (SendOutcome engine now at user m d) send d
    send-SendOutcome may = Ends-modify _ _ d (
        Ends-modify _ _ _ (
          Ends-commit_or engine _ _ _
            (λ _. Ends-bind _ _ _ (
              Ends-attempt ([], []) _ _
                (Ends-weaken _ _ (λ r d' h. notified r d' may h)
                  (notify_message-NotifyOutcome show later uuid at m (with_message at m d)
                    restores_later))))
            (λ d' r. (restores _ d' r, inr (λ acc. absurd (ground (arith, acc, r)))))))

    reached :
        (r : Result Context) (d' : Db)
        → (can_reach user.id d m.channel_id m.conversation_id ≡ true → may_send now user m d ≡ true)
        → (is_ok r ≡ can_reach user.id d m.channel_id m.conversation_id) × (d' ≡ d)
        → Then (SendOutcome engine now at user m d) (λ _. send) r d'
    reached (ok c) d' may h =
        subst (Ends (SendOutcome engine now at user m d) send) (sym h.1)
          (send-SendOutcome (may (sym h.0)))
    reached (err e) d' may h = (h.1, inl (ground (arith, h.0)))

-- With engines that restore the state before each commit: a message that is sent is new, comes from
-- an unrestricted user who can reach its channel or conversation, is not blank, and has at most
-- 4000 characters; it is stored with the time of its context, whatever becomes of the
-- notifications, of which each is for a user that it concerns and is announced. A call that fails
-- changes nothing, and does so only where one of the conditions is not met or the commit of the
-- message is refused.
pub create_message-SendOutcome :
    (engine later : Engine) (show : ℕ → Text) (uuid : ℕ → ℕ) (id now at : ℕ) (user : User)
    (content : Text) (channel_id conversation_id : Option ℕ) (d : Db)
    → let m = new_message id at user content channel_id conversation_id in
      RestoresOn engine d
      → RestoresOn later (with_message at m d)
      → Ends
          (SendOutcome engine now at user m d)
          (create_message engine later show uuid id now at user content channel_id conversation_id)
          d
unfolding create_message
create_message-SendOutcome engine later show uuid id now at user content channel_id conversation_id
      d restores restores_later =
    Ends-raise_if _ _ _ d (λ h. (refl, inl (ground (arith, h))))
      λ free.
        Ends-raise_if _ _ _ d (λ h. (refl, inl (ground (arith, h))))
          λ worded.
            Ends-raise_if _ _ _ d (λ h. (refl, inl (ground (arith, h))))
              λ short. Ends-bind _ _ d (
                Ends-weaken _ d
                  (λ r d' h.
                    reached engine later show uuid now at user
                      (new_message id at user content channel_id conversation_id) d restores
                      restores_later r d' (λ reach. ground (arith, free, worded, short, reach)) h)
                  (find_context-can_reach now user.id channel_id conversation_id d))
