-- ===== src/Messages/Access.antt =====
-- Who can reach a message.
use realynk.Base.{
  sym, subst, ℕ, ◌≡◌, refl, Bool, true, false, not, ◌&&◌, Option, none, some, arith, ◌==◌, is_some,
  find-test, if◌then◌else◌,
}
use realynk.Models.{Db, Channel, ChannelMembership, ConversationParticipant, Message}
use realynk.Session.{Action, Exn, catch, pure, Result, ok, err, is_ok, attribute_error, ◌>>=◌}
use realynk.Session.Ends.{
  Ends, Ends-pure, Ends-raise_if, Ends-gets, Ends-fetch, Ends-lift, Ends-raise,
}
use realynk.Session.Blocks.{Then, Handled, Ends-bind, Ends-catch, Ends-weaken}
use realynk.Permissions.MessageRules.{Context, can_send_channel_message}
use realynk.Permissions.ModerationRules.{user_ref}
use realynk.Repositories.{
  get_channel, get_membership, get_conversation, get_participant, get_message,
}
use realynk.Channels.{get_channel_for_user}
use realynk.Conversations.{get_for_user}
use realynk.Messages.{find_context, channel_context, conversation_context, get_message_for_user}

-- whether the channel is there and open for messages
abbrev pub is_unlocked : Option Channel → Bool
is_unlocked none = false
is_unlocked (some c) = not (is_some c.locked_at)

-- the row of a participant who has not left
abbrev pub is_present : Option ConversationParticipant → Bool
is_present none = false
is_present (some p) = not (is_some p.left_at)

-- Whether a call returns, as a Boolean.
abbrev Returns : {A : Type 0} → Db → Bool → Result A → Db → Type 0
Returns d b r d' = (is_ok r ≡ b) × (d' ≡ d)

member_user :
    (c user_id : ℕ) (d : Db) (m : ChannelMembership)
    → get_membership c user_id d ≡ some m
    → m.user_id ≡ user_id
member_user c user_id d m e =
    ground (arith, find-test (λ m. (m.channel_id == c) && (m.user_id == user_id)) d.memberships m e)

-- The rule on an object that has only an id: it raises in a locked channel.
can_send_user_ref :
    (now user_id : ℕ) (channel : Channel) (o : Option ChannelMembership)
    → ((m : ChannelMembership) → o ≡ some m → m.user_id ≡ user_id)
    → can_send_channel_message now (user_ref user_id) channel o ≡ (
        if is_some o
        then if is_some channel.locked_at then err attribute_error else ok true
        else ok false)
can_send_user_ref now user_id channel none own = refl
can_send_user_ref now user_id channel (some m) own = ground (arith, own m refl)

channel_context-Returns :
    (now user_id c : ℕ) (d : Db)
    → Ends
        (Returns d (is_unlocked (get_channel c d) && is_some (get_membership c user_id d)))
        (channel_context now user_id c)
        d
unfolding channel_context get_channel_for_user
channel_context-Returns now user_id c d = Ends-bind _ _ d (
    Ends-catch _ _ d (
      Ends-fetch _ _ _ d (λ e. (ground (arith, e), refl))
        λ channel e. Ends-gets _ _ d (
          Ends-raise_if _ _ _ d (λ hid. (ground (arith, e, hid), refl))
            λ seen. Ends-pure _ d (
              Ends-lift _ _ d (λ x h. (ground (arith, e, h, can_send c channel), refl))
                λ allowed h.
                  Ends-raise_if _ _ _ d (λ no. (ground (arith, e, h, can_send c channel), refl))
                    λ yes. Ends-pure _ d (ground (arith, e, h, can_send c channel), refl)))))
  where
    can_send :
        (c : ℕ) (channel : Channel)
        → can_send_channel_message now (user_ref user_id) channel (get_membership c user_id d) ≡ (
            if is_some (get_membership c user_id d)
            then if is_some channel.locked_at then err attribute_error else ok true
            else ok false)
    can_send c channel =
        can_send_user_ref now user_id channel (get_membership c user_id d) (member_user c user_id d)

conversation_context-Returns :
    (now user_id v : ℕ) (d : Db)
    → Ends
        (Returns d (is_some (get_conversation v d) && is_present (get_participant v user_id d)))
        (conversation_context now user_id v)
        d
unfolding conversation_context get_for_user
conversation_context-Returns now user_id v d = Ends-bind _ _ d (
    Ends-catch _ _ d (
      Ends-fetch _ _ _ d (λ e. (ground (arith, e), refl))
        λ conversation e.
          Ends-fetch _ _ _ d (λ f. (ground (arith, e, f), refl))
            λ p f.
              Ends-raise_if _ _ _ d (λ gone. (ground (arith, e, f, gone, mine p f), refl))
                λ here. Ends-pure _ d (
                  Ends-gets _ _ d (
                    Ends-raise_if _ _ _ d (λ no. (ground (arith, e, f, here, no, mine p f), refl))
                      λ yes. Ends-pure _ d (ground (arith, e, f, here, yes, mine p f), refl)))))
  where
    mine :
        (p : ConversationParticipant) → get_participant v user_id d ≡ some p → p.user_id ≡ user_id
    mine p f = ground (
      arith,
      find-test (λ p. (p.conversation_id == v) && (p.user_id == user_id)) d.participants p f,
    )

-- Who can reach what is said in a channel or in a conversation: exactly one context is given, and
-- the user is a member of the channel, which is not locked, or takes part in the conversation and has
-- not left it.
unfoldable pub can_reach : ℕ → Db → Option ℕ → Option ℕ → Bool
can_reach user_id d (some c) none =
    is_unlocked (get_channel c d) && is_some (get_membership c user_id d)
can_reach user_id d none (some v) =
    is_some (get_conversation v d) && is_present (get_participant v user_id d)
can_reach user_id d _ _ = false

-- The context of a message is found exactly if the user can reach it, and the search changes
-- nothing.
pub find_context-can_reach :
    (now user_id : ℕ) (channel_id conversation_id : Option ℕ) (d : Db)
    → Ends
        (λ r d'. (is_ok r ≡ can_reach user_id d channel_id conversation_id) × (d' ≡ d))
        (find_context now user_id channel_id conversation_id)
        d
unfolding find_context can_reach
find_context-can_reach now user_id none none d = Ends-raise _ d (refl, refl)
find_context-can_reach now user_id (some c) (some v) d = Ends-raise _ d (refl, refl)
find_context-can_reach now user_id (some c) none d = channel_context-Returns now user_id c d
find_context-can_reach now user_id none (some v) d = conversation_context-Returns now user_id v d

abbrev pub is_visible : ℕ → Db → Option Message → Bool
is_visible user_id d none = false
is_visible user_id d (some m) = can_reach user_id d m.channel_id m.conversation_id

abbrev pub Shows : Option Message → Result Message → Type 0
Shows o (ok m) = o ≡ some m
Shows o (err e) = Unit {0}

-- The look-up of a message for a user returns exactly if the message exists and the user can reach
-- it; then it returns that message, and it changes nothing.
pub get_message_for_user-is_visible :
    (now user_id message_id : ℕ) (d : Db)
    → Ends
        (λ r d'.
          (is_ok r ≡ is_visible user_id d (get_message message_id d))
          × (d' ≡ d)
          × Shows (get_message message_id d) r)
        (get_message_for_user now user_id message_id)
        d
unfolding get_message_for_user
get_message_for_user-is_visible now user_id message_id d =
    Ends-fetch _ _ _ d (λ e. (ground (arith, e), refl, tt))
      λ m e. Ends-bind _ _ d (
        Ends-weaken _ d (shown m e)
          (find_context-can_reach now user_id m.channel_id m.conversation_id d))
  where
    shown :
        (m : Message)
        → get_message message_id d ≡ some m
        → (r : Result Context) (d' : Db)
        → (is_ok r ≡ can_reach user_id d m.channel_id m.conversation_id) × (d' ≡ d)
        → Then
            (λ r d'.
              (is_ok r ≡ is_visible user_id d (get_message message_id d))
              × (d' ≡ d)
              × Shows (get_message message_id d) r)
            (λ _. pure m)
            r
            d'
    shown m e (ok c) d' h = Ends-pure m d' (ground (arith, e, h.0), h.1, e)
    shown m e (err x) d' h = (ground (arith, e, h.0), h.1, tt)

-- A call that first looks a message up, and goes on where the user can reach it.
pub Ends-get_message :
    {B : Type 0} {Q : Result B → Db → Type 0} (now user_id message_id : ℕ) (handler : Exn → Exn)
    (f : Message → Action B) (d : Db)
    → ((e : Exn) → is_visible user_id d (get_message message_id d) ≡ false → Q (err (handler e)) d)
    → ((m : Message)
        → get_message message_id d ≡ some m
        → is_visible user_id d (get_message message_id d) ≡ true
        → Ends Q (f m) d)
    → Ends Q (catch (get_message_for_user now user_id message_id) handler >>= f) d
Ends-get_message {B} {Q} now user_id message_id handler f d stop go = Ends-bind _ f d (
    Ends-catch _ handler d
      (Ends-weaken _ d on (get_message_for_user-is_visible now user_id message_id d)))
  where
    on :
        (r : Result Message) (d' : Db)
        → (is_ok r ≡ is_visible user_id d (get_message message_id d))
          × (d' ≡ d)
          × Shows (get_message message_id d) r
        → Handled (Then Q f) handler r d'
    on (ok m) d' h = subst (Ends Q (f m)) (sym h.1) (go m h.2 (sym h.0))
    on (err e) d' h = subst (Q (err (handler e))) (sym h.1) (stop e (sym h.0))
