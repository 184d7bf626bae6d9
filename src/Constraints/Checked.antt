-- ===== src/Constraints/Checked.antt =====
-- A database that tests the constraints at each commit, and restores a given state otherwise: the
-- engine at which the theorems are applied in the tests.
use realynk.Base.{
  text_eq, ◌≤◌, ◌≡◌, ◌≢◌, Bool, true, false, not, ◌&&◌, List, [], ◌∷◌, arith, ◌==◌, any, All,
  Unique, leb, length, is_some, if◌then◌else◌,
}
use realynk.Models.{Db, Message, Conversation, Attachment}
use realynk.Session.{Engine, accepted, rejected, RestoresOn}
use realynk.Constraints.{
  Constraints, MessageChecks, Enforces, same_member, same_pair, same_participant, same_reaction,
  same_read, is_not_blank, same_notice, same_preference, has_user, has_message, optional,
  action_refers, message_refers, References, Keys,
}

module _ {ℓ} {A : Type ℓ} where
  abbrev is_unique : (A → A → Bool) → List A → Bool
  is_unique same [] = true
  is_unique same (x ∷ xs) = not (any (same x) xs) && is_unique same xs

  is_unique-Unique : (same : A → A → Bool) (xs : List A) → is_unique same xs ≡ true → Unique same xs
  is_unique-Unique same [] h = tt
  is_unique-Unique same (x ∷ xs) h = (ground arith, is_unique-Unique same xs (ground arith))

  abbrev all : (A → Bool) → List A → Bool
  all p [] = true
  all p (x ∷ xs) = p x && all p xs

  all-All :
      {P : A → Type 0} (p : A → Bool) (xs : List A)
      → ((x : A) → p x ≡ true → P x)
      → all p xs ≡ true
      → All P xs
  all-All p [] f h = tt
  all-All p (x ∷ xs) f h = (f x (ground arith), all-All p xs f (ground arith))

-- `a == b` on Booleans
abbrev same_bool : Bool → Bool → Bool
same_bool true b = b
same_bool false b = not b

abbrev message_ok : Message → Bool
message_ok m =
    same_bool (is_some m.channel_id) (not (is_some m.conversation_id))
    && is_not_blank m.content
    && leb (length m.content) 4000

message_ok-MessageChecks : (m : Message) → message_ok m ≡ true → MessageChecks m
message_ok-MessageChecks m h = record {
  one_context = ground arith;
  not_empty = ground arith;
  bounded = ground arith;
}

abbrev distinct_ok : Conversation → Bool
distinct_ok c = not (c.participant_a_id == c.participant_b_id)

distinct_ok-ne : (c : Conversation) → distinct_ok c ≡ true → c.participant_a_id ≢ c.participant_b_id
distinct_ok-ne c h = ground arith

-- a foreign key, by its test
module _ {A : Type 0} where
  all-true : (p : A → Bool) (xs : List A) → all p xs ≡ true → All (λ x. p x ≡ true) xs
  all-true p xs h = all-All p xs (λ x e. e) h

unfoldable pub refers : Db → Bool
refers d =
    all (λ c. has_user d c.owner_id && optional (has_user d) c.locked_by) d.channels
    && all (λ m. has_user d m.user_id) d.memberships
    && all (λ p. has_user d p.user_id) d.participants
    && all (λ c. has_user d c.participant_a_id && has_user d c.participant_b_id) d.conversations
    && all (message_refers d) d.messages
    && all (λ r. has_message d r.message_id && has_user d r.user_id) d.reactions
    && all (λ r. has_message d r.message_id && has_user d r.user_id) d.reads
    && all (λ a. has_message d a.message_id && has_user d a.uploader_id) d.attachments
    && all (λ n. has_user d n.recipient_id && optional (has_user d) n.actor_id) d.notifications
    && all (λ p. has_user d p.user_id) d.preferences
    && all (action_refers d) d.actions

refers-References : (d : Db) → refers d ≡ true → References d
unfolding refers
refers-References d h = record {
  owners = all-true _ d.channels (ground arith);
  member_users = all-true _ d.memberships (ground arith);
  participant_users = all-true _ d.participants (ground arith);
  pair_users = all-true _ d.conversations (ground arith);
  message_rows = all-true _ d.messages (ground arith);
  reaction_rows = all-true _ d.reactions (ground arith);
  read_rows = all-true _ d.reads (ground arith);
  attachment_rows = all-true _ d.attachments (ground arith);
  notification_rows = all-true _ d.notifications (ground arith);
  preference_users = all-true _ d.preferences (ground arith);
  action_rows = all-true _ d.actions (ground arith);
}

abbrev size_ok : Attachment → Bool
size_ok a = leb 1 a.file_size

size_ok-le : (a : Attachment) → size_ok a ≡ true → 1 ≤ a.file_size
size_ok-le a h = ground arith

unfoldable pub keyed : Db → Bool
keyed d =
    is_unique (λ a b. a.id == b.id) d.participants
    && is_unique (λ a b. a.id == b.id) d.reads
    && is_unique (λ a b. a.id == b.id) d.attachments
    && is_unique (λ a b. text_eq a.storage_path b.storage_path) d.attachments
    && all size_ok d.attachments
    && is_unique (λ a b. a.id == b.id) d.notifications
    && is_unique same_notice d.notifications
    && is_unique (λ a b. a.id == b.id) d.preferences
    && is_unique same_preference d.preferences
    && is_unique (λ a b. a.id == b.id) d.actions

keyed-Keys : (d : Db) → keyed d ≡ true → Keys d
unfolding keyed
keyed-Keys d h = record {
  participant_ids = is_unique-Unique _ d.participants (ground arith);
  read_ids = is_unique-Unique _ d.reads (ground arith);
  attachment_ids = is_unique-Unique _ d.attachments (ground arith);
  storage_paths = is_unique-Unique _ d.attachments (ground arith);
  file_sizes = all-All size_ok d.attachments size_ok-le (ground arith);
  notification_ids = is_unique-Unique _ d.notifications (ground arith);
  notices = is_unique-Unique same_notice d.notifications (ground arith);
  preference_ids = is_unique-Unique _ d.preferences (ground arith);
  preferences = is_unique-Unique same_preference d.preferences (ground arith);
  action_ids = is_unique-Unique _ d.actions (ground arith);
}

unfoldable pub holds : Db → Bool
unfolding refers keyed
holds d =
    is_unique (λ a b. a.id == b.id) d.users
    && is_unique (λ a b. text_eq a.username b.username) d.users
    && is_unique (λ a b. text_eq a.email b.email) d.users
    && is_unique (λ a b. a.id == b.id) d.channels
    && is_unique (λ a b. a.id == b.id) d.memberships
    && is_unique same_member d.memberships
    && all (λ m. any (λ c. c.id == m.channel_id) d.channels) d.memberships
    && is_unique (λ a b. a.id == b.id) d.messages
    && all message_ok d.messages
    && is_unique (λ a b. a.id == b.id) d.conversations
    && is_unique same_participant d.participants
    && all (λ p. any (λ c. c.id == p.conversation_id) d.conversations) d.participants
    && is_unique same_pair d.conversations
    && all distinct_ok d.conversations
    && is_unique (λ a b. a.id == b.id) d.reactions
    && is_unique same_reaction d.reactions
    && is_unique same_read d.reads
    && refers d
    && keyed d

pub holds-Constraints : (d : Db) → holds d ≡ true → Constraints d
unfolding holds
holds-Constraints d h = record {
  user_ids = is_unique-Unique (λ a b. a.id == b.id) d.users (ground arith);
  usernames = is_unique-Unique (λ a b. text_eq a.username b.username) d.users (ground arith);
  emails = is_unique-Unique (λ a b. text_eq a.email b.email) d.users (ground arith);
  channel_ids = is_unique-Unique (λ a b. a.id == b.id) d.channels (ground arith);
  membership_ids = is_unique-Unique (λ a b. a.id == b.id) d.memberships (ground arith);
  members = is_unique-Unique same_member d.memberships (ground arith);
  membership_channels =
      all-All (λ m. any (λ c. c.id == m.channel_id) d.channels) d.memberships (λ x p. p)
        (ground arith);
  message_ids = is_unique-Unique (λ a b. a.id == b.id) d.messages (ground arith);
  message_checks = all-All message_ok d.messages message_ok-MessageChecks (ground arith);
  conversation_ids = is_unique-Unique (λ a b. a.id == b.id) d.conversations (ground arith);
  participants = is_unique-Unique same_participant d.participants (ground arith);
  participant_conversations =
      all-All (λ p. any (λ c. c.id == p.conversation_id) d.conversations) d.participants (λ x p. p)
        (ground arith);
  pairs = is_unique-Unique same_pair d.conversations (ground arith);
  distinct = all-All distinct_ok d.conversations distinct_ok-ne (ground arith);
  reaction_ids = is_unique-Unique (λ a b. a.id == b.id) d.reactions (ground arith);
  reactions = is_unique-Unique same_reaction d.reactions (ground arith);
  reads = is_unique-Unique same_read d.reads (ground arith);
  references = refers-References d (ground arith);
  keys = keyed-Keys d (ground arith);
}

unfoldable pub checking : Db → Engine
unfolding holds
checking before d = if holds d then accepted else rejected before

pub checking-Enforces : (before : Db) → Enforces (checking before)
unfolding checking
checking-Enforces before d e = holds-Constraints d (ground arith)

pub checking-RestoresOn : (before : Db) → RestoresOn (checking before) before
unfolding checking
checking-RestoresOn before p d' e = ground arith
