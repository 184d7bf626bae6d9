-- ===== src/Tests/Scenario.antt =====
-- A small community: Alice (1, a moderator) owns the public channel 10 with Bob (2) in it, and Bob
-- talks with Carol (3) in the direct conversation 20.
use realynk.Base.{Text, ◌++◌, ℕ, true, false, none, some, [], ◌∷◌, codes}
use realynk.Models.{
  Db, User, UserStatus, ModerationRole, Channel, ChannelMembership, ChannelRole, Conversation,
  ConversationParticipant, Message,
}
use realynk.Moderation.{suspended, banned}

abbrev pub person : ℕ → Text → ModerationRole → User
person id name role = record {
  id = id;
  username = name;
  email = name ++ codes "@example.org";
  password_hash = codes "hash";
  display_name = none;
  avatar_url = none;
  status = UserStatus.active;
  is_active = true;
  last_login_at = none;
  last_seen_at = none;
  moderation_role = role;
  suspended_at = none;
  suspension_expires_at = none;
  banned_at = none;
}

abbrev pub alice : User
alice = person 1 (codes "alice") ModerationRole.moderator

abbrev pub bob : User
bob = person 2 (codes "bob") ModerationRole.member

abbrev pub carol : User
carol = person 3 (codes "carol") ModerationRole.member

abbrev pub lobby : Channel
lobby = record {
  id = 10;
  name = codes "lobby";
  description = none;
  is_private = false;
  owner_id = 1;
  updated_at = 0;
  locked_at = none;
  locked_by = none;
}

abbrev pub membership : ℕ → ℕ → ChannelRole → ChannelMembership
membership id user_id role = record {
  id = id;
  channel_id = 10;
  user_id = user_id;
  role = role;
  joined_at = 0;
}

abbrev pub chat : Conversation
chat = record { id = 20; participant_a_id = 2; participant_b_id = 3; updated_at = 0 }

abbrev pub participant : ℕ → ℕ → ConversationParticipant
participant id user_id = record {
  id = id;
  conversation_id = 20;
  user_id = user_id;
  joined_at = 0;
  left_at = none;
}

abbrev pub hello : Message
hello = record {
  id = 30;
  sender_id = 2;
  channel_id = some 10;
  conversation_id = none;
  content = codes "hello";
  created_at = 5;
  updated_at = 5;
  is_edited = false;
  deleted_at = none;
}

abbrev pub town : Db
town = record {
  users = alice ∷ bob ∷ carol ∷ [];
  channels = lobby ∷ [];
  memberships = membership 100 1 ChannelRole.owner ∷ membership 101 2 ChannelRole.member ∷ [];
  conversations = chat ∷ [];
  participants = participant 200 2 ∷ participant 201 3 ∷ [];
  messages = hello ∷ [];
  reactions = [];
  reads = [];
  attachments = [];
  notifications = [];
  preferences = [];
  actions = [];
}

-- Bob suspended, and Bob banned
abbrev pub suspended_town : Db
suspended_town = record town { users = alice ∷ suspended 8 (some 68) bob ∷ carol ∷ [] }

abbrev pub banned_town : Db
banned_town = record town { users = alice ∷ banned 8 bob ∷ carol ∷ [] }
