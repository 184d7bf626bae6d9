-- ===== src/Conversations.antt =====
-- app/services/conversation_service.py: direct conversations between two users. New rows take their
-- `uuid4` as arguments. An id is a number, in the order of the `hex` of the UUID.
pub mod Pairs
pub mod Opening
use realynk.Base.{
  ℕ, Bool, true, false, not, ◌||◌, Option, none, some, ◌∷◌, ◌==◌, is_some, leb, if◌then◌else◌,
  update_where,
}
use realynk.Models.{Db, User, Conversation, ConversationParticipant, is_active_status}
use realynk.Session.{
  Action, Engine, Exn, conversation_error, conversation_not_found, self_conversation_not_allowed,
  user_not_found, user_inactive, conversation_create_failed, user_not_found_error, pure, gets,
  fetch, raise_if, modify, catch, commit, try_commit, ◌>>=◌, ◌>>◌,
}
use realynk.Repositories.{get_conversation, get_participant, get_direct_by_pair}
use realynk.Channels.Membership.{get_user}

-- `_canonical_pair`
abbrev pub canonical_pair : ℕ → ℕ → ℕ × ℕ
canonical_pair first second = if leb first second then (first, second) else (second, first)

unfoldable pub get_for_user : ℕ → ℕ → Action (Conversation × ConversationParticipant)
get_for_user conversation_id user_id = do
  conversation ←
      fetch (get_conversation conversation_id) (conversation_error conversation_not_found 404)
  participant ←
      fetch (get_participant conversation_id user_id)
        (conversation_error conversation_not_found 404)
  raise_if (not (participant.user_id == user_id) || is_some participant.left_at)
      (conversation_error conversation_not_found 404)
  pure (conversation, participant)

abbrev no_user : Exn → Exn
no_user user_not_found_error = conversation_error user_not_found 404
no_user e = e

abbrev pub reopened : ConversationParticipant → ConversationParticipant
reopened p = record p { left_at = none }

-- `for participant in existing.participants: participant.left_at = None`
abbrev pub reopen_all : Conversation → Db → Db
reopen_all c d = record d {
  participants = update_where (λ p. p.conversation_id == c.id) reopened d.participants;
}

abbrev pub add_conversation : Conversation → Db → Db
add_conversation c d = record d { conversations = c ∷ d.conversations }

abbrev pub new_participant : ℕ → ℕ → Conversation → ℕ → ConversationParticipant
new_participant id now c user_id = record {
  id = id;
  conversation_id = c.id;
  user_id = user_id;
  joined_at = now;
  left_at = none;
}

abbrev pub add_participants : ConversationParticipant → ConversationParticipant → Db → Db
add_participants p q d = record d { participants = p ∷ q ∷ d.participants }

-- a conversation that exists already: all its participants are in it again
unfoldable pub reopen : Engine → Conversation → Action (Conversation × Bool)
reopen engine existing = do modify (reopen_all existing); commit engine; pure (existing, false)

abbrev pub new_conversation : ℕ → ℕ → ℕ → ℕ → Conversation
new_conversation id now a b = record {
  id = id;
  participant_a_id = a;
  participant_b_id = b;
  updated_at = now;
}

-- what follows the last commit: after a rollback, another request has created the conversation
unfoldable pub conclude : Engine → Conversation → Bool → Action (Conversation × Bool)
conclude engine c true = pure (c, true)
conclude engine c false = do
  existing ←
      fetch (get_direct_by_pair c.participant_a_id c.participant_b_id)
        (conversation_error conversation_create_failed 500)
  reopen engine existing

-- the end of `create_or_reopen`, from `db.session.add(conversation)`; `db.session.flush()` raises
-- as a commit does, and stands outside the `try`
unfoldable pub create : Engine → ℕ → ℕ → ℕ → ℕ → ℕ → ℕ → Action (Conversation × Bool)
create engine id pid qid now a b = do
  let c = new_conversation id now a b
  modify (add_conversation c)
  commit engine
  modify (add_participants (new_participant pid now c a) (new_participant qid now c b))
  committed ← try_commit engine
  conclude engine c committed

abbrev pub find_or_create :
    Engine → ℕ → ℕ → ℕ → ℕ → ℕ → ℕ → Option Conversation → Action (Conversation × Bool)
find_or_create engine id pid qid now a b (some existing) = reopen engine existing
find_or_create engine id pid qid now a b none = create engine id pid qid now a b

unfoldable pub create_or_reopen : Engine → ℕ → ℕ → ℕ → ℕ → ℕ → ℕ → Action (Conversation × Bool)
create_or_reopen engine id pid qid now requester_id target_id = do
  raise_if (requester_id == target_id) (conversation_error self_conversation_not_allowed 422)
  target ← catch (get_user target_id) no_user
  raise_if (not target.is_active || not (is_active_status target.status))
      (conversation_error user_inactive 403)
  let (a, b) = canonical_pair requester_id target_id
  existing ← gets (get_direct_by_pair a b)
  find_or_create engine id pid qid now a b existing

abbrev pub left : ℕ → ConversationParticipant → ConversationParticipant
left now p = record p { left_at = some now }

unfoldable pub leave : Engine → ℕ → ConversationParticipant → Action (Unit {0})
leave engine now participant = do
  modify (λ d. record d {
    participants = update_where (λ p. p.id == participant.id) (left now) d.participants;
  })
  commit engine
