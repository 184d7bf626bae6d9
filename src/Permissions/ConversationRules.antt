-- ===== src/Permissions/ConversationRules.antt =====
-- app/permissions/conversation_permissions.py
use realynk.Base.{ℕ, Bool, not, ◌&&◌, List, Option, none, some, ◌==◌, any, is_some}
use realynk.Models.{ConversationParticipant}

abbrev is_current : ℕ → ConversationParticipant → Bool
is_current user_id p = (p.user_id == user_id) && not (is_some p.left_at)

-- `participants` stands for `conversation.participants`.
abbrev pub is_conversation_participant :
    ℕ → List ConversationParticipant → Option ConversationParticipant → Bool
is_conversation_participant user_id participants (some p) = is_current user_id p
is_conversation_participant user_id participants none = any (is_current user_id) participants

abbrev pub can_access_conversation :
    ℕ → List ConversationParticipant → Option ConversationParticipant → Bool
can_access_conversation = is_conversation_participant
