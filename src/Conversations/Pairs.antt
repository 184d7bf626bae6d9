-- ===== src/Conversations/Pairs.antt =====
-- The pair of a direct conversation: ordered, and with a row of the participants' table for each of
-- the two.
use realynk.Base.{
  All-of, ◌∙◌, ℕ, ◌≡◌, ◌<◌, ◌≢◌, Bool, true, ◌&&◌, List, ◌∷◌, arith, ◌==◌, any, All, All-map,
  update_where, any-update_where,
}
use realynk.Models.{Db, Conversation, ConversationParticipant}
use realynk.Conversations.{
  canonical_pair, add_conversation, add_participants, new_conversation, new_participant,
}

-- The two ids of a conversation are put in the same order, whoever asks.
pub canonical_pair_comm : (a b : ℕ) → canonical_pair a b ≡ canonical_pair b a
canonical_pair_comm a b = ground arith

pub canonical_pair-lt : (a b : ℕ) → a ≢ b → (canonical_pair a b).0 < (canonical_pair a b).1
canonical_pair-lt a b ne = ground arith

abbrev pub is_row : ℕ → ℕ → ConversationParticipant → Bool
is_row id user_id p = (p.conversation_id == id) && (p.user_id == user_id)

pub record HasBoth (ps : List ConversationParticipant) (c : Conversation) : Type 0 where
  pub ordered : c.participant_a_id < c.participant_b_id
  pub first : any (is_row c.id c.participant_a_id) ps ≡ true
  pub second : any (is_row c.id c.participant_b_id) ps ≡ true

abbrev pub IsPaired : Db → Type 0
IsPaired d = All (HasBoth d.participants) d.conversations

-- the participants' rows may change where their keys stay
module _ (d : Db) (ps : List ConversationParticipant)
    (keeps : (id user_id : ℕ)
      → any (is_row id user_id) d.participants ≡ true
      → any (is_row id user_id) ps ≡ true) where
  pub IsPaired-participants : IsPaired d → IsPaired (record d { participants = ps })
  IsPaired-participants h =
      All-map (HasBoth d.participants) (HasBoth ps) d.conversations
        (λ c b. record {
          ordered = b.ordered;
          first = keeps c.id c.participant_a_id b.first;
          second = keeps c.id c.participant_b_id b.second;
        })
        h

-- Coming back and leaving keep the rows.
pub any-update_row :
    (f : ConversationParticipant → ConversationParticipant) (q : ConversationParticipant → Bool)
    (d : Db)
    → ((p : ConversationParticipant)
        → ((f p).conversation_id ≡ p.conversation_id) × ((f p).user_id ≡ p.user_id))
    → IsPaired d
    → IsPaired (record d { participants = update_where q f d.participants })
any-update_row f q d keeps =
    IsPaired-participants d (update_where q f d.participants) λ id user_id h.
      any-update_where (is_row id user_id) q f d.participants (
        All-of (λ x. q x ≡ true → is_row id user_id (f x) ≡ is_row id user_id x) d.participants
          (λ x _. same id user_id (f x) x (keeps x).0 (keeps x).1))
      ∙ h
  where
    same :
        (id user_id : ℕ) (x y : ConversationParticipant)
        → x.conversation_id ≡ y.conversation_id
        → x.user_id ≡ y.user_id
        → is_row id user_id x ≡ is_row id user_id y
    same id user_id x y h k = ground (arith, h, k)

-- A new conversation with its two participants.
pub IsPaired-create :
    (id pid qid now a b : ℕ) (d : Db)
    → a < b
    → IsPaired d
    → IsPaired (
        add_participants
          (new_participant pid now (new_conversation id now a b) a)
          (new_participant qid now (new_conversation id now a b) b)
          (add_conversation (new_conversation id now a b) d))
IsPaired-create id pid qid now a b d lt h = (
  record { ordered = lt; first = ground arith; second = ground arith },
  All-map (HasBoth d.participants)
      (HasBoth (
        new_participant pid now (new_conversation id now a b) a
        ∷ new_participant qid now (new_conversation id now a b) b
        ∷ d.participants))
      d.conversations
      (λ c k. record {
        ordered = k.ordered;
        first = ground (arith, k.first);
        second = ground (arith, k.second);
      })
      h,
)
