-- ===== src/Reads/Marking.antt =====
-- Marking a message as read.
use realynk.Base.{
  ℕ, ◌≡◌, ◌≢◌, ◌⊎◌, inl, inr, refl, Bool, true, false, not, ◌&&◌, Option, none, some, arith, ap,
  sym, subst, ◌∙◌, is_some,
}
use realynk.Models.{Db, User, Message, MessageRead}
use realynk.Session.{Action, Engine, Exn, Result, ok, err, RestoresOn, accepted, ◌>>=◌}
use realynk.Session.Ends.{
  Ends, Ends-pure, Ends-raise_if, Ends-modify, Ends-try_commit, Ends-gets, Ends-fetch,
}
use realynk.Session.Blocks.{}
use realynk.Repositories.{get_message, get_read}
use realynk.Messages.{}
use realynk.Messages.Access.{is_visible, Ends-get_message}
use realynk.Reads.{readable, no_access, mark_read, mark_new, marked, new_read, add_read}

-- the messages that a user may mark: those that they see and that are not deleted
abbrev pub is_markable : ℕ → Db → Option Message → Bool
is_markable user_id d o = is_visible user_id d o && is_live o
  where
    is_live : Option Message → Bool
    is_live none = false
    is_live (some m) = not (is_some m.deleted_at)

-- a call that goes on with the message
pub Ends-readable :
    {B : Type 0} {Q : Result B → Db → Type 0} (now user_id message_id : ℕ) (f : Message → Action B)
    (d : Db)
    → ((e : Exn) → is_visible user_id d (get_message message_id d) ≡ false → Q (err e) d)
    → ((m : Message)
        → get_message message_id d ≡ some m
        → is_visible user_id d (get_message message_id d) ≡ true
        → Ends Q (f m) d)
    → Ends Q (readable now user_id message_id >>= f) d
unfolding readable
Ends-readable now user_id message_id f d stop go =
    Ends-get_message now user_id message_id no_access f d (λ e h. stop (no_access e) h) go

abbrev pub MarkOutcome :
    Engine → ℕ → ℕ → ℕ → ℕ → Db → Result (MessageRead × Message × Bool) → Db → Type 0
MarkOutcome engine id at user_id message_id d (ok (item, message, created)) d' =
    (get_message message_id d ≡ some message)
    × (is_markable user_id d (get_message message_id d) ≡ true)
    × (get_read message_id user_id d' ≡ some item)
MarkOutcome engine id at user_id message_id d (err e) d' =
    (d' ≡ d)
    × ((is_markable user_id d (get_message message_id d) ≡ false)
        ⊎ (engine (add_read (new_read id at message_id user_id) d) ≢ accepted))

-- With an engine that restores the state before the call: a call that returns shows a message that
-- the user sees and that is not deleted, and the user's row of it, which the table then has; a call
-- that raises changes nothing, and does so only for other messages or where the commit is refused.
pub mark_read-MarkOutcome :
    (engine : Engine) (id now at : ℕ) (user : User) (message_id : ℕ) (d : Db)
    → RestoresOn engine d
    → Ends
        (MarkOutcome engine id at user.id message_id d)
        (mark_read engine id now at user message_id)
        d
unfolding mark_read marked
mark_read-MarkOutcome engine id now at user message_id d restores =
    Ends-readable now user.id message_id _ d (λ e h. (refl, inl (ground (arith, h))))
      λ m found seen.
        Ends-raise_if _ _ _ d (λ gone. (refl, inl (ground (arith, gone, found, seen))))
          λ live.
            Ends-gets _ _ d
              (go m found (ground (arith, live, found, seen)) (get_read message_id user.id d) refl)
  where
    go :
        (m : Message)
        → get_message message_id d ≡ some m
        → is_markable user.id d (get_message message_id d) ≡ true
        → (o : Option MessageRead) → get_read message_id user.id d ≡ o
        → Ends
            (MarkOutcome engine id at user.id message_id d)
            (mark_new engine id at message_id user.id m o)
            d
    go m found able (some r) e = Ends-pure _ d (found, able, e)
    go m found able none e = Ends-modify _ _ d (
        Ends-try_commit engine _ _ (λ acc. Ends-pure _ _ (found, able, ground arith))
          (λ d' r.
            Ends-fetch _ _ _ d'
              (λ _. (restores _ d' r, inr (λ acc. absurd (ground (arith, acc, r)))))
              λ x f. Ends-pure _ d' (found, able, f)))

-- A message that is marked already is shown with the row that is there, and nothing changes.
pub mark_read_again :
    (engine : Engine) (id now at : ℕ) (user : User) (message_id : ℕ) (d : Db) (m : Message)
    (item : MessageRead)
    → get_message message_id d ≡ some m
    → is_markable user.id d (some m) ≡ true
    → get_read message_id user.id d ≡ some item
    → Ends
        (λ r d'. (r ≡ ok (item, m, false)) × (d' ≡ d))
        (mark_read engine id now at user message_id)
        d
unfolding mark_read
mark_read_again engine id now at user message_id d m item found able read =
    Ends-readable now user.id message_id _ d (λ e h. absurd (ground (arith, h, found, able)))
      λ m' found' seen.
        Ends-raise_if _ _ _ d (λ gone. absurd (ground (arith, gone, found, found', able)))
          λ live. Ends-gets _ _ d (
            subst
              (λ o.
                Ends (λ r d'. (r ≡ ok (item, m, false)) × (d' ≡ d))
                  (mark_new engine id at message_id user.id m' o) d)
              (sym read)
              (Ends-pure _ d
                (ap (λ x. ok (item, x, false)) (same m' m (sym found' ∙ found)), refl)))
  where
    same : (a b : Message) → some a ≡ some b → a ≡ b
    same a b h = ground arith
