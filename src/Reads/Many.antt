-- ===== src/Reads/Many.antt =====
-- app/services/read_service.py: `mark_many`. `uuid` gives the ids of the new rows, one for each
-- position of the list.
use realynk.Base.{
  ℕ, suc, ◌≡◌, ◌∙◌, refl, sym, subst, ap, Bool, true, false, not, some, List, [], ◌∷◌, arith, ◌==◌,
  ==_eq, any, find-test, map, is_some, All, if◌then◌else◌,
}
use realynk.Models.{Db, User, Message, MessageRead}
use realynk.Session.{
  Action, Engine, Result, ok, err, RestoresOn, read_error, message_deleted, read_mark_failed, pure,
  gets, raise_if, modify, commit_or, ◌>>=◌, ◌>>◌,
}
use realynk.Session.Ends.{Ends, Ends-pure, Ends-gets, Ends-raise_if, Ends-modify, Ends-commit_or}
use realynk.Session.Blocks.{Then, Ends-bind, Ends-weaken}
use realynk.Repositories.{get_message, get_read}
use realynk.Messages.Access.{is_visible}
use realynk.Reads.{readable, new_read, add_read}
use realynk.Reads.Marking.{Ends-readable}

-- `[_message(user.id, message_id) for message_id in message_ids]`
pub readable_all : ℕ → ℕ → List ℕ → Action (List Message)
readable_all now user_id [] = pure []
readable_all now user_id (id ∷ ids) =
    readable now user_id id >>= λ m. readable_all now user_id ids >>= λ ms. pure (m ∷ ms)

module _ (uuid : ℕ → ℕ) (at user_id : ℕ) where
  -- The loop: the rows that are made, in order, and the state with them. A message that occurs
  -- twice has its row at the second time.
  pub create_reads : ℕ → List Message → Db → List MessageRead × Db
  create_reads i [] d = ([], d)
  create_reads i (m ∷ ms) d =
      let r = new_read (uuid i) at m.id user_id in
      let missing = not (is_some (get_read m.id user_id d)) in
      let (made, d') = create_reads (suc i) ms (if missing then add_read r d else d) in
      (if missing then r ∷ made else made, d')

unfoldable pub mark_many :
    Engine → (ℕ → ℕ) → ℕ → ℕ → User → List ℕ → Action (List MessageRead × List Message)
unfolding readable_all create_reads
mark_many engine uuid now at user message_ids = do
  messages ← readable_all now user.id message_ids
  raise_if (any (λ m. is_some m.deleted_at) messages) (read_error message_deleted 409)
  created ← gets (λ d. (create_reads uuid at user.id 0 messages d).0)
  modify (λ d. (create_reads uuid at user.id 0 messages d).1)
  commit_or engine (read_error read_mark_failed 500)
  pure (created, messages)

-- the messages of the ids, each of which the user sees
abbrev pub Shown : ℕ → Db → List ℕ → List Message → Type 0
Shown user_id d ids messages =
    (map (λ m. m.id) messages ≡ ids)
    × All (λ m. (get_message m.id d ≡ some m) × (is_visible user_id d (some m) ≡ true)) messages

abbrev ShownAll : ℕ → Db → List ℕ → Result (List Message) → Db → Type 0
ShownAll user_id d ids (ok messages) d' = (d' ≡ d) × Shown user_id d ids messages
ShownAll user_id d ids (err e) d' = d' ≡ d

get_message-id : (id : ℕ) (d : Db) (m : Message) → get_message id d ≡ some m → m.id ≡ id
get_message-id id d m e = ==_eq m.id id (find-test (λ m. m.id == id) d.messages m e)

readable_all-ShownAll :
    (now user_id : ℕ) (ids : List ℕ) (d : Db)
    → Ends (ShownAll user_id d ids) (readable_all now user_id ids) d
unfolding readable_all
readable_all-ShownAll now user_id [] d = Ends-pure _ d (refl, (refl, tt))
readable_all-ShownAll now user_id (id ∷ ids) d =
    Ends-readable now user_id id _ d (λ e h. refl)
      λ m found seen.
        Ends-bind _ _ d
          (Ends-weaken _ d (more m found seen) (readable_all-ShownAll now user_id ids d))
  where
    more :
        (m : Message)
        → get_message id d ≡ some m
        → is_visible user_id d (get_message id d) ≡ true
        → (r : Result (List Message)) (d' : Db) → ShownAll user_id d ids r d'
        → Then (ShownAll user_id d (id ∷ ids)) (λ ms. pure (m ∷ ms)) r d'
    more m found seen (err e) d' h = h
    more m found seen (ok ms) d' h =
        let same = get_message-id id d m found in
        Ends-pure _ d' (
          h.0,
          (
            ap (λ x. x ∷ map (λ m. m.id) ms) same ∙ ap (λ xs. id ∷ xs) h.1.0,
            (
              (
                subst (λ x. get_message x d ≡ some m) (sym same) found,
                subst (λ o. is_visible user_id d o ≡ true) found seen,
              ),
              h.1.1,
            ),
          ),
        )

-- whether the user has read the message
abbrev pub has_read : ℕ → ℕ → Db → Bool
has_read user_id message_id d = is_some (get_read message_id user_id d)

module _ (uuid : ℕ → ℕ) (at user_id : ℕ) where
  -- the state after the first item of the loop
  abbrev step : ℕ → Message → Db → Db
  step i m d =
      if not (has_read user_id m.id d) then add_read (new_read (uuid i) at m.id user_id) d else d

  step-has_read :
      (i : ℕ) (m : Message) (x : ℕ) (d : Db)
      → has_read user_id x d ≡ true
      → has_read user_id x (step i m d) ≡ true
  step-has_read i m x d h = ground (arith, h)

  step-has_read_own : (i : ℕ) (m : Message) (d : Db) → has_read user_id m.id (step i m d) ≡ true
  step-has_read_own i m d = ground arith

  create_reads-keeps :
      (i : ℕ) (ms : List Message) (x : ℕ) (d : Db)
      → has_read user_id x d ≡ true
      → has_read user_id x (create_reads uuid at user_id i ms d).1 ≡ true
  unfolding create_reads
  create_reads-keeps i [] x d h = h
  create_reads-keeps i (m ∷ ms) x d h =
      create_reads-keeps (suc i) ms x (step i m d) (step-has_read i m x d h)

  create_reads-has_read :
      (i : ℕ) (ms : List Message) (d : Db)
      → All (λ m. has_read user_id m.id (create_reads uuid at user_id i ms d).1 ≡ true) ms
  unfolding create_reads
  create_reads-has_read i [] d = tt
  create_reads-has_read i (m ∷ ms) d = (
    create_reads-keeps (suc i) ms m.id (step i m d) (step-has_read_own i m d),
    create_reads-has_read (suc i) ms (step i m d),
  )

  -- each row is the user's, and of a message that they had not read before the call
  create_reads-new :
      (i : ℕ) (ms : List Message) (before d : Db)
      → ((x : ℕ) → has_read user_id x before ≡ true → has_read user_id x d ≡ true)
      → All
          (λ r. (r.user_id ≡ user_id) × (has_read user_id r.message_id before ≡ false))
          (create_reads uuid at user_id i ms d).0
  unfolding create_reads
  create_reads-new i [] before d grows = tt
  create_reads-new i (m ∷ ms) before d grows =
      let rest =
        create_reads-new (suc i) ms before (step i m d)
          (λ x h. step-has_read i m x d (grows x h)) in
      (elim (has_read user_id m.id d)
          as (λ b.
            has_read user_id m.id d ≡ b
            → All (λ r. (r.user_id ≡ user_id) × (has_read user_id r.message_id before ≡ false))
                (if not b
                  then new_read (uuid i) at m.id user_id
                    ∷ (create_reads uuid at user_id (suc i) ms (step i m d)).0
                  else (create_reads uuid at user_id (suc i) ms (step i m d)).0)) [
                    | true ↦ λ e. rest
                    | false ↦ λ e.
                        ((refl, absent (has_read user_id m.id before) refl e (grows m.id)), rest)
                  ])
        refl
    where
      absent :
          {a : Bool} (b : Bool)
          → a ≡ b
          → has_read user_id m.id d ≡ false
          → (a ≡ true → has_read user_id m.id d ≡ true)
          → a ≡ false
      absent true e h k = absurd (ground (arith, h, k e))
      absent false e h k = e

abbrev pub ManyOutcome : ℕ → List ℕ → Db → Result (List MessageRead × List Message) → Db → Type 0
ManyOutcome user_id ids d (ok (made, messages)) d' =
    Shown user_id d ids messages
    × (any (λ m. is_some m.deleted_at) messages ≡ false)
    × All (λ m. has_read user_id m.id d' ≡ true) messages
    × All (λ r. (r.user_id ≡ user_id) × (has_read user_id r.message_id d ≡ false)) made
ManyOutcome user_id ids d (err e) d' = d' ≡ d

-- With an engine that restores the state before the call, marking many messages is all or nothing.
-- A call that returns shows the message of each id, in order; the user sees each, none is deleted,
-- and the user has then read them all; each new row is the user's, and of a message that they had
-- not read before. A call that raises changes nothing.
pub mark_many-ManyOutcome :
    (engine : Engine) (uuid : ℕ → ℕ) (now at : ℕ) (user : User) (message_ids : List ℕ) (d : Db)
    → RestoresOn engine d
    → Ends (ManyOutcome user.id message_ids d) (mark_many engine uuid now at user message_ids) d
unfolding mark_many
mark_many-ManyOutcome engine uuid now at user ids d restores =
    Ends-bind _ _ d (Ends-weaken _ d go (readable_all-ShownAll now user.id ids d))
  where
    rest : List Message → Action (List MessageRead × List Message)
    rest messages =
        raise_if (any (λ m. is_some m.deleted_at) messages) (read_error message_deleted 409)
        >> (gets (λ d. (create_reads uuid at user.id 0 messages d).0) >>= λ made.
            modify (λ d. (create_reads uuid at user.id 0 messages d).1)
            >> (commit_or engine (read_error read_mark_failed 500) >> pure (made, messages)))

    marked :
        (messages : List Message)
        → Shown user.id d ids messages
        → Ends (ManyOutcome user.id ids d) (rest messages) d
    marked messages h =
        Ends-raise_if _ _ _ d (λ _. refl)
          λ live. Ends-gets _ _ d (
            Ends-modify _ _ d (
              Ends-commit_or engine _ _ _
                (λ _. Ends-pure _ _ (
                  h,
                  live,
                  create_reads-has_read uuid at user.id 0 messages d,
                  create_reads-new uuid at user.id 0 messages d d (λ x k. k),
                ))
                (λ d' r. restores _ d' r)))

    go :
        (r : Result (List Message)) (d' : Db)
        → ShownAll user.id d ids r d'
        → Then (ManyOutcome user.id ids d) rest r d'
    go (ok messages) d' h =
        subst (Ends (ManyOutcome user.id ids d) (rest messages)) (sym h.0) (marked messages h.1)
    go (err e) d' h = h
