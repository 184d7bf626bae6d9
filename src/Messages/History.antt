-- ===== src/Messages/History.antt =====
-- `message_repository.list_history` and `message_service.list_messages`: the pages of a history.
use realynk.Base.{
  ℕ, zero, suc, ◌+◌, ◌≡◌, ◌∙◌, ap, refl, Bool, true, false, ◌&&◌, ◌||◌, not, Option, none, some,
  List, [], ◌∷◌, arith, ◌==◌, ltb, length, filter, is_id, if◌then◌else◌, is_some,
}
use mathlib.Core.List.{reverse}
use realynk.Models.{Db, Message}
use realynk.Session.{Action, message_error, invalid_message_cursor, gets, raise_if, ◌>>=◌, ◌>>◌}
use realynk.Repositories.{get_message}
use realynk.Messages.{find_context}

-- `(created_at, id)` is smaller: the message is older
abbrev pub is_older : Message → Message → Bool
is_older m before =
    ltb m.created_at before.created_at || (m.created_at == before.created_at) && ltb m.id before.id

abbrev is_before : Option Message → Message → Bool
is_before none m = true
is_before (some before) m = is_older m before

-- `channel_id` decides where it is given
abbrev in_context : Option ℕ → Option ℕ → Message → Bool
in_context (some c) conversation_id m = is_id m.channel_id c
in_context none (some v) m = is_id m.conversation_id v
in_context none none m = not (is_some m.conversation_id)

-- `ORDER BY created_at DESC, id DESC`
insert_newest : Message → List Message → List Message
insert_newest m [] = m ∷ []
insert_newest m (x ∷ xs) =
    let rest = insert_newest m xs in if is_older m x then x ∷ rest else m ∷ x ∷ xs

unfoldable newest_first : List Message → List Message
unfolding insert_newest
newest_first [] = []
newest_first (x ∷ xs) = insert_newest x (newest_first xs)

abbrev skip : ℕ → List Message → List Message
skip zero xs = xs
skip (suc n) [] = []
skip (suc n) (x ∷ xs) = skip n xs

abbrev first_of : ℕ → List Message → List Message
first_of zero xs = []
first_of (suc n) [] = []
first_of (suc n) (x ∷ xs) = x ∷ first_of n xs

-- the rows of the context that are older than the cursor
abbrev pub matching : Option ℕ → Option ℕ → Option Message → Db → List Message
matching channel_id conversation_id before d =
    filter (λ m. in_context channel_id conversation_id m && is_before before m) d.messages

-- a page, oldest first, and whether there are more messages
unfoldable pub list_history :
    Option ℕ → Option ℕ → ℕ → Option Message → ℕ → Db → List Message × Bool
unfolding newest_first
list_history channel_id conversation_id limit before offset d =
    let rows =
      first_of (suc limit)
        (skip offset (newest_first (matching channel_id conversation_id before d))) in
    (reverse (first_of limit rows), ltb limit (length rows))

abbrev find_cursor : Option ℕ → Db → Option Message
find_cursor none d = none
find_cursor (some id) d = get_message id d

abbrev is_foreign : Option ℕ → Option ℕ → Option Message → Bool
is_foreign channel_id conversation_id none = false
is_foreign (some c) conversation_id (some m) = not (is_id m.channel_id c)
is_foreign none (some v) (some m) = not (is_id m.conversation_id v)
is_foreign none none (some m) = false

-- A cursor that names no message is ignored. With both contexts the search for them has raised.
unfoldable pub list_messages :
    ℕ → ℕ → Option ℕ → Option ℕ → ℕ → Option ℕ → ℕ → Action (List Message × Bool)
list_messages now user_id channel_id conversation_id limit before_id offset = do
  _ ← find_context now user_id channel_id conversation_id
  before ← gets (find_cursor before_id)
  raise_if (is_foreign channel_id conversation_id before) (message_error invalid_message_cursor 422)
  gets (list_history channel_id conversation_id limit before offset)

length-insert_newest :
    (m : Message) (xs : List Message) → length (insert_newest m xs) ≡ suc (length xs)
unfolding insert_newest
length-insert_newest m [] = refl
length-insert_newest m (x ∷ xs) = ground (arith, length-insert_newest m xs)

length-newest_first : (xs : List Message) → length (newest_first xs) ≡ length xs
unfolding newest_first
length-newest_first [] = refl
length-newest_first (x ∷ xs) =
    length-insert_newest x (newest_first xs) ∙ ap suc (length-newest_first xs)

more_left :
    (limit : ℕ) (xs : List Message)
    → ltb limit (length (first_of (suc limit) xs)) ≡ ltb limit (length xs)
more_left zero [] = refl
more_left zero (x ∷ xs) = ground arith
more_left (suc n) [] = ground arith
more_left (suc n) (x ∷ xs) = ground (arith, more_left n xs)

more_skipped :
    (limit offset : ℕ) (xs : List Message)
    → ltb limit (length (skip offset xs)) ≡ ltb (offset + limit) (length xs)
more_skipped limit zero xs = ground arith
more_skipped limit (suc n) [] = ground arith
more_skipped limit (suc n) (x ∷ xs) = ground (arith, more_skipped limit n xs)

-- A page says that there are more messages exactly if the context has more messages older than the
-- cursor than the page and the rows that the offset skips hold.
pub list_history-more :
    (channel_id conversation_id : Option ℕ) (limit offset : ℕ) (before : Option Message) (d : Db)
    → (list_history channel_id conversation_id limit before offset d).1
      ≡ ltb (offset + limit) (length (matching channel_id conversation_id before d))
unfolding list_history
list_history-more channel_id conversation_id limit offset before d =
    more_left limit _
    ∙ more_skipped limit offset _
    ∙ ap (ltb (offset + limit)) (length-newest_first (matching channel_id conversation_id before d))
