-- ===== src/Reads/Unread.antt =====
-- The unread count, and what marking a message does to it.
use realynk.Base.{
  ℕ, ◌≡◌, ◌≢◌, refl, suc, Bool, true, false, some, List, [], ◌∷◌, arith, ◌==◌, any, count, find,
  Unique, All, All-of, subst, sym,
}
use realynk.Models.{Db, Message}
use realynk.Constraints.{}
use realynk.Repositories.{get_message}
use realynk.Reads.{unread_count, is_unread, add_read, new_read}

-- Two tests that differ at no row of the table but one.
count_same :
    (p q : Message → Bool) (xs : List Message) → All (λ x. p x ≡ q x) xs → count p xs ≡ count q xs
count_same p q [] h = refl
count_same p q (x ∷ xs) h = ground (arith, h.0, count_same p q xs h.1)

All-others :
    (p q : Message → Bool) (id : ℕ) (xs : List Message)
    → any (λ x. x.id == id) xs ≡ false
    → ((x : Message) → x.id ≢ id → p x ≡ q x)
    → All (λ x. p x ≡ q x) xs
All-others p q id [] h f = tt
All-others p q id (x ∷ xs) h f =
    (f x (λ e. absurd (ground arith)), All-others p q id xs (ground arith) f)

none_alike :
    (i id : ℕ) (xs : List Message)
    → i ≡ id
    → any (λ a. i == a.id) xs ≡ false
    → any (λ x. x.id == id) xs ≡ false
none_alike i id [] e h = refl
none_alike i id (x ∷ xs) e h = ground (arith, e, none_alike i id xs e (ground arith))

count_all_but_one :
    (p q : Message → Bool) (id : ℕ) (xs : List Message) (t : Message)
    → Unique (λ a b. a.id == b.id) xs
    → find (λ x. x.id == id) xs ≡ some t
    → p t ≡ true
    → q t ≡ false
    → ((x : Message) → x.id ≢ id → p x ≡ q x)
    → count p xs ≡ suc (count q xs)
count_all_but_one p q id [] t u e pt qt f = ground arith
count_all_but_one p q id (x ∷ xs) t u e pt qt f =
    go (x.id == id) refl (λ g. count_all_but_one p q id xs t u.1 g pt qt f)
  where
    same : (a b : Message) → some a ≡ some b → a ≡ b
    same a b h = ground arith

    here : x.id ≡ id → x ≡ t → count p (x ∷ xs) ≡ suc (count q (x ∷ xs))
    here i xt = ground (
      arith,
      subst (λ y. p y ≡ true) (sym xt) pt,
      subst (λ y. q y ≡ false) (sym xt) qt,
      count_same p q xs (All-others p q id xs (none_alike x.id id xs i u.0) f),
    )

    go :
        (b : Bool)
        → (x.id == id) ≡ b
        → (find (λ x. x.id == id) xs ≡ some t → count p xs ≡ suc (count q xs))
        → count p (x ∷ xs) ≡ suc (count q (x ∷ xs))
    go true b ih = here (ground arith) (same x t (ground arith))
    go false b ih = ground (arith, f x (ground arith), ih (ground arith))

-- Where no two messages have one id, a new row for a message that is unread makes the count of
-- unread messages of its reader smaller by one.
pub unread_count-add_read :
    (id at user_id : ℕ) (d : Db) (m : Message)
    → Unique (λ a b. a.id == b.id) d.messages
    → get_message m.id d ≡ some m
    → is_unread user_id d m ≡ true
    → unread_count user_id d ≡ suc (unread_count user_id (add_read (new_read id at m.id user_id) d))
unfolding unread_count
unread_count-add_read id at user_id d m unique found unread =
    count_all_but_one (is_unread user_id d)
      (is_unread user_id (add_read (new_read id at m.id user_id) d)) m.id d.messages m unique found
      unread (ground arith) (λ x ne. ground arith)

-- For everybody else it stays.
pub unread_count-add_read_other :
    (id at reader_id user_id message_id : ℕ) (d : Db)
    → user_id ≢ reader_id
    → unread_count user_id (add_read (new_read id at message_id reader_id) d)
      ≡ unread_count user_id d
unfolding unread_count
unread_count-add_read_other id at reader_id user_id message_id d ne = count_same _ _ d.messages (
    All-of
      (λ x.
        is_unread user_id (add_read (new_read id at message_id reader_id) d) x
        ≡ is_unread user_id d x)
      d.messages (λ x. ground arith))
