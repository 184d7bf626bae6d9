-- ===== src/Notifications/Paging/Reading.antt =====
-- What a client reads that asks for the pages of the list one after the other.
use mathlib.Core.List.{Perm}
use mathlib.Core.List.Perm
use realynk.Base.{
  ℕ, zero, suc, ◌*◌, ◌≤◌, ◌<◌, ◌≡◌, ◌⊎◌, inl, inr, ◌∙◌, refl, sym, ap, subst, Bool, true, false,
  not, ◌||◌, Option, none, some, List, [], ◌++◌, Text, codes, arith, All, All-map, count, filter,
  is_some, length, ltb, first_pages, first_pages_all,
}
use realynk.Models.{Db, User, Notification}
use realynk.Session.{Result, ok, err, ◌>>=◌}
use realynk.Notifications.Paging.{
  is_listed, listed, list_for_user, pagination, unread_arg, Page, answer, list_notifications,
}
use realynk.Notifications.Paging.Sorting.{
  IsNewestFirst, newest_first-perm, All-newest_first, newest_first-IsNewestFirst, filter-parts,
  All-filter, length-newest_first, length-filter,
}

-- the notifications that a user has to see, all of them or those that are unread
pub record IsDue (user_id : ℕ) (unread_only : Bool) (n : Notification) : Type 0 where
  pub own : n.recipient_id ≡ user_id
  pub alive : n.deleted_at ≡ none
  pub unread : (unread_only ≡ false) ⊎ (n.is_read ≡ false)

is_listed-IsDue :
    (user_id : ℕ) (unread_only : Bool) (n : Notification)
    → is_listed user_id unread_only n ≡ true
    → IsDue user_id unread_only n
is_listed-IsDue user_id unread_only n h = record {
  own = ground (arith, h);
  alive = missing n.deleted_at (ground (arith, h));
  unread = either unread_only n.is_read (ground (arith, h));
}
  where
    missing : (o : Option ℕ) → is_some o ≡ false → o ≡ none
    missing none e = refl
    missing (some t) e = absurd (ground (arith, e))

    either : (b r : Bool) → (not b || not r) ≡ true → (b ≡ false) ⊎ (r ≡ false)
    either false r e = inl refl
    either true r e = inr (ground (arith, e))

IsDue-is_listed :
    (user_id : ℕ) (unread_only : Bool) (n : Notification)
    → IsDue user_id unread_only n
    → is_listed user_id unread_only n ≡ true
IsDue-is_listed user_id unread_only n h = ground (arith, h.own, h.alive, h.unread)

abbrev items_of : Result Page → List Notification
items_of (ok page) = page.items
items_of (err e) = []

-- whether a client goes on after an answer
abbrev pub goes_on : Result Page → Bool
goes_on (ok page) = page.has_more
goes_on (err e) = false

answers :
    (lower : Text → Text) (args : Text → Option Text) (user : User) (d : Db) (page limit : ℕ)
    (unread_only : Bool)
    → pagination args ≡ ok (page, limit)
    → unread_arg lower (args (codes "unread")) ≡ unread_only
    → (list_notifications lower args user d).0
      ≡ ok (answer page limit (list_for_user user.id page limit unread_only d))
unfolding list_notifications ◌>>=◌
answers lower args user d page limit unread_only e f = ground (arith, e, f)

-- The items are the notifications that the user has to see, each once, the newest first; `rest` has
-- the other rows of the table.
pub record AllDue (user_id : ℕ) (unread_only : Bool) (d : Db) (items : List Notification)
    : Type 0 where
  pub rest : List Notification
  pub parted : Perm (items ++ rest) d.notifications
  pub due : All (IsDue user_id unread_only) items
  pub others : All (λ n. ¬ IsDue user_id unread_only n) rest
  pub order : IsNewestFirst items

listed-AllDue :
    (user_id : ℕ) (unread_only : Bool) (d : Db)
    → AllDue user_id unread_only d (listed user_id unread_only d)
unfolding listed
listed-AllDue user_id unread_only d = record {
  rest = filter (λ n. not (test n)) d.notifications;
  parted =
      Perm.trans
        (Perm.append_right (filter (λ n. not (test n)) d.notifications)
          (newest_first-perm (filter test d.notifications)))
        (filter-parts test d.notifications);
  due = All-newest_first (IsDue user_id unread_only) (filter test d.notifications) (
      All-map (λ n. test n ≡ true) (IsDue user_id unread_only) (filter test d.notifications)
        (λ n h. is_listed-IsDue user_id unread_only n h) (All-filter test d.notifications));
  others =
      All-map (λ n. not (test n) ≡ true) (λ n. ¬ IsDue user_id unread_only n)
        (filter (λ n. not (test n)) d.notifications)
        (λ n h due. absurd (ground (arith, h, IsDue-is_listed user_id unread_only n due)))
        (All-filter (λ n. not (test n)) d.notifications);
  order = newest_first-IsNewestFirst (filter test d.notifications);
}
  where
    test : Notification → Bool
    test n = is_listed user_id unread_only n

not_below : (a b : ℕ) → ltb a b ≡ false → b ≤ a
not_below a b h = ground (arith, h)

module _ (lower : Text → Text) (query : ℕ → Text → Option Text) (user : User) (d : Db) where
  -- the items of the answers to the queries 1 to `n`, one answer after the other
  abbrev pub read_pages : ℕ → List Notification
  read_pages zero = []
  read_pages (suc n) = read_pages n ++ items_of (list_notifications lower (query (suc n)) user d).0

  module _ (limit : ℕ) (unread_only : Bool) where
    read_pages-first_pages :
        (n : ℕ)
        → ((p : ℕ) → p < n → pagination (query (suc p)) ≡ ok (suc p, limit))
        → ((p : ℕ) → p < n → unread_arg lower (query (suc p) (codes "unread")) ≡ unread_only)
        → read_pages n ≡ first_pages n limit (listed user.id unread_only d)
    unfolding list_for_user first_pages
    read_pages-first_pages zero paged asked = refl
    read_pages-first_pages (suc n) paged asked =
        ap (λ ns. ns ++ items_of (list_notifications lower (query (suc n)) user d).0)
          (read_pages-first_pages n (λ p h. paged p (omega arith)) (λ p h. asked p (omega arith)))
        ∙ ap (λ r. first_pages n limit (listed user.id unread_only d) ++ items_of r)
            (answers lower (query (suc n)) user d (suc n) limit unread_only (paged n (omega arith))
              (asked n (omega arith)))

    -- an answer that says that there are no more counts no more rows than the pages have room for
    enough :
        (k : ℕ)
        → (list_notifications lower (query (suc k)) user d).0
          ≡ ok (answer (suc k) limit (list_for_user user.id (suc k) limit unread_only d))
        → goes_on (list_notifications lower (query (suc k)) user d).0 ≡ false
        → length (listed user.id unread_only d) ≤ suc k * limit
    unfolding list_for_user listed
    enough k e last = omega (
      arith,
      not_below (suc k * limit) (count (is_listed user.id unread_only) d.notifications)
          (sym (ap goes_on e) ∙ last),
      length-newest_first (filter (is_listed user.id unread_only) d.notifications),
      length-filter (is_listed user.id unread_only) d.notifications,
    )

    -- A client asks for the pages 1 to `k + 1` of the same length, each for the unread notifications
    -- or each for all, with queries that are read so, and the last answer says that there are no
    -- more. Then the answers together have exactly the notifications that the user has to see, each
    -- of them once: those to the user that are not deleted and, if so asked, are unread. They stand
    -- from the newest to the oldest, and those of the same time by falling ids.
    pub list_notifications-AllDue :
        (k : ℕ)
        → ((p : ℕ) → p < suc k → pagination (query (suc p)) ≡ ok (suc p, limit))
        → ((p : ℕ) → p < suc k → unread_arg lower (query (suc p) (codes "unread")) ≡ unread_only)
        → goes_on (list_notifications lower (query (suc k)) user d).0 ≡ false
        → AllDue user.id unread_only d (read_pages (suc k))
    list_notifications-AllDue k paged asked last =
        subst (AllDue user.id unread_only d)
          (sym (
            read_pages-first_pages (suc k) paged asked
            ∙ first_pages_all (suc k) limit (listed user.id unread_only d) (
                enough k
                  (answers lower (query (suc k)) user d (suc k) limit unread_only
                    (paged k (omega arith)) (asked k (omega arith)))
                  last)))
          (listed-AllDue user.id unread_only d)
