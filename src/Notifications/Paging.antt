-- ===== src/Notifications/Paging.antt =====
-- The paged list of notifications: `list_for_user` of app/repositories/notification_repository.py,
-- with `_pagination` and `list_notifications` of app/routes/notifications.py. `args` is the query
-- of the request.
pub mod Sorting
pub mod Reading
use realynk.Base.{
  ℕ, zero, suc, ◌*◌, ◌≤◌, ◌≡◌, ◌∙◌, refl, ap, Bool, false, not, ◌&&◌, ◌||◌, Option, none, some,
  List, [], ◌∷◌, ◌++◌, Text, codes, arith, ◌==◌, count, filter, length, is_some, ltb, page_of,
  first_pages, first_pages_all, if◌then◌else◌,
}
use realynk.Models.{Db, User, Notification}
use realynk.Session.{
  Action, Result, ok, err, request_error, validation_error, pure, gets, lift, ◌>>=◌,
}
use realynk.Config.Parsing.{ℤ, pos, int_of, is_one_of}

abbrev pub is_listed : ℕ → Bool → Notification → Bool
is_listed recipient_id unread_only n =
    (n.recipient_id == recipient_id)
    && not (is_some n.deleted_at)
    && (not unread_only || not n.is_read)

abbrev pub is_newer : Notification → Notification → Bool
is_newer a b = ltb b.created_at a.created_at || (a.created_at == b.created_at) && ltb b.id a.id

-- `ORDER BY created_at DESC, id DESC`
pub insert_newest : Notification → List Notification → List Notification
insert_newest n [] = n ∷ []
insert_newest n (x ∷ xs) =
    let rest = insert_newest n xs in if is_newer x n then x ∷ rest else n ∷ x ∷ xs

pub newest_first : List Notification → List Notification
newest_first [] = []
newest_first (n ∷ ns) = insert_newest n (newest_first ns)

-- the rows of the statement, without its `OFFSET` and `LIMIT`
unfoldable pub listed : ℕ → Bool → Db → List Notification
unfolding newest_first insert_newest
listed recipient_id unread_only d =
    newest_first (filter (is_listed recipient_id unread_only) d.notifications)

-- a page, and the number of all rows
unfoldable pub list_for_user : ℕ → ℕ → ℕ → Bool → Db → List Notification × ℕ
list_for_user recipient_id page limit unread_only d = (
  page_of page limit (listed recipient_id unread_only d),
  count (is_listed recipient_id unread_only) d.notifications,
)

-- `int(request.args.get(name, default))`
abbrev int_arg : (Text → Option Text) → Text → ℕ → Option ℤ
int_arg args name default = or_int (args name)
  where
    or_int : Option Text → Option ℤ
    or_int none = some (pos default)
    or_int (some value) = int_of value

abbrev checked : Option ℤ → Option ℤ → Option (ℕ × ℕ)
checked (some (pos page)) (some (pos limit)) =
    if ltb page 1 || ltb limit 1 || ltb 100 limit then none else some (page, limit)
checked page limit = none

abbrev or_invalid : Option (ℕ × ℕ) → Result (ℕ × ℕ)
or_invalid none = err (request_error validation_error 422)
or_invalid (some p) = ok p

-- `_pagination`
unfoldable pub pagination : (Text → Option Text) → Result (ℕ × ℕ)
pagination args =
    or_invalid (checked (int_arg args (codes "page") 1) (int_arg args (codes "limit") 50))

abbrev pub unread_arg : (Text → Text) → Option Text → Bool
unread_arg lower none = false
unread_arg lower (some value) =
    is_one_of (codes "1" ∷ codes "true" ∷ codes "yes" ∷ []) (lower value)

-- the answer of the route; the number of pages is left out
pub record Page : Type 0 where
  pub items : List Notification
  pub page : ℕ
  pub limit : ℕ
  pub total : ℕ
  pub has_more : Bool

abbrev pub answer : ℕ → ℕ → List Notification × ℕ → Page
answer page limit (items, total) = record {
  items = items;
  page = page;
  limit = limit;
  total = total;
  has_more = ltb (page * limit) total;
}

unfoldable pub list_notifications : (Text → Text) → (Text → Option Text) → User → Action Page
list_notifications lower args user = do
  (page, limit) ← lift (pagination args)
  found ← gets (list_for_user user.id page limit (unread_arg lower (args (codes "unread"))))
  pure (answer page limit found)
