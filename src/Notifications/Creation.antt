-- ===== src/Notifications/Creation.antt =====
-- Creating a notification, and creating it again.
use realynk.Base.{
  ℕ, ◌≡◌, ◌≢◌, refl, sym, subst, Bool, true, false, not, ◌&&◌, Option, none, some, [], Text, arith,
  is_empty, text_eq_refl,
}
use realynk.Models.{Db, User, Notification, NotificationType}
use realynk.Session.{Engine, Result, ok, err, RestoresOn, accepted}
use realynk.Session.Ends.{Ends, Ends-pure, Ends-modify, Ends-try_commit, Ends-gets, Ends-fetch}
use realynk.Session.Blocks.{Ends-if}
use realynk.Notifications.Preferences.{is_enabled}
use realynk.Notifications.{
  Events, find_duplicate, is_reachable, create_notification, create_enabled, create_new, created,
  new_notification, add_notification,
}

-- whether a deduplication key is used
abbrev pub is_keyed : Option Text → Bool
is_keyed none = false
is_keyed (some key) = not (is_empty key)

-- whether the recipient is to get a notification of the type
abbrev pub is_wanted : User → NotificationType → Db → Bool
is_wanted recipient type d = is_reachable (some recipient) && is_enabled recipient.id type d

find_duplicate-add_notification :
    (n : Notification) (d : Db)
    → n.deleted_at ≡ none
    → is_keyed n.deduplication_key ≡ true
    → find_duplicate n.recipient_id n.deduplication_key (add_notification n d) ≡ some n
unfolding find_duplicate
find_duplicate-add_notification n d live keyed = go n.deduplication_key refl keyed
  where
    go :
        (o : Option Text)
        → n.deduplication_key ≡ o
        → is_keyed o ≡ true
        → find_duplicate n.recipient_id o (add_notification n d) ≡ some n
    go none e h = ground arith
    go (some key) e h = ground (arith, e, live, text_eq_refl key)

-- After a call that returns a notification, a search for its key finds it.
abbrev pub CreateOutcome :
    Engine
    → Notification
    → User
    → NotificationType
    → Db
    → Result (Option Notification × Events)
    → Db
    → Type 0
CreateOutcome engine new recipient type d (ok (none, events)) d' =
    (is_wanted recipient type d ≡ false) × (d' ≡ d) × (events ≡ [])
CreateOutcome engine new recipient type d (ok (some n, events)) d' =
    (is_wanted recipient type d ≡ true)
    × (is_keyed new.deduplication_key ≡ true
        → find_duplicate recipient.id new.deduplication_key d' ≡ some n)
CreateOutcome engine new recipient type d (err e) d' =
    (is_wanted recipient type d ≡ true) × (d' ≡ d) × (engine (add_notification new d) ≢ accepted)

module _ (engine : Engine) (id now : ℕ) (recipient : User) (type : NotificationType)
    (title body : Text) (entity_id actor_id : Option ℕ) (key : Option Text) (d : Db) where
  abbrev new : Notification
  new = new_notification id now recipient type title body entity_id actor_id key

  -- With an engine that restores the state before the call: a call returns no notification, and
  -- changes and tells nothing, exactly if the recipient is not active or has turned the type off;
  -- it raises, and changes nothing, only where the commit of the new row is refused; and after a call
  -- that returns a notification with a key, the inbox has that one under the key.
  pub create_notification-CreateOutcome :
      RestoresOn engine d
      → Ends
          (CreateOutcome engine new recipient type d)
          (create_notification engine id now recipient type title body entity_id actor_id key)
          d
  unfolding create_notification created
  create_notification-CreateOutcome restores =
      Ends-if _ _ _ d (λ reach. Ends-gets _ _ d (on (is_enabled recipient.id type d) refl reach))
        (λ off. Ends-pure _ d (ground (arith, off), refl, refl))
    where
      found :
          (wanted : is_wanted recipient type d ≡ true) (o : Option Notification)
          → find_duplicate recipient.id key d ≡ o
          → Ends (CreateOutcome engine new recipient type d) (create_new engine new o) d
      found wanted (some n) e = Ends-pure _ d (wanted, λ _. e)
      found wanted none e = Ends-modify _ _ d (
          Ends-try_commit engine _ _
            (λ _.
              Ends-gets _ _ _
                (Ends-pure _ _ (wanted, λ keyed. find_duplicate-add_notification new d refl keyed)))
            (λ d' r.
              Ends-fetch _ _ _ d'
                (λ _. (wanted, restores _ d' r, λ acc. absurd (ground (arith, acc, r))))
                (λ n f. Ends-pure _ d' (wanted, λ _. f))))

      on :
          (b : Bool)
          → is_enabled recipient.id type d ≡ b
          → is_reachable (some recipient) ≡ true
          → Ends (CreateOutcome engine new recipient type d) (create_enabled engine new b) d
      on false e reach = Ends-pure _ d (ground (arith, e), refl, refl)
      on true e reach =
          Ends-gets _ _ d
            (found (ground (arith, e, reach)) (find_duplicate recipient.id key d) refl)

  -- A notification that is wanted and has a duplicate is not created again: the call returns the
  -- one that is there, tells nothing, and changes nothing.
  pub create_notification_again :
      (n : Notification)
      → is_wanted recipient type d ≡ true
      → find_duplicate recipient.id key d ≡ some n
      → Ends
          (λ r d'. (r ≡ ok (some n, [])) × (d' ≡ d))
          (create_notification engine id now recipient type title body entity_id actor_id key)
          d
  unfolding create_notification
  create_notification_again n wanted found =
      Ends-if (is_reachable (some recipient)) _ _ d
        (λ reach. Ends-gets _ _ d (
          subst (λ b. Ends again (create_enabled engine new b) d) (sym enabled)
            (Ends-gets _ _ d (
              subst (λ o. Ends again (create_new engine new o) d) (sym found)
                (Ends-pure _ d (refl, refl))))))
        (λ off. absurd (ground (arith, off, wanted)))
    where
      enabled : is_enabled recipient.id type d ≡ true
      enabled = ground (arith, wanted)

      again : Result (Option Notification × Events) → Db → Type 0
      again r d' = (r ≡ ok (some n, [])) × (d' ≡ d)
