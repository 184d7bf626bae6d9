-- ===== src/Moderation/Actions.antt =====
-- What suspending, banning and their reversals leave behind, on every path.
use realynk.Base.{
  ℕ, ◌≡◌, ◌≢◌, refl, true, false, Option, none, some, ◌∷◌, Text, arith, ◌==◌, ap, ◌∙◌,
  find-update_where, find-test, map_found,
}
use realynk.Models.{Db, User, ModerationAction, ActionKind}
use realynk.Session.{
  Action, Engine, Exn, Result, ok, err, RestoresOn, pure, modify, commit, ◌>>=◌, ◌>>◌,
}
use realynk.Session.Ends.{
  Ends, Ends-pure, Ends-raise_if, Ends-modify, Ends-commit_or, Ends-catch_fetch, Ends-lift,
  Ends-assoc,
}
use realynk.Permissions.ModerationRules.{can_warn_user}
use realynk.Repositories.{get_user_row}
use realynk.Moderation.{
  target_user, authorize, suspend_user, unsuspend_user, ban_user, unban_user, add_record, set_user,
  suspended, unsuspended, banned, unbanned, expiry,
}
use realynk.Moderation.Authority.{MayModerate, can_warn_user-MayModerate}

-- A measure on the account of `target`: the actor was entitled to it, the account is the changed
-- one, no other account has changed, and one record names the actor, the account and the kind.
pub record Imposed (kind : ActionKind) (change : User → User) (expires_at : Option ℕ) (now : ℕ)
    (actor : User) (user_id : ℕ) (d : Db) (r : ModerationAction) (d' : Db) (target : User)
    : Type 0 where
  pub found : get_user_row user_id d ≡ some target
  pub entitled : MayModerate now actor target
  pub changed : get_user_row user_id d' ≡ some (change target)
  pub others : (id : ℕ) → id ≢ user_id → get_user_row id d' ≡ get_user_row id d
  pub logged : d'.actions ≡ r ∷ d.actions
  pub by : r.moderator_id ≡ actor.id
  pub on : r.target_user_id ≡ some user_id
  pub named : r.action ≡ kind
  pub until : r.expires_at ≡ expires_at

-- After an error the database is as it was.
abbrev pub Outcome :
    ActionKind
    → (User → User)
    → Option ℕ
    → ℕ
    → User
    → ℕ
    → Db
    → Result ModerationAction
    → Db
    → Type 0
Outcome kind change expires_at now actor user_id d (ok r) d' =
    (target : User) × Imposed kind change expires_at now actor user_id d r d' target
Outcome kind change expires_at now actor user_id d (err e) d' = d' ≡ d

module _ (change : User → User) (d : Db) (user_id : ℕ) (target : User)
    (found : get_user_row user_id d ≡ some target) (keeps : (u : User) → (change u).id ≡ u.id) where
  target_id : target.id ≡ user_id
  target_id = ground (arith, find-test (λ u. u.id == user_id) d.users target found)

  set_user_target : get_user_row user_id (set_user target change d) ≡ some (change target)
  set_user_target =
      find-update_where (λ u. u.id == user_id) (λ u. u.id == target.id) change d.users
        (λ x. ap (λ i. i == user_id) (keeps x)) true (λ x h. ground (arith, target_id))
      ∙ ap (map_found change) found

  set_user_others :
      (id : ℕ) → id ≢ user_id → get_user_row id (set_user target change d) ≡ get_user_row id d
  set_user_others id ne =
      find-update_where (λ u. u.id == id) (λ u. u.id == target.id) change d.users
        (λ x. ap (λ i. i == id) (keeps x)) false (λ x h. ground (arith, target_id))
      ∙ same (get_user_row id d)
    where
      same : (o : Option User) → map_found (λ x. x) o ≡ o
      same none = refl
      same (some x) = refl

-- the beginning of each of the four calls
Ends-authorized :
    {Q : Result ModerationAction → Db → Type 0} (now : ℕ) (actor : User) (user_id : ℕ)
    (k : User → Action ModerationAction) (d : Db)
    → ((e : Exn) → Q (err e) d)
    → ((target : User)
        → get_user_row user_id d ≡ some target
        → MayModerate now actor target
        → Ends Q (k target) d)
    → Ends Q
        (target_user user_id >>= λ target. authorize (can_warn_user now actor target) >> k target)
        d
unfolding authorize
Ends-authorized now actor user_id k d stop go =
    Ends-catch_fetch _ _ _ _ d (λ _. stop _)
      λ target found. Ends-assoc _ _ _ d (
        Ends-lift _ _ d (λ e _. stop e)
          λ allowed h.
            Ends-raise_if _ _ _ d (λ _. stop _)
              λ yes.
                go target found
                  (can_warn_user-MayModerate now actor target (h ∙ ap ok (ground arith))))

module _ (engine : Engine) (d : Db) (restores : RestoresOn engine d) where
  -- the end of each of the four calls, once it is authorized
  imposes :
      (kind : ActionKind) (change : User → User) (expires_at : Option ℕ) (now : ℕ) (actor : User)
      (user_id : ℕ) (target : User) (r : ModerationAction)
      → ((u : User) → (change u).id ≡ u.id)
      → get_user_row user_id d ≡ some target
      → MayModerate now actor target
      → r.moderator_id ≡ actor.id
      → r.target_user_id ≡ some target.id
      → r.action ≡ kind
      → r.expires_at ≡ expires_at
      → Ends
          (Outcome kind change expires_at now actor user_id d)
          (modify (set_user target change) >> (modify (add_record r) >> (commit engine >> pure r)))
          d
  imposes kind change expires_at now actor user_id target r keeps found may by on named until =
      Ends-modify _ _ d (
        Ends-modify _ _ _ (
          Ends-commit_or engine _ _ _
            (λ _. Ends-pure r _ (
              target,
              record {
                found = found;
                entitled = may;
                changed = set_user_target change d user_id target found keeps;
                others = set_user_others change d user_id target found keeps;
                logged = refl;
                by = by;
                on = on ∙ ap some (target_id change d user_id target found keeps);
                named = named;
                until = until;
              },
            ))
            (λ d' rejection. restores _ d' rejection)))

  -- With an engine that restores the state before the call: a call that succeeds suspends exactly
  -- the named account, until the end of the duration, under one new record, and the actor was
  -- entitled to it; a call that raises has changed nothing.
  pub suspend_user-Imposed :
      (id now at : ℕ) (actor : User) (user_id : ℕ) (reason : Option Text) (duration : Option ℕ)
      → Ends
          (Outcome ActionKind.user_suspend
            (suspended at (expiry at duration))
            (expiry at duration)
            now
            actor
            user_id
            d)
          (suspend_user engine id now at actor user_id reason duration)
          d
  unfolding suspend_user
  suspend_user-Imposed id now at actor user_id reason duration =
      Ends-authorized now actor user_id _ d (λ _. refl)
        λ target found may.
          Ends-raise_if _ _ _ d (λ _. refl)
            λ _. imposes _ _ _ now actor user_id target _ (λ _. refl) found may refl refl refl refl

  -- With such an engine, a call that succeeds ends the suspension of exactly the named account under
  -- one new record, and the actor was entitled to it; a call that raises has changed nothing.
  pub unsuspend_user-Imposed :
      (id now : ℕ) (actor : User) (user_id : ℕ) (reason : Option Text)
      → Ends
          (Outcome ActionKind.user_unsuspend unsuspended none now actor user_id d)
          (unsuspend_user engine id now actor user_id reason)
          d
  unfolding unsuspend_user
  unsuspend_user-Imposed id now actor user_id reason =
      Ends-authorized now actor user_id _ d (λ _. refl)
        λ target found may.
          Ends-raise_if _ _ _ d (λ _. refl)
            λ _. imposes _ _ _ now actor user_id target _ (λ _. refl) found may refl refl refl refl

  -- With such an engine, a call that succeeds bans exactly the named account, whatever duration is
  -- given, under one new record without an end, and the actor was entitled to it; a call that raises
  -- has changed nothing.
  pub ban_user-Imposed :
      (id now at : ℕ) (actor : User) (user_id : ℕ) (reason : Option Text) (duration : Option ℕ)
      → Ends
          (Outcome ActionKind.user_ban (banned at) none now actor user_id d)
          (ban_user engine id now at actor user_id reason duration)
          d
  unfolding ban_user
  ban_user-Imposed id now at actor user_id reason duration =
      Ends-authorized now actor user_id _ d (λ _. refl)
        λ target found may.
          Ends-raise_if _ _ _ d (λ _. refl)
            λ _. imposes _ _ _ now actor user_id target _ (λ _. refl) found may refl refl refl refl

  -- With such an engine, a call that succeeds ends the ban of exactly the named account under one new
  -- record, and the actor was entitled to it; a call that raises has changed nothing.
  pub unban_user-Imposed :
      (id now : ℕ) (actor : User) (user_id : ℕ) (reason : Option Text)
      → Ends
          (Outcome ActionKind.user_unban unbanned none now actor user_id d)
          (unban_user engine id now actor user_id reason)
          d
  unfolding unban_user
  unban_user-Imposed id now actor user_id reason =
      Ends-authorized now actor user_id _ d (λ _. refl)
        λ target found may.
          Ends-raise_if _ _ _ d (λ _. refl)
            λ _. imposes _ _ _ now actor user_id target _ (λ _. refl) found may refl refl refl refl
