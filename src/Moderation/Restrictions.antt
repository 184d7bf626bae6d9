-- ===== src/Moderation/Restrictions.antt =====
-- How long a measure restricts its account, and that a restricted account moderates nobody.
use realynk.Base.{
  ℕ, ◌+◌, ◌≡◌, ◌∙◌, Bool, true, false, not, ◌&&◌, ◌||◌, Option, none, some, Text, arith, ◌==◌,
  is_some, ltb, strip, partition_space,
}
use realynk.Models.{Db, User, ModerationAction, ActionKind, is_active_status}
use realynk.Session.{Engine, Result, ok, err, is_ok, RestoresOn}
use realynk.Session.Ends.{Ends}
use realynk.Session.Blocks.{Ends-weaken}
use realynk.Permissions.ModerationRules.{
  of_user, is_restricted, can_warn_user, can_lock_channel, can_delete_message, can_view_audit_logs,
}
use realynk.Repositories.{get_user_row}
use realynk.Auth.{Jwt, Uuids, decode_access_token, is_unauthenticated, auth_required}
use realynk.Auth.Access.{Admits, account_of_header, auth_required-Admits}
use realynk.Moderation.{expiry, suspended, suspend_user}
use realynk.Moderation.Actions.{Outcome, suspend_user-Imposed}
use realynk.Moderation.Authority.{MayModerate}

-- whether a suspension that begins at `at` goes on at the time `t`: it has no end without a
-- duration, or with one of zero seconds
abbrev pub lasts : ℕ → ℕ → Option ℕ → Bool
lasts t at none = true
lasts t at (some seconds) = (seconds == 0) || ltb t (at + seconds)

-- an account that nothing but a suspension keeps out
abbrev pub is_welcome : User → Bool
is_welcome u = u.is_active && is_active_status u.status && not (is_some u.banned_at)

is_restricted-suspended :
    (t at : ℕ) (duration : Option ℕ) (u : User)
    → not (is_restricted t (of_user (suspended at (expiry at duration) u)))
      ≡ is_welcome u && not (lasts t at duration)
is_restricted-suspended t at none u = ground arith
is_restricted-suspended t at (some seconds) u = ground arith

Admits-is_ok : (o : Option User) (r : Result User) → Admits o r → is_ok r ≡ is_some o
Admits-is_ok o (ok u) h = ground (arith, h)
Admits-is_ok o (err e) h = ground (arith, h)

module _ (lower : Text → Text) (jwt : Jwt) (uuids : Uuids) (t : ℕ) (header : Text) (user_id : ℕ)
    (scheme : is_unauthenticated lower header ≡ false)
    (token : decode_access_token jwt uuids t (strip (partition_space header).1) ≡ ok user_id) where
  passes :
      (d : Db) (u : User)
      → get_user_row user_id d ≡ some u
      → is_ok (auth_required lower jwt uuids t header d).0 ≡ not (is_restricted t (of_user u))
  passes d u found =
      Admits-is_ok (account_of_header lower jwt uuids t header d)
        (auth_required lower jwt uuids t header d).0
        (auth_required-Admits lower jwt uuids t header d).at.0
      ∙ ground (arith, scheme, token, found)

  -- the requests of the account after the call
  abbrev pub LockedOut : ℕ → Option ℕ → Db → Result ModerationAction → Db → Type 0
  LockedOut at duration d (ok r) d' =
      (u : User) × (get_user_row user_id d ≡ some u)
      × (is_ok (auth_required lower jwt uuids t header d').0
          ≡ is_welcome u && not (lasts t at duration))
  LockedOut at duration d (err e) d' = d' ≡ d

  -- With an engine that restores the state before the call: once a suspension of an account has
  -- succeeded, a request at the time `t` with a token of that account passes exactly if the account
  -- was active and not banned and the suspension is over at `t`; it is never over without a
  -- duration or with one of zero seconds, and else over so many seconds after the call. A
  -- suspension that raises has changed nothing.
  pub suspend_user-LockedOut :
      (engine : Engine) (id now at : ℕ) (actor : User) (reason : Option Text) (duration : Option ℕ)
      (d : Db)
      → RestoresOn engine d
      → Ends
          (LockedOut at duration d)
          (suspend_user engine id now at actor user_id reason duration)
          d
  suspend_user-LockedOut engine id now at actor reason duration d restores =
      Ends-weaken _ d go
        (suspend_user-Imposed engine d restores id now at actor user_id reason duration)
    where
      go :
          (r : Result ModerationAction) (d' : Db)
          → Outcome ActionKind.user_suspend
              (suspended at (expiry at duration))
              (expiry at duration)
              now
              actor
              user_id
              d
              r
              d'
          → LockedOut at duration d r d'
      go (ok r) d' (u, i) = (
        u,
        i.found,
        passes d' (suspended at (expiry at duration) u) i.changed
            ∙ is_restricted-suspended t at duration u,
      )
      go (err e) d' h = h

-- While an account is restricted, it may warn, suspend, ban, lock, hide and read the log nowhere.
pub restricted_is_powerless :
    (t : ℕ) (u other : User)
    → is_restricted t (of_user u) ≡ true
    → (can_warn_user t u other ≡ ok false)
      × (can_lock_channel t u ≡ ok false)
      × (can_delete_message t u ≡ ok false)
      × (can_view_audit_logs t u ≡ ok false)
restricted_is_powerless t u other h = (ground arith, ground arith, ground arith, ground arith)

-- Nobody may moderate somebody who may moderate them, whatever the times of the two acts.
pub MayModerate-asym : (s t : ℕ) (a b : User) → MayModerate s a b → ¬ MayModerate t b a
MayModerate-asym s t a b h k = omega (arith, h.above, k.above)
