-- ===== src/Users/Login.antt =====
-- Logging in.
use realynk.Base.{
  ℕ, ◌≡◌, ◌⊎◌, inl, inr, refl, Bool, true, false, ◌||◌, Option, none, some, Text, arith, text_eq,
  ap,
}
use realynk.Models.{Db, User}
use realynk.Session.{
  Engine, Result, ok, err, RestoresOn, accepted, invalid_credentials_error, integrity_error,
}
use realynk.Session.Ends.{Ends, Ends-pure, Ends-raise_if, Ends-modify, Ends-commit_or, Ends-fetch}
use realynk.Moderation.{set_user}
use realynk.Users.{
  get_by_identifier, normalized, is_refused, logged_in, authenticate, new_user, add_user,
}

-- whether a log-in is refused: no such account, an inactive one, or a wrong password
abbrev pub is_denied : (Text → Text → Bool) → Text → Option User → Bool
is_denied check password none = true
is_denied check password (some u) = is_refused check password u

abbrev pub LoginOutcome : (Text → Text → Bool) → Text → ℕ → Text → Db → Result User → Db → Type 0
LoginOutcome check identifier at password d (ok shown) d' =
    (u : User) × (get_by_identifier identifier d ≡ some u)
    × (is_denied check password (some u) ≡ false)
    × (shown ≡ logged_in at u)
    × (d' ≡ set_user u (logged_in at) d)
LoginOutcome check identifier at password d (err e) d' =
    (d' ≡ d)
    × (((is_denied check password (get_by_identifier identifier d) ≡ true)
          × (e ≡ invalid_credentials_error))
        ⊎ ((is_denied check password (get_by_identifier identifier d) ≡ false)
            × (e ≡ integrity_error)))

-- With an engine that restores the state before the call: a log-in that succeeds is one of an
-- active account with the right password, and sets the time of that account's log-in alone; an
-- unknown name, an inactive account and a wrong password all raise the same exception and change
-- nothing, and any other failure is a refused commit.
pub authenticate-LoginOutcome :
    (lower : Text → Text) (check : Text → Text → Bool) (engine : Engine) (at : ℕ)
    (identifier password : Text) (d : Db)
    → RestoresOn engine d
    → Ends
        (LoginOutcome check (normalized lower identifier) at password d)
        (authenticate lower check engine at identifier password)
        d
unfolding authenticate
authenticate-LoginOutcome lower check engine at identifier password d restores =
    Ends-fetch _ _ _ d (λ e. (refl, inl (ground (arith, e), refl)))
      λ u e.
        Ends-raise_if _ _ _ d (λ h. (refl, inl (ground (arith, h, e), refl)))
          λ h. Ends-modify _ _ d (
            Ends-commit_or engine _ _ _ (λ _. Ends-pure _ _ (u, e, h, refl, refl))
              (λ d' r. (restores _ d' r, inr (ground (arith, h, e), refl))))

one : (v u : User) → some v ≡ some u → u ≡ v
one v u h = ground arith

-- An account that has just been registered can log in by its name or by its address with its
-- password, however they are written up to what `strip` and `lower` undo, where the hash of a
-- password passes the check of that password and the commit is accepted.
pub authenticate-add_user :
    (lower : Text → Text) (generate : Text → Text) (check : Text → Text → Bool)
    → ((password : Text) → check (generate password) password ≡ true)
    → (engine : Engine) (id at : ℕ) (username email identifier password : Text)
      (display_name : Option Text) (d : Db)
    → let u = new_user id username email display_name (generate password) in
      (text_eq email (normalized lower identifier)
          || text_eq username (normalized lower identifier))
        ≡ true
      → engine (set_user u (logged_in at) (add_user u d)) ≡ accepted
      → Ends
          (λ r _. r ≡ ok (logged_in at u))
          (authenticate lower check engine at identifier password)
          (add_user u d)
unfolding authenticate
authenticate-add_user lower generate check law engine id at username email identifier password name
      d known acc =
    Ends-fetch _ _ _ _ (λ e. absurd (ground (arith, e, known)))
      λ u e.
        Ends-raise_if _ _ _ _ (λ h. absurd (ground (arith, h, e, known, law password)))
          λ _. Ends-modify _ _ _ (
            Ends-commit_or engine _ _ _
              (λ _. Ends-pure _ _ (ap (λ v. ok (logged_in at v)) (mine u e)))
              (λ d' r. absurd (
                ground (
                  arith,
                  r,
                  acc,
                  ap (λ v. engine (set_user v (logged_in at) (add_user made d))) (mine u e),
                ))))
  where
    made : User
    made = new_user id username email name (generate password)

    mine :
        (u : User)
        → get_by_identifier (normalized lower identifier) (add_user made d) ≡ some u
        → u ≡ made
    mine u e = one made u (ground (arith, e, known))
