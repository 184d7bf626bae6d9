-- ===== src/Users/Registration.antt =====
-- Registering an account.
use realynk.Base.{
  ℕ, ◌≡◌, ◌≢◌, ◌⊎◌, inl, inr, refl, Bool, true, false, ◌||◌, Option, some, ◌∷◌, Text, arith,
  is_some, text_eq_refl,
}
use realynk.Models.{Db, User}
use realynk.Session.{Engine, Result, ok, err, RestoresOn, accepted}
use realynk.Session.Ends.{Ends, Ends-pure, Ends-raise_if, Ends-modify, Ends-commit_or, Ends-gets}
use realynk.Users.{
  get_by_username, get_by_email, clean_display_name, add_user, new_user, normalized, create_user,
}

-- whether the name or the address is in use
abbrev pub is_taken : Text → Text → Db → Bool
is_taken username email d = is_some (get_by_username username d) || is_some (get_by_email email d)

abbrev pub RegisterOutcome : Engine → User → Db → Result User → Db → Type 0
RegisterOutcome engine u d (ok shown) d' =
    (is_taken u.username u.email d ≡ false)
    × (shown ≡ u)
    × (d'.users ≡ u ∷ d.users)
    × (get_by_username u.username d' ≡ some u)
    × (get_by_email u.email d' ≡ some u)
RegisterOutcome engine u d (err e) d' =
    (d' ≡ d) × ((is_taken u.username u.email d ≡ true) ⊎ (engine (add_user u d) ≢ accepted))

-- With an engine that restores the state before the call: a registration adds the one account under
-- the normalized name and address, which were free, and both look-ups then find it; it is refused,
-- with nothing changed, where one of the two is taken or the commit is refused.
pub create_user-RegisterOutcome :
    (lower : Text → Text) (generate : Text → Text) (engine : Engine) (id : ℕ)
    (username email password : Text) (display_name : Option Text) (d : Db)
    → RestoresOn engine d
    → Ends
        (RegisterOutcome engine
          (new_user id
            (normalized lower username)
            (normalized lower email)
            (clean_display_name display_name)
            (generate password))
          d)
        (create_user lower generate engine id username email password display_name)
        d
unfolding create_user
create_user-RegisterOutcome lower generate engine id username email password display_name d
      restores =
    Ends-gets _ _ d (
      Ends-raise_if _ _ _ d (λ h. (refl, inl (ground (arith, h))))
        λ free_name. Ends-gets _ _ d (
          Ends-raise_if _ _ _ d (λ h. (refl, inl (ground (arith, h))))
            λ free_email. Ends-modify _ _ d (
              Ends-commit_or engine _ _ _
                (λ _. Ends-pure _ _ (
                  ground (arith, free_name, free_email),
                  refl,
                  refl,
                  ground (arith, text_eq_refl (normalized lower username)),
                  ground (arith, text_eq_refl (normalized lower email)),
                ))
                (λ d' r. (restores _ d' r, inr (λ acc. absurd (ground (arith, acc, r))))))))
