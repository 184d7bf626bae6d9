-- ===== src/Auth/Access.antt =====
-- Who passes `auth_required`.
use realynk.Base.{
  ℕ, ◌≡◌, refl, Option, none, some, Text, arith, strip, partition_space, if◌then◌else◌,
}
use realynk.Models.{Db, User}
use realynk.Session.{Result, ok, err}
use realynk.Session.Ends.{Ends, Ends-pure, Ends-raise_if, Ends-fetch}
use realynk.Session.Blocks.{Ends-bind, Ends-catch, Ends-lifted}
use realynk.Permissions.ModerationRules.{of_user, is_restricted}
use realynk.Repositories.{get_user_row}
use realynk.Auth.{Jwt, Uuids, decode_access_token, is_unauthenticated, auth_required}

-- the account of an id, if it is not restricted at the time
abbrev pub unrestricted : ℕ → Option User → Option User
unrestricted now none = none
unrestricted now (some u) = if is_restricted now (of_user u) then none else some u

-- the account that a token stands for, if it is not restricted at the time
abbrev pub account_of : ℕ → Db → Result ℕ → Option User
account_of now d (err e) = none
account_of now d (ok id) = unrestricted now (get_user_row id d)

abbrev pub Admits : Option User → Result User → Type 0
Admits o (ok u) = o ≡ some u
Admits o (err e) = o ≡ none

-- the account that a request's header stands for
abbrev pub account_of_header : (Text → Text) → Jwt → Uuids → ℕ → Text → Db → Option User
account_of_header lower jwt uuids now header d =
    if is_unauthenticated lower header
    then none
    else account_of now d (decode_access_token jwt uuids now (strip (partition_space header).1))

-- A request passes exactly if its header has the scheme and a valid token of an account that exists
-- and is not inactive, suspended or banned; then the view gets that account. Nothing is written.
pub auth_required-Admits :
    (lower : Text → Text) (jwt : Jwt) (uuids : Uuids) (now : ℕ) (header : Text) (d : Db)
    → Ends
        (λ r d'. Admits (account_of_header lower jwt uuids now header d) r × (d' ≡ d))
        (auth_required lower jwt uuids now header)
        d
unfolding auth_required
auth_required-Admits lower jwt uuids now header d =
    Ends-raise_if _ _ _ d (λ h. (ground (arith, h), refl))
      λ h. Ends-bind _ _ d (
        Ends-catch _ _ d (
          Ends-lifted _ d (λ e f. (ground (arith, h, f), refl))
            λ id f.
              Ends-fetch _ _ _ d (λ g. (ground (arith, h, f, g), refl))
                λ u g.
                  Ends-raise_if _ _ _ d (λ i. (ground (arith, h, f, g, i), refl))
                    λ i.
                      Ends-raise_if _ _ _ d (λ j. (ground (arith, h, f, g, j), refl))
                        λ j. Ends-pure _ d (ground (arith, h, f, g, j), refl)))
