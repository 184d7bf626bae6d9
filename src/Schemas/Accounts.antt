-- ===== src/Schemas/Accounts.antt =====
-- app/schemas/auth.py and app/schemas/user.py.
use realynk.Base.{
  ℕ, ◌≡◌, refl, Bool, true, false, not, ◌&&◌, ◌||◌, [], ◌∷◌, ◌++◌, Text, codes, any, is_empty,
  is_space, length, leb, if◌then◌else◌, ◌==◌,
}
use realynk.Auth.{}
use realynk.Schemas.Json.{Json, string, Fields, get, is_null, has_others, is_string_with}
use realynk.Notifications.Delivery.{is_name_char}
use realynk.Schemas.Errors.{Errors, error_when}

abbrev all_of : (ℕ → Bool) → Text → Bool
all_of p s = not (any (λ c. not (p c)) s)

-- `USERNAME_PATTERN.fullmatch`
unfoldable pub is_username : Text → Bool
is_username s = leb 3 (length s) && leb (length s) 30 && all_of is_name_char s

-- the class `[^@\s]`
abbrev is_plain : ℕ → Bool
is_plain c = not (c == 64) && not (is_space c)

-- a `.` with a character of the class after it, in a text of the class
abbrev has_dot_inside : Text → Bool
has_dot_inside [] = false
has_dot_inside (c ∷ s) = (c == 46) && not (is_empty s) || has_dot_inside s

-- `[^@\s]+\.[^@\s]+` on the whole text
abbrev is_domain : Text → Bool
is_domain [] = false
is_domain (c ∷ s) = all_of is_plain (c ∷ s) && has_dot_inside s

-- the rest of the pattern behind a first part, of which `after` tells whether it is not empty
abbrev is_address : Text → Bool → Bool
is_address [] after = false
is_address (c ∷ s) after =
    let rest = is_address s true in
    if c == 64 then after && is_domain s else not (is_space c) && rest

-- `EMAIL_PATTERN.fullmatch`
unfoldable pub is_email : Text → Bool
is_email s = is_address s false

abbrev is_text : Json → Bool
is_text j = is_string_with (λ s. not (is_empty s)) j

-- a field that must be a string, not empty, and pass a test
abbrev text_errors : Text → (Text → Bool) → Text → Text → Json → Errors
text_errors name p missing wrong (string s) =
    if is_empty s then (name, missing) ∷ [] else if p s then [] else (name, wrong) ∷ []
text_errors name p missing wrong j = (name, missing) ∷ []

abbrev at_least : ℕ → Text → Bool
at_least n s = leb n (length s)

-- given, and not a string of at most `n` characters
abbrev is_too_long : ℕ → Json → Bool
is_too_long n j = not (is_null j) && not (is_string_with (λ s. leb (length s) n) j)

unfoldable pub validate_registration : Fields → Errors
validate_registration entries =
    text_errors (codes "username") is_username (codes "Username is required")
      (codes "Username must be 3-30 characters using letters, numbers, or _")
      (get (codes "username") entries)
    ++ (text_errors (codes "email") is_email (codes "Email is required")
          (codes "Invalid email format") (get (codes "email") entries)
        ++ (text_errors (codes "password") (at_least 8) (codes "Password is required")
              (codes "Password must be at least 8 characters") (get (codes "password") entries)
            ++ error_when (is_too_long 100 (get (codes "display_name") entries))
                (codes "display_name") (codes "Display name must be at most 100 characters")))

unfoldable pub validate_login : Fields → Errors
validate_login entries =
    error_when (not (is_text (get (codes "identifier") entries))) (codes "identifier")
      (codes "Identifier is required")
    ++ error_when (not (is_text (get (codes "password") entries))) (codes "password")
        (codes "Password is required")

unfoldable pub validate_password_change : Fields → Errors
validate_password_change entries =
    error_when (not (is_text (get (codes "current_password") entries))) (codes "current_password")
      (codes "Current password is required")
    ++ text_errors (codes "new_password") (at_least 8) (codes "New password is required")
        (codes "New password must be at least 8 characters") (get (codes "new_password") entries)

unfoldable pub validate_profile_update : Fields → Errors
validate_profile_update entries =
    error_when (has_others (codes "display_name" ∷ codes "avatar_url" ∷ []) entries)
      (codes "fields") (codes "Only display_name and avatar_url can be updated")
    ++ (error_when (is_too_long 100 (get (codes "display_name") entries)) (codes "display_name")
          (codes "Display name must be at most 100 characters")
        ++ error_when (is_too_long 2048 (get (codes "avatar_url") entries)) (codes "avatar_url")
            (codes "Avatar URL must be at most 2048 characters"))

usernames_run : is_username (codes "al_1") ≡ true
unfolding is_username
usernames_run = refl

emails_run : is_email (codes "al@example.org") && not (is_email (codes "al@org.")) ≡ true
unfolding is_email is_space
emails_run = refl
