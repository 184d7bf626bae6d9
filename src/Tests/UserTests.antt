-- ===== src/Tests/UserTests.antt =====
-- Dave registers, logs in, and sends a request with his token.
use realynk.Base.{
  ◌+◌, ◌*◌, ◌<◌, ◌≤◌, ◌≡◌, refl, none, Text, codes, ◌++◌, arith, strip, text_eq_refl,
}
use realynk.Models.{User}
use realynk.Session.{ok, accepted, ◌>>=◌}
use realynk.Session.Ends.{Ends}
use realynk.Constraints.Checked.{checking, checking-RestoresOn}
use realynk.Users.{create_user, authenticate, new_user, add_user, logged_in}
use realynk.Users.Registration.{RegisterOutcome, create_user-RegisterOutcome}
use realynk.Users.Login.{LoginOutcome, authenticate-LoginOutcome, authenticate-add_user}
use realynk.Auth.{auth_required, create_access_token, decode_access_token}
use realynk.Auth.Tokens.{decode_access_token-create_access_token}
use realynk.Auth.Access.{Admits, account_of_header, auth_required-Admits}
use realynk.Tests.Scenario.{town, alice}
use realynk.Tests.Platforms.{
  ascii_lower, plain, plain_check, plain_jwt, plain_jwt-IsSigning, plain_uuids,
  plain_uuids-IsLawful,
}

abbrev dave : User
dave = new_user 4 (codes "dave") (codes "dave@example.org") none (codes "secret")

-- The name is stripped and put in lower case.
registers :
    (create_user ascii_lower plain
      (checking town)
      4
      (codes " Dave")
      (codes "dave@example.org")
      (codes "secret")
      none
      town).0
    ≡ ok dave
unfolding strip create_user checking ◌>>=◌
registers = refl

create_user-RegisterOutcome_example :
    Ends
      (RegisterOutcome (checking town) dave town)
      (create_user ascii_lower plain
        (checking town)
        4
        (codes " Dave")
        (codes "dave@example.org")
        (codes "secret")
        none)
      town
unfolding strip
create_user-RegisterOutcome_example =
    create_user-RegisterOutcome ascii_lower plain (checking town) 4 (codes " Dave")
      (codes "dave@example.org") (codes "secret") none town (checking-RestoresOn town)

logs_in :
    (authenticate ascii_lower plain_check (checking town) 9 (codes "ALICE ") (codes "hash") town).0
    ≡ ok (logged_in 9 alice)
unfolding strip authenticate checking ◌>>=◌
logs_in = refl

authenticate-LoginOutcome_example :
    Ends
      (LoginOutcome plain_check (codes "alice") 9 (codes "hash") town)
      (authenticate ascii_lower plain_check (checking town) 9 (codes "ALICE ") (codes "hash"))
      town
unfolding strip
authenticate-LoginOutcome_example =
    authenticate-LoginOutcome ascii_lower plain_check (checking town) 9 (codes "ALICE ")
      (codes "hash") town (checking-RestoresOn town)

dave_commits : checking town (add_user (logged_in 9 dave) town) ≡ accepted
unfolding checking
dave_commits = refl

authenticate-add_user_example :
    Ends
      (λ r _. r ≡ ok (logged_in 9 dave))
      (authenticate ascii_lower plain_check (checking town) 9 (codes "dave") (codes "secret"))
      (add_user dave town)
unfolding strip
authenticate-add_user_example =
    authenticate-add_user ascii_lower plain plain_check (λ password. text_eq_refl password)
      (checking town) 4 9 (codes "dave") (codes "dave@example.org") (codes "dave") (codes "secret")
      none town refl dave_commits

made : 0 ≤ 100
made = omega arith

soon : 100 < 0 + 15 * 60
soon = omega arith

decode_access_token-create_access_token_example :
    decode_access_token plain_jwt plain_uuids 100 (create_access_token plain_jwt plain_uuids 15 0 4)
    ≡ ok 4
decode_access_token-create_access_token_example =
    decode_access_token-create_access_token plain_jwt plain_uuids plain_jwt-IsSigning
      plain_uuids-IsLawful 15 0 100 4 made soon

-- Alice's token, up to its 900th second
abbrev alice_header : Text
alice_header = codes "Bearer " ++ create_access_token plain_jwt plain_uuids 15 0 1

is_admitted : (auth_required ascii_lower plain_jwt plain_uuids 100 alice_header town).0 ≡ ok alice
unfolding strip auth_required create_access_token decode_access_token ◌>>=◌
is_admitted = refl

auth_required-Admits_example :
    Ends
      (λ r d'.
        Admits (account_of_header ascii_lower plain_jwt plain_uuids 100 alice_header town) r
        × (d' ≡ town))
      (auth_required ascii_lower plain_jwt plain_uuids 100 alice_header)
      town
auth_required-Admits_example =
    auth_required-Admits ascii_lower plain_jwt plain_uuids 100 alice_header town
