-- ===== src/Tests/SocketTests.antt =====
-- Alice connects with her token.
use realynk.Base.{
  ◌≡◌, refl, true, none, some, Option, Text, codes, List, [], ◌∷◌, ◌++◌, contains, strip,
}
use realynk.Base.Dict.{lookup, dict_tests}
use realynk.Models.{}
use realynk.Auth.{create_access_token, decode_access_token}
use realynk.Presence.Manager.{register, sockets, is_online, socket_ids_for_users}
use realynk.Presence.Manager.Invariant.{IsValid}
use realynk.Presence.Manager.History.{Event, connect, run, run-Tracks}
use realynk.Presence.Service.{recipient_socket_ids, may_see, recipient_socket_ids-may_see}
use realynk.Presence.Typing.{init}
use realynk.Presence.Visibility.{shared_observer_ids}
use realynk.Sockets.{Server}
use realynk.Sockets.Connection.{token_of, admit, handle_connect}
use realynk.Sockets.Connecting.{ConnectOutcome, account_for, handle_connect-ConnectOutcome}
use realynk.Tests.Scenario.{town}
use realynk.Tests.Platforms.{plain_jwt, plain_uuids}

-- Bob holds socket 5, and Carol socket 6.
abbrev before : List Event
before = connect 3 6 ∷ connect 2 5 ∷ []

before-IsValid : IsValid (run before)
before-IsValid = (run-Tracks before (refl, (refl, tt))).valid

-- Bob shares the lobby with Alice, and Carol does not.
alice_is_seen_by_bob : recipient_socket_ids 1 (run before) town ≡ 5 ∷ []
unfolding recipient_socket_ids shared_observer_ids socket_ids_for_users sockets is_online run
    register dict_tests
alice_is_seen_by_bob = refl

recipient_socket_ids-may_see_example :
    contains 6 (recipient_socket_ids 1 (run before) town)
    ≡ may_see (lookup 6 (run before).socket_users) 1 town
recipient_socket_ids-may_see_example =
    recipient_socket_ids-may_see 6 1 (run before) town before-IsValid

abbrev server : Server
server = record { presence = run before; typing = init }

abbrev auth : Option Text
auth = some (codes "Bearer " ++ create_access_token plain_jwt plain_uuids 15 0 1)

fresh_socket : lookup 7 (run before).socket_users ≡ none
unfolding run register dict_tests
fresh_socket = refl

is_accepted : (handle_connect plain_jwt plain_uuids 100 7 auth server town).0 ≡ true
unfolding handle_connect create_access_token decode_access_token strip admit
is_accepted = refl

handle_connect-ConnectOutcome_example :
    ConnectOutcome
      (account_for plain_jwt plain_uuids 100 (token_of auth) town)
      7
      server
      town
      (handle_connect plain_jwt plain_uuids 100 7 auth server town)
handle_connect-ConnectOutcome_example =
    handle_connect-ConnectOutcome plain_jwt plain_uuids 100 7 auth server town before-IsValid
      fresh_socket
