-- ===== src/Tests/ModerationTests.antt =====
-- The moderation theorems at work: Alice moderates Bob.
use realynk.Base.{
  Text, codes, ◌++◌, strip, partition_space, ◌≡◌, refl, true, false, none, some, arith,
}
use realynk.Models.{ActionKind}
use realynk.Session.{ok, is_ok, ◌>>=◌}
use realynk.Session.Ends.{Ends}
use realynk.Constraints.Checked.{checking, checking-Enforces, checking-RestoresOn}
use realynk.Auth.{is_unauthenticated, create_access_token, decode_access_token}
use realynk.Tests.Platforms.{ascii_lower, plain_jwt, plain_uuids}
use realynk.Channels.Ownership.{IsSound}
use realynk.Moderation.{authorize, suspend_user, ban_user, suspended, banned, expiry}
use realynk.Moderation.Actions.{Outcome, suspend_user-Imposed, ban_user-Imposed}
use realynk.Moderation.Authority.{MayModerate}
use realynk.Moderation.Restrictions.{LockedOut, suspend_user-LockedOut, MayModerate-asym}
use realynk.Moderation.Content.{remove_channel_member, moderate_message}
use realynk.Moderation.Removals.{remove_channel_member-IsSound, moderate_message-fails}
use realynk.Tests.Scenario.{alice, bob, hello, town}
use realynk.Tests.ChannelTests.{town-IsSound}

suspend_user-Imposed_example :
    Ends
      (Outcome ActionKind.user_suspend
        (suspended 8 (expiry 8 (some 60)))
        (expiry 8 (some 60))
        7
        alice
        2
        town)
      (suspend_user (checking town) 900 7 8 alice 2 none (some 60))
      town
suspend_user-Imposed_example =
    suspend_user-Imposed (checking town) town (checking-RestoresOn town) 900 7 8 alice 2 none
      (some 60)

suspends : is_ok (suspend_user (checking town) 900 7 8 alice 2 none (some 60) town).0 ≡ true
unfolding suspend_user authorize checking ◌>>=◌
suspends = refl

ban_user-Imposed_example :
    Ends
      (Outcome ActionKind.user_ban (banned 8) none 7 alice 2 town)
      (ban_user (checking town) 902 7 8 alice 2 none (some 60))
      town
ban_user-Imposed_example =
    ban_user-Imposed (checking town) town (checking-RestoresOn town) 902 7 8 alice 2 none (some 60)

-- Bob's request at second 20
abbrev bob_header : Text
bob_header = codes "Bearer " ++ create_access_token plain_jwt plain_uuids 15 0 2

bob_scheme : is_unauthenticated ascii_lower bob_header ≡ false
unfolding strip create_access_token
bob_scheme = refl

bob_token :
    decode_access_token plain_jwt plain_uuids 20 (strip (partition_space bob_header).1) ≡ ok 2
unfolding strip create_access_token decode_access_token
bob_token = refl

suspend_user-LockedOut_example :
    Ends
      (LockedOut ascii_lower plain_jwt plain_uuids 20 bob_header 2 bob_scheme bob_token 8
        (some 60)
        town)
      (suspend_user (checking town) 900 7 8 alice 2 none (some 60))
      town
suspend_user-LockedOut_example =
    suspend_user-LockedOut ascii_lower plain_jwt plain_uuids 20 bob_header 2 bob_scheme bob_token
      (checking town) 900 7 8 alice none (some 60) town (checking-RestoresOn town)

alice-MayModerate : MayModerate 7 alice bob
alice-MayModerate = record {
  unrestricted = refl;
  level = omega arith;
  other = ground arith;
  above = omega arith;
}

MayModerate-asym_example : ¬ MayModerate 9 bob alice
MayModerate-asym_example = MayModerate-asym 7 9 alice bob alice-MayModerate

remove_channel_member-IsSound_example :
    Ends (λ _. IsSound) (remove_channel_member (checking town) 904 7 alice 10 2 none) town
remove_channel_member-IsSound_example =
    remove_channel_member-IsSound (checking town) (checking-Enforces town) town
      (checking-RestoresOn town) town-IsSound 904 7 alice 10 2 none

moderate_message-fails_example :
    Ends
      (λ r d'. (is_ok r ≡ false) × (d' ≡ town))
      (moderate_message (checking town) 905 7 8 alice 30 none)
      town
moderate_message-fails_example =
    moderate_message-fails (checking town) (checking-Enforces town) town (checking-RestoresOn town)
      905 7 8 alice 30 none hello refl refl
