-- ===== src/Tests/ChannelTests.antt =====
-- The channel theorems at work.
use realynk.Base.{◌≡◌, refl, length}
use realynk.Models.{Db, ChannelRole}
use realynk.Session.{◌>>=◌}
use realynk.Constraints.Checked.{
  holds, holds-Constraints, checking, checking-Enforces, checking-RestoresOn,
}
use realynk.Channels.Membership.{join_public}
use realynk.Channels.Routes.{serve, join, set_role, join_channel_route}
use realynk.Channels.Ownership.{IsSound}
use realynk.Channels.Ownership.Requests.{here, next, Reach-IsSound}
use realynk.Tests.Scenario.{town}

pub town-IsSound : IsSound town
unfolding holds
town-IsSound = record {
  constraints = holds-Constraints town refl;
  owned = (record { present = refl; alone = refl }, tt);
}

-- Carol joins the lobby, and Alice makes her an admin of it.
abbrev joined : Db
joined = serve (checking town) (join 102 7 10 3) town

joined_members : length joined.memberships ≡ 3
unfolding serve join_channel_route join_public checking ◌>>=◌
joined_members = refl

abbrev promoted : Db
promoted = serve (checking joined) (set_role 10 1 3 ChannelRole.admin) joined

Reach-IsSound_example : IsSound promoted
Reach-IsSound_example = Reach-IsSound town-IsSound (
    next
      (next here (checking town) (checking-Enforces town) (checking-RestoresOn town)
        (join 102 7 10 3))
      (checking joined) (checking-Enforces joined) (checking-RestoresOn joined)
      (set_role 10 1 3 ChannelRole.admin))
