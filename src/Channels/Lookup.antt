-- ===== src/Channels/Lookup.antt =====
-- The look-up that the services and routes make first: a channel that the user may see.
use realynk.Base.{ℕ, ◌≡◌, not, false, Option, some}
use realynk.Models.{Db, Channel, ChannelMembership}
use realynk.Session.{Action, Result, err, channel_error, channel_not_found, ◌>>=◌}
use realynk.Session.Ends.{Ends, Ends-fetch, Ends-raise_if, Ends-gets, Ends-pure_bind, Ends-assoc}
use realynk.Permissions.ChannelRules.{can_view_channel}
use realynk.Repositories.{get_channel, get_membership}
use realynk.Channels.{get_channel_for_user}

-- A call that first looks the channel up for the user.
pub Ends-get_channel_for_user :
    {B : Type 0} {Q : Result B → Db → Type 0} (channel_id user_id : ℕ)
    (f : Channel × Option ChannelMembership → Action B) (d : Db)
    → Q (err (channel_error channel_not_found 404)) d
    → ((c : Channel)
        → get_channel channel_id d ≡ some c
        → not (can_view_channel c (get_membership channel_id user_id d)) ≡ false
        → Ends Q (f (c, get_membership channel_id user_id d)) d)
    → Ends Q (get_channel_for_user channel_id user_id >>= f) d
unfolding get_channel_for_user
Ends-get_channel_for_user channel_id user_id f d stop go = Ends-assoc _ _ _ d (
    Ends-fetch _ _ _ d (λ _. stop)
      λ c found. Ends-assoc _ _ _ d (
        Ends-gets _ _ d (
          Ends-assoc _ _ _ d
            (Ends-raise_if _ _ _ d (λ _. stop) λ seen. Ends-pure_bind _ _ d (go c found seen)))))
