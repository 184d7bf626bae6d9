-- ===== src/Channels/Ownership/Requests.antt =====
-- Whatever requests the channel routes serve, each channel keeps exactly one owner.
use realynk.Base.{◌≡◌, false, not, arith}
use realynk.Models.{Db, ChannelRole, is_owner}
use realynk.Session.{Engine, RestoresOn}
use realynk.Session.Ends.{Ends-fetch, Ends-raise_if}
use realynk.Constraints.{Enforces}
use realynk.Channels.Lookup.{Ends-get_channel_for_user}
use realynk.Channels.Routes.{
  ChannelRequest, create, update, delete, join, quit, add, set_role, remove, serve, is_valid_role,
  update_channel_route, delete_channel_route, join_channel_route, leave_channel_route,
  add_member_route, update_member_role_route, remove_member_route,
}
use realynk.Channels.Ownership.{IsSound}
use realynk.Channels.Ownership.Services.{
  join_public-IsSound, leave-IsSound, add_member-IsSound, remove_member-IsSound,
  change_role-IsSound, update_channel-IsSound, delete_channel-IsSound, create_channel-IsSound,
}

plain_role : (role : ChannelRole) → not (is_valid_role role) ≡ false → is_owner role ≡ false
plain_role role h = ground arith

-- One request, served or refused, keeps the database sound.
serve-IsSound :
    (engine : Engine) (r : ChannelRequest) (d : Db)
    → Enforces engine
    → RestoresOn engine d
    → IsSound d
    → IsSound (serve engine r d)
unfolding serve update_channel_route delete_channel_route join_channel_route leave_channel_route
    add_member_route update_member_role_route remove_member_route
serve-IsSound engine (create id mid now user_id name description is_private) d e r s =
    (create_channel-IsSound engine e d r s id mid now user_id name description is_private).at
serve-IsSound engine (update channel_id user_id updates) d e r s =
    (Ends-get_channel_for_user channel_id user_id _ d s λ c _ _.
      Ends-raise_if _ _ _ d (λ _. s) λ _. update_channel-IsSound engine e d r s c _ updates).at
serve-IsSound engine (delete channel_id user_id) d e r s =
    (Ends-get_channel_for_user channel_id user_id _ d s
      λ c _ _. delete_channel-IsSound engine e d r s c _).at
serve-IsSound engine (join id now channel_id user_id) d e r s =
    (Ends-fetch _ _ _ d (λ _. s) λ c _. join_public-IsSound engine e d r s id now c user_id).at
serve-IsSound engine (quit channel_id user_id) d e r s =
    (Ends-fetch _ _ _ d (λ _. s) λ c _. leave-IsSound engine e d r s c user_id).at
serve-IsSound engine (add id now channel_id actor_id user_id) d e r s =
    (Ends-fetch _ _ _ d (λ _. s)
      λ c _. add_member-IsSound engine e d r s id now c actor_id user_id).at
serve-IsSound engine (set_role channel_id actor_id target_id role) d e r s =
    (Ends-raise_if _ _ _ d (λ _. s)
      λ valid.
        Ends-fetch _ _ _ d (λ _. s)
          λ c _.
            change_role-IsSound engine e d r s c actor_id target_id role (plain_role role valid)).at
serve-IsSound engine (remove channel_id actor_id target_id) d e r s =
    (Ends-fetch _ _ _ d (λ _. s)
      λ c _. remove_member-IsSound engine e d r s c actor_id target_id).at

-- The states that a series of requests can lead to. Each request meets its own database, which
-- enforces the constraints and, on a rejection, restores the state before the request.
pub data Reach (s : Db) : Db → Type 0 where
  here : Reach s s
  next :
      {d : Db}
      → Reach s d
      → (engine : Engine) → Enforces engine
      → RestoresOn engine d
      → (r : ChannelRequest) → Reach s (serve engine r d)

-- From a sound database, after any series of requests to the channel routes, every channel still
-- has exactly one membership with the role of owner, that of the user it names as owner, and the
-- declared constraints hold.
pub Reach-IsSound : {s d : Db} → IsSound s → Reach s d → IsSound d
Reach-IsSound h here = h
Reach-IsSound h (next {d} reached engine e r request) =
    serve-IsSound engine request d e r (Reach-IsSound h reached)
