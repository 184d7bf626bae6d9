-- ===== src/Channels/Ownership/Services.antt =====
-- Each service call that writes to channels or memberships keeps the database sound.
use realynk.Base.{ℕ, ◌≡◌, refl, Bool, false, Option, arith, Text}
use realynk.Models.{Db, Channel, ChannelMembership, ChannelRole, is_owner}
use realynk.Session.{Engine, Exn, RestoresOn, accepted, pure, commit_or, ◌>>◌}
use realynk.Session.Ends.{
  Ends, Ends-pure, Ends-raise_if, Ends-modify, Ends-commit, Ends-commit_or, Ends-gets, Ends-fetch,
  Ends-catch_fetch,
}
use realynk.Constraints.{Enforces}
use realynk.Channels.{ChannelUpdates, create_channel, update_channel, delete_channel, new_channel}
use realynk.Channels.Membership.{join_public, leave, add_member, remove_member, change_role}
use realynk.Channels.Ownership.{IsOwned, IsSound, IsSound-accepted, IsSound-rejected}
use realynk.Channels.Ownership.Edits.{
  IsOwned-add_member, IsOwned-delete, IsOwned-set_role, IsOwned-update, IsOwned-remove_channel,
  IsOwned-create,
}

module _ (engine : Engine) (enforces : Enforces engine) (d : Db) (restores : RestoresOn engine d)
    (sound : IsSound d) where
  settled :
      {A : Type 0} (e : Exn) (a : A) (p : Db)
      → (engine p ≡ accepted → IsOwned p)
      → Ends (λ _. IsSound) (commit_or engine e >> pure a) p
  settled e a p o =
      Ends-commit_or engine e _ p
        (λ acc. Ends-pure a p (IsSound-accepted engine enforces d restores sound p (o acc) acc))
        (IsSound-rejected engine enforces d restores sound p)

  settled_last : (e : Exn) (p : Db) → IsOwned p → Ends (λ _. IsSound) (commit_or engine e) p
  settled_last e p o =
      Ends-commit engine e p (IsSound-accepted engine enforces d restores sound p o)
        (IsSound-rejected engine enforces d restores sound p)

  pub join_public-IsSound :
      (id now : ℕ) (channel : Channel) (user_id : ℕ)
      → Ends (λ _. IsSound) (join_public engine id now channel user_id) d
  unfolding join_public
  join_public-IsSound id now channel user_id =
      Ends-raise_if _ _ _ d (λ _. sound)
        λ _. Ends-gets _ _ d (
          Ends-raise_if _ _ _ d (λ _. sound)
            λ _. Ends-modify _ _ d (settled _ _ _ λ _. IsOwned-add_member _ d refl sound.owned))

  pub leave-IsSound :
      (channel : Channel) (user_id : ℕ) → Ends (λ _. IsSound) (leave engine channel user_id) d
  unfolding leave
  leave-IsSound channel user_id =
      Ends-fetch _ _ _ d (λ _. sound)
        λ t f.
          Ends-raise_if _ _ _ d (λ _. sound)
            λ plain.
              Ends-modify _ _ d
                (settled_last _ _ (IsOwned-delete t _ d sound.constraints f plain sound.owned))

  pub add_member-IsSound :
      (id now : ℕ) (channel : Channel) (actor_id user_id : ℕ)
      → Ends (λ _. IsSound) (add_member engine id now channel actor_id user_id) d
  unfolding add_member
  add_member-IsSound id now channel actor_id user_id =
      Ends-fetch _ _ _ d (λ _. sound)
        λ actor _.
          Ends-raise_if _ _ _ d (λ _. sound)
            λ _.
              Ends-catch_fetch _ _ _ _ d (λ _. sound)
                λ _ _. Ends-gets _ _ d (
                  Ends-raise_if _ _ _ d (λ _. sound)
                    λ _.
                      Ends-modify _ _ d
                        (settled _ _ _ λ _. IsOwned-add_member _ d refl sound.owned))

  pub remove_member-IsSound :
      (channel : Channel) (actor_id user_id : ℕ)
      → Ends (λ _. IsSound) (remove_member engine channel actor_id user_id) d
  unfolding remove_member
  remove_member-IsSound channel actor_id user_id =
      Ends-fetch _ _ _ d (λ _. sound)
        λ actor _.
          Ends-fetch _ _ _ d (λ _. sound)
            λ t f.
              Ends-raise_if _ _ _ d (λ _. sound)
                λ allowed. Ends-modify _ _ d (
                  settled_last _ _
                    (IsOwned-delete t _ d sound.constraints f (ground arith) sound.owned))

  pub change_role-IsSound :
      (channel : Channel) (actor_id user_id : ℕ) (role : ChannelRole)
      → is_owner role ≡ false
      → Ends (λ _. IsSound) (change_role engine channel actor_id user_id role) d
  unfolding change_role
  change_role-IsSound channel actor_id user_id role plain =
      Ends-fetch _ _ _ d (λ _. sound)
        λ actor _.
          Ends-fetch _ _ _ d (λ _. sound)
            λ t f.
              Ends-raise_if _ _ _ d (λ _. sound)
                λ allowed. Ends-modify _ _ d (
                  settled _ _ _ λ _.
                    IsOwned-set_role t role _ d plain sound.constraints f (ground arith)
                      sound.owned)

  pub update_channel-IsSound :
      (channel : Channel) (membership : Option ChannelMembership) (updates : ChannelUpdates)
      → Ends (λ _. IsSound) (update_channel engine channel membership updates) d
  unfolding update_channel
  update_channel-IsSound channel membership updates =
      Ends-raise_if _ _ _ d (λ _. sound)
        λ _.
          Ends-raise_if _ _ _ d (λ _. sound)
            λ _.
              Ends-modify _ _ d (settled _ _ _ λ _. IsOwned-update updates channel.id d sound.owned)

  pub delete_channel-IsSound :
      (channel : Channel) (membership : Option ChannelMembership)
      → Ends (λ _. IsSound) (delete_channel engine channel membership) d
  unfolding delete_channel
  delete_channel-IsSound channel membership =
      Ends-raise_if _ _ _ d (λ _. sound)
        λ _. Ends-modify _ _ d (settled_last _ _ (IsOwned-remove_channel channel d sound.owned))

  pub create_channel-IsSound :
      (id mid now user_id : ℕ) (name : Text) (description : Option Text) (is_private : Bool)
      → Ends (λ _. IsSound) (create_channel engine id mid now user_id name description is_private) d
  unfolding create_channel
  create_channel-IsSound id mid now user_id name description is_private = Ends-modify _ _ d (
      Ends-modify _ _ _ (
        settled _ _ _ λ acc.
          IsOwned-create (new_channel id now user_id name description is_private) _ d refl refl refl
            (enforces _ acc).channel_ids.0 sound))
