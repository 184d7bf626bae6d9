-- ===== src/Channels/Ownership/Edits.antt =====
-- Each write of the services to the tables of channels and memberships keeps one owner for each
-- channel.
use realynk.Base.{
  ℕ, ◌≡◌, Bool, true, false, some, arith, ◌==◌, All, All-map, All-delete_where_ne, All-update_where,
  any, List, [], ◌∷◌, count, find, delete_where, update_where, All-map₂, All-of_any-false,
  any_of_All-false, count_of_any-false,
}
use realynk.Models.{Db, Channel, ChannelMembership, ChannelRole, is_owner}
use realynk.Session.{}
use realynk.Session.Ends.{}
use realynk.Constraints.{Constraints}
use realynk.Channels.{ChannelUpdates, apply_updates, add_channel, add_membership, remove_channel}
use realynk.Channels.Membership.{delete_membership, set_role}
use realynk.Channels.Ownership.{
  HasOneOwner, HasOneOwner-cons, HasOneOwner-delete, HasOneOwner-set_role,
  HasOneOwner-delete_channel, IsOwned, IsSound, not_owning, is_owning,
}

-- A plain member is added.
pub IsOwned-add_member :
    (m : ChannelMembership) (d : Db)
    → is_owner m.role ≡ false
    → IsOwned d
    → All (λ ch. HasOneOwner (m ∷ d.memberships) ch.id ch.owner_id) d.channels
IsOwned-add_member m d r h =
    All-map (λ ch. HasOneOwner d.memberships ch.id ch.owner_id)
      (λ ch. HasOneOwner (m ∷ d.memberships) ch.id ch.owner_id) d.channels
      (λ ch. HasOneOwner-cons m d.memberships ch.id ch.owner_id (ground arith)) h

-- The members that an action leaves have one owner in each channel.
pub IsOwned-delete :
    (t : ChannelMembership) (p : ChannelMembership → Bool) (d : Db)
    → Constraints d
    → find p d.memberships ≡ some t
    → is_owner t.role ≡ false
    → IsOwned d
    → IsOwned (delete_membership t d)
IsOwned-delete t p d c f r h =
    All-map (λ ch. HasOneOwner d.memberships ch.id ch.owner_id)
      (λ ch. HasOneOwner (delete_where (λ m. m.id == t.id) d.memberships) ch.id ch.owner_id)
      d.channels
      (λ ch.
        HasOneOwner-delete d.memberships t ch.id ch.owner_id
          (not_owning d.memberships p t c.membership_ids f r))
      h

pub IsOwned-set_role :
    (t : ChannelMembership) (role : ChannelRole) (p : ChannelMembership → Bool) (d : Db)
    → is_owner role ≡ false
    → Constraints d
    → find p d.memberships ≡ some t
    → is_owner t.role ≡ false
    → IsOwned d
    → IsOwned (set_role t role d)
IsOwned-set_role t role p d plain c f r h =
    All-map (λ ch. HasOneOwner d.memberships ch.id ch.owner_id)
      (λ ch. HasOneOwner (set_role t role d).memberships ch.id ch.owner_id) d.channels
      (λ ch k.
        HasOneOwner-set_role d.memberships t ch.id ch.owner_id
          (not_owning d.memberships p t c.membership_ids f r) k role plain)
      h

apply_updates_keys :
    (u : ChannelUpdates) (c : Channel)
    → ((apply_updates u c).id ≡ c.id) × ((apply_updates u c).owner_id ≡ c.owner_id)
apply_updates_keys u c = ground arith

pub IsOwned-update :
    (u : ChannelUpdates) (id : ℕ) (d : Db)
    → IsOwned d
    → IsOwned (record d { channels = update_where (λ c. c.id == id) (apply_updates u) d.channels })
IsOwned-update u id d h =
    All-update_where (λ ch. HasOneOwner d.memberships ch.id ch.owner_id) (λ c. c.id == id)
      (apply_updates u) d.channels
      (λ ch _ k. rw ((apply_updates_keys u ch).0, (apply_updates_keys u ch).1) k) h

pub IsOwned-remove_channel : (gone : Channel) (d : Db) → IsOwned d → IsOwned (remove_channel gone d)
IsOwned-remove_channel gone d h =
    All-delete_where_ne (λ ch. HasOneOwner d.memberships ch.id ch.owner_id)
      (λ ch. HasOneOwner (remove_channel gone d).memberships ch.id ch.owner_id)
      (λ c. c.id == gone.id) d.channels
      (λ ch ne k. HasOneOwner-delete_channel d.memberships gone.id ch.id ch.owner_id ne k) h

-- No membership names a channel that does not exist yet.
no_member_of :
    (id k : ℕ) (cs : List Channel)
    → any (λ (c : Channel). id == c.id) cs ≡ false
    → any (λ (c : Channel). c.id == k) cs ≡ true
    → (k == id) ≡ false
no_member_of id k [] fresh known = ground arith
no_member_of id k (c ∷ cs) fresh known = ground (arith, no_member_of id k cs)

-- The creator of a new channel is its only owner, and the other channels keep theirs.
pub IsOwned-create :
    (ch : Channel) (m : ChannelMembership) (d : Db)
    → m.channel_id ≡ ch.id
    → m.user_id ≡ ch.owner_id
    → is_owner m.role ≡ true
    → any (λ (c : Channel). ch.id == c.id) d.channels ≡ false
    → IsSound d
    → IsOwned (add_membership m (add_channel ch d))
IsOwned-create ch m d at by own fresh sound = (
  record { present = ground arith; alone = ground (arith, none_before) },
  All-map₂ (λ c. (ch.id == c.id) ≡ false) (λ c. HasOneOwner d.memberships c.id c.owner_id)
      (λ c. HasOneOwner (m ∷ d.memberships) c.id c.owner_id) d.channels
      (λ c other k. HasOneOwner-cons m d.memberships c.id c.owner_id (ground arith) k)
      (All-of_any-false (λ c. ch.id == c.id) d.channels fresh) sound.owned,
)
  where
    none_before : count (is_owning ch.id) d.memberships ≡ 0
    none_before = count_of_any-false (is_owning ch.id) d.memberships (
        any_of_All-false (is_owning ch.id) d.memberships (
          All-map (λ x. any (λ c. c.id == x.channel_id) d.channels ≡ true)
            (λ x. is_owning ch.id x ≡ false) d.memberships
            (λ x known. ground (arith, no_member_of ch.id x.channel_id d.channels fresh known))
            sound.constraints.membership_channels))
