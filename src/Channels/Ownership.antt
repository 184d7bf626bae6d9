-- ===== src/Channels/Ownership.antt =====
-- Every channel has exactly one member with the role of owner, and that member is the user whom
-- the channel names as its owner.
pub mod Edits
pub mod Services
pub mod Requests
use realynk.Base.{
  ℕ, ◌≡◌, sym, ap, subst, ◌∙◌, Bool, true, false, ◌&&◌, some, List, ◌∷◌, arith, ◌==◌, any, count,
  All, All-of, find, delete_where, update_where, Unique, Unique-find, All-map, any-delete_where,
  count-delete_where, any-update_where, count-update_where,
}
use realynk.Models.{Db, ChannelMembership, ChannelRole, is_owner}
use realynk.Session.{Engine, accepted, rejected, RestoresOn}
use realynk.Constraints.{Constraints, Enforces}

-- the owner's own membership
abbrev is_owner_row : ℕ → ℕ → ChannelMembership → Bool
is_owner_row id owner_id m = (m.channel_id == id) && (m.user_id == owner_id) && is_owner m.role

-- a membership of the channel with the role of owner
abbrev is_owning : ℕ → ChannelMembership → Bool
is_owning id m = (m.channel_id == id) && is_owner m.role

pub record HasOneOwner (ms : List ChannelMembership) (id owner_id : ℕ) : Type 0 where
  pub present : any (is_owner_row id owner_id) ms ≡ true
  pub alone : count (is_owning id) ms ≡ 1

abbrev pub IsOwned : Db → Type 0
IsOwned d = All (λ ch. HasOneOwner d.memberships ch.id ch.owner_id) d.channels

-- The declared constraints, and one owner for each channel.
pub record IsSound (d : Db) : Type 0 where
  pub constraints : Constraints d
  pub owned : IsOwned d

-- A new row that makes nobody an owner of the channel changes no ownership of it.
pub HasOneOwner-cons :
    (m : ChannelMembership) (ms : List ChannelMembership) (id owner_id : ℕ)
    → is_owning id m ≡ false
    → HasOneOwner ms id owner_id
    → HasOneOwner (m ∷ ms) id owner_id
HasOneOwner-cons m ms id owner_id r h = record { present = ground arith; alone = ground arith }

-- Nor does the deletion of another channel's memberships.
pub HasOneOwner-delete_channel :
    (ms : List ChannelMembership) (gone id owner_id : ℕ)
    → (id == gone) ≡ false
    → HasOneOwner ms id owner_id
    → HasOneOwner (delete_where (λ m. m.channel_id == gone) ms) id owner_id
HasOneOwner-delete_channel ms gone id owner_id ne h = record {
  present =
      any-delete_where (is_owner_row id owner_id) (λ m. m.channel_id == gone) ms
        (All-of (λ x. is_owner_row id owner_id x ≡ true → (x.channel_id == gone) ≡ false) ms
          (λ x p. ground arith))
      ∙ h.present;
  alone =
      count-delete_where (is_owning id) (λ m. m.channel_id == gone) ms
        (All-of (λ x. is_owning id x ≡ true → (x.channel_id == gone) ≡ false) ms
          (λ x p. ground arith))
      ∙ h.alone;
}

-- A row with the key of a membership that is not an owner's is no owner's.
pub not_owning :
    (ms : List ChannelMembership) (p : ChannelMembership → Bool) (t : ChannelMembership)
    → Unique (λ a b. a.id == b.id) ms
    → find p ms ≡ some t
    → is_owner t.role ≡ false
    → All (λ x. (x.id == t.id) ≡ true → is_owner x.role ≡ false) ms
not_owning ms p t u e r =
    All-map (λ x. (x.id == t.id) ≡ true → x ≡ t)
      (λ x. (x.id == t.id) ≡ true → is_owner x.role ≡ false) ms
      (λ x only same. ap (λ (y : ChannelMembership). is_owner y.role) (only same) ∙ r)
      (Unique-find (λ a b. a.id == b.id) p ms t (λ x y. ground arith) u e)

module _ (ms : List ChannelMembership) (t : ChannelMembership) (id owner_id : ℕ)
    (plain : All (λ x. (x.id == t.id) ≡ true → is_owner x.role ≡ false) ms)
    (h : HasOneOwner ms id owner_id) where
  -- Deleting a membership that is not an owner's keeps the owner.
  pub HasOneOwner-delete : HasOneOwner (delete_where (λ m. m.id == t.id) ms) id owner_id
  HasOneOwner-delete = record {
    present =
        any-delete_where (is_owner_row id owner_id) (λ m. m.id == t.id) ms
          (All-map (λ x. (x.id == t.id) ≡ true → is_owner x.role ≡ false)
            (λ x. is_owner_row id owner_id x ≡ true → (x.id == t.id) ≡ false) ms
            (λ x k q. ground arith) plain)
        ∙ h.present;
    alone =
        count-delete_where (is_owning id) (λ m. m.id == t.id) ms
          (All-map (λ x. (x.id == t.id) ≡ true → is_owner x.role ≡ false)
            (λ x. is_owning id x ≡ true → (x.id == t.id) ≡ false) ms (λ x k q. ground arith) plain)
        ∙ h.alone;
  }

  -- So does giving it another role than owner.
  pub HasOneOwner-set_role :
      (role : ChannelRole)
      → is_owner role ≡ false
      → HasOneOwner
          (update_where (λ m. m.id == t.id) (λ m. record m { role = role }) ms)
          id
          owner_id
  HasOneOwner-set_role role r = record {
    present =
        any-update_where (is_owner_row id owner_id) (λ m. m.id == t.id)
          (λ m. record m { role = role }) ms
          (All-map (λ x. (x.id == t.id) ≡ true → is_owner x.role ≡ false)
            (λ x.
              (x.id == t.id) ≡ true
              → is_owner_row id owner_id (record x { role = role }) ≡ is_owner_row id owner_id x)
            ms (λ x k q. ground arith) plain)
        ∙ h.present;
    alone =
        count-update_where (is_owning id) (λ m. m.id == t.id) (λ m. record m { role = role }) ms
          (All-map (λ x. (x.id == t.id) ≡ true → is_owner x.role ≡ false)
            (λ x. (x.id == t.id) ≡ true → is_owning id (record x { role = role }) ≡ is_owning id x)
            ms (λ x k q. ground arith) plain)
        ∙ h.alone;
  }

-- After a commit the state is sound: an accepted state keeps the constraints, and a rejection
-- leads back to the state before.
module _ (engine : Engine) (enforces : Enforces engine) (d : Db) (restores : RestoresOn engine d)
    (sound : IsSound d) where
  pub IsSound-accepted : (p : Db) → IsOwned p → engine p ≡ accepted → IsSound p
  IsSound-accepted p o e = record { constraints = enforces p e; owned = o }

  pub IsSound-rejected : (p d' : Db) → engine p ≡ rejected d' → IsSound d'
  IsSound-rejected p d' e = subst IsSound (sym (restores p d' e)) sound
