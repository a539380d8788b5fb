-- ===== src/Rooms/Membership/Index.antt =====
-- The two indices of `RoomManager`, rooms to members and clients to rooms, agree.
pub mod Joining
pub mod Leaving
pub mod Departures
pub mod Renaming
use real_time_spatial_tracki.Base.{
  ℕ, ◌+◌, ◌-◌, ◌<◌, ◌≡◌, refl, Bool, true, false, List, [], ◌∷◌, Option, none, some, Key, key_dec,
  arith, length, or_default,
}
use real_time_spatial_tracki.Base.Map
use real_time_spatial_tracki.Base.Map.{Map, Distinct, sum_by}
use real_time_spatial_tracki.Base.KeySet
use real_time_spatial_tracki.Base.KeySet.{Unique}
use real_time_spatial_tracki.Rooms.{Manager}
use real_time_spatial_tracki.Rooms.Membership.{room, rooms_of}

-- A room that exists has distinct members, and at least one.
abbrev pub IsOccupied {ℓ} : {W : Type ℓ} → Option (Map W) → Type 0
IsOccupied none = Unit {0}
IsOccupied (some members) = Distinct members × (0 < length members)

-- The number of memberships.
unfoldable pub members_total {ℓ} : {W : Type ℓ} → Map (Map W) → ℕ
members_total rooms = sum_by length rooms

module _ {W P : Type 0} where
  -- The invariant of the membership: the indices agree, rooms exist while they have members, and
  -- `_totalMembers` counts the memberships.
  pub record IsValid (m : Manager W P) : Type 0 where
    pub agree : (c r : Key) → Map.has c (room r m) ≡ KeySet.mem r (rooms_of c m)
    pub distinct : Distinct m.rooms
    pub occupied : (r : Key) → IsOccupied (Map.get r m.rooms)
    pub unique : (c : Key) → Unique (rooms_of c m)
    pub total : m.total_members ≡ members_total m.rooms
