-- ===== src/Rooms/Statistics.antt =====
-- What src/room-manager.js reports: `getRoomSeq`, `getRingBuffer`, `getRoomStats` and `stats`.
use real_time_spatial_tracki.Base.{
  ℕ, ◌≡◌, refl, Bool, List, [], ◌∷◌, Option, none, some, Key, if◌then◌else◌, length, arith, ◌&&◌,
  ◌||◌, inl, inr, Option-cases,
}
use real_time_spatial_tracki.Base.Map
use real_time_spatial_tracki.Base.Map.{Map}
use real_time_spatial_tracki.Base.KeySet
use real_time_spatial_tracki.Rooms.{Entry, Manager}
use real_time_spatial_tracki.Rooms.Membership.{room}
use real_time_spatial_tracki.Rooms.Delivery.{seq_of, buffer_of}
use real_time_spatial_tracki.Rooms.Backpressure.{is_slow}

-- A room's statistics: its members, the depth of each member's send queue, and the slow members.
pub record RoomStats : Type 0 where
  pub member_count : ℕ
  pub send_queue_depths : Map ℕ
  pub slow_consumers : List Key

pub record Stats : Type 0 where
  pub room_count : ℕ
  pub client_count : ℕ
  pub total_members : ℕ
  pub breaker_open : Bool

module _ {W P : Type 0} where
  unfoldable pub get_room_seq : Option Key → Manager W P → Option ℕ
  get_room_seq none m = none
  get_room_seq (some r) m = some (seq_of r m)

  unfoldable pub get_ring_buffer : Option Key → Manager W P → Option (List (Entry P))
  get_ring_buffer none m = none
  get_ring_buffer (some r) m = some (buffer_of r m)

  -- The loop over the members, with backpressure.
  unfoldable pub queue_stats : (W → Bool) → (W → ℕ) → Map W → Manager W P → RoomStats → RoomStats
  queue_stats is_open buffered [] m s = s
  queue_stats is_open buffered ((c, ws) ∷ members) m s =
      let rest = queue_stats is_open buffered members m s in
      record rest {
        send_queue_depths = (c, if is_open ws then buffered ws else 0) ∷ rest.send_queue_depths;
        slow_consumers =
            if is_slow (Map.get c m.client_state)
            then c ∷ rest.slow_consumers
            else rest.slow_consumers;
      }

  unfoldable pub room_stats : (W → Bool) → (W → ℕ) → Key → Manager W P → RoomStats
  unfolding queue_stats
  room_stats is_open buffered r m = elim (Map.get r m.rooms) [
    | none ↦ record { member_count = 0; send_queue_depths = []; slow_consumers = [] }
    | some members ↦
        let counted : RoomStats = record {
          member_count = length members;
          send_queue_depths = [];
          slow_consumers = [];
        } in
        if m.config.backpressure then queue_stats is_open buffered members m counted else counted
  ]

  unfoldable pub get_room_stats : (W → Bool) → (W → ℕ) → Option Key → Manager W P → Option RoomStats
  unfolding room_stats
  get_room_stats is_open buffered none m = none
  get_room_stats is_open buffered (some r) m = some (room_stats is_open buffered r m)

  unfoldable pub stats : Manager W P → Stats
  stats m = record {
    room_count = length m.rooms;
    client_count = length m.client_rooms;
    total_members = m.total_members;
    breaker_open = m.breaker_open;
  }

  mem-slow :
      (is_open : W → Bool) (buffered : W → ℕ) (c : Key) (members : Map W) (m : Manager W P)
      (s : RoomStats)
      → KeySet.mem c (queue_stats is_open buffered members m s).slow_consumers ≡ (
          (Map.has c members && is_slow (Map.get c m.client_state))
          || KeySet.mem c s.slow_consumers)
  unfolding queue_stats Map.get KeySet.mem
  mem-slow is_open buffered c [] m s = refl
  mem-slow is_open buffered c ((d, ws) ∷ members) m s =
      ground (arith, mem-slow is_open buffered c members m s)

  -- The slow consumers of a room are exactly its members that are marked slow, and none without
  -- backpressure.
  pub slow_consumers_lem :
      (is_open : W → Bool) (buffered : W → ℕ) (c r : Key) (m : Manager W P)
      → KeySet.mem c (room_stats is_open buffered r m).slow_consumers
        ≡ (m.config.backpressure && (Map.has c (room r m) && is_slow (Map.get c m.client_state)))
  unfolding room_stats Map.get KeySet.mem
  slow_consumers_lem is_open buffered c r m = elim (Option-cases (Map.get r m.rooms)) [
    | inl e ↦ ground arith
    | inr (members, e) ↦ ground (
      arith,
      mem-slow is_open buffered c members m
          (record { member_count = length members; send_queue_depths = []; slow_consumers = [] }),
    )
  ]
