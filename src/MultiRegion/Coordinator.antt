-- ===== src/MultiRegion/Coordinator.antt =====
-- `MultiRegionCoordinator` of src/multi-region.js: one region's replicas, and what it hands to the
-- transport for its peers. `V` is the type of JSON values: session states, messages, geofence definitions
-- and config values. The clock and random tags are arguments.
pub mod Replication
pub mod Quorum
pub mod Incoming
pub mod Delivery
use real_time_spatial_tracki.Base.{
  ℕ, zero, suc, ◌+◌, ◌-◌, ◌/◌, Bool, true, false, not, List, [], ◌∷◌, ◌++◌, Option, none, some, Key,
  key, max, ltb, leb, if◌then◌else◌, length, or_default, filter,
}
use real_time_spatial_tracki.Base.Map
use real_time_spatial_tracki.Base.Map.{Map}
use real_time_spatial_tracki.Base.KeySet
use real_time_spatial_tracki.MultiRegion.Hlc
use real_time_spatial_tracki.MultiRegion.Hlc.{Stamp}
use real_time_spatial_tracki.MultiRegion.VectorClock.{VectorClock, vc_increment, vc_merge}
use real_time_spatial_tracki.MultiRegion.OrSet
use real_time_spatial_tracki.MultiRegion.OrSet.{OrSet}
use real_time_spatial_tracki.MultiRegion.Rga
use real_time_spatial_tracki.MultiRegion.Rga.{Node}
use real_time_spatial_tracki.MultiRegion.LwwMap
use real_time_spatial_tracki.MultiRegion.LwwMap.{Entry}
use real_time_spatial_tracki.MultiRegion.LwwElementSet
use real_time_spatial_tracki.MultiRegion.LwwElementSet.{FenceStamp, LwwElementSet}

-- An operation's type with its payload.
pub data Change (V : Type 0) : Type 0 where
  membership_add : Key → Key → Key → Change V
  membership_remove : Key → Key → List Key → Change V
  message_append : Key → Key → Option Key → V → Change V
  message_remove : Key → Key → Change V
  session_update : Key → V → Change V
  session_delete : Key → Change V
  geofence_upsert : Key → V → Stamp → Key → Change V
  geofence_remove : Key → Stamp → Key → Change V
  global_config : Key → V → Change V
  unknown : Change V

-- `ReplicationOp`. A vector clock that is missing stands as the empty one.
pub record Op (V : Type 0) : Type 0 where
  pub change : Change V
  pub vector_clock : VectorClock
  pub region_id : Key
  pub timestamp : ℕ
  pub hlc : Option Stamp
  pub residency : Option Key

pub record RoomReplica (V : Type 0) : Type 0 where
  pub membership : OrSet
  pub sequence : Map (Node V)

pub record Config : Type 0 where
  pub data_residency : Map (List Key)
  pub room_residency : Map Key
  pub quorum_size : Option ℕ
  pub lag_alert_ms : Option ℕ
  pub self_disabled : Bool

-- The counters, without the durations of merges.
pub record Metrics : Type 0 where
  pub replication_lag_ms : Map ℕ
  pub replication_conflicts_total : ℕ
  pub ops_replicated : ℕ
  pub ops_received : ℕ
  pub ops_filtered_residency : ℕ
  pub quorum_writes_total : ℕ
  pub quorum_write_failures_total : ℕ
  pub region_health : Map Bool

pub record Region (V : Type 0) : Type 0 where
  pub region_id : Key
  pub peer_regions : List Key
  pub has_transport : Bool
  pub config : Config
  pub hlc : Stamp
  pub vector_clock : VectorClock
  pub rooms : Map (RoomReplica V)
  pub sessions : Map (Entry V)
  pub geofences : LwwElementSet V
  pub failed_regions : List Key
  pub metrics : Metrics
  -- What was handed to the transport: the peer and the operation, oldest first.
  pub outbox : List (Key × Op V)

abbrev pub residency_global : Key
residency_global = key "global"

abbrev pub new_replica : {V : Type 0} → RoomReplica V
new_replica = record { membership = OrSet.empty; sequence = [] }

module _ {V : Type 0} where
  abbrev pub room_of : Key → Region V → RoomReplica V
  room_of r c = or_default (Map.get r c.rooms) new_replica

  -- `ensureRoom`: the room is there afterwards.
  unfoldable pub ensure_room : Key → Region V → Region V
  ensure_room r c =
      if Map.has r c.rooms then c else record c { rooms = Map.set r new_replica c.rooms }

  -- The room's set of members is changed in place.
  abbrev pub set_membership : Key → OrSet → Region V → Region V
  set_membership r s c = record c {
    rooms = Map.set r (record (room_of r c) { membership = s }) c.rooms;
  }

  abbrev pub set_sequence : Key → Map (Node V) → Region V → Region V
  set_sequence r nodes c = record c {
    rooms = Map.set r (record (room_of r c) { sequence = nodes }) c.rooms;
  }

  unfoldable pub get_room_members : Key → Region V → Region V × List Key
  unfolding ensure_room
  get_room_members r c = (ensure_room r c, OrSet.members (room_of r c).membership)

  unfoldable pub room_residency_zone : Key → Region V → Key
  room_residency_zone r c = or_default (Map.get r c.config.room_residency) residency_global

  unfoldable pub can_replicate_to : Key → Key → Region V → Bool
  can_replicate_to region zone c = elim (Map.get zone c.config.data_residency) [
    | none ↦ true
    | some policy ↦ KeySet.mem region policy
  ]

  unfoldable pub bump_vector_clock : Region V → Region V
  bump_vector_clock c = record c { vector_clock = vc_increment c.vector_clock c.region_id }

  abbrev pub op_of : ℕ → Change V → Option Stamp → Option Key → Region V → Op V
  op_of wall change hlc residency c = record {
    change = change;
    vector_clock = c.vector_clock;
    region_id = c.region_id;
    timestamp = wall;
    hlc = hlc;
    residency = residency;
  }

  -- The body of the loop of `replicate`.
  unfoldable pub offer : Op V → Key → Region V → Region V
  unfolding can_replicate_to
  offer op peer c =
      if KeySet.mem peer c.failed_regions
      then c
      else if can_replicate_to peer (or_default op.residency residency_global) c
      then record c {
        metrics = record c.metrics { ops_replicated = c.metrics.ops_replicated + 1 };
        outbox = c.outbox ++ (peer, op) ∷ [];
      }
      else record c {
        metrics = record c.metrics {
          ops_filtered_residency = c.metrics.ops_filtered_residency + 1;
        };
      }

  unfoldable pub fan_out : Op V → List Key → Region V → Region V
  unfolding offer
  fan_out op [] c = c
  fan_out op (peer ∷ peers) c = fan_out op peers (offer op peer c)

  unfoldable pub replicate : ℕ → Change V → Option Stamp → Option Key → Region V → Region V
  unfolding fan_out
  replicate wall change hlc residency c =
      if c.has_transport then fan_out (op_of wall change hlc residency c) c.peer_regions c else c

  abbrev pub zone_of : Option Key → Key → Region V → Key
  zone_of residency r c = or_default residency (room_residency_zone r c)

  -- The tag is made of the region's id, the time and random digits.
  unfoldable pub join_room : ℕ → Key → Key → Key → Option Key → Region V → Region V × Key
  unfolding ensure_room room_residency_zone replicate
  join_room wall nonce client r residency c =
      let room = ensure_room r c in
      let tag = c.region_id ++ key ":" ++ nonce in
      let joined = set_membership r (OrSet.add client tag (room_of r room).membership) room in
      (
        replicate wall (membership_add r client tag) none (some (zone_of residency r joined))
            joined,
        tag,
      )

  unfoldable pub leave_room : ℕ → Key → Key → Option Key → Region V → Region V × List Key
  unfolding ensure_room room_residency_zone replicate
  leave_room wall client r residency c =
      let room = ensure_room r c in
      let (members, tags) = OrSet.remove client (room_of r room).membership in
      let left = set_membership r members room in
      (
        if ltb 0 (length tags)
            then replicate wall (membership_remove r client tags) none
                (some (zone_of residency r left)) left
            else left,
        tags,
      )

  unfoldable pub save_session : ℕ → Key → V → Option Key → Region V → Region V
  unfolding bump_vector_clock replicate
  save_session wall client state residency c =
      let k = key "session:" ++ client in
      let bumped = bump_vector_clock c in
      replicate wall (session_update k state) none (some (or_default residency residency_global))
        (record bumped {
          sessions = LwwMap.set k state bumped.vector_clock bumped.region_id bumped.sessions;
        })

  abbrev memberships_in : Key → Map (RoomReplica V) → List Key
  memberships_in client [] = []
  memberships_in client ((r, room) ∷ rooms) =
      let rest = memberships_in client rooms in
      if OrSet.has client room.membership then r ∷ rest else rest

  -- `restoreSession`: the session and the rooms.
  unfoldable pub restore_session : Key → Region V → Option V × List Key
  restore_session client c =
      (LwwMap.get (key "session:" ++ client) c.sessions, memberships_in client c.rooms)
