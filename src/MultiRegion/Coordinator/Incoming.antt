-- ===== src/MultiRegion/Coordinator/Incoming.antt =====
-- `handlePeerOperation` and `mergeRemoteState` of `MultiRegionCoordinator` in src/multi-region.js.
use real_time_spatial_tracki.Base.{
  ℕ, ◌+◌, ◌-◌, Bool, true, false, List, [], ◌∷◌, Option, none, some, Key, max, or_default,
}
use real_time_spatial_tracki.Base.Map
use real_time_spatial_tracki.Base.Map.{Map}
use real_time_spatial_tracki.MultiRegion.Hlc
use real_time_spatial_tracki.MultiRegion.VectorClock.{VectorClock, vc_merge}
use real_time_spatial_tracki.MultiRegion.OrSet
use real_time_spatial_tracki.MultiRegion.OrSet.{OrSet}
use real_time_spatial_tracki.MultiRegion.Rga
use real_time_spatial_tracki.MultiRegion.Rga.{Node}
use real_time_spatial_tracki.MultiRegion.LwwMap
use real_time_spatial_tracki.MultiRegion.LwwMap.{Entry}
use real_time_spatial_tracki.MultiRegion.LwwElementSet
use real_time_spatial_tracki.MultiRegion.LwwElementSet.{FenceStamp, LwwElementSet}
use real_time_spatial_tracki.MultiRegion.Coordinator.{
  Change, membership_add, membership_remove, message_append, message_remove, session_update,
  session_delete, geofence_upsert, geofence_remove, global_config, unknown, Op, Region, room_of,
  ensure_room, set_membership, set_sequence,
}
use real_time_spatial_tracki.MultiRegion.Coordinator.Quorum.{lag_key}

-- What a peer's snapshot holds, as the types that `fromJSON` reads.
pub record Snapshot (V : Type 0) : Type 0 where
  pub rooms : List (Key × OrSet × List (Node V))
  pub sessions : Map (Entry V)
  pub geofences : LwwElementSet V
  pub vector_clock : VectorClock

module _ {V : Type 0} where
  -- The longest lag of each sender. A sender whose clock is ahead has none.
  unfoldable pub record_lag : ℕ → Op V → Region V → Region V
  record_lag wall op c =
      let k = lag_key op.region_id c in
      let lag = max (or_default (Map.get k c.metrics.replication_lag_ms) 0) (wall - op.timestamp) in
      elim op.region_id [
        | [] ↦ c
        | x ∷ xs ↦ record c {
          metrics = record c.metrics {
            replication_lag_ms = Map.set k lag c.metrics.replication_lag_ms;
          };
        }
      ]

  -- The clocks follow the sender's.
  unfoldable pub observe : ℕ → Op V → Region V → Region V
  observe wall op c = record c {
    hlc = elim op.hlc as (λ _. Hlc.Stamp) [
      | none ↦ c.hlc
      | some remote ↦ Hlc.receive wall remote c.hlc
    ];
    vector_clock = vc_merge c.vector_clock op.vector_clock;
  }

  -- The `switch`: `none` if the type is not known.
  unfoldable pub apply_change : Op V → Change V → Region V → Option (Region V)
  unfolding ensure_room
  apply_change op (membership_add r client tag) c =
      let room = ensure_room r c in
      some (set_membership r (OrSet.apply_add client tag (room_of r room).membership) room)
  apply_change op (membership_remove r client tags) c =
      let room = ensure_room r c in
      some (set_membership r (OrSet.apply_remove tags (room_of r room).membership) room)
  apply_change op (message_append r id origin_left value) c =
      let room = ensure_room r c in
      some (set_sequence r (Rga.insert id origin_left value false (room_of r room).sequence) room)
  apply_change op (message_remove r id) c =
      let room = ensure_room r c in
      some (set_sequence r (Rga.remove id (room_of r room).sequence).0 room)
  apply_change op (session_update k value) c =
      some (record c { sessions = LwwMap.set k value op.vector_clock op.region_id c.sessions })
  apply_change op (session_delete k) c =
      some (record c { sessions = LwwMap.delete k op.vector_clock op.region_id c.sessions })
  apply_change op (geofence_upsert fence definition hlc region) c =
      let stamp : FenceStamp V = record {
        hlc = hlc;
        region_id = region;
        value = some definition;
      } in
      some (record c { geofences = LwwElementSet.add fence stamp c.geofences })
  apply_change op (geofence_remove fence hlc region) c =
      let stamp : FenceStamp V = record { hlc = hlc; region_id = region; value = none } in
      some (record c { geofences = LwwElementSet.remove fence stamp c.geofences })
  apply_change op (global_config k value) c =
      some (record c { sessions = LwwMap.set k value op.vector_clock op.region_id c.sessions })
  apply_change op unknown c = none

  -- `handlePeerOperation`, with whether the operation was applied.
  unfoldable pub handle_peer_operation : ℕ → Op V → Region V → Region V × Bool
  unfolding record_lag observe apply_change
  handle_peer_operation wall op c =
      let observed = observe wall op (record_lag wall op c) in
      elim (apply_change op op.change observed) [
        | none ↦ (observed, false)
        | some next ↦ (
          record next {
            metrics = record next.metrics { ops_received = next.metrics.ops_received + 1 };
          },
          true,
        )
      ]

  unfoldable pub merge_rooms : List (Key × OrSet × List (Node V)) → Region V → Region V
  unfolding ensure_room
  merge_rooms [] c = c
  merge_rooms ((r, members, nodes) ∷ rooms) c =
      let room = ensure_room r c in
      let joined =
        set_membership r (OrSet.merge (room_of r room).membership (OrSet.from_json members)) room in
      merge_rooms rooms
        (set_sequence r (Rga.merge (room_of r joined).sequence (Rga.from_json [] nodes)) joined)

  -- `mergeRemoteState`, without the comparison of the serialised states that it returns.
  unfoldable pub merge_remote_state : Snapshot V → Region V → Region V
  unfolding merge_rooms
  merge_remote_state snap c =
      let rooms = merge_rooms snap.rooms c in
      let (sessions, conflicts) =
        LwwMap.merge rooms.sessions (LwwMap.from_json [] snap.sessions) 0 in
      record rooms {
        sessions = sessions;
        geofences = LwwElementSet.merge rooms.geofences (LwwElementSet.from_json snap.geofences);
        metrics = record rooms.metrics {
          replication_conflicts_total = rooms.metrics.replication_conflicts_total + conflicts;
        };
        vector_clock = vc_merge rooms.vector_clock snap.vector_clock;
      }
