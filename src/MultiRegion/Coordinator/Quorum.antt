-- ===== src/MultiRegion/Coordinator/Quorum.antt =====
-- The writes of `MultiRegionCoordinator` that wait for a quorum, and the health of regions, in
-- src/multi-region.js. The peers' answers are an argument: whether a peer acknowledges.
pub mod Majority
use real_time_spatial_tracki.Base.{
  ℕ, zero, suc, ◌+◌, ◌/◌, Bool, true, false, not, List, [], ◌∷◌, ◌++◌, Option, none, some, Key, key,
  key_dec, ite, ltb, leb, if◌then◌else◌, length, or_default, filter, is_some,
}
use real_time_spatial_tracki.Base.Map
use real_time_spatial_tracki.Base.Map.{Map}
use real_time_spatial_tracki.Base.KeySet
use real_time_spatial_tracki.MultiRegion.Hlc
use real_time_spatial_tracki.MultiRegion.Hlc.{Stamp}
use real_time_spatial_tracki.MultiRegion.LwwMap
use real_time_spatial_tracki.MultiRegion.LwwElementSet
use real_time_spatial_tracki.MultiRegion.LwwElementSet.{FenceStamp, LwwElementSet}
use real_time_spatial_tracki.MultiRegion.Coordinator.{
  Change, geofence_upsert, geofence_remove, global_config, Op, Config, Region, op_of,
  bump_vector_clock, residency_global,
}

-- What the caller is told.
pub record Commit : Type 0 where
  pub committed : Bool
  pub acks : ℕ
  pub quorum : ℕ

-- What a transport does with a send: an acknowledgement, an answer without one, or a failure.
pub data Answer : Type 0 where
  ack no_ack thrown : Answer

abbrev pub acks_of : Answer → ℕ
acks_of ack = 1
acks_of no_ack = 0
acks_of thrown = 0

module _ {V : Type 0} where
  -- An override of 0 is none.
  unfoldable pub quorum_size : Region V → ℕ
  quorum_size c = elim (or_default c.config.quorum_size 0) [
    | zero ↦ (length c.peer_regions + 1) / 2 + 1
    | suc n ↦ suc n
  ]

  -- The sends, and the acknowledgements that they return. Without a transport every send throws.
  unfoldable pub send_all : (Key → Op V → Answer) → Op V → List Key → Region V → Region V × ℕ
  send_all transport op [] c = (c, 0)
  send_all transport op (peer ∷ peers) c =
      let next = record c { outbox = c.outbox ++ (peer, op) ∷ [] } in
      let sent = send_all transport op peers next in
      let skipped = send_all transport op peers c in
      if KeySet.mem peer c.failed_regions
      then skipped
      else if c.has_transport
      then (sent.0, acks_of (transport peer op) + sent.1)
      else skipped

  unfoldable pub quorum_replicate :
      (Key → Op V → Answer) → ℕ → Change V → Option Stamp → Region V → Region V × Commit
  unfolding quorum_size send_all
  quorum_replicate transport wall change hlc c =
      let counted = record c {
        metrics = record c.metrics { quorum_writes_total = c.metrics.quorum_writes_total + 1 };
      } in
      let op = op_of wall change hlc (some residency_global) c in
      let (after, peer_acks) = send_all transport op c.peer_regions counted in
      let acks = 1 + peer_acks in
      let quorum = quorum_size c in
      let committed = leb quorum acks in
      (
        if committed then after else record after {
          metrics = record after.metrics {
            quorum_write_failures_total = after.metrics.quorum_write_failures_total + 1;
          };
        },
        record { committed = committed; acks = acks; quorum = quorum },
      )

  unfoldable pub sync_geofence : (Key → Op V → Answer) → ℕ → Key → V → Region V → Region V × Commit
  unfolding bump_vector_clock quorum_replicate
  sync_geofence transport wall fence definition c =
      let hlc = Hlc.now wall c.hlc in
      let stamp : FenceStamp V = record {
        hlc = hlc;
        region_id = c.region_id;
        value = some definition;
      } in
      let stored = record c { hlc = hlc; geofences = LwwElementSet.add fence stamp c.geofences } in
      quorum_replicate transport wall (geofence_upsert fence definition hlc c.region_id) (some hlc)
        (bump_vector_clock stored)

  unfoldable pub remove_geofence : (Key → Op V → Answer) → ℕ → Key → Region V → Region V × Commit
  unfolding bump_vector_clock quorum_replicate
  remove_geofence transport wall fence c =
      let hlc = Hlc.now wall c.hlc in
      let stamp : FenceStamp V = record { hlc = hlc; region_id = c.region_id; value = none } in
      let removed = record c {
        hlc = hlc;
        geofences = LwwElementSet.remove fence stamp c.geofences;
      } in
      quorum_replicate transport wall (geofence_remove fence hlc c.region_id) (some hlc)
        (bump_vector_clock removed)

  unfoldable pub set_global_config :
      (Key → Op V → Answer) → ℕ → Key → V → Region V → Region V × Commit
  unfolding bump_vector_clock quorum_replicate
  set_global_config transport wall name value c =
      let k = key "global-config:" ++ name in
      let bumped = bump_vector_clock c in
      quorum_replicate transport wall (global_config k value) none (record bumped {
        sessions = LwwMap.set k value bumped.vector_clock bumped.region_id bumped.sessions;
      })

  unfoldable pub get_global_config : Key → Region V → Option V
  get_global_config name c = LwwMap.get (key "global-config:" ++ name) c.sessions

  abbrev listed : LwwElementSet V → List (Key × FenceStamp V) → List (Key × Option V)
  listed s [] = []
  listed s ((fence, stamp) ∷ adds) =
      let rest = listed s adds in
      if LwwElementSet.has fence s then (fence, LwwElementSet.get fence s) ∷ rest else rest

  unfoldable pub list_geofences : Region V → List (Key × Option V)
  list_geofences c = listed c.geofences c.geofences.adds

  unfoldable pub mark_region_failed : Key → Region V → Region V
  mark_region_failed region c = record c {
    failed_regions = KeySet.add region c.failed_regions;
    metrics = record c.metrics { region_health = Map.set region false c.metrics.region_health };
  }

  unfoldable pub mark_region_healthy : Key → Region V → Region V
  mark_region_healthy region c = record c {
    failed_regions = KeySet.delete region c.failed_regions;
    metrics = record c.metrics { region_health = Map.set region true c.metrics.region_health };
  }

  abbrev pub lag_key : Key → Region V → Key
  lag_key region c = region ++ (key "->" ++ c.region_id)

  unfoldable pub known_lag_from : Key → Region V → ℕ
  known_lag_from region c = or_default (Map.get (lag_key region c) c.metrics.replication_lag_ms) 0

  abbrev pub lag_alert_ms : Region V → ℕ
  lag_alert_ms c = or_default c.config.lag_alert_ms 5000

  unfoldable pub is_region_healthy : Key → Region V → Bool
  unfolding known_lag_from
  is_region_healthy region c = ite (key_dec region c.region_id) (not c.config.self_disabled) (
      if KeySet.mem region c.failed_regions
      then false
      else if ltb (lag_alert_ms c) (known_lag_from region c)
      then false
      else or_default (Map.get region c.metrics.region_health) true)
