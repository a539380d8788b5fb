-- ===== src/EventSourcing/Commands/Background.antt =====
-- The turns of the event loop in which the snapshots of the two repositories are written.
use real_time_spatial_tracki.Base.{subst, Bool, Option, none, some, Key, Option-cases, inl, inr}
use real_time_spatial_tracki.EventSourcing.Store.{EventStore}
use real_time_spatial_tracki.EventSourcing.Repository.{Repository, write_snapshot}
use real_time_spatial_tracki.EventSourcing.Repository.Snapshots.{IsConsistent}
use real_time_spatial_tracki.EventSourcing.Repository.Writing.{
  write_snapshot-IsConsistent, write_snapshot_shares,
}
use real_time_spatial_tracki.EventSourcing.Payload.{Payload}
use real_time_spatial_tracki.EventSourcing.Classes.{State, vehicle_class, room_class}
use real_time_spatial_tracki.EventSourcing.Commands.{
  World, write_vehicle_snapshot, write_room_snapshot,
}
use real_time_spatial_tracki.EventSourcing.Commands.Outcome.{
  AreSound, IsSound, IsVehicleId, IsRoomId,
}

-- No id is that of a client and of a room.
apart : (is_room : Key → Bool) (id : Key) → IsVehicleId is_room id → ¬ IsRoomId is_room id
apart is_room id h k = cc (h, k)

module _ {L F : Type 0} (is_room : Key → Bool) where
  AreSound-write :
      (repo : Repository (State L F)) (o : Option (Repository (State L F)))
      (store : EventStore (Payload L F) (State L F))
      → IsConsistent vehicle_class (IsVehicleId is_room) repo store
      → AreSound is_room o store
      → AreSound is_room o (write_snapshot repo store).1
  AreSound-write repo none store c k = tt
  AreSound-write repo (some its) store c k =
      write_snapshot_shares vehicle_class room_class (IsVehicleId is_room) (IsRoomId is_room) repo
        its store (apart is_room) c k

  -- The write of a vehicle's snapshot keeps both repositories consistent.
  pub write_vehicle_snapshot-IsSound :
      (w : World L F) → IsSound is_room w → IsSound is_room (write_vehicle_snapshot w)
  unfolding write_vehicle_snapshot
  write_vehicle_snapshot-IsSound w s = record {
    vehicles =
        write_snapshot-IsConsistent vehicle_class (IsVehicleId is_room) w.vehicles w.store
          s.vehicles;
    rooms = AreSound-write w.vehicles w.rooms_repo w.store s.vehicles s.rooms;
  }

  -- So does that of a room's.
  pub write_room_snapshot-IsSound :
      (w : World L F) → IsSound is_room w → IsSound is_room (write_room_snapshot w)
  unfolding write_room_snapshot
  write_room_snapshot-IsSound w s = elim (Option-cases w.rooms_repo) [
    | inl e ↦ rw (write_room_snapshot, e) s
    | inr (repo, e) ↦
        let c = subst (λ o. AreSound is_room o w.store) e s.rooms in
        rw (write_room_snapshot, e)
          (record {
            vehicles =
                write_snapshot_shares room_class vehicle_class (IsRoomId is_room)
                  (IsVehicleId is_room) repo w.vehicles w.store (λ id h k. apart is_room id k h) c
                  s.vehicles;
            rooms = write_snapshot-IsConsistent room_class (IsRoomId is_room) repo w.store c;
          })
  ]
