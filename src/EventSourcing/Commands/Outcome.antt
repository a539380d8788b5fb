-- ===== src/EventSourcing/Commands/Outcome.antt =====
-- What the handlers leave behind: both repositories consistent over their one store, and in what is
-- loaded afterwards that which the command asked for.
use real_time_spatial_tracki.Base.{
  ◌≡◌, refl, ◌∙◌, Bool, true, false, [], ◌∷◌, Option, none, some, Key,
}
use real_time_spatial_tracki.EventSourcing.{Result, ok, failed}
use real_time_spatial_tracki.EventSourcing.Store.{EventStore, events_of}
use real_time_spatial_tracki.EventSourcing.Aggregate.Replay.{replay}
use real_time_spatial_tracki.EventSourcing.Repository.{Repository, save}
use real_time_spatial_tracki.EventSourcing.Repository.Snapshots.{IsConsistent, get_lem}
use real_time_spatial_tracki.EventSourcing.Payload.{Payload, Draw, require_aggregate_id}
use real_time_spatial_tracki.EventSourcing.Classes.{Vehicle, State, vehicle_class, room_class}
use real_time_spatial_tracki.EventSourcing.Commands.{
  Command, World, VehicleAggregate, Handled, get_vehicle, save_vehicle,
}
use real_time_spatial_tracki.EventSourcing.Commands.Consistency.{
  IsReady, IfOk, get-IsAt, save-IsConsistent, save_keeps, save_stands,
}

pub IfOk-map : {A P Q : Type 0} (r : Result A) → (P → Q) → IfOk r P → IfOk r Q
IfOk-map (ok x) f h = f h
IfOk-map (failed e) f h = tt

abbrev pub IsVehicleId : (Key → Bool) → Key → Type 0
IsVehicleId is_room id = is_room id ≡ false

abbrev pub IsRoomId : (Key → Bool) → Key → Type 0
IsRoomId is_room id = is_room id ≡ true

module _ {L F : Type 0} (is_room : Key → Bool) where
  abbrev pub AreSound :
      Option (Repository (State L F)) → EventStore (Payload L F) (State L F) → Type 0
  AreSound none store = Unit {0}
  AreSound (some repo) store = IsConsistent room_class (IsRoomId is_room) repo store

  -- Each repository is consistent for the ids of its kind.
  pub record IsSound (w : World L F) : Type 0 where
    pub vehicles : IsConsistent vehicle_class (IsVehicleId is_room) w.vehicles w.store
    pub rooms : AreSound w.rooms_repo w.store

  module _ (draw : Draw) (cmd : Command L F) where
    pub loaded :
        (w : World L F)
        → IsSound w
        → IsVehicleId is_room cmd.client_id
        → (get_vehicle cmd w).state
          ≡ replay vehicle_class (events_of cmd.client_id w.store) vehicle_class.initial
    loaded w s own =
        (get_lem vehicle_class (IsVehicleId is_room) cmd.client_id w.vehicles w.store
          (λ v. unfold vehicle_class in refl) s.vehicles own).0

    -- The world is sound, and if the handler did not fail then the vehicle that is loaded from it has
    -- the state.
    pub record IsStep (state : Vehicle L F) (o : Handled L F) : Type 0 where
      pub sound : IsSound o.0
      pub stands : IfOk o.1 ((get_vehicle cmd o.0).state ≡ state)

    module _ (w : World L F) (s : IsSound w) (own : IsVehicleId is_room cmd.client_id) where
      pub vehicle-IsReady : IsReady cmd (events_of cmd.client_id w.store) (get_vehicle cmd w)
      vehicle-IsReady =
          get-IsAt vehicle_class (IsVehicleId is_room) cmd.client_id w.vehicles w.store
            (λ v. unfold vehicle_class in refl) s.vehicles own

      AreSound-save :
          (o : Option (Repository (State L F))) (a : VehicleAggregate L F)
          → IsReady cmd (events_of cmd.client_id w.store) a
          → AreSound o w.store
          → AreSound o (save vehicle_class draw.now a w.vehicles w.store).store
      AreSound-save none a r h = tt
      AreSound-save (some repo) a r h =
          save_keeps vehicle_class (IsVehicleId is_room) draw.now cmd.client_id a w.vehicles w.store
            r s.vehicles own room_class (IsRoomId is_room) repo h

      pub save_vehicle-IsStep :
          (a : VehicleAggregate L F)
          → IsReady cmd (events_of cmd.client_id w.store) a
          → IsStep a.state (save_vehicle draw a w)
      unfolding save_vehicle
      save_vehicle-IsStep a r =
          let sound : IsSound (save_vehicle draw a w).0 = record {
            vehicles =
                save-IsConsistent vehicle_class (IsVehicleId is_room) draw.now cmd.client_id a
                  w.vehicles w.store r s.vehicles own;
            rooms = AreSound-save w.rooms_repo a r s.rooms;
          } in
          record {
            sound = sound;
            stands =
                IfOk-map (save vehicle_class draw.now a w.vehicles w.store).result
                  (λ h. loaded (save_vehicle draw a w).0 sound own ∙ h)
                  (save_stands vehicle_class (IsVehicleId is_room) draw.now cmd.client_id a
                    w.vehicles w.store r s.vehicles own);
          }

      pub required-IsStep :
          (id : Key) (state : Vehicle L F) (o : Handled L F)
          → IsStep state o
          → IsStep state (require_aggregate_id id w o)
      unfolding require_aggregate_id
      required-IsStep [] state o h = record { sound = s; stands = tt }
      required-IsStep (c ∷ id) state o h = h
