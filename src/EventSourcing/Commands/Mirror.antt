-- ===== src/EventSourcing/Commands/Mirror.antt =====
-- The second part of the handlers of rooms: the event that is mirrored to the room.
use real_time_spatial_tracki.Base.{
  ℕ, ◌≡◌, refl, sym, ap, ◌∙◌, subst, Bool, List, [], ◌∷◌, ◌++◌, Option, none, some, Key, arith,
  length, Option-cases, List-cases, inl, inr,
}
use real_time_spatial_tracki.EventSourcing.{Event, room, no_aggregate_id, Result, ok, failed}
use real_time_spatial_tracki.EventSourcing.Store.{EventStore, events_of}
use real_time_spatial_tracki.EventSourcing.Aggregate.{Aggregate, stage, apply, record_event}
use real_time_spatial_tracki.EventSourcing.Aggregate.Replay.{replay}
use real_time_spatial_tracki.EventSourcing.Repository.{Repository, Saved, get, save}
use real_time_spatial_tracki.EventSourcing.Repository.Snapshots.{IsConsistent, get_lem}
use real_time_spatial_tracki.EventSourcing.Payload.{
  Payload, Draw, create_event, require_aggregate_id,
}
use real_time_spatial_tracki.EventSourcing.Classes.{
  Vehicle, Room, State, vehicle_class, room_class, mutate_room,
}
use real_time_spatial_tracki.EventSourcing.Commands.{Command, World, Handled, get_vehicle, mirror}
use real_time_spatial_tracki.EventSourcing.Commands.Consistency.{
  IsAt, IfOk, get-IsAt, record_event-IsAt, save-IsConsistent, save_keeps, save_stands,
  save_elsewhere,
}
use real_time_spatial_tracki.EventSourcing.Commands.Outcome.{
  IfOk-map, IsVehicleId, IsRoomId, AreSound, IsSound, IsStep, loaded,
}

-- The results of a handler's two parts.
abbrev joined_results :
    {P : Type 0} → List (Event P) → Result (List (Event P)) → Result (List (Event P))
joined_results events (failed failure) = failed failure
joined_results events (ok more) = ok (events ++ more)

IfOk-joined :
    {P : Type 0} (Q : Type 0) (events : List (Event P)) (r : Result (List (Event P)))
    → IfOk r Q
    → IfOk (joined_results events r) Q
IfOk-joined Q events (ok more) h = h
IfOk-joined Q events (failed f) h = tt

-- The state of the room in its repository, if rooms have one, is a state changed by the payload.
module _ {L F : Type 0} where
  abbrev pub IsMirroredIn :
      Payload L F
      → Key
      → Option (Repository (State L F))
      → EventStore (Payload L F) (State L F)
      → Type 0
  IsMirroredIn change r none store = Unit {0}
  IsMirroredIn change r (some repo) store =
      (m : Room) × ((get room_class r repo store).state ≡ mutate_room change r m)

  abbrev pub IsMirrored : Payload L F → Key → World L F → Type 0
  IsMirrored change r w = IsMirroredIn change r w.rooms_repo w.store

module _ {L F : Type 0} (is_room : Key → Bool) (draw : Draw) (cmd : Command L F) where
  mirror-none :
      (r : Key) (payload : Option Key → Key → Payload L F) (w : World L F)
      (events : List (Event (Payload L F)))
      → w.rooms_repo ≡ none
      → mirror draw cmd r payload (w, ok events) ≡ (w, ok events)
  unfolding mirror
  mirror-none r payload w events h = ground (arith, h)

  -- The room's event, and the save of it.
  abbrev room_event :
      Key → (Option Key → Key → Payload L F) → List (Event (Payload L F)) → Event (Payload L F)
  room_event r payload events =
      create_event draw (length events) room r cmd.command_id cmd.correlation_id
        (payload (some cmd.client_id) r)

  abbrev room_saved :
      Key
      → (Option Key → Key → Payload L F)
      → List (Event (Payload L F))
      → Repository (State L F)
      → World L F
      → Saved (Payload L F) Room (State L F)
  room_saved r payload events repo w =
      save room_class draw.now
        (record_event room_class (room_event r payload events) (get room_class r repo w.store)) repo
        w.store

  mirror_empty :
      (payload : Option Key → Key → Payload L F) (w : World L F)
      (events : List (Event (Payload L F))) (repo : Repository (State L F))
      → w.rooms_repo ≡ some repo
      → mirror draw cmd [] payload (w, ok events) ≡ (w, failed no_aggregate_id)
  unfolding mirror require_aggregate_id
  mirror_empty payload w events repo h = ground (arith, h)

  mirror-some :
      (c : ℕ) (id : Key) (payload : Option Key → Key → Payload L F) (w : World L F)
      (events : List (Event (Payload L F))) (repo : Repository (State L F))
      → w.rooms_repo ≡ some repo
      → let saved = room_saved (c ∷ id) payload events repo w in
        mirror draw cmd (c ∷ id) payload (w, ok events) ≡ (
          record w { rooms_repo = some saved.repository; store = saved.store },
          joined_results events saved.result,
        )
  unfolding mirror require_aggregate_id
  mirror-some c id payload w events repo h = ground (arith, h)

  room_state :
      (r : Key) (payload : Option Key → Key → Payload L F) (events : List (Event (Payload L F)))
      (a : Aggregate (Payload L F) Room)
      → (record_event room_class (room_event r payload events) a).state
        ≡ mutate_room (payload (some cmd.client_id) r) r a.state
  unfolding record_event stage apply create_event room_class
  room_state r payload events a = refl

  -- What a mirrored step leaves: the world is sound, and if nothing failed the vehicle has the state and
  -- the room has been changed.
  pub record IsMirroredStep (state : Vehicle L F) (change : Payload L F) (r : Key) (o : Handled L F)
      : Type 0 where
    pub sound : IsSound is_room o.0
    pub done : IfOk o.1 (((get_vehicle cmd o.0).state ≡ state) × IsMirrored change r o.0)

  module _ (own : IsVehicleId is_room cmd.client_id) (r : Key) (is_room_id : IsRoomId is_room r)
      (payload : Option Key → Key → Payload L F) (state : Vehicle L F) where
    abbrev pub change : Payload L F
    change = payload (some cmd.client_id) r

    unmirrored-IsStep :
        (w : World L F) (events : List (Event (Payload L F)))
        → w.rooms_repo ≡ none
        → IsStep is_room draw cmd state (w, ok events)
        → IsMirroredStep state change r (mirror draw cmd r payload (w, ok events))
    unmirrored-IsStep w events h s =
        subst (IsMirroredStep state change r) (sym (mirror-none r payload w events h))
          (record { sound = s.sound; done = (s.stands, rw h tt) })

    module _ (w : World L F) (events : List (Event (Payload L F))) (repo : Repository (State L F))
        (h : w.rooms_repo ≡ some repo) (s : IsStep is_room draw cmd state (w, ok events)) where
      abbrev saved : Saved (Payload L F) Room (State L F)
      saved = room_saved r payload events repo w

      abbrev after : World L F
      after = record w { rooms_repo = some saved.repository; store = saved.store }

      abbrev before : Aggregate (Payload L F) Room
      before = get room_class r repo w.store

      rooms_sound : IsConsistent room_class (IsRoomId is_room) repo w.store
      rooms_sound = subst (λ o. AreSound is_room o w.store) h s.sound.rooms

      recorded-IsAt :
          IsAt room_class r
            (events_of r w.store)
            (record_event room_class (room_event r payload events) before)
      recorded-IsAt =
          record_event-IsAt room_class r _ _ before (unfold create_event in refl)
            (unfold create_event in refl)
            (get-IsAt room_class (IsRoomId is_room) r repo w.store (λ m. unfold room_class in refl)
              rooms_sound is_room_id)

      after-IsSound : IsSound is_room after
      after-IsSound = record {
        vehicles =
            save_keeps room_class (IsRoomId is_room) draw.now r _ repo w.store recorded-IsAt
              rooms_sound is_room_id vehicle_class (IsVehicleId is_room) w.vehicles
              s.sound.vehicles;
        rooms =
            save-IsConsistent room_class (IsRoomId is_room) draw.now r _ repo w.store recorded-IsAt
              rooms_sound is_room_id;
      }

      same_vehicle : (get_vehicle cmd after).state ≡ state
      same_vehicle =
          loaded is_room draw cmd after after-IsSound own
          ∙ ap (λ es. replay vehicle_class es vehicle_class.initial)
              (save_elsewhere room_class (IsRoomId is_room) draw.now r _ repo w.store recorded-IsAt
                rooms_sound is_room_id cmd.client_id
                (λ same. ground (arith, own, is_room_id, ap is_room same)))
          ∙ sym (loaded is_room draw cmd w s.sound own)
          ∙ s.stands

      after-IsStep : IsMirroredStep state change r (after, joined_results events saved.result)
      after-IsStep = record {
        sound = after-IsSound;
        done = IfOk-joined _ events saved.result (
            IfOk-map saved.result
              (λ stands. (
                same_vehicle,
                (
                  before.state,
                  (get_lem room_class (IsRoomId is_room) r saved.repository saved.store
                        (λ m. unfold room_class in refl) after-IsSound.rooms is_room_id).0
                      ∙ stands
                      ∙ room_state r payload events before,
                ),
              ))
              (save_stands room_class (IsRoomId is_room) draw.now r _ repo w.store recorded-IsAt
                rooms_sound is_room_id));
      }

    pub mirror-IsStep :
        (o : Handled L F)
        → IsStep is_room draw cmd state o
        → IsMirroredStep state change r (mirror draw cmd r payload o)
    unfolding mirror
    mirror-IsStep (w, failed f) s = record { sound = s.sound; done = tt }
    mirror-IsStep (w, ok events) s = elim (Option-cases w.rooms_repo) [
      | inl h ↦ unmirrored-IsStep w events h s
      | inr (repo, h) ↦ elim (List-cases r) [
        | inl empty ↦
            subst (λ k. IsMirroredStep state change r (mirror draw cmd k payload (w, ok events)))
              (sym empty)
              (subst (IsMirroredStep state change r) (sym (mirror_empty payload w events repo h))
                (record { sound = s.sound; done = tt }))
        | inr (c, id, whole) ↦
            subst (IsMirroredStep state change r)
              (sym (
                ap (λ k. mirror draw cmd k payload (w, ok events)) whole
                ∙ mirror-some c id payload w events repo h
                ∙ ap
                    (λ k. (
                      record w {
                        rooms_repo = some (room_saved k payload events repo w).repository;
                        store = (room_saved k payload events repo w).store;
                      },
                      joined_results events (room_saved k payload events repo w).result,
                    ))
                    (sym whole)))
              (after-IsStep w events repo h s)
      ]
    ]
