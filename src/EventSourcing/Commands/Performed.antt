-- ===== src/EventSourcing/Commands/Performed.antt =====
-- What each command asks for, and that its handler does it.
use real_time_spatial_tracki.Base.{
  ℕ, ◌≡◌, refl, sym, ap, ◌∙◌, subst, Bool, true, false, List, [], ◌∷◌, Option, none, some, Key,
  arith, Bool-cases, inl, inr, or_default, leb, All, key_ite_self,
}
use real_time_spatial_tracki.Base.Map
use real_time_spatial_tracki.Base.KeySet
use real_time_spatial_tracki.EventSourcing.{Event, ok}
use real_time_spatial_tracki.EventSourcing.Store.{EventStore}
use real_time_spatial_tracki.EventSourcing.Repository.{Repository, get}
use real_time_spatial_tracki.EventSourcing.Payload.{
  Payload, room_joined, room_left, geofence_updated, Geometry, Draw, create_event,
}
use real_time_spatial_tracki.EventSourcing.Classes.{
  Vehicle, State, room_class, vehicle_class, mutate_room, mutate_vehicle, resume_rooms,
}
use real_time_spatial_tracki.EventSourcing.TypedEvents.{
  room_joined_event, room_left_event, message_acknowledged_event, message_nacked_event,
  geofence_updated_event, session_resumed_event,
}
use real_time_spatial_tracki.EventSourcing.Commands.{
  Action, publish_location, join_room, leave_room, acknowledge, negative_acknowledge,
  update_geofence, resume_session, Command, World, Handled, options, get_vehicle, record_and_save,
  mirror, handle_publish_location, handle_join_room, handle_leave_room, handle_acknowledge,
  handle_recorded, handle_action,
}
use real_time_spatial_tracki.EventSourcing.Commands.Crossing.{
  recorded-state, location-record_location,
}
use real_time_spatial_tracki.EventSourcing.Commands.Consistency.{
  IfOk, record_event-IsAt, record_location-IsReady,
}
use real_time_spatial_tracki.EventSourcing.Commands.Outcome.{
  IfOk-map, IsVehicleId, IsRoomId, IsSound, IsStep, vehicle-IsReady, save_vehicle-IsStep,
  required-IsStep,
}
use real_time_spatial_tracki.EventSourcing.Commands.Mirror.{IsMirroredIn, mirror-IsStep}

mem-delete_self : (k : Key) (s : List Key) → KeySet.mem k (KeySet.delete k s) ≡ false
mem-delete_self k s = KeySet.mem-delete k k s ∙ key_ite_self false (KeySet.mem k s) k

mem-add_keeps :
    (j k : Key) (s : List Key) → KeySet.mem j s ≡ true → KeySet.mem j (KeySet.add k s) ≡ true
mem-add_keeps j k s h = KeySet.mem-add j k s ∙ ground (arith, h)

-- The rooms of a resumed session are joined, and none is left.
module _ {L F : Type 0} where
  resume_keeps :
      (j : Key) (rooms : List (Key × Option ℕ)) (v : Vehicle L F)
      → KeySet.mem j v.rooms ≡ true
      → KeySet.mem j (resume_rooms rooms v).rooms ≡ true
  unfolding resume_rooms
  resume_keeps j [] v h = h
  resume_keeps j ((r, acked) ∷ rooms) v h = resume_keeps j rooms _ (mem-add_keeps j r v.rooms h)

  resume_joins :
      (rooms : List (Key × Option ℕ)) (v : Vehicle L F)
      → All (λ e. KeySet.mem e.0 (resume_rooms rooms v).rooms ≡ true) rooms
  unfolding resume_rooms
  resume_joins [] v = tt
  resume_joins ((r, acked) ∷ rooms) v =
      (resume_keeps r rooms _ (KeySet.mem-add_self r v.rooms), resume_joins rooms _)

  -- The client is a member of the room, or is not, if rooms have a repository.
  abbrev pub IsMember :
      Key
      → Key
      → Bool
      → Option (Repository (State L F))
      → EventStore (Payload L F) (State L F)
      → Type 0
  IsMember client r b none store = Unit {0}
  IsMember client r b (some repo) store =
      KeySet.mem client (get room_class r repo store).state.members ≡ b

module _ {L F : Type 0} (draw : Draw) (cmd : Command L F) where
  -- What the command asks for, of the worlds before its handler and after.
  abbrev pub IsPerformed : World L F → Action L F → World L F → Type 0
  IsPerformed old (publish_location fix) w =
      (get_vehicle cmd w).state.location ≡ some (fix, draw.now)
  IsPerformed old (join_room r) w =
      (KeySet.mem r (get_vehicle cmd w).state.rooms ≡ true)
      × IsMember cmd.client_id r true w.rooms_repo w.store
  IsPerformed old (leave_room r) w =
      (KeySet.mem r (get_vehicle cmd w).state.rooms ≡ false)
      × IsMember cmd.client_id r false w.rooms_repo w.store
  IsPerformed old (acknowledge r seq) w =
      leb seq (or_default (Map.get r (get_vehicle cmd w).state.acked_seq) 0) ≡ true
  IsPerformed old (negative_acknowledge r seq reason) w =
      (get_vehicle cmd w).state ≡ (get_vehicle cmd old).state
  IsPerformed old (update_geofence r fences) w =
      or_default (Map.get r (get_vehicle cmd w).state.geofences) [] ≡ fences
  IsPerformed old (resume_session rooms) w =
      All (λ e. KeySet.mem e.0 (get_vehicle cmd w).state.rooms ≡ true) rooms

  -- The rooms that the command names have ids of rooms.
  abbrev pub NamesRooms : (Key → Bool) → Action L F → Type 0
  NamesRooms is_room (join_room r) = IsRoomId is_room r
  NamesRooms is_room (leave_room r) = IsRoomId is_room r
  NamesRooms is_room _ = Unit {0}

  joined_in :
      (r : Key) (o : Option (Repository (State L F))) (store : EventStore (Payload L F) (State L F))
      → IsMirroredIn (room_joined (some cmd.client_id) r) r o store
      → IsMember cmd.client_id r true o store
  unfolding mutate_room
  joined_in r none store h = tt
  joined_in r (some repo) store (m, h) =
      ap (λ room. KeySet.mem cmd.client_id room.members) h
      ∙ KeySet.mem-add_self cmd.client_id m.members

  left_in :
      (r : Key) (o : Option (Repository (State L F))) (store : EventStore (Payload L F) (State L F))
      → IsMirroredIn (room_left (some cmd.client_id) r) r o store
      → IsMember cmd.client_id r false o store
  unfolding mutate_room
  left_in r none store h = tt
  left_in r (some repo) store (m, h) =
      ap (λ room. KeySet.mem cmd.client_id room.members) h ∙ mem-delete_self cmd.client_id m.members

module _ {L F : Type 0} (g : Geometry L F) (draw : Draw) (cmd : Command L F) (is_room : Key → Bool)
    (w : World L F) (s : IsSound is_room w) (own : IsVehicleId is_room cmd.client_id) where
  abbrev vehicle : Vehicle L F
  vehicle = (get_vehicle cmd w).state

  -- What a handler's outcome has to be.
  record IsOutcome (action : Action L F) (o : Handled L F) : Type 0 where
    sound : IsSound is_room o.0
    performed : IfOk o.1 (IsPerformed draw cmd w action o.0)

  idle-IsStep : IsStep is_room draw cmd vehicle (w, ok [])
  idle-IsStep = record { sound = s; stands = refl }

  recorded-IsStep :
      (e : Event (Payload L F))
      → e.sequence ≡ none
      → e.aggregate_id ≡ cmd.client_id
      → IsStep is_room draw cmd
          (mutate_vehicle e.payload e.timestamp vehicle)
          (record_and_save draw cmd e w)
  unfolding record_and_save
  recorded-IsStep e h named =
      subst (λ v. IsStep is_room draw cmd v (record_and_save draw cmd e w))
        (recorded-state e (get_vehicle cmd w) h)
        (required-IsStep is_room draw cmd w s own cmd.client_id _ _ (
          save_vehicle-IsStep is_room draw cmd w s own _ (
            record_event-IsAt vehicle_class cmd.client_id _ e (get_vehicle cmd w) h named
              (vehicle-IsReady is_room draw cmd w s own))))

  -- The outcome of a step, for what follows from the vehicle's state.
  outcome :
      (action : Action L F) (v : Vehicle L F) (o : Handled L F)
      → ((get_vehicle cmd o.0).state ≡ v → IsPerformed draw cmd w action o.0)
      → IsStep is_room draw cmd v o
      → IsOutcome action o
  outcome action v o f step = record { sound = step.sound; performed = IfOk-map o.1 f step.stands }

  join-IsOutcome :
      (r : Key) → IsRoomId is_room r → IsOutcome (join_room r) (handle_join_room draw cmd r w)
  unfolding handle_join_room create_event mutate_vehicle
  join-IsOutcome r named = elim (Bool-cases (KeySet.mem r vehicle.rooms)) [
    | inl m ↦ rw m (mirrored vehicle (w, ok []) m idle-IsStep)
    | inr m ↦ rw m (
        mirrored _ _ (KeySet.mem-add_self r vehicle.rooms)
          (recorded-IsStep (room_joined_event (options draw 0 cmd) cmd.client_id r) refl refl))
  ]
    where
      mirrored :
          (v : Vehicle L F) (o : Handled L F)
          → KeySet.mem r v.rooms ≡ true
          → IsStep is_room draw cmd v o
          → IsOutcome (join_room r) (mirror draw cmd r room_joined o)
      mirrored v o m step =
          let done = mirror-IsStep is_room draw cmd own r named room_joined v o step in
          record {
            sound = done.sound;
            performed =
                IfOk-map (mirror draw cmd r room_joined o).1
                  (λ h. (ap (λ x. KeySet.mem r x.rooms) h.0 ∙ m, joined_in draw cmd r _ _ h.1))
                  done.done;
          }

  leave-IsOutcome :
      (r : Key) → IsRoomId is_room r → IsOutcome (leave_room r) (handle_leave_room draw cmd r w)
  unfolding handle_leave_room create_event mutate_vehicle
  leave-IsOutcome r named = elim (Bool-cases (KeySet.mem r vehicle.rooms)) [
    | inr m ↦ rw m (mirrored vehicle (w, ok []) m idle-IsStep)
    | inl m ↦ rw m (
        mirrored _ _ (mem-delete_self r vehicle.rooms)
          (recorded-IsStep (room_left_event (options draw 0 cmd) cmd.client_id r) refl refl))
  ]
    where
      mirrored :
          (v : Vehicle L F) (o : Handled L F)
          → KeySet.mem r v.rooms ≡ false
          → IsStep is_room draw cmd v o
          → IsOutcome (leave_room r) (mirror draw cmd r room_left o)
      mirrored v o m step =
          let done = mirror-IsStep is_room draw cmd own r named room_left v o step in
          record {
            sound = done.sound;
            performed =
                IfOk-map (mirror draw cmd r room_left o).1
                  (λ h. (ap (λ x. KeySet.mem r x.rooms) h.0 ∙ m, left_in draw cmd r _ _ h.1))
                  done.done;
          }

  acknowledge-IsOutcome :
      (r : Key) (seq : ℕ) → IsOutcome (acknowledge r seq) (handle_acknowledge draw cmd r seq w)
  unfolding handle_acknowledge create_event mutate_vehicle
  acknowledge-IsOutcome r seq =
      elim (Bool-cases (leb seq (or_default (Map.get r vehicle.acked_seq) 0))) [
        | inl m ↦ rw m (record { sound = s; performed = m })
        | inr m ↦ rw m (
            outcome (acknowledge r seq) _ _
              (λ h.
                ap (λ v. leb seq (or_default (Map.get r v.acked_seq) 0)) h
                ∙ ap (λ o. leb seq (or_default o 0)) (Map.get-set_self r seq vehicle.acked_seq)
                ∙ ground arith)
              (recorded-IsStep (message_acknowledged_event (options draw 0 cmd) cmd.client_id r seq)
                refl refl))
      ]

  fences-updated :
      (r : Key) (fences : List F)
      → or_default
          (Map.get r (mutate_vehicle (geofence_updated r fences) draw.now vehicle).geofences)
          []
        ≡ fences
  unfolding mutate_vehicle
  fences-updated r [] = ap (λ o. or_default o []) (Map.get-delete_self r vehicle.geofences)
  fences-updated r (f ∷ fences) =
      ap (λ o. or_default o []) (Map.get-set_self r (f ∷ fences) vehicle.geofences)

  all-IsOutcome :
      (action : Action L F)
      → NamesRooms draw cmd is_room action
      → IsOutcome action (handle_action g draw cmd w action)
  unfolding handle_action handle_publish_location handle_recorded create_event mutate_vehicle
  all-IsOutcome (publish_location fix) named =
      outcome (publish_location fix) _ _
        (λ h. ap (λ v. v.location) h ∙ location-record_location g draw cmd fix (get_vehicle cmd w))
        (required-IsStep is_room draw cmd w s own cmd.client_id _ _ (
          save_vehicle-IsStep is_room draw cmd w s own _ (
            record_location-IsReady g draw cmd _ fix (get_vehicle cmd w)
              (vehicle-IsReady is_room draw cmd w s own))))
  all-IsOutcome (join_room r) named = join-IsOutcome r named
  all-IsOutcome (leave_room r) named = leave-IsOutcome r named
  all-IsOutcome (acknowledge r seq) named = acknowledge-IsOutcome r seq
  all-IsOutcome (negative_acknowledge r seq reason) named =
      outcome (negative_acknowledge r seq reason) _ _ (λ h. h)
        (recorded-IsStep (message_nacked_event (options draw 0 cmd) cmd.client_id r seq reason) refl
          refl)
  all-IsOutcome (update_geofence r fences) named =
      outcome (update_geofence r fences) _ _
        (λ h. ap (λ v. or_default (Map.get r v.geofences) []) h ∙ fences-updated r fences)
        (recorded-IsStep (geofence_updated_event (options draw 0 cmd) cmd.client_id r fences) refl
          refl)
  all-IsOutcome (resume_session rooms) named =
      outcome (resume_session rooms) _ _
        (λ h.
          subst (λ v. All (λ e. KeySet.mem e.0 v.rooms ≡ true) rooms) (sym h)
            (resume_joins rooms vehicle))
        (recorded-IsStep (session_resumed_event (options draw 0 cmd) cmd.client_id rooms) refl refl)

  -- If the ids of clients and of rooms are told apart, the command's client and the rooms that it joins
  -- or leaves have ids of their kind, and each repository is consistent for the ids of its kind over the
  -- one store, then the repositories are so after every handler, whether its events are committed
  -- or refused. If the handler did not fail, what is loaded afterwards shows what the command asked for: a
  -- published fix is the vehicle's location; a room that was joined is among the vehicle's, and the client
  -- among the room's members if rooms have a repository, and a room that was left is not, nor is the
  -- client; the highest acknowledged number is at least the one that was acknowledged; a negative
  -- acknowledgment changes nothing of the vehicle; the fences of a room are those that were given; and the
  -- rooms of a resumed session are joined.
  pub handle_action-IsPerformed :
      (action : Action L F)
      → NamesRooms draw cmd is_room action
      → IsSound is_room (handle_action g draw cmd w action).0
        × IfOk
            (handle_action g draw cmd w action).1
            (IsPerformed draw cmd w action (handle_action g draw cmd w action).0)
  handle_action-IsPerformed action named =
      let o = all-IsOutcome action named in (o.sound, o.performed)
