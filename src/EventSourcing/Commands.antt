-- ===== src/EventSourcing/Commands.antt =====
-- The commands of src/event-sourcing.js and their handlers. Both repositories share one store. A command's
-- sequence numbers are numbers, and its metadata, which nothing reads, is left out.
pub mod Crossing
pub mod Consistency
pub mod Outcome
pub mod Mirror
pub mod Performed
pub mod Background
use real_time_spatial_tracki.Base.{
  ℕ, zero, Bool, true, false, not, ◌&&◌, List, [], ◌∷◌, ◌++◌, Option, none, some, Key, leb,
  or_default, if◌then◌else◌, length,
}
use real_time_spatial_tracki.Base.Map
use real_time_spatial_tracki.Base.Map.{Map}
use real_time_spatial_tracki.Base.KeySet
use real_time_spatial_tracki.EventSourcing.{Event, room, Result, ok, failed}
use real_time_spatial_tracki.EventSourcing.Store.{EventStore}
use real_time_spatial_tracki.EventSourcing.Aggregate.{Aggregate, record_event}
use real_time_spatial_tracki.EventSourcing.Repository.{Repository, get, save, write_snapshot}
use real_time_spatial_tracki.EventSourcing.Payload.{
  Payload, room_joined, room_left, Geometry, Draw, create_event, require_aggregate_id,
}
use real_time_spatial_tracki.EventSourcing.Classes.{Vehicle, Room, State, vehicle_class, room_class}
use real_time_spatial_tracki.EventSourcing.Dispatch.{Handler}
use real_time_spatial_tracki.EventSourcing.TypedEvents.{
  Options, location_updated_event, room_joined_event, room_left_event, geofence_updated_event,
  geofence_entered_event, geofence_exited_event, session_resumed_event, message_acknowledged_event,
  message_nacked_event,
}

pub data Action (L F : Type 0) : Type 0 where
  publish_location : L → Action L F
  join_room leave_room : Key → Action L F
  acknowledge : Key → ℕ → Action L F
  negative_acknowledge : Key → ℕ → Option Key → Action L F
  update_geofence : Key → List F → Action L F
  resume_session : List (Key × Option ℕ) → Action L F

pub record Command (L F : Type 0) : Type 0 where
  pub command_id : Key
  pub client_id : Key
  pub correlation_id : Key
  pub action : Action L F

-- The commands' constructors, with `requireCommand`: `none` if it throws.
unfoldable pub new_command :
    {L F : Type 0} → Key → Key → Option Key → Action L F → Option (Command L F)
new_command [] client_id correlation_id action = none
new_command (c ∷ rest) client_id correlation_id action = some (record {
  command_id = c ∷ rest;
  client_id = client_id;
  correlation_id = or_default correlation_id (c ∷ rest);
  action = action;
})

pub record World (L F : Type 0) : Type 0 where
  pub vehicles : Repository (State L F)
  pub rooms_repo : Option (Repository (State L F))
  pub store : EventStore (Payload L F) (State L F)

abbrev pub VehicleAggregate : Type 0 → Type 0 → Type 0
VehicleAggregate L F = Aggregate (Payload L F) (Vehicle L F)

abbrev pub Handled : Type 0 → Type 0 → Type 0
Handled L F = World L F × Result (List (Event (Payload L F)))

module _ {L F : Type 0} where
  abbrev pub options : Draw → ℕ → Command L F → Options
  options draw number cmd = record {
    draw = draw;
    number = number;
    causation_id = cmd.command_id;
    correlation_id = cmd.correlation_id;
  }

  abbrev pub get_vehicle : Command L F → World L F → VehicleAggregate L F
  get_vehicle cmd w = get vehicle_class cmd.client_id w.vehicles w.store

  -- `vehicles.save(vehicle)`.
  unfoldable pub save_vehicle : Draw → VehicleAggregate L F → World L F → Handled L F
  save_vehicle draw a w =
      let saved = save vehicle_class draw.now a w.vehicles w.store in
      (record w { vehicles = saved.repository; store = saved.store }, saved.result)

  -- The event loop gives a repository its turn: the next snapshot that it has scheduled is written.
  unfoldable pub write_vehicle_snapshot : World L F → World L F
  write_vehicle_snapshot w =
      let (vehicles, store) = write_snapshot w.vehicles w.store in
      record w { vehicles = vehicles; store = store }

  unfoldable pub write_room_snapshot : World L F → World L F
  write_room_snapshot w = elim w.rooms_repo [
    | none ↦ w
    | some repo ↦
        let (rooms, store) = write_snapshot repo w.store in
        record w { rooms_repo = some rooms; store = store }
  ]

  -- The body of the loop over the fences. The aggregate's staged events are those drawn so far.
  unfoldable pub cross_fence :
      Geometry L F → Draw → Command L F → L → F → VehicleAggregate L F → VehicleAggregate L F
  cross_fence g draw cmd fix fence a =
      let inside = g.is_inside fix fence in
      let was_inside = KeySet.mem (g.fence_id fence) a.state.inside_geofences in
      let opts = options draw (length a.uncommitted) cmd in
      if inside && not was_inside
      then record_event vehicle_class
          (geofence_entered_event opts g cmd.client_id fence (g.coordinates fix)) a
      else if not inside && was_inside
      then record_event vehicle_class
          (geofence_exited_event opts g cmd.client_id fence (g.coordinates fix)) a
      else a

  -- The loop over a room's fences.
  unfoldable pub cross_fences :
      Geometry L F → Draw → Command L F → L → List F → VehicleAggregate L F → VehicleAggregate L F
  unfolding cross_fence
  cross_fences g draw cmd fix [] a = a
  cross_fences g draw cmd fix (fence ∷ fences) a =
      cross_fences g draw cmd fix fences (cross_fence g draw cmd fix fence a)

  -- The loop over the rooms that have fences.
  unfoldable pub cross_rooms :
      Geometry L F
      → Draw
      → Command L F
      → L
      → Map (List F)
      → VehicleAggregate L F
      → VehicleAggregate L F
  unfolding cross_fences
  cross_rooms g draw cmd fix [] a = a
  cross_rooms g draw cmd fix ((r, fences) ∷ geofences) a =
      cross_rooms g draw cmd fix geofences (cross_fences g draw cmd fix fences a)

  unfoldable pub record_location :
      Geometry L F → Draw → Command L F → L → VehicleAggregate L F → VehicleAggregate L F
  unfolding cross_rooms
  record_location g draw cmd fix a =
      let located =
        record_event vehicle_class
          (location_updated_event (options draw (length a.uncommitted) cmd) cmd.client_id fix) a in
      if g.has_position fix
      then cross_rooms g draw cmd fix located.state.geofences located
      else located

  unfoldable pub handle_publish_location :
      Geometry L F → Draw → Command L F → L → World L F → Handled L F
  unfolding record_location save_vehicle require_aggregate_id
  handle_publish_location g draw cmd fix w =
      require_aggregate_id cmd.client_id w
        (save_vehicle draw (record_location g draw cmd fix (get_vehicle cmd w)) w)

  -- The second part of the handlers of rooms: the event is mirrored to the room, if rooms have a
  -- repository. The first part's events precede the new ones.
  unfoldable pub mirror :
      Draw → Command L F → Key → (Option Key → Key → Payload L F) → Handled L F → Handled L F
  unfolding require_aggregate_id
  mirror draw cmd r payload (w, failed failure) = (w, failed failure)
  mirror draw cmd r payload (w, ok events) = elim w.rooms_repo [
    | none ↦ (w, ok events)
    | some repo ↦
        let e =
          create_event draw (length events) room r cmd.command_id cmd.correlation_id
            (payload (some cmd.client_id) r) in
        let saved =
          save room_class draw.now (record_event room_class e (get room_class r repo w.store)) repo
            w.store in
        let next = record w { rooms_repo = some saved.repository; store = saved.store } in
        require_aggregate_id r w (elim saved.result [
          | failed failure ↦ (next, failed failure)
          | ok more ↦ (next, ok (events ++ more))
        ])
  ]

  -- A vehicle's event is recorded and saved.
  unfoldable pub record_and_save :
      Draw → Command L F → Event (Payload L F) → World L F → Handled L F
  unfolding save_vehicle require_aggregate_id
  record_and_save draw cmd event w =
      require_aggregate_id cmd.client_id w
        (save_vehicle draw (record_event vehicle_class event (get_vehicle cmd w)) w)

  unfoldable pub handle_join_room : Draw → Command L F → Key → World L F → Handled L F
  unfolding record_and_save mirror
  handle_join_room draw cmd r w =
      let a = get_vehicle cmd w in
      mirror draw cmd r room_joined (
        if KeySet.mem r a.state.rooms
        then (w, ok [])
        else record_and_save draw cmd (room_joined_event (options draw 0 cmd) cmd.client_id r) w)

  unfoldable pub handle_leave_room : Draw → Command L F → Key → World L F → Handled L F
  unfolding record_and_save mirror
  handle_leave_room draw cmd r w =
      let a = get_vehicle cmd w in
      mirror draw cmd r room_left (
        if KeySet.mem r a.state.rooms
        then record_and_save draw cmd (room_left_event (options draw 0 cmd) cmd.client_id r) w
        else (w, ok []))

  -- The handler of acknowledgements, of a positive one and of a negative one.
  unfoldable pub handle_acknowledge : Draw → Command L F → Key → ℕ → World L F → Handled L F
  unfolding record_and_save
  handle_acknowledge draw cmd r seq w =
      let a = get_vehicle cmd w in
      if leb seq (or_default (Map.get r a.state.acked_seq) 0)
      then (w, ok [])
      else record_and_save draw cmd
          (message_acknowledged_event (options draw 0 cmd) cmd.client_id r seq) w

  -- A vehicle's handlers that record one event and save.
  unfoldable pub handle_recorded :
      Draw → (Options → Event (Payload L F)) → Command L F → World L F → Handled L F
  unfolding record_and_save
  handle_recorded draw event cmd w = record_and_save draw cmd (event (options draw 0 cmd)) w

  abbrev pub handle_negative_acknowledge :
      Draw → Command L F → Key → ℕ → Option Key → World L F → Handled L F
  handle_negative_acknowledge draw cmd r seq reason =
      handle_recorded draw (λ opts. message_nacked_event opts cmd.client_id r seq reason) cmd

  abbrev pub handle_update_geofence : Draw → Command L F → Key → List F → World L F → Handled L F
  handle_update_geofence draw cmd r fences =
      handle_recorded draw (λ opts. geofence_updated_event opts cmd.client_id r fences) cmd

  abbrev pub handle_resume_session :
      Draw → Command L F → List (Key × Option ℕ) → World L F → Handled L F
  handle_resume_session draw cmd rooms =
      handle_recorded draw (λ opts. session_resumed_event opts cmd.client_id rooms) cmd

  -- The handlers as they are registered, one for each type of command.
  unfoldable pub handle_action :
      Geometry L F → Draw → Command L F → World L F → Action L F → Handled L F
  unfolding handle_publish_location handle_join_room handle_leave_room handle_acknowledge
      handle_recorded
  handle_action g draw cmd w (publish_location fix) = handle_publish_location g draw cmd fix w
  handle_action g draw cmd w (join_room r) = handle_join_room draw cmd r w
  handle_action g draw cmd w (leave_room r) = handle_leave_room draw cmd r w
  handle_action g draw cmd w (acknowledge r seq) = handle_acknowledge draw cmd r seq w
  handle_action g draw cmd w (negative_acknowledge r seq reason) =
      handle_negative_acknowledge draw cmd r seq reason w
  handle_action g draw cmd w (update_geofence r fences) = handle_update_geofence draw cmd r fences w
  handle_action g draw cmd w (resume_session rooms) = handle_resume_session draw cmd rooms w

  abbrev pub handle : Geometry L F → Draw → Handler (Command L F) (Payload L F) (World L F)
  handle g draw cmd w = handle_action g draw cmd w cmd.action
