-- ===== src/EventSourcing/Projections/Builtin.antt =====
-- The four projections of src/event-sourcing.js.
use real_time_spatial_tracki.Base.{
  ℕ, Bool, true, false, List, [], ◌∷◌, ◌++◌, Option, none, some, Key, key, ltb, if◌then◌else◌,
  or_default,
}
use real_time_spatial_tracki.Base.KeySet
use real_time_spatial_tracki.EventSourcing.{AggregateType, vehicle, room, fleet, Event}
use real_time_spatial_tracki.EventSourcing.Payload.{
  Payload, location_update, room_joined, room_left, geofence_entered, geofence_exited,
}
use real_time_spatial_tracki.EventSourcing.Projections.{Projection, Manager, register}
use real_time_spatial_tracki.EventSourcing.Projections.MemorySink.{
  Sink, VehicleState, Violation, ViolationType, entry, exit, no_state, get_vehicle_state,
  upsert_vehicle_state, add_room_member, remove_room_member, add_geofence_violation, set_sequence,
  bump_room_sequence,
}

-- What is read of a location payload.
pub record Reading (L N : Type 0) : Type 0 where
  pub latitude : L → Option N
  pub longitude : L → Option N
  pub altitude : L → Option N
  pub accuracy : L → Option N
  pub speed : L → Option N
  pub room_id : L → Option Key

-- `a ?? b`.
abbrev pub first_of : {A : Type 0} → Option A → Option A → Option A
first_of none b = b
first_of (some a) b = some a

abbrev pub is_vehicle : AggregateType → Bool
is_vehicle vehicle = true
is_vehicle room = false
is_vehicle fleet = false

-- The row's time is known, and later than the event's.
abbrev pub is_newer : Option ℕ → ℕ → Bool
is_newer none t = false
is_newer (some at) t = ltb t at

abbrev pub state_of : {N : Type 0} → Key → Sink N → VehicleState N
state_of client s = or_default (get_vehicle_state client s) no_state

abbrev pub violation :
    {L F : Type 0} → Event (Payload L F) → Key → Option Key → ViolationType → Violation
violation e fence r type = record {
  client_id = e.aggregate_id;
  fence_id = fence;
  room_id = r;
  violation_type = type;
  timestamp = e.timestamp;
  correlation_id = e.correlation_id;
  event_id = e.event_id;
}

module _ {L F N : Type 0} where
  abbrev with_rooms : Event (Payload L F) → List Key → Sink N → Sink N
  with_rooms e rooms s =
      let state = state_of e.aggregate_id s in
      upsert_vehicle_state e.aggregate_id
        (record state {
          client_id = some e.aggregate_id;
          rooms = some rooms;
          last_event_id = some e.event_id;
          last_sequence = first_of e.sequence state.last_sequence;
        })
        s

  -- `VehicleStateProjection.handle`, by the payload.
  unfoldable pub project_vehicle_state :
      Reading L N → Event (Payload L F) → Payload L F → Sink N → Sink N
  project_vehicle_state rd e (location_update fix) s =
      let prev = state_of e.aggregate_id s in
      if is_newer prev.location_updated_at e.timestamp
      then s
      else upsert_vehicle_state e.aggregate_id
          (record prev {
            client_id = some e.aggregate_id;
            latitude = rd.latitude fix;
            longitude = rd.longitude fix;
            altitude = first_of (rd.altitude fix) prev.altitude;
            accuracy = first_of (rd.accuracy fix) prev.accuracy;
            speed = first_of (rd.speed fix) prev.speed;
            location_updated_at = some e.timestamp;
            last_event_id = some e.event_id;
            last_sequence = e.sequence;
          })
          s
  project_vehicle_state rd e (room_joined client r) s =
      with_rooms e (KeySet.add r (or_default (state_of e.aggregate_id s).rooms [])) s
  project_vehicle_state rd e (room_left client r) s =
      with_rooms e (KeySet.delete r (or_default (state_of e.aggregate_id s).rooms [])) s
  project_vehicle_state rd e _ s = s

  unfoldable pub project_room_membership : Event (Payload L F) → Payload L F → Sink N → Sink N
  project_room_membership e (room_joined client r) s =
      add_room_member r e.aggregate_id e.timestamp s
  project_room_membership e (room_left client r) s = remove_room_member r e.aggregate_id s
  project_room_membership e _ s = s

  unfoldable pub project_violation : Event (Payload L F) → Payload L F → Sink N → Sink N
  project_violation e (geofence_entered fence r at) s =
      add_geofence_violation (violation e fence r entry) s
  project_violation e (geofence_exited fence r at) s =
      add_geofence_violation (violation e fence r exit) s
  project_violation e _ s = s

  -- The room whose sequence an event advances.
  unfoldable pub sequenced_room : Reading L N → Payload L F → Option Key
  sequenced_room rd (location_update fix) = rd.room_id fix
  sequenced_room rd (room_joined client r) = some r
  sequenced_room rd (room_left client r) = some r
  sequenced_room rd _ = none

  -- An empty room id is none.
  abbrev pub bump : Event (Payload L F) → Option Key → Sink N → Sink N
  bump e none s = s
  bump e (some []) s = s
  bump e (some (c ∷ r)) s =
      if is_vehicle e.aggregate_type then bump_room_sequence (c ∷ r) e.event_id s else s

  unfoldable pub project_sequence : Reading L N → Event (Payload L F) → Sink N → Sink N
  unfolding sequenced_room
  project_sequence rd e s = bump e (sequenced_room rd e.payload) (elim e.sequence [
    | none ↦ s
    | some n ↦ set_sequence (key "aggregate:" ++ e.aggregate_id) n e.event_id s
  ])

  abbrev for_vehicle : Event (Payload L F) → Sink N → Sink N → Sink N
  for_vehicle e s next = if is_vehicle e.aggregate_type then next else s

  abbrev pub vehicle_state_projection : Reading L N → Projection (Payload L F) N
  vehicle_state_projection rd = record {
    name = key "vehicle_state";
    event_types = none;
    handle = λ e s. (for_vehicle e s (project_vehicle_state rd e e.payload s), true);
  }

  abbrev pub room_membership_projection : Projection (Payload L F) N
  room_membership_projection = record {
    name = key "room_membership";
    event_types = none;
    handle = λ e s. (for_vehicle e s (project_room_membership e e.payload s), true);
  }

  abbrev pub geofence_violation_projection : Projection (Payload L F) N
  geofence_violation_projection = record {
    name = key "geofence_violations";
    event_types = none;
    handle = λ e s. (project_violation e e.payload s, true);
  }

  abbrev pub sequence_projection : Reading L N → Projection (Payload L F) N
  sequence_projection rd = record {
    name = key "sequence";
    event_types = none;
    handle = λ e s. (project_sequence rd e s, true);
  }

  unfoldable pub register_default_projections :
      Reading L N → Manager (Payload L F) N → Manager (Payload L F) N
  unfolding register
  register_default_projections rd m = register (sequence_projection rd) (
      register geofence_violation_projection
        (register room_membership_projection (register (vehicle_state_projection rd) m)))
