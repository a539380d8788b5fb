-- ===== src/EventSourcing/ReadTests.antt =====
-- The theorems of commands and read models at concrete inputs.
use real_time_spatial_tracki.Base.{
  ℕ, ◌+◌, ◌≡◌, refl, true, false, List, [], ◌∷◌, map, none, some, Key, key, key_dec, ltb, All,
  arith,
}
use real_time_spatial_tracki.Base.Map
use real_time_spatial_tracki.Base.KeySet
use real_time_spatial_tracki.EventSourcing.{Event, vehicle, ok}
use real_time_spatial_tracki.EventSourcing.Aggregate.Replay.{replay}
use real_time_spatial_tracki.EventSourcing.Payload.{Payload, room_joined, room_left, Geometry, Draw}
use real_time_spatial_tracki.EventSourcing.Classes.{new_vehicle, vehicle_class}
use real_time_spatial_tracki.EventSourcing.Commands.{
  Command, VehicleAggregate, publish_location, record_location,
}
use real_time_spatial_tracki.EventSourcing.Commands.Crossing.{record_location-crossed}
use real_time_spatial_tracki.EventSourcing.Dispatch.{Handler, CommandHandler, Envelope, dispatch}
use real_time_spatial_tracki.EventSourcing.Dispatch.Once.{dispatch_all, dispatch_once}
use real_time_spatial_tracki.EventSourcing.Projections.{
  Manager, new_manager, process_events, register,
}
use real_time_spatial_tracki.EventSourcing.Projections.MemorySink.{get_room_members, new_sink}
use real_time_spatial_tracki.EventSourcing.Projections.Builtin.{
  Reading, register_default_projections, vehicle_state_projection, room_membership_projection,
  geofence_violation_projection, sequence_projection,
}
use real_time_spatial_tracki.EventSourcing.Projections.Idempotence.{process_events-again}
use real_time_spatial_tracki.EventSourcing.Projections.Reliable.{default-IsReliable}
use real_time_spatial_tracki.EventSourcing.Projections.Membership.{
  IsOwn, project_members, get_room_members-replay,
}

abbrev ann : Key
ann = key "ann"

abbrev lobby : Key
lobby = key "lobby"

abbrev P : Type 0
P = Payload ℕ Key

-- Fixes are numbers, fences their names; a fix beyond 10 is inside of every fence.
abbrev geometry : Geometry ℕ Key
geometry = record {
  has_position = λ fix. true;
  coordinates = λ fix. fix;
  is_inside = λ fix fence. ltb 10 fix;
  fence_id = λ fence. fence;
  fence_room = λ fence. none;
  client_of = λ fix. none;
}

abbrev draw : Draw
draw = record { now = 5; uuid = λ n. n ∷ [] }

abbrev publishing : Command ℕ Key
publishing = record {
  command_id = key "c1";
  client_id = ann;
  correlation_id = key "c1";
  action = publish_location 12;
}

-- A vehicle with two fences, inside of the second.
abbrev fenced : VehicleAggregate ℕ Key
fenced = record {
  id = ann;
  sequence = 3;
  next_seq = 3;
  uncommitted = [];
  history = [];
  state = record new_vehicle {
    inside_geofences = key "b" ∷ [];
    geofences = (lobby, key "a" ∷ key "b" ∷ []) ∷ [];
  };
}

fenced-Unique : KeySet.Unique (key "a" ∷ key "b" ∷ [])
unfolding KeySet.mem key_dec
fenced-Unique = (refl, (refl, tt))

record_location-crossed_example :
    ((record_location geometry draw publishing 12 fenced).state.location ≡ some (12, 5))
    × All
        (λ f.
          KeySet.mem f (record_location geometry draw publishing 12 fenced).state.inside_geofences
          ≡ true)
        (key "a" ∷ key "b" ∷ [])
    × ((j : Key)
        → KeySet.mem j (key "a" ∷ key "b" ∷ []) ≡ false
        → KeySet.mem j (record_location geometry draw publishing 12 fenced).state.inside_geofences
          ≡ KeySet.mem j (key "b" ∷ []))
record_location-crossed_example =
    record_location-crossed geometry draw publishing 12 fenced refl fenced-Unique

-- A handler that counts its calls and returns an event.
abbrev event : ℕ → P → Event P
event n payload = record {
  event_id = n ∷ [];
  payload = payload;
  aggregate_id = ann;
  aggregate_type = vehicle;
  sequence = some n;
  timestamp = n;
  causation_id = none;
  correlation_id = none;
}

abbrev count : Handler Key P ℕ
count c w = (w + 1, ok (event 1 (room_joined none lobby) ∷ []))

abbrev envelope : Envelope Key
envelope = record { command_id = λ c. c; type = λ c. key "t" }

abbrev handler : CommandHandler Key P ℕ
handler = record {
  handlers = (key "t", count) ∷ [];
  dedup = [];
  dedup_cache_size = 2;
  commands_total = 0;
  commands_deduplicated_total = 0;
}

handler-get : Map.get (key "t") handler.handlers ≡ some count
unfolding Map.get key_dec
handler-get = refl

dispatch_once_example :
    let later =
      dispatch_all envelope
        (key "d" ∷ [])
        (dispatch envelope (key "c") handler 0).handler
        (dispatch envelope (key "c") handler 0).world in
    ((dispatch envelope (key "c") later.0 later.1).result
      ≡ ok (event 1 (room_joined none lobby) ∷ []))
    × ((dispatch envelope (key "c") later.0 later.1).world ≡ later.1)
    × ((dispatch envelope (key "c") later.0 later.1).notified ≡ none)
unfolding Map.get
dispatch_once_example =
    dispatch_once envelope (key "c") (key "d" ∷ []) handler 0 count
      (event 1 (room_joined none lobby) ∷ []) 1 refl handler-get refl (omega arith)

abbrev reading : Reading ℕ ℕ
reading = record {
  latitude = λ fix. some fix;
  longitude = λ fix. some fix;
  altitude = λ fix. none;
  accuracy = λ fix. none;
  speed = λ fix. none;
  room_id = λ fix. none;
}

abbrev manager : Manager P ℕ
manager = register_default_projections reading new_manager

abbrev visit : List (Event P)
visit = event 1 (room_joined none lobby) ∷ event 2 (room_left none lobby) ∷ []

visit-inside :
    All
      (λ e. KeySet.mem e.event_id (map (λ x. x.event_id) visit) ≡ true)
      (event 2 (room_left none lobby) ∷ [])
unfolding KeySet.mem key_dec
visit-inside = (refl, tt)

manager-projections :
    manager.projections
    ≡ vehicle_state_projection reading
      ∷ room_membership_projection
      ∷ geofence_violation_projection
      ∷ sequence_projection reading
      ∷ []
unfolding register_default_projections register
manager-projections = refl

process_events-again_example :
    ((process_events (event 2 (room_left none lobby) ∷ []) (process_events visit manager).0).0.sink
      ≡ (process_events visit manager).0.sink)
    × ((process_events (event 2 (room_left none lobby) ∷ []) (process_events visit manager).0).1
        ≡ 0)
    × ((process_events
          (event 2 (room_left none lobby) ∷ [])
          (process_events visit manager).0).0.processed_total
        ≡ (process_events visit manager).0.processed_total)
unfolding register_default_projections register
process_events-again_example =
    process_events-again (vehicle_state_projection reading)
      (room_membership_projection
        ∷ geofence_violation_projection
        ∷ sequence_projection reading
        ∷ [])
      manager visit (event 2 (room_left none lobby) ∷ []) manager-projections
      (default-IsReliable Key reading) visit-inside

visit-IsOwn : All (λ e. IsOwn ann e) visit
visit-IsOwn = ((refl, refl, refl), ((refl, refl, refl), tt))

get_room_members-replay_example :
    KeySet.mem ann (get_room_members lobby (project_members {N = ℕ} visit new_sink))
    ≡ KeySet.mem lobby (replay vehicle_class visit new_vehicle).rooms
get_room_members-replay_example = get_room_members-replay ℕ ann lobby visit visit-IsOwn
