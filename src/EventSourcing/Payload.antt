-- ===== src/EventSourcing/Payload.antt =====
-- The payloads of src/event-sourcing.js. `L` is the type of location payloads and `F` that of fences.
use real_time_spatial_tracki.Base.{ℕ, Bool, List, [], ◌∷◌, Option, some, none, Key}
use real_time_spatial_tracki.EventSourcing.{AggregateType, Event, Result, failed, no_aggregate_id}

-- One constructor for each base type of `EventTypes`, with the fields that its typed event has. A mirrored
-- event of a room names the client too. Anything but a list of fences stands as the empty one.
pub data Payload (L F : Type 0) : Type 0 where
  location_update : L → Payload L F
  room_joined : Option Key → Key → Payload L F
  room_left : Option Key → Key → Payload L F
  geofence_updated : Key → List F → Payload L F
  geofence_entered : Key → Option Key → L → Payload L F
  geofence_exited : Key → Option Key → L → Payload L F
  session_resumed : List (Key × Option ℕ) → Payload L F
  message_ack : Key → ℕ → Payload L F
  message_nack : Key → ℕ → Option Key → Payload L F
  other : Payload L F

-- What is read of locations and fences, with the distance between two points of the globe, which is
-- computed in floating point.
pub record Geometry (L F : Type 0) : Type 0 where
  -- Latitude and longitude are finite numbers.
  pub has_position : L → Bool
  -- `{ latitude, longitude }`.
  pub coordinates : L → L
  -- `haversineM(…) <= fence.radiusM`.
  pub is_inside : L → F → Bool
  pub fence_id : F → Key
  pub fence_room : F → Option Key
  -- `payload.clientId`.
  pub client_of : L → Option Key

-- What one command draws from the platform: the time, and its event ids in order.
pub record Draw : Type 0 where
  pub now : ℕ
  pub uuid : ℕ → Key

-- The check with which `createEvent` begins: a handler that makes an event for an empty id throws, and
-- what it had changed stays. The types of events are constants, none of them empty.
unfoldable pub require_aggregate_id : {W A : Type 0} → Key → W → W × Result A → W × Result A
require_aggregate_id [] w done = (w, failed no_aggregate_id)
require_aggregate_id (c ∷ id) w done = done

-- What `createEvent` returns after its checks, as the command handlers call it.
unfoldable pub create_event :
    {L F : Type 0} → Draw → ℕ → AggregateType → Key → Key → Key → Payload L F → Event (Payload L F)
create_event draw n type id causation_id correlation_id payload = record {
  event_id = draw.uuid n;
  payload = payload;
  aggregate_id = id;
  aggregate_type = type;
  sequence = none;
  timestamp = draw.now;
  causation_id = some causation_id;
  correlation_id = some correlation_id;
}
