-- ===== src/EventSourcing/TypedEvents.antt =====
-- The typed events of src/event-sourcing.js, as the command handlers make them: each wraps the event that
-- `createEvent` returns, and `record` unwraps it.
use real_time_spatial_tracki.Base.{ℕ, List, Option, none, Key}
use real_time_spatial_tracki.EventSourcing.{Event, vehicle}
use real_time_spatial_tracki.EventSourcing.Payload.{
  Payload, location_update, room_joined, room_left, geofence_updated, geofence_entered,
  geofence_exited, session_resumed, message_ack, message_nack, Geometry, Draw, create_event,
}

-- The options of a typed event: where its id and time come from, and the ids of its causes.
pub record Options : Type 0 where
  pub draw : Draw
  pub number : ℕ
  pub causation_id : Key
  pub correlation_id : Key

module _ {L F : Type 0} (opts : Options) where
  abbrev vehicle_event : Key → Payload L F → Event (Payload L F)
  vehicle_event id payload =
      create_event opts.draw opts.number vehicle id opts.causation_id opts.correlation_id payload

  abbrev pub location_updated_event : Key → L → Event (Payload L F)
  location_updated_event id payload = vehicle_event id (location_update payload)

  abbrev pub room_joined_event : Key → Key → Event (Payload L F)
  room_joined_event client r = vehicle_event client (room_joined none r)

  abbrev pub room_left_event : Key → Key → Event (Payload L F)
  room_left_event client r = vehicle_event client (room_left none r)

  abbrev pub geofence_updated_event : Key → Key → List F → Event (Payload L F)
  geofence_updated_event client r fences = vehicle_event client (geofence_updated r fences)

  abbrev pub geofence_entered_event : Geometry L F → Key → F → L → Event (Payload L F)
  geofence_entered_event g client fence at =
      vehicle_event client (geofence_entered (g.fence_id fence) (g.fence_room fence) at)

  abbrev pub geofence_exited_event : Geometry L F → Key → F → L → Event (Payload L F)
  geofence_exited_event g client fence at =
      vehicle_event client (geofence_exited (g.fence_id fence) (g.fence_room fence) at)

  abbrev pub session_resumed_event : Key → List (Key × Option ℕ) → Event (Payload L F)
  session_resumed_event client rooms = vehicle_event client (session_resumed rooms)

  abbrev pub message_acknowledged_event : Key → Key → ℕ → Event (Payload L F)
  message_acknowledged_event client r seq = vehicle_event client (message_ack r seq)

  abbrev pub message_nacked_event : Key → Key → ℕ → Option Key → Event (Payload L F)
  message_nacked_event client r seq reason = vehicle_event client (message_nack r seq reason)
