-- ===== src/EventSourcing/Projections/MemorySink.antt =====
-- `MemoryProjectionSink` of src/event-sourcing.js: the read models. `N` is the type of the numbers in
-- positions. The wall-clock times at which a counter was written, which nothing reads, are left out.
use real_time_spatial_tracki.Base.{
  ℕ, ◌+◌, ◌≡◌, ap, Bool, true, false, ◌&&◌, List, [], ◌∷◌, ◌++◌, Option, none, some, Key, key,
  key_dec, arith, ite, leb, if◌then◌else◌, or_default, filter,
}
use real_time_spatial_tracki.Base.Map
use real_time_spatial_tracki.Base.Map.{Map}
use real_time_spatial_tracki.Base.KeySet

-- A vehicle's row: each field may be missing.
pub record VehicleState (N : Type 0) : Type 0 where
  pub client_id : Option Key
  pub latitude : Option N
  pub longitude : Option N
  pub altitude : Option N
  pub accuracy : Option N
  pub speed : Option N
  pub rooms : Option (List Key)
  pub location_updated_at : Option ℕ
  pub last_event_id : Option Key
  pub last_sequence : Option ℕ

pub data ViolationType : Type 0 where
  entry exit : ViolationType

pub record Violation : Type 0 where
  pub client_id : Key
  pub fence_id : Key
  pub room_id : Option Key
  pub violation_type : ViolationType
  pub timestamp : ℕ
  pub correlation_id : Option Key
  pub event_id : Key

pub record Counter : Type 0 where
  pub sequence : ℕ
  pub event_id : Key

pub record Sink (N : Type 0) : Type 0 where
  pub vehicle_states : Map (VehicleState N)
  pub room_members : Map (Map ℕ)
  pub geofence_violations : List Violation
  pub sequences : Map Counter
  pub checkpoints : Map (Key × ℕ)
  pub processed_events : Map (List Key)

abbrev pub new_sink : {N : Type 0} → Sink N
new_sink = record {
  vehicle_states = [];
  room_members = [];
  geofence_violations = [];
  sequences = [];
  checkpoints = [];
  processed_events = [];
}

abbrev pub no_state : {N : Type 0} → VehicleState N
no_state = record {
  client_id = none;
  latitude = none;
  longitude = none;
  altitude = none;
  accuracy = none;
  speed = none;
  rooms = none;
  location_updated_at = none;
  last_event_id = none;
  last_sequence = none;
}

abbrev of_client : Option Key → Violation → Bool
of_client none v = true
of_client (some id) v = ite (key_dec v.client_id id) true false

abbrev same_type : ViolationType → ViolationType → Bool
same_type entry entry = true
same_type exit exit = true
same_type _ _ = false

abbrev of_type : Option ViolationType → Violation → Bool
of_type none v = true
of_type (some t) v = same_type v.violation_type t

module _ {N : Type 0} where
  -- Every caller spreads the old row into the new one, so that the new one has all its fields.
  unfoldable pub upsert_vehicle_state : Key → VehicleState N → Sink N → Sink N
  upsert_vehicle_state client state s = record s {
    vehicle_states = Map.set client state s.vehicle_states;
  }

  abbrev pub get_vehicle_state : Key → Sink N → Option (VehicleState N)
  get_vehicle_state client s = Map.get client s.vehicle_states

  unfoldable pub add_room_member : Key → Key → ℕ → Sink N → Sink N
  add_room_member r client joined_at s = record s {
    room_members =
        Map.set r (Map.set client joined_at (or_default (Map.get r s.room_members) []))
          s.room_members;
  }

  unfoldable pub remove_room_member : Key → Key → Sink N → Sink N
  remove_room_member r client s = elim (Map.get r s.room_members) [
    | none ↦ s
    | some members ↦ record s {
      room_members = Map.set r (Map.delete client members) s.room_members;
    }
  ]

  unfoldable pub get_room_members : Key → Sink N → List Key
  get_room_members r s = Map.keys (or_default (Map.get r s.room_members) [])

  unfoldable pub add_geofence_violation : Violation → Sink N → Sink N
  add_geofence_violation v s = record s { geofence_violations = s.geofence_violations ++ v ∷ [] }

  unfoldable pub get_geofence_violations :
      Option Key → Option ViolationType → Sink N → List Violation
  get_geofence_violations client type s =
      filter (λ v. of_client client v && of_type type v) s.geofence_violations

  abbrev pub sequence_of : Key → Sink N → ℕ
  sequence_of k s = elim (Map.get k s.sequences) [ none ↦ 0 | some counter ↦ counter.sequence ]

  unfoldable pub set_sequence : Key → ℕ → Key → Sink N → Sink N
  set_sequence k sequence event_id s =
      if leb (sequence_of k s) sequence
      then record s {
        sequences = Map.set k (record { sequence = sequence; event_id = event_id }) s.sequences;
      }
      else s

  abbrev pub get_sequence : Key → Sink N → Option Counter
  get_sequence k s = Map.get k s.sequences

  unfoldable pub bump_room_sequence : Key → Key → Sink N → Sink N
  bump_room_sequence r event_id s =
      let k = key "room:" ++ r in
      record s {
        sequences =
            Map.set k (record { sequence = sequence_of k s + 1; event_id = event_id }) s.sequences;
      }

  unfoldable pub set_checkpoint : Key → Key → ℕ → Sink N → Sink N
  set_checkpoint name event_id timestamp s = record s {
    checkpoints = Map.set name (event_id, timestamp) s.checkpoints;
  }

  abbrev pub get_checkpoint : Key → Sink N → Option (Key × ℕ)
  get_checkpoint name s = Map.get name s.checkpoints

  unfoldable pub mark_event_processed : Key → Key → Sink N → Sink N
  mark_event_processed name event_id s = record s {
    processed_events =
        Map.set name (KeySet.add event_id (or_default (Map.get name s.processed_events) []))
          s.processed_events;
  }

  unfoldable pub is_event_processed : Key → Key → Sink N → Bool
  is_event_processed name event_id s =
      KeySet.mem event_id (or_default (Map.get name s.processed_events) [])

  -- What is marked stays marked, and the new mark is there.
  pub is_event_processed-mark :
      (m n : Key) (i j : Key) (s : Sink N)
      → is_event_processed m i (mark_event_processed n j s) ≡ (
          if ite (key_dec n m) true false && ite (key_dec j i) true false
          then true
          else is_event_processed m i s)
  unfolding is_event_processed mark_event_processed
  is_event_processed-mark m n i j s = elim (key_dec n m) [
    | no p ↦ ground (
      arith,
      p,
      Map.get-set m n (KeySet.add j (or_default (Map.get n s.processed_events) []))
          s.processed_events,
    )
    | yes p ↦ ground (
      arith,
      p,
      ap (λ k. Map.get k s.processed_events) p,
      Map.get-set m n (KeySet.add j (or_default (Map.get n s.processed_events) []))
          s.processed_events,
      KeySet.mem-add i j (or_default (Map.get n s.processed_events) []),
    )
  ]
