-- ===== src/EventSourcing/Classes.antt =====
-- The aggregates of src/event-sourcing.js: `VehicleAggregate`, `RoomAggregate` and `FleetAggregate`.
use real_time_spatial_tracki.Base.{
  ℕ, ◌+◌, List, [], ◌∷◌, Option, none, some, Key, or_default, if◌then◌else◌,
}
use real_time_spatial_tracki.Base.Map
use real_time_spatial_tracki.Base.Map.{Map}
use real_time_spatial_tracki.Base.KeySet
use real_time_spatial_tracki.EventSourcing.{vehicle, room, fleet}
use real_time_spatial_tracki.EventSourcing.Aggregate.{Class}
use real_time_spatial_tracki.EventSourcing.Payload.{
  Payload, location_update, room_joined, room_left, geofence_updated, session_resumed, message_ack,
  message_nack, other, Geometry,
}

pub record Vehicle (L F : Type 0) : Type 0 where
  pub location : Option (L × ℕ)
  pub rooms : List Key
  pub acked_seq : Map ℕ
  pub inside_geofences : List Key
  pub geofences : Map (List F)
  pub room_seqs : Map ℕ
  pub location_update_count : ℕ
  pub geofence_entry_count : ℕ
  pub geofence_exit_count : ℕ

-- The smoothed rate of messages, which nothing writes, is left out.
pub record Room : Type 0 where
  pub members : List Key
  pub message_count : ℕ

pub record Fleet (L : Type 0) : Type 0 where
  pub vehicles : Map (L × ℕ)
  pub geofence_entered : ℕ
  pub geofence_exited : ℕ
  pub nack : ℕ

-- The objects that the three classes serialise. A set or a map and the array of its members or entries
-- are the same list here. The aggregate's number stands in the snapshot.
pub record SerializedVehicle (L F : Type 0) : Type 0 where
  pub location : Option (L × ℕ)
  pub rooms : List Key
  pub acked_seq : List (Key × ℕ)
  pub inside_geofences : List Key
  pub geofences : List (Key × List F)
  pub room_seqs : List (Key × ℕ)
  pub location_update_count : ℕ
  pub geofence_entry_count : ℕ
  pub geofence_exit_count : ℕ

pub record SerializedRoom : Type 0 where
  pub members : List Key
  pub message_count : ℕ

pub record AlertCounts : Type 0 where
  pub geofence_entered : ℕ
  pub geofence_exited : ℕ
  pub nack : ℕ

pub record SerializedFleet (L : Type 0) : Type 0 where
  pub vehicles : List (Key × (L × ℕ))
  pub alert_counts : AlertCounts

pub data State (L F : Type 0) : Type 0 where
  vehicle_state : SerializedVehicle L F → State L F
  room_state : SerializedRoom → State L F
  fleet_state : SerializedFleet L → State L F

abbrev pub new_room : Room
new_room = record { members = []; message_count = 0 }

abbrev pub new_fleet : {L : Type 0} → Fleet L
new_fleet = record { vehicles = []; geofence_entered = 0; geofence_exited = 0; nack = 0 }

module _ {L F : Type 0} where
  abbrev pub new_vehicle : Vehicle L F
  new_vehicle = record {
    location = none;
    rooms = [];
    acked_seq = [];
    inside_geofences = [];
    geofences = [];
    room_seqs = [];
    location_update_count = 0;
    geofence_entry_count = 0;
    geofence_exit_count = 0;
  }

  -- The loop over the rooms of a resumed session.
  unfoldable pub resume_rooms : List (Key × Option ℕ) → Vehicle L F → Vehicle L F
  resume_rooms [] v = v
  resume_rooms ((r, acked) ∷ rooms) v = resume_rooms rooms (record v {
    rooms = KeySet.add r v.rooms;
    acked_seq = elim acked as (λ _. Map ℕ) [
      | none ↦ v.acked_seq
      | some n ↦ Map.set r n v.acked_seq
    ];
  })

  -- `mutate` of `VehicleAggregate`: an event's payload and its time.
  unfoldable pub mutate_vehicle : Payload L F → ℕ → Vehicle L F → Vehicle L F
  unfolding resume_rooms
  mutate_vehicle (location_update fix) t v = record v {
    location = some (fix, t);
    location_update_count = v.location_update_count + 1;
  }
  mutate_vehicle (room_joined client r) t v = record v {
    rooms = KeySet.add r v.rooms;
    room_seqs = if Map.has r v.room_seqs then v.room_seqs else Map.set r 0 v.room_seqs;
  }
  mutate_vehicle (room_left client r) t v = record v {
    rooms = KeySet.delete r v.rooms;
    acked_seq = Map.delete r v.acked_seq;
  }
  mutate_vehicle (geofence_updated r []) t v = record v { geofences = Map.delete r v.geofences }
  mutate_vehicle (geofence_updated r (f ∷ fences)) t v = record v {
    geofences = Map.set r (f ∷ fences) v.geofences;
  }
  mutate_vehicle (Payload.geofence_entered fence r at) t v = record v {
    inside_geofences = KeySet.add fence v.inside_geofences;
    geofence_entry_count = v.geofence_entry_count + 1;
  }
  mutate_vehicle (Payload.geofence_exited fence r at) t v = record v {
    inside_geofences = KeySet.delete fence v.inside_geofences;
    geofence_exit_count = v.geofence_exit_count + 1;
  }
  mutate_vehicle (session_resumed rooms) t v = resume_rooms rooms v
  mutate_vehicle (message_ack r seq) t v = record v { acked_seq = Map.set r seq v.acked_seq }
  mutate_vehicle (message_nack r seq reason) t v = v
  mutate_vehicle other t v = v

  abbrev serialize_vehicle : Vehicle L F → State L F
  serialize_vehicle v = vehicle_state (record {
    location = v.location;
    rooms = v.rooms;
    acked_seq = v.acked_seq;
    inside_geofences = v.inside_geofences;
    geofences = v.geofences;
    room_seqs = v.room_seqs;
    location_update_count = v.location_update_count;
    geofence_entry_count = v.geofence_entry_count;
    geofence_exit_count = v.geofence_exit_count;
  })

  -- `deserializeState` of a new vehicle; the state of another class has none of the fields, and gives the
  -- defaults.
  abbrev vehicle_of : State L F → Vehicle L F
  vehicle_of (vehicle_state s) = record {
    location = s.location;
    rooms = s.rooms;
    acked_seq = s.acked_seq;
    inside_geofences = s.inside_geofences;
    geofences = s.geofences;
    room_seqs = s.room_seqs;
    location_update_count = s.location_update_count;
    geofence_entry_count = s.geofence_entry_count;
    geofence_exit_count = s.geofence_exit_count;
  }
  vehicle_of (room_state r) = new_vehicle
  vehicle_of (fleet_state f) = new_vehicle

  unfoldable pub vehicle_class : Class (Payload L F) (Vehicle L F) (State L F)
  unfolding mutate_vehicle
  vehicle_class = record {
    aggregate_type = vehicle;
    initial = new_vehicle;
    mutate = λ e v. mutate_vehicle e.payload e.timestamp v;
    serialize = serialize_vehicle;
    deserialize = vehicle_of;
  }

  unfoldable pub mutate_room : Payload L F → Key → Room → Room
  mutate_room (room_joined client r) id m = record m {
    members = KeySet.add (or_default client id) m.members;
  }
  mutate_room (room_left client r) id m = record m {
    members = KeySet.delete (or_default client id) m.members;
  }
  mutate_room (location_update fix) id m = record m { message_count = m.message_count + 1 }
  mutate_room _ id m = m

  abbrev serialize_room : Room → State L F
  serialize_room m = room_state (record { members = m.members; message_count = m.message_count })

  abbrev room_of : State L F → Room
  room_of (room_state s) = record { members = s.members; message_count = s.message_count }
  room_of (vehicle_state v) = new_room
  room_of (fleet_state f) = new_room

  unfoldable pub room_class : Class (Payload L F) Room (State L F)
  unfolding mutate_room
  room_class = record {
    aggregate_type = room;
    initial = new_room;
    mutate = λ e m. mutate_room e.payload e.aggregate_id m;
    serialize = serialize_room;
    deserialize = room_of;
  }

  unfoldable pub mutate_fleet : Geometry L F → Payload L F → Key → ℕ → Fleet L → Fleet L
  mutate_fleet g (location_update fix) id t m = record m {
    vehicles = Map.set (or_default (g.client_of fix) id) (fix, t) m.vehicles;
  }
  mutate_fleet g (Payload.geofence_entered fence r at) id t m = record m {
    geofence_entered = m.geofence_entered + 1;
  }
  mutate_fleet g (Payload.geofence_exited fence r at) id t m = record m {
    geofence_exited = m.geofence_exited + 1;
  }
  mutate_fleet g (message_nack r seq reason) id t m = record m { nack = m.nack + 1 }
  mutate_fleet g _ id t m = m

  abbrev serialize_fleet : Fleet L → State L F
  serialize_fleet m = fleet_state (record {
    vehicles = m.vehicles;
    alert_counts = record {
      geofence_entered = m.geofence_entered;
      geofence_exited = m.geofence_exited;
      nack = m.nack;
    };
  })

  abbrev fleet_of : State L F → Fleet L
  fleet_of (fleet_state s) = record {
    vehicles = s.vehicles;
    geofence_entered = s.alert_counts.geofence_entered;
    geofence_exited = s.alert_counts.geofence_exited;
    nack = s.alert_counts.nack;
  }
  fleet_of (vehicle_state v) = new_fleet
  fleet_of (room_state r) = new_fleet

  unfoldable pub fleet_class : Geometry L F → Class (Payload L F) (Fleet L) (State L F)
  unfolding mutate_fleet
  fleet_class g = record {
    aggregate_type = fleet;
    initial = new_fleet;
    mutate = λ e m. mutate_fleet g e.payload e.aggregate_id e.timestamp m;
    serialize = serialize_fleet;
    deserialize = fleet_of;
  }
