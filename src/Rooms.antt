-- ===== src/Rooms.antt =====
-- src/room-manager.js: the state of `RoomManager`. `W` is the type of sockets, `P` that of the values
-- which JSON texts stand for.
pub mod Membership
pub mod Delivery
pub mod Replay
pub mod Backpressure
pub mod Statistics
mod Tests
use real_time_spatial_tracki.Base.{
  ℕ, ◌+◌, Bool, true, false, ◌||◌, List, [], ◌∷◌, Option, none, some, Key, leb, is_some,
}
use real_time_spatial_tracki.Base.Map.{Map}

-- A limit; `none` is `Infinity`.
abbrev pub Limit : Type 0
Limit = Option ℕ

-- `limit !== Infinity && count >= limit`.
abbrev pub reached : Limit → ℕ → Bool
reached none count = false
reached (some limit) count = leb limit count

pub record Config : Type 0 where
  pub max_room_size : Limit
  pub max_rooms_per_client : Limit
  pub max_members_per_room : Limit
  pub max_rooms : Limit
  pub ring_buffer_size : ℕ
  pub max_buffer_bytes : ℕ
  pub deduplication_window_ms : ℕ
  pub max_dedup_entries : ℕ
  pub backpressure : Bool
  pub high_water_mark : ℕ
  pub slow_consumer_timeout : ℕ
  pub batch_size : ℕ
  pub circuit_breaker : Bool
  pub memory_threshold_bytes : ℕ
  pub recovery_threshold_bytes : ℕ
  pub ack_window_size : Limit

-- `_useNewJoinFormat`.
abbrev pub use_new_join_format : Config → Bool
use_new_join_format c =
    is_some c.max_rooms_per_client
    || is_some c.max_members_per_room
    || is_some c.max_rooms
    || c.circuit_breaker

-- A message of a room's ring buffer.
pub record Entry (P : Type 0) : Type 0 where
  pub seq : ℕ
  pub message_id : Key
  pub payload : P
  pub timestamp : ℕ

pub record AckState : Type 0 where
  pub highest_acked_seq : ℕ
  pub unacked_count : ℕ
  pub paused : Bool

-- What backpressure knows of a client; `timeout` is its pending timer: the client that the callback
-- names, and the time at which it fires.
pub record ClientState (W P : Type 0) : Type 0 where
  pub ws : W
  pub slow_since : Option ℕ
  pub coalesced_message : Option P
  pub timeout : Option (Key × ℕ)

pub record Manager (W P : Type 0) : Type 0 where
  pub config : Config
  pub rooms : Map (Map W)
  pub client_rooms : Map (List Key)
  pub room_seq : Map ℕ
  pub room_buffers : Map (List (Entry P))
  pub room_buffer_bytes : Map ℕ
  pub dedup_cache : Map ℕ
  pub client_state : Map (ClientState W P)
  pub total_members : ℕ
  pub breaker_open : Bool
  pub ack_state : Map (Map AckState)

-- `new RoomManager(config)`.
unfoldable pub init : {W P : Type 0} → Config → Manager W P
init config = record {
  config = config;
  rooms = [];
  client_rooms = [];
  room_seq = [];
  room_buffers = [];
  room_buffer_bytes = [];
  dedup_cache = [];
  client_state = [];
  total_members = 0;
  breaker_open = false;
  ack_state = [];
}
