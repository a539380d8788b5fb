-- ===== src/Rooms/Delivery.antt =====
-- `broadcast` of src/room-manager.js and what it calls: suppression of duplicates, the ring buffer and
-- the flow control by acknowledgments. What it sends is returned as a list.
pub mod Ring
pub mod Flow
use real_time_spatial_tracki.Base.{
  ℕ, ◌+◌, ◌-◌, Bool, true, false, not, ◌&&◌, ◌||◌, List, [], ◌∷◌, ◌++◌, Option, none, some, Key,
  key_dec, ite, key, leb, ltb, if◌then◌else◌, is_some, or_default, length,
}
use real_time_spatial_tracki.Base.Map
use real_time_spatial_tracki.Base.Map.{Map}
use real_time_spatial_tracki.Rooms.{Limit, reached, Entry, AckState, Manager}

-- What the JavaScript platform gives: JSON, and the size of a text in bytes.
pub record Platform (P : Type 0) : Type 0 where
  -- `JSON.parse`; `none` if it throws.
  pub parse : Key → Option P
  pub stringify : P → Key
  -- A text kept as a value of its own.
  pub as_value : Key → P
  -- For an object whose `type` is "location_update": `payload?.clientId` and `payload?.timestamp`, as
  -- texts, where they are truthy.
  pub location_update : P → Option (Option Key × Option Key)
  pub entry_text : Entry P → Key
  pub byte_length : Key → ℕ

pub data Message (P : Type 0) : Type 0 where
  text : Key → Message P
  value : P → Message P

module _ {P : Type 0} (js : Platform P) where
  unfoldable pub wire_data : Message P → Key
  wire_data (text t) = t
  wire_data (value v) = js.stringify v

  unfoldable pub payload_of : Message P → P
  payload_of (text t) = or_default (js.parse t) (js.as_value t)
  payload_of (value v) = v

  -- The client and the timestamp by which an update is known, if the message is one that has both.
  unfoldable pub update_of : Message P → Option Key → Option (Key × Key)
  update_of message exclude =
      elim (elim message as (λ _. Option P) [ text t ↦ js.parse t | value v ↦ some v ]) [
        | none ↦ none
        | some v ↦ elim (js.location_update v) [
          | none ↦ none
          | some (client, timestamp) ↦ elim timestamp [
            | none ↦ none
            | some t ↦ elim client [
              | some c ↦ some (c, t)
              | none ↦ elim exclude [
                | none ↦ none
                | some x ↦ elim x [ [] ↦ none | u ∷ us ↦ some (u ∷ us, t) ]
              ]
            ]
          ]
        ]
      ]

  abbrev pub entry_bytes : Entry P → ℕ
  entry_bytes e = js.byte_length (js.entry_text e)

-- `${roomId}:${clientId}:${timestamp}`.
unfoldable pub dedup_key : Key → Key → Key → Key
dedup_key r c t = r ++ key ":" ++ c ++ key ":" ++ t

-- The first key goes once there are too many.
unfoldable pub bound_cache : ℕ → Map ℕ → Map ℕ
bound_cache limit [] = []
bound_cache limit ((k, t) ∷ m) =
    if ltb limit (length ((k, t) ∷ m)) then Map.delete k ((k, t) ∷ m) else (k, t) ∷ m

abbrev pub seen_within : ℕ → ℕ → Option ℕ → Bool
seen_within window now none = false
seen_within window now (some recorded) = leb now (recorded + window)

-- The `while` loop of `broadcast`, on the buffer and its size in bytes.
unfoldable pub trim : {P : Type 0} → Platform P → ℕ → ℕ → List (Entry P) → ℕ → List (Entry P) × ℕ
trim js size max_bytes [] bytes = ([], bytes)
trim js size max_bytes (e ∷ es) bytes =
    let rest = trim js size max_bytes es (bytes - entry_bytes js e) in
    if ltb size (length (e ∷ es)) || ltb max_bytes bytes then rest else (e ∷ es, bytes)

abbrev pub fresh_ack : AckState
fresh_ack = record { highest_acked_seq = 0; unacked_count = 0; paused = false }

-- Whether a client's window admits one more message, and its state after the attempt.
unfoldable pub offer_ack : ℕ → AckState → AckState × Bool
offer_ack window a =
    if a.paused || leb window a.unacked_count
    then (record a { paused = true }, false)
    else (record a { unacked_count = a.unacked_count + 1 }, true)

module _ {W P : Type 0} where
  abbrev pub acks_of : Key → Manager W P → Map AckState
  acks_of c m = or_default (Map.get c m.ack_state) []

  -- `_getAckState`, and the write back of what the caller changes in it.
  abbrev pub ack_of : Key → Key → Manager W P → AckState
  ack_of c r m = or_default (Map.get r (acks_of c m)) fresh_ack

  unfoldable pub put_ack : Key → Key → AckState → Manager W P → Manager W P
  put_ack c r a m = record m { ack_state = Map.set c (Map.set r a (acks_of c m)) m.ack_state }

  unfoldable pub offer : Key → Key → Manager W P → Manager W P × Bool
  unfolding put_ack offer_ack
  offer c r m = elim m.config.ack_window_size [
    | none ↦ (m, true)
    | some window ↦
        let (a, admitted) = offer_ack window (ack_of c r m) in (put_ack c r a m, admitted)
  ]

  -- The loop over a room's members, without backpressure.
  unfoldable pub send_all :
      (W → Bool) → Key → Option Key → Key → Map W → Manager W P → Manager W P × List (W × Key)
  unfolding offer
  send_all is_open r exclude wire [] m = (m, [])
  send_all is_open r exclude wire ((c, ws) ∷ members) m =
      let skip = elim exclude as (λ _. Bool) [
        | none ↦ false
        | some x ↦ ite (key_dec c x) true false
      ] in
      let step : Manager W P × Bool =
        if skip || not (is_open ws) then (m, false) else offer c r m in
      let (last, sent) = send_all is_open r exclude wire members step.0 in
      (last, if step.1 then (ws, wire) ∷ sent else sent)

  unfoldable pub is_duplicate :
      Platform P → ℕ → Key → Message P → Option Key → Manager W P → Manager W P × Bool
  unfolding update_of dedup_key bound_cache
  is_duplicate js now r message exclude m = elim (update_of js message exclude) [
    | none ↦ (m, false)
    | some (c, t) ↦
        let k = dedup_key r c t in
        if seen_within m.config.deduplication_window_ms now (Map.get k m.dedup_cache)
        then (m, true)
        else (
          record m {
            dedup_cache = bound_cache m.config.max_dedup_entries (Map.set k now m.dedup_cache);
          },
          false,
        )
  ]

  abbrev pub seq_of : Key → Manager W P → ℕ
  seq_of r m = or_default (Map.get r m.room_seq) 0

  abbrev pub buffer_of : Key → Manager W P → List (Entry P)
  buffer_of r m = or_default (Map.get r m.room_buffers) []

  abbrev pub bytes_of : Key → Manager W P → ℕ
  bytes_of r m = or_default (Map.get r m.room_buffer_bytes) 0

  -- The sequence number, the entry and the eviction: the part of `broadcast` before the sending.
  unfoldable pub store : Platform P → ℕ → Key → Key → Message P → Manager W P → Manager W P
  unfolding payload_of trim
  store js now uuid r message m =
      let seq = seq_of r m + 1 in
      let entry : Entry P = record {
        seq = seq;
        message_id = uuid;
        payload = payload_of js message;
        timestamp = now;
      } in
      let kept =
        trim js m.config.ring_buffer_size m.config.max_buffer_bytes (buffer_of r m ++ entry ∷ [])
          (bytes_of r m + entry_bytes js entry) in
      record m {
        room_seq = Map.set r seq m.room_seq;
        room_buffers = Map.set r kept.0 m.room_buffers;
        room_buffer_bytes = Map.set r kept.1 m.room_buffer_bytes;
      }

-- A broadcast in backpressure mode leaves its sending to later turns of the event loop: the room, the
-- message, the client to skip, and the members still to be visited.
pub record Job (W P : Type 0) : Type 0 where
  pub room_id : Key
  pub message : Message P
  pub exclude : Option Key
  pub entries : Map W

pub record Outcome (W P : Type 0) : Type 0 where
  pub manager : Manager W P
  pub sent : List (W × Key)
  pub job : Option (Job W P)

module _ {W P : Type 0} where
  unfoldable pub dispatch :
      Platform P → (W → Bool) → Key → Message P → Option Key → Manager W P → Outcome W P
  unfolding send_all wire_data
  dispatch js is_open r message exclude m = elim (Map.get r m.rooms) [
    | none ↦ record { manager = m; sent = []; job = none }
    | some members ↦
        if m.config.backpressure
        then record {
          manager = m;
          sent = [];
          job =
              some
                (record { room_id = r; message = message; exclude = exclude; entries = members });
        }
        else let (last, sent) = send_all is_open r exclude (wire_data js message) members m in
          record { manager = last; sent = sent; job = none }
  ]

  unfoldable pub broadcast_in :
      Platform P → (W → Bool) → ℕ → Key → Key → Message P → Option Key → Manager W P → Outcome W P
  unfolding is_duplicate store dispatch
  broadcast_in js is_open now uuid r message exclude m =
      let (noted, duplicate) = is_duplicate js now r message exclude m in
      if duplicate
      then record { manager = noted; sent = []; job = none }
      else dispatch js is_open r message exclude (store js now uuid r message noted)

  unfoldable pub broadcast :
      Platform P
      → (W → Bool)
      → ℕ
      → Key
      → Option Key
      → Message P
      → Option Key
      → Manager W P
      → Option (Outcome W P)
  unfolding broadcast_in
  broadcast js is_open now uuid none message exclude m = none
  broadcast js is_open now uuid (some r) message exclude m =
      some (broadcast_in js is_open now uuid r message exclude m)
