-- ===== src/Rooms/Membership.antt =====
-- Joining and leaving rooms: `join`, `leave`, `updateClientId`, `disconnect` and the queries of
-- src/room-manager.js. An argument that may be null is an option, and `none` as a result means that
-- the call throws a TypeError.
pub mod Index
use real_time_spatial_tracki.Base.{
  ℕ, ◌+◌, ◌-◌, Bool, true, false, not, ◌&&◌, ◌||◌, List, [], ◌∷◌, Option, none, some, Key, key_dec,
  ite, leb, ltb, if◌then◌else◌, is_some, or_default, length,
}
use real_time_spatial_tracki.Base.Map
use real_time_spatial_tracki.Base.Map.{Map}
use real_time_spatial_tracki.Base.KeySet
use real_time_spatial_tracki.Rooms.{
  Limit, reached, Config, use_new_join_format, Entry, AckState, ClientState, Manager,
}

pub data ErrorCode : Type 0 where
  circuit_breaker_open room_limit_exceeded room_full max_rooms_reached : ErrorCode

-- What `join` returns: nothing, `{ ok: true }`, `{ ok: false, reason: 'ROOM_FULL' }`, or an error frame.
pub data Reply : Type 0 where
  undefined ok full : Reply
  error : ErrorCode → Reply

infixl 5 ◌>>=◌
abbrev ◌>>=◌ {ℓ κ} : {A : Type ℓ} {B : Type κ} → Option A → (A → Option B) → Option B
none >>= f = none
some a >>= f = f a

-- Deletes the room if it is empty.
unfoldable pub cleanup_room {ℓ} : {W : Type ℓ} → Key → Map (Map W) → Map (Map W)
cleanup_room r rooms = elim (Map.get r rooms) [
  | none ↦ rooms
  | some members ↦ elim members [ [] ↦ Map.delete r rooms | e ∷ es ↦ rooms ]
]

-- Deletes the client's index entry if it is empty.
unfoldable pub cleanup_client : Key → Map (List Key) → Map (List Key)
cleanup_client c index = elim (Map.get c index) [
  | none ↦ index
  | some s ↦ elim s [ [] ↦ Map.delete c index | r ∷ rs ↦ index ]
]

-- `disconnect`: the loop over the client's rooms.
unfoldable pub drop_from {ℓ} : {W : Type ℓ} → Key → List Key → Map (Map W) → Map (Map W)
unfolding cleanup_room
drop_from c [] rooms = rooms
drop_from c (r ∷ rs) rooms = drop_from c rs (elim (Map.get r rooms) [
  | none ↦ rooms
  | some members ↦ cleanup_room r (Map.set r (Map.delete c members) rooms)
])

-- `updateClientId`: the loop over the old client's rooms.
unfoldable pub rename_in {ℓ} : {W : Type ℓ} → Key → Key → List Key → Map (Map W) → Map (Map W)
rename_in old new [] rooms = rooms
rename_in old new (r ∷ rs) rooms = rename_in old new rs (elim (Map.get r rooms) [
  | none ↦ rooms
  | some members ↦ elim (Map.get old members) [
    | none ↦ rooms
    | some ws ↦ Map.set r (Map.set new ws (Map.delete old members)) rooms
  ]
])

unfoldable pub add_rooms : List Key → List Key → List Key
add_rooms [] s = s
add_rooms (r ∷ rs) s = add_rooms rs (KeySet.add r s)

module _ {W P : Type 0} where
  abbrev pub room : Key → Manager W P → Map W
  room r m = or_default (Map.get r m.rooms) []

  abbrev pub rooms_of : Key → Manager W P → List Key
  rooms_of c m = or_default (Map.get c m.client_rooms) []

  unfoldable pub ensure_room : Key → Manager W P → Manager W P
  ensure_room r m = if Map.has r m.rooms then m else record m { rooms = Map.set r [] m.rooms }

  unfoldable pub ensure_client_state : Key → W → Manager W P → Manager W P
  ensure_client_state c ws m = if Map.has c m.client_state then m else record m {
    client_state =
        Map.set c (record { ws = ws; slow_since = none; coalesced_message = none; timeout = none })
          m.client_state;
  }

  -- Drops the state; its timer is cleared with it.
  unfoldable pub cleanup_client_state : Key → Manager W P → Manager W P
  cleanup_client_state c m = record m { client_state = Map.delete c m.client_state }

  -- `_checkCircuitBreaker`, at the heap's size.
  unfoldable pub check_circuit_breaker : ℕ → Manager W P → Manager W P
  check_circuit_breaker heap_used m =
      if not m.config.circuit_breaker
      then m
      else if not m.breaker_open && leb m.config.memory_threshold_bytes heap_used
      then record m { breaker_open = true }
      else if m.breaker_open && leb heap_used m.config.recovery_threshold_bytes
      then record m { breaker_open = false }
      else m

  -- The refusals of `join` that come before the room is created, in the source's order.
  unfoldable pub join_refusal : Key → Key → Manager W P → Option ErrorCode
  join_refusal c r m =
      if m.config.circuit_breaker && m.breaker_open
      then some circuit_breaker_open
      else if not (KeySet.mem r (rooms_of c m))
          && reached m.config.max_rooms_per_client (length (rooms_of c m))
      then some room_limit_exceeded
      else if not (Map.has c (room r m))
          && reached m.config.max_members_per_room (length (room r m))
      then some room_full
      else if not (Map.has r m.rooms) && reached m.config.max_rooms (length m.rooms)
      then some max_rooms_reached
      else none

  -- The membership itself, in a room that exists.
  unfoldable pub admit : Key → Key → W → Manager W P → Manager W P
  unfolding ensure_client_state
  admit c r ws m =
      let joined = record m {
        rooms = Map.set r (Map.set c ws (room r m)) m.rooms;
        client_rooms = Map.set c (KeySet.add r (rooms_of c m)) m.client_rooms;
        total_members = if Map.has c (room r m) then m.total_members else m.total_members + 1;
      } in
      if m.config.backpressure then ensure_client_state c ws joined else joined

  unfoldable pub join_room : ℕ → Key → Key → W → Manager W P → Manager W P × Reply
  unfolding check_circuit_breaker join_refusal ensure_room admit
  join_room heap_used c r ws start =
      let m = check_circuit_breaker heap_used start in
      elim (join_refusal c r m) [
        | some code ↦ (m, error code)
        | none ↦
            let made = ensure_room r m in
            if not (Map.has c (room r made))
              && reached made.config.max_room_size (length (room r made))
            then (made, if use_new_join_format made.config then error room_full else full)
            else (admit c r ws made, if use_new_join_format made.config then undefined else ok)
      ]

  unfoldable pub join :
      ℕ → Option Key → Option Key → Option W → Manager W P → Option (Manager W P × Reply)
  unfolding join_room
  join heap_used client room_id socket m = do
    c ← client
    r ← room_id
    ws ← socket
    some (join_room heap_used c r ws m)

  -- The three parts of `leave`: the room, the client's index, and the rest of the client's state.
  unfoldable pub leave_members : Key → Key → Manager W P → Manager W P
  unfolding cleanup_room
  leave_members c r m =
      if Map.has c (room r m)
      then record m {
        rooms = cleanup_room r (Map.set r (Map.delete c (room r m)) m.rooms);
        total_members = m.total_members - 1;
      }
      else m

  unfoldable pub leave_index : Key → Key → Manager W P → Manager W P
  unfolding cleanup_client
  leave_index c r m = elim (Map.get c m.client_rooms) [
    | none ↦ m
    | some s ↦ record m {
      client_rooms = cleanup_client c (Map.set c (KeySet.delete r s) m.client_rooms);
    }
  ]

  unfoldable pub leave_state : Key → Key → Manager W P → Manager W P
  unfolding cleanup_client_state
  leave_state c r m =
      let idle : Bool = elim (rooms_of c m) [ [] ↦ true | k ∷ ks ↦ false ] in
      let n = if m.config.backpressure && idle then cleanup_client_state c m else m in
      elim m.config.ack_window_size [
        | none ↦ n
        | some _ ↦ elim (Map.get c n.ack_state) [
          | none ↦ n
          | some acks ↦ elim (Map.delete r acks) [
            | [] ↦ record n { ack_state = Map.delete c n.ack_state }
            | a ∷ more ↦ record n { ack_state = Map.set c (a ∷ more) n.ack_state }
          ]
        ]
      ]

  unfoldable pub leave_room : Key → Key → Manager W P → Manager W P
  unfolding leave_members leave_index leave_state
  leave_room c r m = leave_state c r (leave_index c r (leave_members c r m))

  unfoldable pub leave : Option Key → Option Key → Manager W P → Option (Manager W P)
  unfolding leave_room
  leave client room_id m = do c ← client; r ← room_id; some (leave_room c r m)

  unfoldable pub disconnect_client : Key → Manager W P → Manager W P
  unfolding drop_from cleanup_client_state
  disconnect_client c m =
      let left : Manager W P = elim (Map.get c m.client_rooms) [
        | none ↦ m
        | some s ↦ record m {
          total_members = m.total_members - length s;
          rooms = drop_from c s m.rooms;
          client_rooms = Map.delete c m.client_rooms;
        }
      ] in
      let cleared = if m.config.backpressure then cleanup_client_state c left else left in
      record cleared { ack_state = Map.delete c cleared.ack_state }

  unfoldable pub disconnect : Option Key → Manager W P → Option (Manager W P)
  unfolding disconnect_client
  disconnect client m = do c ← client; some (disconnect_client c m)

  unfoldable pub rename_client : Key → Key → Manager W P → Manager W P
  unfolding rename_in add_rooms
  rename_client old new m = ite (key_dec old new) m (elim (Map.get old m.client_rooms) [
    | none ↦ m
    | some s ↦
        let moved = record m {
          rooms = rename_in old new s m.rooms;
          client_rooms = Map.delete old (Map.set new (add_rooms s (rooms_of new m)) m.client_rooms);
        } in
        if not m.config.backpressure then moved else elim (Map.get old m.client_state) [
          | none ↦ moved
          | some state ↦ record moved {
            client_state = Map.delete old (Map.set new state m.client_state);
          }
        ]
  ])

  unfoldable pub update_client_id : Option Key → Option Key → Manager W P → Option (Manager W P)
  unfolding rename_client
  update_client_id old_client new_client m = do
    old ← old_client
    new ← new_client
    some (rename_client old new m)

  -- The queries.
  unfoldable pub get_room_size : Option Key → Manager W P → Option ℕ
  get_room_size room_id m = do r ← room_id; some (length (room r m))

  unfoldable pub get_client_rooms : Option Key → Manager W P → Option (List Key)
  get_client_rooms client m = do c ← client; some (rooms_of c m)

  unfoldable pub room_count : Manager W P → ℕ
  room_count m = length m.rooms

  unfoldable pub client_count : Manager W P → ℕ
  client_count m = length m.client_rooms
