-- ===== src/Rooms/Replay.antt =====
-- `handleReconnect`, `ack` and `nack` of src/room-manager.js.
pub mod Gapless
use real_time_spatial_tracki.Base.{
  ℕ, ◌+◌, ◌-◌, Bool, true, false, not, ◌&&◌, ◌||◌, List, [], ◌∷◌, Option, none, some, Key, leb, ltb,
  ◌==◌, if◌then◌else◌, or_default, filter,
}
use real_time_spatial_tracki.Base.Map
use real_time_spatial_tracki.Base.Map.{Map}
use real_time_spatial_tracki.Rooms.{Limit, Entry, AckState, Manager}
use real_time_spatial_tracki.Rooms.Delivery.{Platform, ack_of, put_ack, seq_of, buffer_of}

pub data Reconnected (P : Type 0) : Type 0 where
  replay_complete : Reconnected P
  replay : List (Entry P) → ℕ → Reconnected P
  replay_gap : ℕ → ℕ → Reconnected P

-- `buffer[0].seq`, or the current number if the buffer is empty.
abbrev pub oldest_seq : {P : Type 0} → List (Entry P) → ℕ → ℕ
oldest_seq [] current = current
oldest_seq (e ∷ es) current = e.seq

abbrev pub is_empty {ℓ} : {A : Type ℓ} → List A → Bool
is_empty [] = true
is_empty (x ∷ xs) = false

-- `ack`: the window's state after an acknowledgment of `seq`. A window without a limit never fills.
unfoldable pub acknowledge : Limit → ℕ → AckState → AckState
acknowledge window seq a =
    let b : AckState =
      if ltb a.highest_acked_seq seq
      then record a {
        highest_acked_seq = seq;
        unacked_count = a.unacked_count - (seq - a.highest_acked_seq);
      }
      else a in
    let room : Bool = elim window [ none ↦ true | some w ↦ ltb b.unacked_count w ] in
    if b.paused && room then record b { paused = false } else b

unfoldable pub find_seq : {P : Type 0} → ℕ → List (Entry P) → Option (Entry P)
find_seq seq [] = none
find_seq seq (e ∷ es) = if e.seq == seq then some e else find_seq seq es

-- The answer to a client that has everything up to `from`.
unfoldable pub answer : {P : Type 0} → ℕ → ℕ → List (Entry P) → Reconnected P
answer from current buffer =
    let oldest = oldest_seq buffer current in
    if from == current
    then replay_complete
    else if not (is_empty buffer) && (leb oldest (from + 1) && ltb from current)
    then replay (filter (λ e. ltb from e.seq) buffer) current
    else replay_gap oldest current

module _ {W P : Type 0} where
  unfoldable pub reconnect : Key → ℕ → Option ℕ → Manager W P → Reconnected P
  unfolding answer
  reconnect r last_seq highest_acked_seq m =
      answer (or_default highest_acked_seq last_seq) (seq_of r m) (buffer_of r m)

  unfoldable pub handle_reconnect :
      Option Key → Option ℕ → Option ℕ → Manager W P → Option (Reconnected P)
  unfolding reconnect
  handle_reconnect (some r) (some last_seq) highest_acked_seq m =
      some (reconnect r last_seq highest_acked_seq m)
  handle_reconnect _ _ highest_acked_seq m = none

  unfoldable pub ack : Key → Key → ℕ → Manager W P → Manager W P
  unfolding acknowledge put_ack
  ack c r seq m = put_ack c r (acknowledge m.config.ack_window_size seq (ack_of c r m)) m

  -- `nack`: what is sent again, to that client alone.
  unfoldable pub nack : Platform P → (W → Bool) → Key → Key → ℕ → Manager W P → List (W × Key)
  unfolding find_seq
  nack js is_open c r seq m = elim (find_seq seq (buffer_of r m)) [
    | none ↦ []
    | some e ↦ elim (Map.get r m.rooms) [
      | none ↦ []
      | some members ↦ elim (Map.get c members) [
        | none ↦ []
        | some ws ↦ if is_open ws then (ws, js.entry_text e) ∷ [] else []
      ]
    ]
  ]
