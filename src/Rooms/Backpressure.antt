-- ===== src/Rooms/Backpressure.antt =====
-- The sending of src/room-manager.js under backpressure: `_broadcastWithBackpressure`,
-- `_drainCoalescedMessages` and `_startSlowConsumerTimeout`. A socket's openness and its
-- `bufferedAmount` are functions, and the clock's reading is an argument.
pub mod Batches
pub mod Coalescing
use real_time_spatial_tracki.Base.{
  ℕ, zero, suc, ◌+◌, Bool, true, false, not, ◌&&◌, ◌||◌, List, [], ◌∷◌, ◌++◌, Option, none, some,
  Key, key_dec, ite, leb, ltb, if◌then◌else◌, is_some,
}
use real_time_spatial_tracki.Base.Map
use real_time_spatial_tracki.Base.Map.{Map}
use real_time_spatial_tracki.Rooms.{ClientState, Manager}
use real_time_spatial_tracki.Rooms.Membership.{cleanup_client_state}
use real_time_spatial_tracki.Rooms.Delivery.{Platform, Message, text, value, wire_data, offer}

abbrev pub is_update : {P : Type 0} → Platform P → Message P → Bool
is_update js (text t) = false
is_update js (value v) = is_some (js.location_update v)

abbrev pub is_slow : {W P : Type 0} → Option (ClientState W P) → Bool
is_slow none = false
is_slow (some state) = is_some state.slow_since

-- The message as the client's coalesced one. Only an object is kept.
abbrev pub kept_value : {P : Type 0} → Message P → Option P
kept_value (text t) = none
kept_value (value v) = some v

module _ {W P : Type 0} where
  -- The client becomes slow, and its timer starts: `_startSlowConsumerTimeout` with the assignment before
  -- it.
  unfoldable pub mark_slow : ℕ → Key → Manager W P → Manager W P
  mark_slow now c m = elim (Map.get c m.client_state) [
    | none ↦ m
    | some state ↦ if is_some state.slow_since then m else record m {
      client_state =
          Map.set c
            (record state {
              slow_since = some now;
              timeout = some (c, now + m.config.slow_consumer_timeout);
            })
            m.client_state;
    }
  ]

  unfoldable pub coalesce : Key → Option P → Manager W P → Manager W P
  coalesce c message m = elim (Map.get c m.client_state) [
    | none ↦ m
    | some state ↦ record m {
      client_state = Map.set c (record state { coalesced_message = message }) m.client_state;
    }
  ]

  -- The timer of the client's state fires. Its callback names the client for which it was started. The
  -- result has the socket that is closed.
  unfoldable pub fire_slow : (W → Bool) → ℕ → Key → Manager W P → Manager W P × List W
  unfolding cleanup_client_state
  fire_slow is_open now c m = elim (Map.get c m.client_state) [
    | none ↦ (m, [])
    | some state ↦ elim state.timeout [
      | none ↦ (m, [])
      | some (owner, at) ↦
          if ltb now at
          then (m, [])
          else let fired : Manager W P = record m {
            client_state = Map.set c (record state { timeout = none }) m.client_state;
          } in
            if is_some state.slow_since
            then (cleanup_client_state owner fired, if is_open state.ws then state.ws ∷ [] else [])
            else (fired, [])
    ]
  ]

module _ {W P : Type 0} (js : Platform P) (is_open : W → Bool) (buffered : W → ℕ) where
  -- A member that the window has admitted: the message is sent, or kept if the client is slow and it is
  -- a location update.
  unfoldable pub deliver : ℕ → Message P → Key → W → Manager W P → Manager W P × List (W × Key)
  unfolding mark_slow coalesce wire_data
  deliver now message c ws m =
      let exceeds = ltb m.config.high_water_mark (buffered ws) in
      let slow = is_slow (Map.get c m.client_state) in
      let marked = if exceeds then mark_slow now c m else m in
      if (slow || exceeds) && is_update js message
      then (coalesce c (kept_value message) marked, [])
      else (marked, (ws, wire_data js message) ∷ [])

  -- One turn of the inner loop of `processBatch`.
  unfoldable pub visit :
      ℕ → Key → Message P → Option Key → Key → W → Manager W P → Manager W P × List (W × Key)
  unfolding offer deliver
  visit now r message exclude c ws m =
      let skip = elim exclude as (λ _. Bool) [
        | none ↦ false
        | some x ↦ ite (key_dec c x) true false
      ] in
      if skip || not (is_open ws)
      then (m, [])
      else (let (n, admitted) = offer c r m in
          if admitted then deliver now message c ws n else (n, []))

  -- The inner loop, over at most so many members: the new manager, what was sent, and the members that
  -- are left.
  unfoldable pub visit_batch :
      ℕ
      → Key
      → Message P
      → Option Key
      → ℕ
      → Map W
      → Manager W P
      → (Manager W P × List (W × Key)) × Map W
  unfolding visit
  visit_batch now r message exclude zero entries m = ((m, []), entries)
  visit_batch now r message exclude (suc n) [] m = ((m, []), [])
  visit_batch now r message exclude (suc n) ((c, ws) ∷ entries) m =
      let here = visit now r message exclude c ws m in
      let ((last, sent), left) = visit_batch now r message exclude n entries here.0 in
      ((last, here.1 ++ sent), left)

  -- `_drainCoalescedMessages`, over the members of the room that the broadcast found.
  unfoldable pub drain : Map W → Manager W P → Manager W P × List (W × Key)
  unfolding coalesce
  drain [] m = (m, [])
  drain ((c, ws) ∷ members) m =
      let pending : Option P = elim (Map.get c m.client_state) [
        | none ↦ none
        | some state ↦ state.coalesced_message
      ] in
      let idle = if is_open ws then coalesce c none m else m in
      let (last, sent) = drain members idle in
      elim pending [
        | none ↦ (last, sent)
        | some v ↦ (last, if is_open ws then (ws, js.stringify v) ∷ sent else sent)
      ]

  -- The turns of the event loop that a broadcast takes when nothing else runs between them, at most so
  -- many; `none` if they are not enough.
  unfoldable pub run_batches :
      ℕ
      → ℕ
      → ℕ
      → Key
      → Message P
      → Option Key
      → Map W
      → Map W
      → Manager W P
      → Option (Manager W P × List (W × Key))
  unfolding visit_batch drain
  run_batches zero batch_size now r message exclude room entries m = none
  run_batches (suc turns) batch_size now r message exclude room entries m =
      let ((n, sent), left) = visit_batch now r message exclude batch_size entries m in
      let rest = run_batches turns batch_size now r message exclude room left n in
      elim left [
        | [] ↦ (let (last, drained) = drain room n in some (last, sent ++ drained))
        | e ∷ es ↦ elim rest [ none ↦ none | some (last, more) ↦ some (last, sent ++ more) ]
      ]
