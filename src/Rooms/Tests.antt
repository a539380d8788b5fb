-- ===== src/Rooms/Tests.antt =====
-- The theorems on rooms at concrete inputs, and runs of the definitions. Sockets are numbers, and a
-- JSON value is its text.
use real_time_spatial_tracki.Base.{
  ℕ, ◌+◌, ◌≡◌, ◌≢◌, refl, true, false, [], ◌∷◌, none, some, Key, key, key_dec, arith, length,
  or_default, if◌then◌else◌, ite,
}
use real_time_spatial_tracki.Base.Map
use real_time_spatial_tracki.Base.Map.{Map}
use real_time_spatial_tracki.Base.KeySet
use real_time_spatial_tracki.Rooms.{Config, AckState, Manager, init, reached}
use real_time_spatial_tracki.Rooms.Membership
use real_time_spatial_tracki.Rooms.Membership.{
  room, join_room, join_refusal, check_circuit_breaker, leave_room, disconnect_client,
  rename_client,
}
use real_time_spatial_tracki.Rooms.Membership.Index.{IsValid, members_total}
use real_time_spatial_tracki.Rooms.Membership.Index.Joining.{join_room-IsValid, join_zero_size}
use real_time_spatial_tracki.Rooms.Membership.Index.Departures.{
  leave-IsValid, disconnect-IsValid, disconnect_leaves_nothing,
}
use real_time_spatial_tracki.Rooms.Membership.Index.Renaming.{rename_overcounts}
use real_time_spatial_tracki.Rooms.Delivery.{
  Platform, Message, text, payload_of, trim, store, buffer_of, seq_of, send_all,
}
use real_time_spatial_tracki.Rooms.Delivery.Ring.{Runs, IsRing, store-IsRing}
use real_time_spatial_tracki.Rooms.Delivery.Flow.{
  IsFlowing, AllFlow, fresh-IsFlowing, send_all-AllFlow,
}
use real_time_spatial_tracki.Rooms.Backpressure.{coalesce, drain, run_batches}
use real_time_spatial_tracki.Rooms.Backpressure.Batches.{send_and_drain, run_batches_lem}
use real_time_spatial_tracki.Rooms.Backpressure.Coalescing.{coalesced_of, drain-coalesced_of}
use real_time_spatial_tracki.Rooms.Replay.{reconnect}
use real_time_spatial_tracki.Rooms.Replay.Gapless.{Tells, reconnect-Tells}

abbrev config : Config
config = record {
  max_room_size = some 2;
  max_rooms_per_client = none;
  max_members_per_room = none;
  max_rooms = none;
  ring_buffer_size = 2;
  max_buffer_bytes = 100;
  deduplication_window_ms = 1000;
  max_dedup_entries = 10;
  backpressure = true;
  high_water_mark = 100;
  slow_consumer_timeout = 50;
  batch_size = 2;
  circuit_breaker = false;
  memory_threshold_bytes = 1000;
  recovery_threshold_bytes = 500;
  ack_window_size = some 1;
}

abbrev Gateway : Type 0
Gateway = Manager ℕ Key

abbrev ann : Key
ann = key "ann"

abbrev bob : Key
bob = key "bob"

abbrev hall : Key
hall = key "hall"

abbrev empty : Gateway
empty = init config

empty-IsValid : IsValid empty
unfolding init Map.get KeySet.mem members_total Map.sum_by
empty-IsValid = record {
  agree = λ c r. refl;
  distinct = tt;
  occupied = λ r. tt;
  unique = λ c. tt;
  total = refl;
}

abbrev one : Gateway
one = (join_room 0 ann hall 1 empty).0

abbrev two : Gateway
two = (join_room 0 bob hall 2 one).0

one-IsValid : IsValid one
unfolding init
one-IsValid = join_room-IsValid 0 ann hall 1 empty refl empty-IsValid

config_kept : reached one.config.max_room_size 0 ≡ false
unfolding init join_room check_circuit_breaker join_refusal Membership.ensure_room Membership.admit
    Membership.ensure_client_state Map.get KeySet.mem Map.set key_dec
config_kept = refl

join_room-IsValid_example : IsValid (join_room 0 bob hall 2 one).0
join_room-IsValid_example = join_room-IsValid 0 bob hall 2 one config_kept one-IsValid

two-IsValid : IsValid two
two-IsValid = join_room-IsValid 0 bob hall 2 one config_kept one-IsValid

leave-IsValid_example : IsValid (leave_room ann hall two)
leave-IsValid_example = leave-IsValid ann two hall two-IsValid

disconnect-IsValid_example : IsValid (disconnect_client ann two)
disconnect-IsValid_example = disconnect-IsValid ann two two-IsValid

disconnect_leaves_nothing_example :
    ((d r : Key)
      → Map.has d (room r (disconnect_client ann two))
        ≡ ite (key_dec ann d) false (Map.has d (room r two)))
    × (Map.get ann (disconnect_client ann two).client_rooms ≡ none)
    × (Map.get ann (disconnect_client ann two).ack_state ≡ none)
    × (Map.get ann (disconnect_client ann two).client_state
        ≡ (if two.config.backpressure then none else Map.get ann two.client_state))
disconnect_leaves_nothing_example = disconnect_leaves_nothing ann two two-IsValid

abbrev js : Platform Key
js = record {
  parse = λ t. none;
  stringify = λ v. v;
  as_value = λ t. t;
  location_update = λ v. none;
  entry_text = λ e. e.payload;
  byte_length = λ t. length t;
}

empty-IsRing : IsRing js hall empty
unfolding init Map.get
empty-IsRing = record { run = (0, refl); short = omega arith; small = omega arith; exact = refl }

abbrev hello : Message Key
hello = text (key "hello")

abbrev posted : Gateway
posted = store js 100 (key "m1") hall hello empty

store-IsRing_example : IsRing js hall (store js 200 (key "m2") hall hello posted)
store-IsRing_example =
    store-IsRing js 200 (key "m2") hall hall hello posted posted-IsRing posted-IsRing
  where
    posted-IsRing : IsRing js hall posted
    posted-IsRing = store-IsRing js 100 (key "m1") hall hall hello empty empty-IsRing empty-IsRing

abbrev thrice : Gateway
thrice = store js 300 (key "m3") hall hello (store js 200 (key "m2") hall hello posted)

-- The first of three messages has left the buffer of two.
thrice_run : Runs 1 (buffer_of hall thrice) (seq_of hall thrice)
unfolding init store payload_of trim Map.get Map.set key_dec
thrice_run = (refl, (refl, refl))

reconnect-Tells_example :
    Tells (reconnect hall 0 (some 1) thrice) 1 (or_default (some 1) 0) (seq_of hall thrice)
reconnect-Tells_example = reconnect-Tells hall 0 (some 1) thrice 1 thrice_run

abbrev full_window : AckState
full_window = record { highest_acked_seq = 3; unacked_count = 2; paused = true }

full_window-IsFlowing : IsFlowing 2 full_window
full_window-IsFlowing = record { within = omega arith; full = λ h. omega arith }

empty-AllFlow : AllFlow 1 empty × (empty.config.ack_window_size ≡ some 1)
unfolding init Map.get
empty-AllFlow = (λ d s. fresh-IsFlowing 1, refl)

send_all-AllFlow_example :
    AllFlow 1 (send_all (λ ws. true) hall none (key "hello") ((ann, 1) ∷ (bob, 2) ∷ []) empty).0
    × ((send_all
          (λ ws. true)
          hall
          none
          (key "hello")
          ((ann, 1) ∷ (bob, 2) ∷ [])
          empty).0.config.ack_window_size
        ≡ some 1)
send_all-AllFlow_example =
    send_all-AllFlow 1 (λ ws. true) hall none (key "hello") ((ann, 1) ∷ (bob, 2) ∷ []) empty
      empty-AllFlow

abbrev closed : Gateway
closed = init (record config { max_room_size = some 0 })

not_refused : join_refusal ann hall (check_circuit_breaker 0 closed) ≡ none
unfolding init check_circuit_breaker join_refusal Map.get KeySet.mem
not_refused = refl

join_zero_size_example : Map.get hall (join_room 0 ann hall 1 closed).0.rooms ≡ some []
unfolding init Map.get
join_zero_size_example = join_zero_size 0 ann hall 1 closed not_refused refl refl

ann_rooms : Map.get ann two.client_rooms ≡ some (hall ∷ [])
unfolding init join_room check_circuit_breaker join_refusal Membership.ensure_room Membership.admit
    Membership.ensure_client_state Map.get KeySet.mem KeySet.add Map.set key_dec
ann_rooms = refl

bob_there : Map.has bob (room hall two) ≡ true
unfolding init join_room check_circuit_breaker join_refusal Membership.ensure_room Membership.admit
    Membership.ensure_client_state Map.get KeySet.mem KeySet.add Map.set key_dec
bob_there = refl

ann_ne_bob : ann ≢ bob
ann_ne_bob h = absurd (ground (arith, h))

rename_overcounts_example :
    (rename_client ann bob two).total_members ≡ members_total (rename_client ann bob two).rooms + 1
rename_overcounts_example =
    rename_overcounts ann bob hall two two-IsValid ann_ne_bob ann_rooms bob_there

abbrev crowd : Map ℕ
crowd = (ann, 1) ∷ (bob, 2) ∷ (key "cid", 3) ∷ []

run_batches_lem_example :
    run_batches js (λ ws. true) (λ ws. ws) 4 2 100 hall hello none crowd crowd two
    ≡ some (send_and_drain js (λ ws. true) (λ ws. ws) 100 hall hello none crowd crowd two)
run_batches_lem_example =
    run_batches_lem js (λ ws. true) (λ ws. ws) 100 hall hello none 4 2 crowd crowd two (omega arith)
      (omega arith)

bob_in_crowd : Map.get bob crowd ≡ some 2
unfolding Map.get key_dec
bob_in_crowd = refl

abbrev keeping : Gateway
keeping = coalesce bob (some (key "here")) two

drain-coalesced_of_example :
    coalesced_of bob (drain js (λ ws. true) (λ ws. ws) crowd keeping).0 ≡ none
drain-coalesced_of_example =
    drain-coalesced_of js (λ ws. true) (λ ws. ws) bob 2 crowd keeping bob_in_crowd refl
