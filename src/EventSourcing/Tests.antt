-- ===== src/EventSourcing/Tests.antt =====
-- The theorems of event sourcing at concrete inputs: a vehicle that joins a room.
use real_time_spatial_tracki.Base.{
  ℕ, ◌≡◌, refl, Bool, true, false, ite, List, [], ◌∷◌, ◌++◌, none, some, Key, key, key_dec, ltb,
  length,
}
use real_time_spatial_tracki.Base.Map
use real_time_spatial_tracki.Base.KeySet
use real_time_spatial_tracki.EventSourcing.{Event, Result, vehicle, ok, failed, conflict}
use real_time_spatial_tracki.EventSourcing.EventType.{
  dot, letter_v, all_digits, base_event_type, base_event_type-version,
}
use real_time_spatial_tracki.EventSourcing.Store.{
  EventStore, append, refusal, assert_appendable, find_duplicate, last_sequence, insert, insert_one,
  events_of, get_snapshot, get_events,
}
use real_time_spatial_tracki.EventSourcing.Store.Stream.{Appends, append_atomic}
use real_time_spatial_tracki.EventSourcing.Aggregate.{
  Aggregate, apply, stage, record_event, load_from_history, create, mark_committed, take_snapshot,
}
use real_time_spatial_tracki.EventSourcing.Aggregate.Replay.{
  replay, IsDerived, record_event-IsDerived,
}
use real_time_spatial_tracki.EventSourcing.Repository.{Repository, get, save, schedule_snapshot}
use real_time_spatial_tracki.EventSourcing.Repository.Snapshots.{IsConsistent, get_lem}
use real_time_spatial_tracki.EventSourcing.Repository.Concurrency.{
  IsWriter, save-stale, save_commits,
}
use real_time_spatial_tracki.EventSourcing.Payload.{
  Payload, room_joined, Geometry, Draw, create_event, require_aggregate_id,
}
use real_time_spatial_tracki.EventSourcing.Classes.{
  State, Vehicle, new_vehicle, vehicle_class, room_class, mutate_vehicle, mutate_room,
}
use real_time_spatial_tracki.EventSourcing.Commands.{
  join_room, Command, World, handle_action, handle_join_room, record_and_save, save_vehicle, mirror,
}
use real_time_spatial_tracki.EventSourcing.Commands.Consistency.{IfOk}
use real_time_spatial_tracki.EventSourcing.Commands.Outcome.{IsSound}
use real_time_spatial_tracki.EventSourcing.Commands.Performed.{
  IsPerformed, handle_action-IsPerformed,
}

abbrev ann : Key
ann = key "ann"

abbrev lobby : Key
lobby = key "lobby"

-- Fixes are numbers, fences their names; a fix is inside a fence if it is beyond 10.
abbrev geometry : Geometry ℕ Key
geometry = record {
  has_position = λ fix. true;
  coordinates = λ fix. fix;
  is_inside = λ fix fence. ltb 10 fix;
  fence_id = λ fence. fence;
  fence_room = λ fence. none;
  client_of = λ fix. none;
}

abbrev draw : Draw
draw = record { now = 5; uuid = λ n. n ∷ [] }

abbrev joining : Command ℕ Key
joining = record {
  command_id = key "c1";
  client_id = ann;
  correlation_id = key "c1";
  action = join_room lobby;
}

abbrev P : Type 0
P = Payload ℕ Key

abbrev S : Type 0
S = State ℕ Key

abbrev repository : Repository S
repository = record {
  snapshot_every = 1;
  snapshots_enabled = true;
  snapshot_count = 0;
  pending_snapshots = [];
  scheduled = [];
}

abbrev nothing : EventStore P S
nothing = record { by_aggregate = []; all = []; ids = []; snapshots = []; appends_total = 0 }

-- Both repositories over one store, as `createEventSourcing` makes them.
abbrev start : World ℕ Key
start = record { vehicles = repository; rooms_repo = some repository; store = nothing }

abbrev is_room : Key → Bool
is_room id = ite (key_dec id lobby) true false

abbrev IsClient : Key → Type 0
IsClient id = is_room id ≡ false

start-IsConsistent : IsConsistent vehicle_class IsClient repository nothing
unfolding Map.get get_snapshot
start-IsConsistent = record { run = λ id. refl; taken = λ id own. tt; waiting = tt }

start-IsSound : IsSound is_room start
unfolding Map.get get_snapshot
start-IsSound = record {
  vehicles = start-IsConsistent;
  rooms = record { run = λ id. refl; taken = λ id own. tt; waiting = tt };
}

ann-IsClient : IsClient ann
unfolding key_dec
ann-IsClient = refl

lobby-is_room : is_room lobby ≡ true
unfolding key_dec
lobby-is_room = refl

abbrev joined : World ℕ Key
joined = (handle_action geometry draw joining start (join_room lobby)).0

joined-IsSound :
    IsSound is_room joined
    × IfOk
        (handle_action geometry draw joining start (join_room lobby)).1
        (IsPerformed draw joining start (join_room lobby) joined)
joined-IsSound =
    handle_action-IsPerformed geometry draw joining is_room start start-IsSound ann-IsClient
      (join_room lobby) lobby-is_room

handle_action-IsPerformed_example :
    IsSound is_room joined
    × IfOk
        (handle_action geometry draw joining start (join_room lobby)).1
        (IsPerformed draw joining start (join_room lobby) joined)
handle_action-IsPerformed_example =
    handle_action-IsPerformed geometry draw joining is_room start start-IsSound ann-IsClient
      (join_room lobby) lobby-is_room

-- The join commits an event of the vehicle and one of the room.
abbrev committed : Result (List (Event P)) → ℕ
committed (ok events) = length events
committed (failed failure) = 0

joining_commits : committed (handle_action geometry draw joining start (join_room lobby)).1 ≡ 2
unfolding handle_action handle_join_room record_and_save save_vehicle mirror require_aggregate_id
    get get_events get_snapshot load_from_history create record_event stage apply save append
    refusal assert_appendable find_duplicate last_sequence insert insert_one mark_committed
    schedule_snapshot take_snapshot create_event vehicle_class room_class mutate_vehicle mutate_room
    KeySet.mem KeySet.add Map.get Map.set key_dec
joining_commits = refl

get_lem_example :
    ((get vehicle_class ann joined.vehicles joined.store).state
      ≡ replay vehicle_class (events_of ann joined.store) new_vehicle)
    × ((get vehicle_class ann joined.vehicles joined.store).sequence
        ≡ length (events_of ann joined.store))
    × ((get vehicle_class ann joined.vehicles joined.store).uncommitted ≡ [])
unfolding vehicle_class
get_lem_example =
    get_lem vehicle_class IsClient ann joined.vehicles joined.store (λ v. refl)
      joined-IsSound.0.vehicles ann-IsClient

abbrev event : ℕ → ℕ → Event P
event id n = record {
  event_id = id ∷ [];
  payload = room_joined none lobby;
  aggregate_id = ann;
  aggregate_type = vehicle;
  sequence = some n;
  timestamp = n;
  causation_id = none;
  correlation_id = none;
}

append_atomic_example :
    Appends ann
      (append (event 1 1 ∷ event 2 2 ∷ []) (some 0) nothing).1
      nothing
      (append (event 1 1 ∷ event 2 2 ∷ []) (some 0) nothing).0
append_atomic_example = append_atomic (event 1 1) (event 2 2 ∷ []) (some 0) nothing

base_event_type-version_example :
    base_event_type (key "room_left" ++ (dot ∷ (letter_v ∷ (b'1' ∷ (b'2' ∷ []))))) ≡ key "room_left"
base_event_type-version_example =
    base_event_type-version (key "room_left") b'1' (b'2' ∷ []) (unfold all_digits in refl)

-- A writer that stages one event of a vehicle that has none yet.
abbrev unloaded : Aggregate P (Vehicle ℕ Key)
unloaded = record {
  id = ann;
  sequence = 0;
  next_seq = 0;
  uncommitted = [];
  history = [];
  state = new_vehicle;
}

unloaded-IsDerived : IsDerived vehicle_class [] unloaded
unfolding replay vehicle_class
unloaded-IsDerived = record { run = refl; next = refl; state = refl; own = tt }

abbrev writer : ℕ → Aggregate P (Vehicle ℕ Key)
writer id = record_event vehicle_class (record (event id 1) { sequence = none }) unloaded

writer-IsDerived : (id : ℕ) → IsDerived vehicle_class [] (writer id)
writer-IsDerived id =
    record_event-IsDerived vehicle_class [] (record (event id 1) { sequence = none }) unloaded
      unloaded-IsDerived refl refl

first-IsWriter :
    IsWriter vehicle_class 5 [] (event 1 1) [] (writer 1) repository nothing IsClient []
unfolding record_event stage apply find_duplicate KeySet.mem Map.get
first-IsWriter = record {
  derived = writer-IsDerived 1;
  staged = refl;
  fresh = refl;
  within = ann-IsClient;
  consistent = start-IsConsistent;
  stream = refl;
}

save_commits_example :
    ((save vehicle_class 5 (writer 1) repository nothing).result ≡ ok (event 1 1 ∷ []))
    × (events_of (writer 1).id (save vehicle_class 5 (writer 1) repository nothing).store
        ≡ event 1 1 ∷ [])
    × ((save vehicle_class 5 (writer 1) repository nothing).aggregate.uncommitted ≡ [])
    × IsDerived vehicle_class
        (event 1 1 ∷ [])
        (save vehicle_class 5 (writer 1) repository nothing).aggregate
    × IsConsistent vehicle_class IsClient
        (save vehicle_class 5 (writer 1) repository nothing).repository
        (save vehicle_class 5 (writer 1) repository nothing).store
save_commits_example =
    save_commits vehicle_class 5 [] (event 1 1) [] (writer 1) repository nothing IsClient
      first-IsWriter

-- The store and the repository after the first writer.
abbrev later_repository : Repository S
later_repository = (save vehicle_class 5 (writer 1) repository nothing).repository

abbrev later_store : EventStore P S
later_store = (save vehicle_class 5 (writer 1) repository nothing).store

second-IsWriter :
    IsWriter vehicle_class 6 []
      (event 2 1)
      []
      (writer 2)
      later_repository
      later_store
      IsClient
      (event 1 1 ∷ [])
unfolding record_event stage apply find_duplicate KeySet.mem KeySet.add Map.get Map.set key_dec save
    append refusal assert_appendable last_sequence insert insert_one
second-IsWriter =
    let c =
      save_commits vehicle_class 5 [] (event 1 1) [] (writer 1) repository nothing IsClient
        first-IsWriter in
    record {
      derived = writer-IsDerived 2;
      staged = refl;
      fresh = refl;
      within = ann-IsClient;
      consistent = c.4;
      stream = refl;
    }

save-stale_example : save vehicle_class 6 (writer 2) later_repository later_store ≡ record {
  aggregate = writer 2;
  repository = later_repository;
  store = later_store;
  result = failed (conflict 0 1);
}
save-stale_example =
    save-stale vehicle_class 6 [] (event 2 1) [] (writer 2) later_repository later_store IsClient
      (event 1 1) [] second-IsWriter
