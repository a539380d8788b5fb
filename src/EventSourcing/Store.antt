-- ===== src/EventSourcing/Store.antt =====
-- `InMemoryEventStore` of src/event-sourcing.js. `S` is the type of the serialised states in snapshots.
pub mod Stream
use real_time_spatial_tracki.Base.{
  ℕ, ◌+◌, Bool, true, false, not, ◌&&◌, ◌||◌, List, [], ◌∷◌, ◌++◌, Option, none, some, Key, key_dec,
  ite, leb, ltb, ◌==◌, if◌then◌else◌, or_default, is_some, filter, any, length,
}
use real_time_spatial_tracki.Base.Map
use real_time_spatial_tracki.Base.Map.{Map}
use real_time_spatial_tracki.Base.KeySet
use real_time_spatial_tracki.EventSourcing.{
  Event, Snapshot, Failure, no_events, no_sequence, mixed_aggregates, duplicate, conflict, Result,
  ok, failed,
}

pub record EventStore (P S : Type 0) : Type 0 where
  pub by_aggregate : Map (List (Event P))
  pub all : List (Event P)
  pub ids : List Key
  pub snapshots : Map (Snapshot S)
  pub appends_total : ℕ

unfoldable pub empty : {P S : Type 0} → EventStore P S
empty = record { by_aggregate = []; all = []; ids = []; snapshots = []; appends_total = 0 }

module _ {P : Type 0} where
  abbrev pub lacks_sequence : Event P → Bool
  lacks_sequence e = not (is_some e.sequence)

  abbrev pub of_other : Key → Event P → Bool
  of_other id e = ite (key_dec e.aggregate_id id) false true

  -- `assertAppendable`: the events that are no events at all are ruled out by their type.
  unfoldable pub assert_appendable : List (Event P) → Option Failure
  assert_appendable [] = some no_events
  assert_appendable (e ∷ events) =
      if any lacks_sequence (e ∷ events)
      then some no_sequence
      else if any (of_other e.aggregate_id) events
      then some mixed_aggregates
      else none

  unfoldable pub find_duplicate : List Key → List (Event P) → Option Failure
  find_duplicate ids [] = none
  find_duplicate ids (e ∷ events) =
      let rest = find_duplicate ids events in
      if KeySet.mem e.event_id ids then some (duplicate e.event_id) else rest

  -- The last event's sequence, 0 if there is none.
  unfoldable pub last_sequence : List (Event P) → ℕ
  last_sequence [] = 0
  last_sequence (e ∷ events) =
      let rest = last_sequence events in
      elim events [ [] ↦ or_default e.sequence 0 | x ∷ more ↦ rest ]

  abbrev pub from_to : ℕ → Option ℕ → Event P → Bool
  from_to from to e = elim e.sequence [
    | none ↦ false
    | some n ↦ leb from n && elim to as (λ _. Bool) [ none ↦ true | some last ↦ leb n last ]
  ]

abbrev pub conflict_at : Option ℕ → ℕ → Option Failure
conflict_at none current = none
conflict_at (some expected) current =
    if current == expected then none else some (conflict expected current)

module _ {P S : Type 0} where
  abbrev pub events_of : Key → EventStore P S → List (Event P)
  events_of id store = or_default (Map.get id store.by_aggregate) []

  -- The checks of `append`, in the source's order.
  unfoldable pub refusal : List (Event P) → Option ℕ → EventStore P S → Option Failure
  unfolding assert_appendable find_duplicate last_sequence
  refusal [] expected store = some no_events
  refusal (e ∷ events) expected store = elim (assert_appendable (e ∷ events)) [
    | some failure ↦ some failure
    | none ↦ elim (find_duplicate store.ids (e ∷ events)) [
      | some failure ↦ some failure
      | none ↦ conflict_at expected (last_sequence (events_of e.aggregate_id store))
    ]
  ]

  unfoldable pub insert_one : Event P → EventStore P S → EventStore P S
  insert_one e store = record store {
    ids = KeySet.add e.event_id store.ids;
    by_aggregate =
        Map.set e.aggregate_id (events_of e.aggregate_id store ++ e ∷ []) store.by_aggregate;
    all = store.all ++ e ∷ [];
  }

  -- The loop that inserts the events.
  unfoldable pub insert : List (Event P) → EventStore P S → EventStore P S
  unfolding insert_one
  insert [] store = store
  insert (e ∷ events) store = insert events (insert_one e store)

  -- `append`. Nothing in the loop throws, so its rollback is never taken.
  unfoldable pub append :
      List (Event P) → Option ℕ → EventStore P S → EventStore P S × Result (List (Event P))
  unfolding refusal insert
  append events expected store = elim (refusal events expected store) [
    | some failure ↦ (store, failed failure)
    | none ↦
        let inserted = insert events store in
        (record inserted { appends_total = inserted.appends_total + 1 }, ok events)
  ]

  unfoldable pub get_events : Key → Option ℕ → Option ℕ → EventStore P S → List (Event P)
  get_events id from to store = filter (from_to (or_default from 1) to) (events_of id store)

  unfoldable pub get_snapshot : Key → EventStore P S → Option (Snapshot S)
  get_snapshot id store = Map.get id store.snapshots

  unfoldable pub save_snapshot : Snapshot S → EventStore P S → EventStore P S
  save_snapshot snapshot store = record store {
    snapshots = Map.set snapshot.aggregate_id snapshot store.snapshots;
  }

  unfoldable pub close : EventStore P S → EventStore P S
  close store = record store { by_aggregate = []; all = []; ids = []; snapshots = [] }
