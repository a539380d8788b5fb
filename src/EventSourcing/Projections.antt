-- ===== src/EventSourcing/Projections.antt =====
-- `ProjectionManager` of src/event-sourcing.js, over the in-memory sink.
pub mod MemorySink
pub mod Builtin
pub mod Idempotence
pub mod Reliable
pub mod Membership
use real_time_spatial_tracki.Base.{
  ℕ, ◌+◌, ◌-◌, Bool, true, false, List, [], ◌∷◌, ◌++◌, Option, none, some, Key, max, if◌then◌else◌,
  length,
}
use real_time_spatial_tracki.EventSourcing.{Event}
use real_time_spatial_tracki.EventSourcing.Feed.{sort_by_time}
use real_time_spatial_tracki.EventSourcing.Projections.MemorySink.{
  Sink, mark_event_processed, set_checkpoint, is_event_processed, new_sink,
}

-- `handle` returns the sink, and whether it came to its end; what it wrote before it threw stays. `none`
-- for the event types is all of them; a set of base types is a test of payloads.
pub record Projection (P N : Type 0) : Type 0 where
  pub name : Key
  pub event_types : Option (P → Bool)
  pub handle : Event P → Sink N → Sink N × Bool

-- What the processing of events changes.
pub record Progress (N : Type 0) : Type 0 where
  pub sink : Sink N
  pub lag_events : ℕ
  pub processed_total : ℕ
  pub last_timestamp : ℕ
  pub applied : ℕ

pub record Manager (P N : Type 0) : Type 0 where
  pub projections : List (Projection P N)
  pub sink : Sink N
  pub lag_events : ℕ
  pub processed_total : ℕ
  pub last_timestamp : ℕ

abbrev pub new_manager : {P N : Type 0} → Manager P N
new_manager = record {
  projections = [];
  sink = new_sink;
  lag_events = 0;
  processed_total = 0;
  last_timestamp = 0;
}

module _ {P N : Type 0} where
  unfoldable pub register : Projection P N → Manager P N → Manager P N
  register p m = record m { projections = m.projections ++ p ∷ [] }

  abbrev pub wants : Projection P N → Event P → Bool
  wants p e = elim p.event_types [ none ↦ true | some test ↦ test e.payload ]

  -- `_isProcessedByAll`: the in-memory sink knows the events that were processed.
  unfoldable pub is_processed_by_all : List (Projection P N) → Key → Sink N → Bool
  is_processed_by_all [] id s = false
  is_processed_by_all (p ∷ ps) id s =
      let rest = is_processed_by_all ps id s in
      if is_event_processed p.name id s then elim ps [ [] ↦ true | q ∷ qs ↦ rest ] else false

  -- The body of the loop over the projections.
  unfoldable pub project_one : Projection P N → Event P → Sink N → Sink N
  project_one p e s =
      let (next, succeeded) = p.handle e s in
      if wants p e
      then if succeeded
        then set_checkpoint p.name e.event_id e.timestamp
            (mark_event_processed p.name e.event_id next)
        else next
      else s

  -- The loop over the projections.
  unfoldable pub project : List (Projection P N) → Event P → Sink N → Sink N
  unfolding project_one
  project [] e s = s
  project (p ∷ ps) e s = project ps e (project_one p e s)

  -- The body of the loop over the events.
  unfoldable pub process_event : List (Projection P N) → Event P → Progress N → Progress N
  unfolding is_processed_by_all project
  process_event ps e q =
      if is_processed_by_all ps e.event_id q.sink
      then record q { lag_events = q.lag_events - 1 }
      else record {
        sink = project ps e q.sink;
        lag_events = q.lag_events - 1;
        processed_total = q.processed_total + 1;
        last_timestamp = max q.last_timestamp e.timestamp;
        applied = q.applied + 1;
      }

  -- The loop over the events.
  unfoldable pub process_all : List (Projection P N) → List (Event P) → Progress N → Progress N
  unfolding process_event
  process_all ps [] q = q
  process_all ps (e ∷ events) q = process_all ps events (process_event ps e q)

  abbrev pub start : List (Event P) → Manager P N → Progress N
  start ordered m = record {
    sink = m.sink;
    lag_events = m.lag_events + length ordered;
    processed_total = m.processed_total;
    last_timestamp = m.last_timestamp;
    applied = 0;
  }

  -- `processEvents`, with the number that it returns.
  unfoldable pub process_events : List (Event P) → Manager P N → Manager P N × ℕ
  unfolding process_all
  process_events events m =
      let ordered = sort_by_time events in
      let done = process_all m.projections ordered (start ordered m) in
      (
        record m {
          sink = done.sink;
          lag_events = done.lag_events;
          processed_total = done.processed_total;
          last_timestamp = done.last_timestamp;
        },
        done.applied,
      )
