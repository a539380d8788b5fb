-- ===== src/EventSourcing.antt =====
-- src/event-sourcing.js: events, their store, and the aggregates that are rebuilt from them. `P` is the
-- type of the events' payloads; an event's base type is the constructor of its payload. Metadata,
-- which nothing reads, is left out, and times are milliseconds.
pub mod EventType
pub mod Store
pub mod Aggregate
pub mod Repository
pub mod Payload
pub mod Classes
pub mod Dispatch
pub mod TypedEvents
pub mod Feed
pub mod Projections
pub mod Stack
mod Tests
mod ReadTests
pub mod Commands
use real_time_spatial_tracki.Base.{ℕ, Option, Key}

pub data AggregateType : Type 0 where
  vehicle room fleet : AggregateType

pub record Event (P : Type 0) : Type 0 where
  pub event_id : Key
  pub payload : P
  pub aggregate_id : Key
  pub aggregate_type : AggregateType
  pub sequence : Option ℕ
  pub timestamp : ℕ
  pub causation_id : Option Key
  pub correlation_id : Option Key

pub record Snapshot (S : Type 0) : Type 0 where
  pub aggregate_id : Key
  pub aggregate_type : AggregateType
  pub sequence : ℕ
  pub state : S
  pub timestamp : ℕ

-- What `append` and the command handlers throw.
pub data Failure : Type 0 where
  no_aggregate_id no_events no_sequence mixed_aggregates no_handler : Failure
  duplicate : Key → Failure
  conflict : ℕ → ℕ → Failure

pub data Result {ℓ} (A : Type ℓ) : Type ℓ where
  ok : A → Result A
  failed : Failure → Result A
