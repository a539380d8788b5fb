-- ===== src/EventSourcing/Aggregate.antt =====
-- `AggregateBase` of src/event-sourcing.js, over the class that extends it: `A` is the type of the fields
-- that the class adds, `S` that of their serialisation.
pub mod Replay
use real_time_spatial_tracki.Base.{
  ℕ, ◌+◌, List, [], ◌∷◌, ◌++◌, Option, none, some, Key, max, leb, filter, Bool,
}
use real_time_spatial_tracki.EventSourcing.{AggregateType, Event, Snapshot}

-- What a class gives: its constructor's fields, `mutate`, `serializeState`, `deserializeState`.
pub record Class (P A S : Type 0) : Type 0 where
  pub aggregate_type : AggregateType
  pub initial : A
  pub mutate : Event P → A → A
  pub serialize : A → S
  pub deserialize : S → A

pub record Aggregate (P A : Type 0) : Type 0 where
  pub id : Key
  pub sequence : ℕ
  pub next_seq : ℕ
  pub uncommitted : List (Event P)
  pub history : List (Event P)
  pub state : A

-- `Math.max(n, event.sequence)`, if the event has a sequence.
abbrev pub raised : ℕ → Option ℕ → ℕ
raised n none = n
raised n (some s) = max n s

abbrev pub before_cutoff : {P : Type 0} → ℕ → Event P → Bool
before_cutoff cutoff e = leb e.timestamp cutoff

module _ {P A S : Type 0} (cls : Class P A S) where
  unfoldable pub create : Key → Aggregate P A
  create id = record {
    id = id;
    sequence = 0;
    next_seq = 0;
    uncommitted = [];
    history = [];
    state = cls.initial;
  }

  unfoldable pub apply : Event P → Aggregate P A → Aggregate P A
  apply e a = record a {
    sequence = raised a.sequence e.sequence;
    next_seq = raised a.next_seq e.sequence;
    history = a.history ++ e ∷ [];
    state = cls.mutate e a.state;
  }

  unfoldable pub load_from_history : List (Event P) → Aggregate P A → Aggregate P A
  unfolding apply
  load_from_history [] a = a
  load_from_history (e ∷ events) a = load_from_history events (apply e a)

  -- `record` of an event that has a sequence.
  unfoldable pub stage : Event P → Aggregate P A → Aggregate P A
  unfolding apply
  stage e a =
      apply e (record a {
        sequence = raised a.sequence e.sequence;
        uncommitted = a.uncommitted ++ e ∷ [];
      })

  -- `record`: the next number is drawn if the event has none.
  unfoldable pub record_event : Event P → Aggregate P A → Aggregate P A
  unfolding stage
  record_event e a = elim e.sequence [
    | some n ↦ stage e a
    | none ↦
        stage (record e { sequence = some (a.next_seq + 1) })
          (record a { next_seq = a.next_seq + 1 })
  ]

  unfoldable pub mark_committed : Aggregate P A → Aggregate P A
  mark_committed a = record a { uncommitted = [] }

  unfoldable pub take_snapshot : ℕ → Aggregate P A → Snapshot S
  take_snapshot now a = record {
    aggregate_id = a.id;
    aggregate_type = cls.aggregate_type;
    sequence = a.sequence;
    state = cls.serialize a.state;
    timestamp = now;
  }

  unfoldable pub restore_from_snapshot : Snapshot S → Aggregate P A → Aggregate P A
  restore_from_snapshot snapshot a = record a {
    sequence = snapshot.sequence;
    next_seq = snapshot.sequence;
    state = cls.deserialize snapshot.state;
  }

  -- `at`: the state at a time, from the events that the aggregate has applied itself.
  unfoldable pub at : ℕ → Aggregate P A → Aggregate P A
  unfolding create load_from_history
  at cutoff a = load_from_history (filter (before_cutoff cutoff) a.history) (create a.id)
