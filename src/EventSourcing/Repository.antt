-- ===== src/EventSourcing/Repository.antt =====
-- `AggregateRepository` of src/event-sourcing.js over the in-memory store, which its calls are given.
-- The snapshots that wait for their turn of the event loop are a list.
pub mod Snapshots
pub mod Concurrency
pub mod Writing
use real_time_spatial_tracki.Base.{
  ℕ, zero, suc, ◌+◌, ◌-◌, ◌%◌, Bool, true, false, not, ◌&&◌, List, [], ◌∷◌, ◌++◌, Option, none,
  some, Key, ltb, ◌==◌, if◌then◌else◌, length, max,
}
use real_time_spatial_tracki.Base.KeySet
use real_time_spatial_tracki.EventSourcing.{Event, Snapshot, Result, ok, failed}
use real_time_spatial_tracki.EventSourcing.Store.{
  EventStore, append, get_events, get_snapshot, save_snapshot,
}
use real_time_spatial_tracki.EventSourcing.Aggregate.{
  Class, Aggregate, create, load_from_history, mark_committed, take_snapshot, restore_from_snapshot,
}

pub record Repository (S : Type 0) : Type 0 where
  pub snapshot_every : ℕ
  pub snapshots_enabled : Bool
  pub snapshot_count : ℕ
  pub pending_snapshots : List Key
  pub scheduled : List (Snapshot S)

-- The constructor. `none` for the interval is the default.
unfoldable pub init : {S : Type 0} → Option ℕ → Bool → Repository S
init snapshot_every snapshots_enabled = record {
  snapshot_every = elim snapshot_every as (λ _. ℕ) [ none ↦ 1000 | some n ↦ max 1 n ];
  snapshots_enabled = snapshots_enabled;
  snapshot_count = 0;
  pending_snapshots = [];
  scheduled = [];
}

-- `a % b`. The interval is never 0.
abbrev pub is_multiple : ℕ → ℕ → Bool
is_multiple n zero = false
is_multiple n (suc k) = n % suc k == 0

pub record Saved (P A S : Type 0) : Type 0 where
  pub aggregate : Aggregate P A
  pub repository : Repository S
  pub store : EventStore P S
  pub result : Result (List (Event P))

module _ {P A S : Type 0} (cls : Class P A S) where
  unfoldable pub get : Key → Repository S → EventStore P S → Aggregate P A
  unfolding create load_from_history restore_from_snapshot get_events get_snapshot
  get id repo store =
      let whole = load_from_history cls (get_events id none none store) (create cls id) in
      if repo.snapshots_enabled
      then elim (get_snapshot id store) [
        | none ↦ whole
        | some snapshot ↦
            load_from_history cls (get_events id (some (snapshot.sequence + 1)) none store)
              (restore_from_snapshot cls snapshot (create cls id))
      ]
      else whole

  unfoldable pub schedule_snapshot : ℕ → Aggregate P A → Repository S → Repository S
  unfolding take_snapshot
  schedule_snapshot now a repo = record repo {
    pending_snapshots = KeySet.add a.id repo.pending_snapshots;
    scheduled = repo.scheduled ++ take_snapshot cls now a ∷ [];
  }

  abbrev pub snapshot_due : Aggregate P A → Repository S → Bool
  snapshot_due a repo =
      repo.snapshots_enabled
      && (ltb 0 a.sequence
          && (is_multiple a.sequence repo.snapshot_every
              && not (KeySet.mem a.id repo.pending_snapshots)))

  -- `save`.
  unfoldable pub save : ℕ → Aggregate P A → Repository S → EventStore P S → Saved P A S
  unfolding mark_committed schedule_snapshot
  save now a repo store = elim a.uncommitted [
    | [] ↦ record { aggregate = a; repository = repo; store = store; result = ok [] }
    | e ∷ es ↦
        let (next, result) = append (e ∷ es) (some (a.sequence - length (e ∷ es))) store in
        elim result [
          | failed failure ↦ record {
            aggregate = a;
            repository = repo;
            store = store;
            result = failed failure;
          }
          | ok events ↦
              let committed = mark_committed cls a in
              record {
                aggregate = committed;
                repository =
                    if snapshot_due committed repo
                    then schedule_snapshot now committed repo
                    else repo;
                store = next;
                result = ok events;
              }
        ]
  ]

module _ {P S : Type 0} where
  -- The next snapshot that waits is written.
  unfoldable pub write_snapshot : Repository S → EventStore P S → Repository S × EventStore P S
  unfolding save_snapshot
  write_snapshot repo store = elim repo.scheduled [
    | [] ↦ (repo, store)
    | snapshot ∷ more ↦ (
      record repo {
        snapshot_count = repo.snapshot_count + 1;
        pending_snapshots = KeySet.delete snapshot.aggregate_id repo.pending_snapshots;
        scheduled = more;
      },
      save_snapshot snapshot store,
    )
  ]
