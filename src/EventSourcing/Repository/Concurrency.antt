-- ===== src/EventSourcing/Repository/Concurrency.antt =====
-- `save`: what is committed, and what a writer that is behind is told.
use real_time_spatial_tracki.Base.{
  ℕ, ◌+◌, ◌-◌, ◌≡◌, refl, sym, ap, ◌∙◌, subst, List, [], ◌∷◌, ◌++◌, Option, none, some, Key, arith,
  length, All, All-append, All-mono, Bool-cases, inl, inr, if◌then◌else◌, length-append, ite,
  key_dec, if_pos, if_neg, key_ite_self, ◌≢◌,
}
use mathlib.Core.List.{append_assoc, append-nil}
use real_time_spatial_tracki.Base.Map
use real_time_spatial_tracki.EventSourcing.{Event, Snapshot, ok, failed, conflict}
use real_time_spatial_tracki.EventSourcing.Store.{
  EventStore, events_of, get_snapshot, find_duplicate, refusal, last_sequence, conflict_at,
}
use real_time_spatial_tracki.EventSourcing.Store.Stream.{
  IsRun, snapshots-insert, IsRun-length, last_sequence-IsRun, IsOf, appended, append_accepted,
  append_refused, refusal-IsRun, events_of-insert,
}
use real_time_spatial_tracki.EventSourcing.Aggregate.{
  Class, Aggregate, take_snapshot, mark_committed,
}
use real_time_spatial_tracki.EventSourcing.Aggregate.Replay.{replay, IsDerived}
use real_time_spatial_tracki.EventSourcing.Repository.{
  Repository, save, schedule_snapshot, snapshot_due,
}
use real_time_spatial_tracki.EventSourcing.Repository.Snapshots.{
  IsSnapshotOf, IsTaken, IsConsistent, IsRun-after,
}

module _ {P A S : Type 0} (cls : Class P A S) (now : ℕ) (e : Event P) (es : List (Event P)) where
  -- `save` of staged events, by what `append` says.
  pub save_refused :
      (a : Aggregate P A) (repo : Repository S) (store : EventStore P S) {f : _}
      → a.uncommitted ≡ e ∷ es
      → refusal (e ∷ es) (some (a.sequence - length (e ∷ es))) store ≡ some f
      → save cls now a repo store
        ≡ record { aggregate = a; repository = repo; store = store; result = failed f }
  unfolding save
  save_refused a repo store {f} staged h =
      ground
        (arith, staged, append_refused (e ∷ es) (some (a.sequence - length (e ∷ es))) store f h)

  save_accepted :
      (a : Aggregate P A) (repo : Repository S) (store : EventStore P S)
      → a.uncommitted ≡ e ∷ es
      → refusal (e ∷ es) (some (a.sequence - length (e ∷ es))) store ≡ none
      → save cls now a repo store ≡ record {
        aggregate = mark_committed cls a;
        repository =
            if snapshot_due cls (mark_committed cls a) repo
            then schedule_snapshot cls now (mark_committed cls a) repo
            else repo;
        store = appended (e ∷ es) store;
        result = ok (e ∷ es);
      }
  unfolding save
  save_accepted a repo store staged h =
      ground (arith, staged, append_accepted (e ∷ es) (some (a.sequence - length (e ∷ es))) store h)

module _ {P : Type 0} where
  IsRun-prefix :
      (lo hi : ℕ) (xs ys : List (Event P)) → IsRun lo (xs ++ ys) hi → IsRun lo xs (lo + length xs)
  IsRun-prefix lo hi [] ys h = omega arith
  IsRun-prefix lo hi (x ∷ xs) ys h =
      (h.0, subst (IsRun (lo + 1) xs) (omega arith) (IsRun-prefix (lo + 1) hi xs ys h.1))

module _ {P A S : Type 0} (cls : Class P A S) where
  IsSnapshotOf-append :
      (es more : List (Event P)) (snapshot : Snapshot S)
      → IsSnapshotOf cls es snapshot
      → IsSnapshotOf cls (es ++ more) snapshot
  IsSnapshotOf-append es more snapshot t = record {
    before = t.before;
    after = t.after ++ more;
    split = ap (λ xs. xs ++ more) t.split ∙ append_assoc t.before t.after more;
    run = t.run;
    state = t.state;
  }

  IsTaken-append :
      (es more : List (Event P)) (o : Option (Snapshot S))
      → IsTaken cls es o
      → IsTaken cls (es ++ more) o
  IsTaken-append es more none t = tt
  IsTaken-append es more (some snapshot) t = IsSnapshotOf-append es more snapshot t

module _ {P A S : Type 0} (cls : Class P A S) (now : ℕ) (base : List (Event P)) (e : Event P)
    (es : List (Event P)) (a : Aggregate P A) (repo : Repository S) (store : EventStore P S)
    (D : Key → Type 0) where
  -- The aggregate stands at `base` with some events staged, whose ids are new, and the stream has grown
  -- by `later` since.
  pub record IsWriter (later : List (Event P)) : Type 0 where
    pub derived : IsDerived cls base a
    pub staged : a.uncommitted ≡ e ∷ es
    pub fresh : find_duplicate store.ids (e ∷ es) ≡ none
    pub within : D a.id
    pub consistent : IsConsistent cls D repo store
    pub stream : events_of a.id store ≡ base ++ later

  module _ (later : List (Event P)) (w : IsWriter later) where
    whole-IsRun : IsRun 0 (base ++ (e ∷ es)) a.sequence
    whole-IsRun = subst (λ xs. IsRun 0 (base ++ xs) a.sequence) w.staged w.derived.run

    base-IsRun : IsRun 0 base (length base)
    base-IsRun =
        subst (IsRun 0 base) (omega arith) (IsRun-prefix 0 a.sequence base (e ∷ es) whole-IsRun)

    staged-IsRun : IsRun (length base) (e ∷ es) a.sequence
    staged-IsRun = IsRun-after cls 0 (length base) a.sequence base (e ∷ es) base-IsRun whole-IsRun

    owned : IsOf a.id (e ∷ es)
    owned = subst (IsOf a.id) w.staged w.derived.own

    expected : a.sequence - length (e ∷ es) ≡ length base
    expected = omega (arith, IsRun-length (length base) a.sequence (e ∷ es) staged-IsRun)

    last : last_sequence (events_of a.id store) ≡ length base + length later
    last =
        last_sequence-IsRun (length (events_of a.id store)) (events_of a.id store)
          (w.consistent.run a.id)
        ∙ ap length w.stream
        ∙ length-append base later

    decided :
        refusal (e ∷ es) (some (a.sequence - length (e ∷ es))) store
        ≡ conflict_at (some (length base)) (length base + length later)
    decided =
        refusal-IsRun (length base) a.sequence e es (a.sequence - length (e ∷ es)) store
          staged-IsRun (subst (λ id. IsOf id es) (sym owned.0) owned.1) w.fresh
        ∙ ap
            (λ id.
              conflict_at (some (a.sequence - length (e ∷ es)))
                (last_sequence (events_of id store)))
            owned.0
        ∙ ap (λ n. conflict_at (some n) (last_sequence (events_of a.id store))) expected
        ∙ ap (conflict_at (some (length base))) last

  -- A writer that is behind commits nothing: if the stream has grown since the aggregate was loaded,
  -- `save` throws a conflict that names the two numbers, and aggregate, repository and store are as
  -- they were.
  pub save-stale :
      (x : Event P) (more : List (Event P))
      → IsWriter (x ∷ more)
      → save cls now a repo store ≡ record {
        aggregate = a;
        repository = repo;
        store = store;
        result = failed (conflict (length base) (length base + length (x ∷ more)));
      }
  save-stale x more w =
      save_refused cls now e es a repo store w.staged (decided (x ∷ more) w ∙ ground arith)

  module _ (w : IsWriter []) where
    admitted : refusal (e ∷ es) (some (a.sequence - length (e ∷ es))) store ≡ none
    admitted = decided [] w ∙ ground arith

    abbrev next : EventStore P S
    next = appended (e ∷ es) store

    grown :
        (j : Key)
        → events_of j next
          ≡ ite (key_dec a.id j) (events_of j store ++ (e ∷ es)) (events_of j store)
    grown j = events_of-insert a.id j (e ∷ es) store (owned [] w)

    stream_next : events_of a.id next ≡ base ++ (e ∷ es)
    stream_next =
        grown a.id
        ∙ key_ite_self (events_of a.id store ++ (e ∷ es)) (events_of a.id store) a.id
        ∙ ap (λ xs. xs ++ (e ∷ es)) (w.stream ∙ append-nil base)

    -- What holds of a stream, and of every longer one with it, holds of the new stream.
    kept :
        (Q : List (Event P) → Type 0) (j : Key)
        → ((more : List (Event P)) → Q (events_of j store) → Q (events_of j store ++ more))
        → Q (events_of j store)
        → Q (events_of j next)
    kept Q j extend q = subst Q (sym (grown j)) (elim (key_dec a.id j) [
      | yes p ↦
          rw (if_pos (key_dec a.id j) p (events_of j store ++ (e ∷ es)) (events_of j store))
            (extend (e ∷ es) q)
      | no p ↦ rw (if_neg (key_dec a.id j) p (events_of j store ++ (e ∷ es)) (events_of j store)) q
    ])

    IsRun-next : (j : Key) → IsRun 0 (events_of j next) (length (events_of j next))
    IsRun-next j = elim (key_dec a.id j) [
      | yes p ↦
          subst (λ i. IsRun 0 (events_of i next) (length (events_of i next))) p
            (subst (λ xs. IsRun 0 xs (length xs)) (sym stream_next)
              (subst (IsRun 0 (base ++ (e ∷ es)))
                (IsRun-length 0 a.sequence (base ++ (e ∷ es)) (whole-IsRun [] w) ∙ omega arith)
                (whole-IsRun [] w)))
      | no p ↦
          subst (λ xs. IsRun 0 xs (length xs))
            (sym (
              grown j
              ∙ if_neg (key_dec a.id j) p (events_of j store ++ (e ∷ es)) (events_of j store)))
            (w.consistent.run j)
    ]

    -- A repository of the same store, of this class or another, is as consistent as before.
    shared-IsConsistent :
        {B : Type 0} (other : Class P B S) (O : Key → Type 0) (its : Repository S)
        → IsConsistent other O its store
        → IsConsistent other O its next
    unfolding get_snapshot
    shared-IsConsistent other O its c = record {
      run = IsRun-next;
      taken = λ j own.
          subst (λ snapshots. IsTaken other (events_of j next) (Map.get j snapshots))
            (sym (snapshots-insert (e ∷ es) store))
            (kept (λ xs. IsTaken other xs (get_snapshot j store)) j
              (λ more. IsTaken-append other (events_of j store) more (get_snapshot j store))
              (c.taken j own));
      waiting =
          All-mono
            (λ s h. (
              h.0,
              kept (λ xs. IsSnapshotOf other xs s) s.aggregate_id
                  (λ more. IsSnapshotOf-append other (events_of s.aggregate_id store) more s) h.1,
            ))
            its.scheduled c.waiting;
    }

    own_next : IsConsistent cls D repo next
    own_next = shared-IsConsistent cls D repo w.consistent

    abbrev committed : Aggregate P A
    committed = mark_committed cls a

    committed-IsDerived : IsDerived cls (base ++ (e ∷ es)) committed
    unfolding mark_committed
    committed-IsDerived =
        let same : (base ++ (e ∷ es)) ++ [] ≡ base ++ a.uncommitted =
          append-nil (base ++ (e ∷ es)) ∙ ap (λ xs. base ++ xs) (sym w.staged) in
        record {
          run = rw same w.derived.run;
          next = w.derived.next;
          state = w.derived.state ∙ ap (λ xs. replay cls xs cls.initial) (sym same);
          own = tt;
        }

    new_snapshot : IsSnapshotOf cls (events_of a.id next) (take_snapshot cls now committed)
    unfolding take_snapshot mark_committed
    new_snapshot = record {
      before = base ++ (e ∷ es);
      after = [];
      split = stream_next ∙ sym (append-nil (base ++ (e ∷ es)));
      run = whole-IsRun [] w;
      state =
          ap cls.serialize
            (w.derived.state ∙ ap (λ xs. replay cls (base ++ xs) cls.initial) w.staged);
    }

    scheduled_next :
        All
          (λ s. D s.aggregate_id × IsSnapshotOf cls (events_of s.aggregate_id next) s)
          (if snapshot_due cls committed repo
            then schedule_snapshot cls now committed repo
            else repo).scheduled
    unfolding schedule_snapshot
    scheduled_next = elim (Bool-cases (snapshot_due cls committed repo)) [
      | inr no_due ↦ rw no_due own_next.waiting
      | inl due ↦ rw due (
          All-append (λ s. D s.aggregate_id × IsSnapshotOf cls (events_of s.aggregate_id next) s)
            repo.scheduled (take_snapshot cls now committed ∷ []) own_next.waiting
            (
              (
                (unfold take_snapshot mark_committed in w.within),
                (unfold take_snapshot mark_committed in new_snapshot),
              ),
              tt,
            ))
    ]

    -- A writer that is up to date commits: `save` returns the staged events, which now end the stream,
    -- the aggregate stands at its end with nothing staged, and the repository is consistent as before,
    -- also if a snapshot was due.
    pub save_commits :
        ((save cls now a repo store).result ≡ ok (e ∷ es))
        × (events_of a.id (save cls now a repo store).store ≡ base ++ (e ∷ es))
        × ((save cls now a repo store).aggregate.uncommitted ≡ [])
        × IsDerived cls (base ++ (e ∷ es)) (save cls now a repo store).aggregate
        × IsConsistent cls D
            (save cls now a repo store).repository
            (save cls now a repo store).store
    save_commits = rw (save_accepted cls now e es a repo store w.staged admitted) (
      refl,
      stream_next,
      (unfold mark_committed in refl),
      committed-IsDerived,
      record { run = IsRun-next; taken = own_next.taken; waiting = scheduled_next },
    )

    -- What a save commits leaves a repository of another class over the same store consistent.
    pub save_shares :
        {B : Type 0} (other : Class P B S) (O : Key → Type 0) (its : Repository S)
        → IsConsistent other O its store
        → IsConsistent other O its (save cls now a repo store).store
    save_shares other O its c =
        rw (save_accepted cls now e es a repo store w.staged admitted)
          (shared-IsConsistent other O its c)

    pub save_others :
        (j : Key) → a.id ≢ j → events_of j (save cls now a repo store).store ≡ events_of j store
    save_others j other = rw (save_accepted cls now e es a repo store w.staged admitted) (
        grown j ∙ if_neg (key_dec a.id j) other (events_of j store ++ (e ∷ es)) (events_of j store))
