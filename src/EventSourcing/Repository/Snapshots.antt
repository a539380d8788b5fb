-- ===== src/EventSourcing/Repository/Snapshots.antt =====
-- Loading from a snapshot against loading the whole stream, and what `save` does to both.
use real_time_spatial_tracki.Base.{
  ℕ, ◌+◌, ◌≡◌, refl, sym, ap, ◌∙◌, subst, true, false, List, [], ◌∷◌, ◌++◌, Option, none, some, Key,
  arith, length, filter, All, Option-cases, Bool-cases, inl, inr,
}
use mathlib.Core.List.{append-nil}
use real_time_spatial_tracki.EventSourcing.{Event, Snapshot}
use real_time_spatial_tracki.EventSourcing.Store.{
  EventStore, events_of, get_events, get_snapshot, from_to,
}
use real_time_spatial_tracki.EventSourcing.Store.Stream.{
  IsRun, IsRun-length, filter-after, filter_whole,
}
use real_time_spatial_tracki.EventSourcing.Aggregate.{
  Class, Aggregate, create, apply, load_from_history, restore_from_snapshot,
}
use real_time_spatial_tracki.EventSourcing.Aggregate.Replay.{
  replay, replay-append, Loaded, load_from_history-Loaded, IsDerived,
}
use real_time_spatial_tracki.EventSourcing.Repository.{Repository, get}

module _ {P A S : Type 0} (cls : Class P A S) where
  -- The snapshot is of the aggregate after the first events of the stream, as many as its number says.
  pub record IsSnapshotOf (events : List (Event P)) (snapshot : Snapshot S) : Type 0 where
    pub before : List (Event P)
    pub after : List (Event P)
    pub split : events ≡ before ++ after
    pub run : IsRun 0 before snapshot.sequence
    pub state : snapshot.state ≡ cls.serialize (replay cls before cls.initial)

  abbrev pub IsTaken : List (Event P) → Option (Snapshot S) → Type 0
  IsTaken events none = Unit {0}
  IsTaken events (some snapshot) = IsSnapshotOf events snapshot

  -- `D` holds of the ids whose aggregates are of this class; repositories of other classes share the
  -- store. Every stream runs without a gap from 1, the snapshots in the store under the ids of the class
  -- are of their streams, and so are those that wait, which are of the class.
  pub record IsConsistent (D : Key → Type 0) (repo : Repository S) (store : EventStore P S)
      : Type 0 where
    pub run : (id : Key) → IsRun 0 (events_of id store) (length (events_of id store))
    pub taken : (id : Key) → D id → IsTaken (events_of id store) (get_snapshot id store)
    pub waiting :
        All (λ s. D s.aggregate_id × IsSnapshotOf (events_of s.aggregate_id store) s) repo.scheduled

  pub IsRun-after :
      (lo mid hi : ℕ) (xs ys : List (Event P))
      → IsRun lo xs mid
      → IsRun lo (xs ++ ys) hi
      → IsRun mid ys hi
  IsRun-after lo mid hi [] ys h k = subst (λ n. IsRun n ys hi) h k
  IsRun-after lo mid hi (x ∷ xs) ys h k = IsRun-after (lo + 1) mid hi xs ys h.1 k.1

  get_disabled :
      (id : Key) (repo : Repository S) (store : EventStore P S)
      → repo.snapshots_enabled ≡ false
      → get cls id repo store
        ≡ load_from_history cls (get_events id none none store) (create cls id)
  unfolding get
  get_disabled id repo store h = ground (arith, h)

  get_without :
      (id : Key) (repo : Repository S) (store : EventStore P S)
      → get_snapshot id store ≡ none
      → get cls id repo store
        ≡ load_from_history cls (get_events id none none store) (create cls id)
  unfolding get
  get_without id repo store h = ground (arith, h)

  get_with :
      (id : Key) (repo : Repository S) (store : EventStore P S) (snapshot : Snapshot S)
      → repo.snapshots_enabled ≡ true
      → get_snapshot id store ≡ some snapshot
      → get cls id repo store
        ≡ load_from_history cls
            (get_events id (some (snapshot.sequence + 1)) none store)
            (restore_from_snapshot cls snapshot (create cls id))
  unfolding get
  get_with id repo store snapshot on h = ground (arith, on, h)

  Loaded-IsDerived :
      (base events : List (Event P)) (hi : ℕ) (a b : Aggregate P A)
      → Loaded cls events hi a b
      → a.uncommitted ≡ []
      → IsRun 0 base hi
      → replay cls events a.state ≡ replay cls base cls.initial
      → IsDerived cls base b
  Loaded-IsDerived base events hi a b l none_staged run same =
      let staged : b.uncommitted ≡ [] = l.uncommitted ∙ none_staged in
      let whole : base ++ b.uncommitted ≡ base = ap (λ es. base ++ es) staged ∙ append-nil base in
      record {
        run = rw (whole, l.sequence) run;
        next = l.next_seq ∙ sym l.sequence;
        state = l.state ∙ same ∙ ap (λ es. replay cls es cls.initial) (sym whole);
        own = rw staged tt;
      }

  get-whole :
      (id : Key) (hi : ℕ) (store : EventStore P S)
      → IsRun 0 (events_of id store) hi
      → IsDerived cls
          (events_of id store)
          (load_from_history cls (get_events id none none store) (create cls id))
  get-whole id hi store run =
      let events = events_of id store in
      let whole : get_events id none none store ≡ events =
        unfold get_events in filter_whole hi events run in
      let start = create cls id in
      rw whole (
        Loaded-IsDerived events events hi start (load_from_history cls events start)
          (load_from_history-Loaded cls 0 hi events start run (unfold create in refl)
            (unfold create in refl))
          (unfold create in refl) run (unfold create in refl))

  get-snapshot :
      (id : Key) (hi : ℕ) (store : EventStore P S) (snapshot : Snapshot S)
      → ((state : A) → cls.deserialize (cls.serialize state) ≡ state)
      → IsRun 0 (events_of id store) hi
      → IsSnapshotOf (events_of id store) snapshot
      → IsDerived cls (events_of id store) (
          load_from_history cls
            (get_events id (some (snapshot.sequence + 1)) none store)
            (restore_from_snapshot cls snapshot (create cls id)))
  get-snapshot id hi store snapshot inverse run t =
      let events = events_of id store in
      let later : IsRun snapshot.sequence t.after hi =
        IsRun-after 0 snapshot.sequence hi t.before t.after t.run
          (subst (λ es. IsRun 0 es hi) t.split run) in
      let delta : get_events id (some (snapshot.sequence + 1)) none store ≡ t.after =
        unfold get_events in
        ap (filter (from_to (snapshot.sequence + 1) none)) t.split
        ∙ filter-after hi snapshot.sequence t.before t.after t.run later in
      let start = restore_from_snapshot cls snapshot (create cls id) in
      let at_start : start.state ≡ replay cls t.before cls.initial =
        unfold restore_from_snapshot in ap cls.deserialize t.state ∙ inverse _ in
      rw delta (
        Loaded-IsDerived events t.after hi start (load_from_history cls t.after start)
          (load_from_history-Loaded cls snapshot.sequence hi t.after start later
            (unfold restore_from_snapshot in refl) (unfold restore_from_snapshot in refl))
          (unfold restore_from_snapshot create in refl) run
          (ap (replay cls t.after) at_start
            ∙ sym (replay-append cls t.before t.after cls.initial)
            ∙ ap (λ es. replay cls es cls.initial) (sym t.split)))

  -- What holds of an aggregate that was loaded whole, and of one from the snapshot, holds of what `get`
  -- returns.
  pub get_cases :
      (Q : Aggregate P A → Type 0) (id : Key) (repo : Repository S) (store : EventStore P S)
      → Q (load_from_history cls (get_events id none none store) (create cls id))
      → ((snapshot : Snapshot S)
          → get_snapshot id store ≡ some snapshot
          → Q (
              load_from_history cls
                (get_events id (some (snapshot.sequence + 1)) none store)
                (restore_from_snapshot cls snapshot (create cls id))))
      → Q (get cls id repo store)
  get_cases Q id repo store whole from_snapshot = elim (Bool-cases repo.snapshots_enabled) [
    | inr off ↦ subst Q (sym (get_disabled id repo store off)) whole
    | inl on ↦ elim (Option-cases (get_snapshot id store)) [
      | inl e ↦ subst Q (sym (get_without id repo store e)) whole
      | inr (snapshot, e) ↦
          subst Q (sym (get_with id repo store snapshot on e)) (from_snapshot snapshot e)
    ]
  ]

  pub get-IsDerived :
      (D : Key → Type 0) (id : Key) (repo : Repository S) (store : EventStore P S)
      → ((state : A) → cls.deserialize (cls.serialize state) ≡ state)
      → IsConsistent D repo store
      → D id
      → IsDerived cls (events_of id store) (get cls id repo store)
  get-IsDerived D id repo store inverse c own =
      let hi = length (events_of id store) in
      get_cases (IsDerived cls (events_of id store)) id repo store
        (get-whole id hi store (c.run id))
        (λ snapshot e.
          get-snapshot id hi store snapshot inverse (c.run id)
            (subst (IsTaken (events_of id store)) e (c.taken id own)))

  load_from_history-uncommitted :
      (events : List (Event P)) (a : Aggregate P A)
      → (load_from_history cls events a).uncommitted ≡ a.uncommitted
  unfolding load_from_history apply
  load_from_history-uncommitted [] a = refl
  load_from_history-uncommitted (e ∷ events) a =
      load_from_history-uncommitted events (apply cls e a)

  get-uncommitted :
      (id : Key) (repo : Repository S) (store : EventStore P S)
      → (get cls id repo store).uncommitted ≡ []
  get-uncommitted id repo store =
      get_cases (λ a. a.uncommitted ≡ []) id repo store
        (load_from_history-uncommitted (get_events id none none store) (create cls id)
          ∙ (unfold create in refl))
        (λ snapshot e.
          load_from_history-uncommitted (get_events id (some (snapshot.sequence + 1)) none store)
            (restore_from_snapshot cls snapshot (create cls id))
          ∙ (unfold create restore_from_snapshot in refl))

  -- Loading is the same with a snapshot and without one: if what the class serialises can be read back,
  -- and the id is one of those for which the repository is consistent, then the aggregate that `get`
  -- returns has the state that is the fold of the whole stream, the number of its last event, and
  -- nothing staged.
  pub get_lem :
      (D : Key → Type 0) (id : Key) (repo : Repository S) (store : EventStore P S)
      → ((state : A) → cls.deserialize (cls.serialize state) ≡ state)
      → IsConsistent D repo store
      → D id
      → ((get cls id repo store).state ≡ replay cls (events_of id store) cls.initial)
        × ((get cls id repo store).sequence ≡ length (events_of id store))
        × ((get cls id repo store).uncommitted ≡ [])
  get_lem D id repo store inverse c own =
      let d = get-IsDerived D id repo store inverse c own in
      let none_staged = get-uncommitted id repo store in
      let whole : events_of id store ++ (get cls id repo store).uncommitted ≡ events_of id store =
        ap (λ es. events_of id store ++ es) none_staged ∙ append-nil (events_of id store) in
      (
        d.state ∙ ap (λ es. replay cls es cls.initial) whole,
        IsRun-length 0 _ _ d.run ∙ (rw whole (omega arith)),
        none_staged,
      )
