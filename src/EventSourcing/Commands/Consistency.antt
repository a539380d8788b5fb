-- ===== src/EventSourcing/Commands/Consistency.antt =====
-- The handlers keep the repository consistent, whether their events are committed or refused.
use real_time_spatial_tracki.Base.{
  ℕ, ◌+◌, ◌-◌, ◌≡◌, ◌≢◌, ap, ◌++◌, refl, sym, ◌∙◌, subst, List, [], ◌∷◌, Option, none, some, Key,
  arith, length, List-cases, Option-cases, Bool-cases, inl, inr,
}
use mathlib.Core.List.{append-nil}
use real_time_spatial_tracki.Base.Map.{Map}
use real_time_spatial_tracki.Base.KeySet
use real_time_spatial_tracki.EventSourcing.{Event, Failure, Result, ok, failed}
use real_time_spatial_tracki.EventSourcing.Store.{
  EventStore, events_of, find_duplicate, refusal, get_events,
}
use real_time_spatial_tracki.EventSourcing.Aggregate.{
  Class, Aggregate, create, apply, load_from_history, restore_from_snapshot, stage, record_event,
}
use real_time_spatial_tracki.EventSourcing.Aggregate.Replay.{
  replay, IsDerived, record_event-IsDerived,
}
use real_time_spatial_tracki.EventSourcing.Repository.{Repository, Saved, get, save}
use real_time_spatial_tracki.EventSourcing.Repository.Snapshots.{
  IsConsistent, get-IsDerived, get_cases,
}
use real_time_spatial_tracki.EventSourcing.Repository.Concurrency.{
  IsWriter, save_refused, save_commits, save_shares, save_others,
}
use real_time_spatial_tracki.EventSourcing.Payload.{Payload, Geometry, Draw, create_event}
use real_time_spatial_tracki.EventSourcing.Classes.{vehicle_class}
use real_time_spatial_tracki.EventSourcing.TypedEvents.{location_updated_event}
use real_time_spatial_tracki.EventSourcing.Commands.{
  Command, VehicleAggregate, cross_fence, cross_fences, cross_rooms, record_location, options,
}

module _ {P A S : Type 0} (cls : Class P A S) where
  admitted-fresh :
      (e : Event P) (es : List (Event P)) (expected : Option ℕ) (store : EventStore P S)
      → refusal (e ∷ es) expected store ≡ none
      → find_duplicate store.ids (e ∷ es) ≡ none
  unfolding refusal
  admitted-fresh e es expected store h = ground (arith, h)

  save_nothing :
      (now : ℕ) (a : Aggregate P A) (repo : Repository S) (store : EventStore P S)
      → a.uncommitted ≡ []
      → save cls now a repo store
        ≡ record { aggregate = a; repository = repo; store = store; result = ok [] }
  unfolding save
  save_nothing now a repo store h = ground (arith, h)

  -- What holds of a save that has nothing to do, that is refused and that commits holds of every save of
  -- an aggregate that stands at the end of its stream.
  pub save_cases :
      (D : Key → Type 0) (now : ℕ) (a : Aggregate P A) (repo : Repository S)
      (store : EventStore P S) (Q : Saved P A S → Type 0)
      → IsDerived cls (events_of a.id store) a
      → IsConsistent cls D repo store
      → D a.id
      → (a.uncommitted ≡ []
          → Q (record { aggregate = a; repository = repo; store = store; result = ok [] }))
      → ((f : Failure)
          → Q (record { aggregate = a; repository = repo; store = store; result = failed f }))
      → ((e : Event P) (es : List (Event P))
          → IsWriter cls now (events_of a.id store) e es a repo store D []
          → Q (save cls now a repo store))
      → Q (save cls now a repo store)
  save_cases D now a repo store Q d c own idle refused committed = elim (List-cases a.uncommitted) [
    | inl nothing ↦ subst Q (sym (save_nothing now a repo store nothing)) (idle nothing)
    | inr (e, es, staged) ↦
        elim (Option-cases (refusal (e ∷ es) (some (a.sequence - length (e ∷ es))) store)) [
          | inr (f, h) ↦ subst Q (sym (save_refused cls now e es a repo store staged h)) (refused f)
          | inl admitted ↦ committed e es (record {
            derived = d;
            staged = staged;
            fresh = admitted-fresh e es (some (a.sequence - length (e ∷ es))) store admitted;
            within = own;
            consistent = c;
            stream = sym (append-nil (events_of a.id store));
          })
        ]
  ]

  record_event-id : (e : Event P) (a : Aggregate P A) → (record_event cls e a).id ≡ a.id
  unfolding record_event stage apply
  record_event-id e a = elim (Option-cases e.sequence) [
    | inl h ↦ ground (arith, h)
    | inr (n, h) ↦ ground (arith, h)
  ]

  load_from_history-id :
      (events : List (Event P)) (a : Aggregate P A) → (load_from_history cls events a).id ≡ a.id
  unfolding load_from_history apply
  load_from_history-id [] a = refl
  load_from_history-id (e ∷ events) a = load_from_history-id events (apply cls e a)

  get-id :
      (id : Key) (repo : Repository S) (store : EventStore P S) → (get cls id repo store).id ≡ id
  get-id id repo store =
      get_cases cls (λ a. a.id ≡ id) id repo store
        (load_from_history-id (get_events id none none store) (create cls id)
          ∙ (unfold create in refl))
        (λ snapshot e.
          load_from_history-id (get_events id (some (snapshot.sequence + 1)) none store)
            (restore_from_snapshot cls snapshot (create cls id))
          ∙ (unfold create restore_from_snapshot in refl))

  -- The aggregate of an id stands at the end of a stream.
  pub record IsAt (id : Key) (base : List (Event P)) (a : Aggregate P A) : Type 0 where
    pub named : a.id ≡ id
    pub derived : IsDerived cls base a

  pub record_event-IsAt :
      (id : Key) (base : List (Event P)) (e : Event P) (a : Aggregate P A)
      → e.sequence ≡ none
      → e.aggregate_id ≡ id
      → IsAt id base a
      → IsAt id base (record_event cls e a)
  record_event-IsAt id base e a h own at = record {
    named = record_event-id e a ∙ at.named;
    derived = record_event-IsDerived cls base e a at.derived h (own ∙ sym at.named);
  }

  pub get-IsAt :
      (D : Key → Type 0) (id : Key) (repo : Repository S) (store : EventStore P S)
      → ((state : A) → cls.deserialize (cls.serialize state) ≡ state)
      → IsConsistent cls D repo store
      → D id
      → IsAt id (events_of id store) (get cls id repo store)
  get-IsAt D id repo store inverse c own = record {
    named = get-id id repo store;
    derived = get-IsDerived cls D id repo store inverse c own;
  }

-- A proposition on what was returned, which says nothing of a failure.
abbrev pub IfOk : {A : Type 0} → Result A → Type 0 → Type 0
IfOk (ok x) Q = Q
IfOk (failed f) Q = Unit {0}

-- What a save of an aggregate with the id does: its repository stays consistent; if it did not fail, the
-- stream gives the aggregate's state; and the other streams are as they were.
module _ {P A S : Type 0} (cls : Class P A S) (D : Key → Type 0) (now : ℕ) (id : Key)
    (a : Aggregate P A) (repo : Repository S) (store : EventStore P S)
    (at : IsAt cls id (events_of id store) a) (c : IsConsistent cls D repo store) (own : D id) where
  abbrev saved : Saved P A S
  saved = save cls now a repo store

  abbrev cases :
      (Q : Saved P A S → Type 0)
      → (a.uncommitted ≡ []
          → Q (record { aggregate = a; repository = repo; store = store; result = ok [] }))
      → ((f : Failure)
          → Q (record { aggregate = a; repository = repo; store = store; result = failed f }))
      → ((e : Event P) (es : List (Event P))
          → IsWriter cls now (events_of a.id store) e es a repo store D []
          → Q (save cls now a repo store))
      → Q (save cls now a repo store)
  cases Q =
      save_cases cls D now a repo store Q
        (subst (λ i. IsDerived cls (events_of i store) a) (sym at.named) at.derived) c
        (subst D (sym at.named) own)

  pub save-IsConsistent : IsConsistent cls D saved.repository saved.store
  save-IsConsistent =
      cases (λ s. IsConsistent cls D s.repository s.store) (λ h. c) (λ f. c)
        (λ e es w. (save_commits cls now (events_of a.id store) e es a repo store D w).4)

  pub save_keeps :
      {B : Type 0} (other : Class P B S) (O : Key → Type 0) (its : Repository S)
      → IsConsistent other O its store
      → IsConsistent other O its saved.store
  save_keeps other O its k =
      cases (λ s. IsConsistent other O its s.store) (λ h. k) (λ f. k)
        (λ e es w. save_shares cls now (events_of a.id store) e es a repo store D w other O its k)

  pub save_stands : IfOk saved.result (replay cls (events_of id saved.store) cls.initial ≡ a.state)
  save_stands =
      cases (λ s. IfOk s.result (replay cls (events_of id s.store) cls.initial ≡ a.state))
        (λ h.
          ap (λ xs. replay cls xs cls.initial)
            (sym (append-nil (events_of id store)) ∙ ap (λ xs. events_of id store ++ xs) (sym h))
          ∙ sym at.derived.state)
        (λ f. tt)
        (λ e es w.
          let done = save_commits cls now (events_of a.id store) e es a repo store D w in
          subst (λ r. IfOk r (replay cls (events_of id saved.store) cls.initial ≡ a.state))
            (sym done.0)
            (ap (λ xs. replay cls xs cls.initial)
                (ap (λ i. events_of i saved.store) (sym at.named)
                  ∙ done.1
                  ∙ ap (λ i. events_of i store ++ e ∷ es) at.named
                  ∙ ap (λ xs. events_of id store ++ xs) (sym w.staged))
              ∙ sym at.derived.state))

  pub save_elsewhere : (j : Key) → id ≢ j → events_of j saved.store ≡ events_of j store
  save_elsewhere j other =
      cases (λ s. events_of j s.store ≡ events_of j store) (λ h. refl) (λ f. refl)
        (λ e es w.
          save_others cls now (events_of a.id store) e es a repo store D w j
            (λ same. other (sym at.named ∙ same)))

-- The vehicle of the command stands at the end of its stream.
abbrev pub IsReady :
    {L F : Type 0} → Command L F → List (Event (Payload L F)) → VehicleAggregate L F → Type 0
IsReady cmd base a = IsAt vehicle_class cmd.client_id base a

module _ {L F : Type 0} (g : Geometry L F) (draw : Draw) (cmd : Command L F) where
  cross_fence-IsReady :
      (base : List (Event (Payload L F))) (fix : L) (fence : F) (a : VehicleAggregate L F)
      → IsReady cmd base a
      → IsReady cmd base (cross_fence g draw cmd fix fence a)
  unfolding cross_fence create_event
  cross_fence-IsReady base fix fence a r = elim (Bool-cases (g.is_inside fix fence)) [
    | inl i ↦ elim (Bool-cases (KeySet.mem (g.fence_id fence) a.state.inside_geofences)) [
      | inl m ↦ rw (i, m) r
      | inr m ↦ rw (i, m) (record_event-IsAt vehicle_class cmd.client_id base _ a refl refl r)
    ]
    | inr i ↦ elim (Bool-cases (KeySet.mem (g.fence_id fence) a.state.inside_geofences)) [
      | inl m ↦ rw (i, m) (record_event-IsAt vehicle_class cmd.client_id base _ a refl refl r)
      | inr m ↦ rw (i, m) r
    ]
  ]

  cross_fences-IsReady :
      (base : List (Event (Payload L F))) (fix : L) (fences : List F) (a : VehicleAggregate L F)
      → IsReady cmd base a
      → IsReady cmd base (cross_fences g draw cmd fix fences a)
  unfolding cross_fences
  cross_fences-IsReady base fix [] a r = r
  cross_fences-IsReady base fix (f ∷ fences) a r =
      cross_fences-IsReady base fix fences _ (cross_fence-IsReady base fix f a r)

  cross_rooms-IsReady :
      (base : List (Event (Payload L F))) (fix : L) (geofences : Map (List F))
      (a : VehicleAggregate L F)
      → IsReady cmd base a
      → IsReady cmd base (cross_rooms g draw cmd fix geofences a)
  unfolding cross_rooms
  cross_rooms-IsReady base fix [] a r = r
  cross_rooms-IsReady base fix ((k, fences) ∷ geofences) a r =
      cross_rooms-IsReady base fix geofences _ (cross_fences-IsReady base fix fences a r)

  pub record_location-IsReady :
      (base : List (Event (Payload L F))) (fix : L) (a : VehicleAggregate L F)
      → IsReady cmd base a
      → IsReady cmd base (record_location g draw cmd fix a)
  unfolding record_location create_event
  record_location-IsReady base fix a r =
      let a1 : VehicleAggregate L F =
        record_event vehicle_class
          (location_updated_event (options draw (length a.uncommitted) cmd) cmd.client_id fix) a in
      let located : IsReady cmd base a1 =
        record_event-IsAt vehicle_class cmd.client_id base _ a refl refl r in
      elim (Bool-cases (g.has_position fix)) [
        | inl h ↦ rw h (cross_rooms-IsReady base fix a1.state.geofences a1 located)
        | inr h ↦ rw h located
      ]
