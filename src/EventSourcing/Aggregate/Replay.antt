-- ===== src/EventSourcing/Aggregate/Replay.antt =====
-- The state of an aggregate is the fold of its events.
use real_time_spatial_tracki.Base.{
  ℕ, ◌+◌, ◌≡◌, refl, sym, ap, ◌∙◌, subst, List, [], ◌∷◌, ◌++◌, none, some, arith, max, All-append,
}
use mathlib.Core.List.{append_assoc}
use real_time_spatial_tracki.EventSourcing.{Event}
use real_time_spatial_tracki.EventSourcing.Store.Stream.{IsRun, IsRun-append, IsOf}
use real_time_spatial_tracki.EventSourcing.Aggregate.{
  Class, Aggregate, apply, load_from_history, stage, record_event,
}

module _ {P A S : Type 0} (cls : Class P A S) where
  -- The fold of the events over a state.
  unfoldable pub replay : List (Event P) → A → A
  replay [] state = state
  replay (e ∷ events) state = replay events (cls.mutate e state)

  pub replay-append :
      (xs ys : List (Event P)) (state : A) → replay (xs ++ ys) state ≡ replay ys (replay xs state)
  unfolding replay
  replay-append [] ys state = refl
  replay-append (x ∷ xs) ys state = replay-append xs ys (cls.mutate x state)

  -- What loading a run does to an aggregate that stands at its start.
  pub record Loaded (events : List (Event P)) (hi : ℕ) (a b : Aggregate P A) : Type 0 where
    pub id : b.id ≡ a.id
    pub sequence : b.sequence ≡ hi
    pub next_seq : b.next_seq ≡ hi
    pub uncommitted : b.uncommitted ≡ a.uncommitted
    pub state : b.state ≡ replay events a.state

  pub load_from_history-Loaded :
      (lo hi : ℕ) (events : List (Event P)) (a : Aggregate P A)
      → IsRun lo events hi
      → a.sequence ≡ lo
      → a.next_seq ≡ lo
      → Loaded events hi a (load_from_history cls events a)
  unfolding load_from_history replay
  load_from_history-Loaded lo hi [] a run s n = record {
    id = refl;
    sequence = s ∙ run;
    next_seq = n ∙ run;
    uncommitted = refl;
    state = refl;
  }
  load_from_history-Loaded lo hi (e ∷ events) a run s n =
      let rest =
        load_from_history-Loaded (lo + 1) hi events (apply cls e a) run.1
          (unfold apply in ground (arith, run.0)) (unfold apply in ground (arith, run.0)) in
      record {
        id = rest.id ∙ (unfold apply in refl);
        sequence = rest.sequence;
        next_seq = rest.next_seq;
        uncommitted = rest.uncommitted ∙ (unfold apply in refl);
        state = rest.state ∙ ap (replay events) (unfold apply in refl);
      }

  -- The aggregate stands at the end of the events of the store, `base`, and of those that it has staged.
  pub record IsDerived (base : List (Event P)) (a : Aggregate P A) : Type 0 where
    pub run : IsRun 0 (base ++ a.uncommitted) a.sequence
    pub next : a.next_seq ≡ a.sequence
    pub state : a.state ≡ replay (base ++ a.uncommitted) cls.initial
    pub own : IsOf a.id a.uncommitted

  -- The event as it is recorded.
  abbrev pub numbered : Event P → Aggregate P A → Event P
  numbered e a = record e { sequence = some (a.next_seq + 1) }

  record_event_unnumbered :
      (e : Event P) (a : Aggregate P A)
      → e.sequence ≡ none
      → record_event cls e a ≡ stage cls (numbered e a) (record a { next_seq = a.next_seq + 1 })
  unfolding record_event
  record_event_unnumbered e a h = ground (arith, h)

  stage-IsDerived :
      (base : List (Event P)) (e : Event P) (a : Aggregate P A)
      → IsDerived base a
      → e.aggregate_id ≡ a.id
      → IsDerived base (stage cls (numbered e a) (record a { next_seq = a.next_seq + 1 }))
  unfolding stage apply
  stage-IsDerived base e a d own =
      let joined : base ++ (a.uncommitted ++ numbered e a ∷ [])
          ≡ (base ++ a.uncommitted) ++ numbered e a ∷ [] =
        sym (append_assoc base a.uncommitted (numbered e a ∷ [])) in
      let top : max (max a.sequence (a.next_seq + 1)) (a.next_seq + 1) ≡ a.sequence + 1 =
        omega (arith, d.next) in
      record {
        run =
            rw (joined, top)
              (IsRun-append 0 a.sequence (a.sequence + 1) (base ++ a.uncommitted)
                (numbered e a ∷ []) d.run (ap (λ n. some (n + 1)) d.next, refl));
        next = omega (arith, d.next);
        state =
            ap (cls.mutate (numbered e a)) d.state
            ∙ sym (
                ap (λ es. replay es cls.initial) joined
                ∙ replay-append (base ++ a.uncommitted) (numbered e a ∷ []) cls.initial
                ∙ (unfold replay in refl));
        own =
            All-append (λ x. x.aggregate_id ≡ a.id) a.uncommitted (numbered e a ∷ []) d.own
              (own, tt);
      }

  -- Recording an event that has no number yet puts it after all the others.
  pub record_event-IsDerived :
      (base : List (Event P)) (e : Event P) (a : Aggregate P A)
      → IsDerived base a
      → e.sequence ≡ none
      → e.aggregate_id ≡ a.id
      → IsDerived base (record_event cls e a)
  record_event-IsDerived base e a d unnumbered own =
      subst (IsDerived base) (sym (record_event_unnumbered e a unnumbered))
        (stage-IsDerived base e a d own)
