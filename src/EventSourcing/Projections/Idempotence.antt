-- ===== src/EventSourcing/Projections/Idempotence.antt =====
-- Events that were processed are not processed again.
use real_time_spatial_tracki.Base.{
  ◌-◌, ◌≡◌, refl, sym, ap, ◌∙◌, subst, true, false, List, [], ◌∷◌, map, none, Key, key_dec, ite,
  key_ite_self, arith, All, All-mono, Bool-cases, inl, inr, if◌then◌else◌, or_default, ◌&&◌,
}
use real_time_spatial_tracki.Base.Map
use real_time_spatial_tracki.Base.KeySet
use real_time_spatial_tracki.EventSourcing.{Event}
use real_time_spatial_tracki.EventSourcing.Feed.{sort_by_time, mem-sort, All-sort}
use real_time_spatial_tracki.EventSourcing.Projections.{
  Projection, Progress, Manager, is_processed_by_all, project_one, project, process_event,
  process_all, process_events, start,
}
use real_time_spatial_tracki.EventSourcing.Projections.MemorySink.{
  Sink, mark_event_processed, set_checkpoint, is_event_processed, is_event_processed-mark,
}

marks-processed_events :
    {N : Type 0} (name id : Key) (s t : Sink N)
    → t.processed_events ≡ s.processed_events
    → is_event_processed name id t ≡ is_event_processed name id s
unfolding is_event_processed
marks-processed_events name id s t h = ap (λ m. KeySet.mem id (or_default (Map.get name m) [])) h

abbrev SkipsAll : {N : Type 0} → Progress N → Progress N → Type 0
SkipsAll before after =
    (after.sink ≡ before.sink)
    × (after.applied ≡ before.applied)
    × (after.processed_total ≡ before.processed_total)

module _ {P N : Type 0} where
  -- The projection takes every event, never throws, and leaves the marks alone.
  pub record IsReliable (p : Projection P N) : Type 0 where
    pub all_types : p.event_types ≡ none
    pub succeeds : (e : Event P) (s : Sink N) → (p.handle e s).1 ≡ true
    pub keeps_marks :
        (e : Event P) (s : Sink N) → (p.handle e s).0.processed_events ≡ s.processed_events

  marks-project_one :
      (p : Projection P N) (name id : Key) (e : Event P) (s : Sink N)
      → IsReliable p
      → is_event_processed name id (project_one p e s) ≡ (
          if ite (key_dec p.name name) true false && ite (key_dec e.event_id id) true false
          then true
          else is_event_processed name id s)
  unfolding project_one set_checkpoint
  marks-project_one p name id e s r =
      rw (r.all_types, r.succeeds e s)
        (marks-processed_events name id (mark_event_processed p.name e.event_id (p.handle e s).0) _
            refl
          ∙ is_event_processed-mark name p.name id e.event_id (p.handle e s).0
          ∙ ap
              (λ b.
                if ite (key_dec p.name name) true false && ite (key_dec e.event_id id) true false
                then true
                else b)
              (marks-processed_events name id s (p.handle e s).0 (r.keeps_marks e s)))

  done-project_one :
      (p : Projection P N) (name id : Key) (e : Event P) (s : Sink N)
      → IsReliable p
      → is_event_processed name id s ≡ true
      → is_event_processed name id (project_one p e s) ≡ true
  done-project_one p name id e s r h = rw (marks-project_one p name id e s r) (ground (arith, h))

  done-project :
      (ps : List (Projection P N)) (name id : Key) (e : Event P) (s : Sink N)
      → All IsReliable ps
      → is_event_processed name id s ≡ true
      → is_event_processed name id (project ps e s) ≡ true
  unfolding project
  done-project [] name id e s rs h = h
  done-project (p ∷ ps) name id e s rs h =
      done-project ps name id e _ rs.1 (done-project_one p name id e s rs.0 h)

  -- Every projection has marked the event.
  abbrev IsDone : List (Projection P N) → Key → Sink N → Type 0
  IsDone ps id s = All (λ p. is_event_processed p.name id s ≡ true) ps

  project-IsDone :
      (ps : List (Projection P N)) (e : Event P) (s : Sink N)
      → All IsReliable ps
      → IsDone ps e.event_id (project ps e s)
  unfolding project
  project-IsDone [] e s rs = tt
  project-IsDone (p ∷ ps) e s rs = (
    done-project ps p.name e.event_id e _ rs.1 (
        marks-project_one p p.name e.event_id e s rs.0
        ∙ rw (key_ite_self true false p.name, key_ite_self true false e.event_id) refl),
    project-IsDone ps e _ rs.1,
  )

  is_processed_by_all-IsDone :
      (p : Projection P N) (ps : List (Projection P N)) (id : Key) (s : Sink N)
      → IsDone (p ∷ ps) id s
      → is_processed_by_all (p ∷ ps) id s ≡ true
  unfolding is_processed_by_all
  is_processed_by_all-IsDone p [] id s d = rw d.0 refl
  is_processed_by_all-IsDone p (q ∷ ps) id s d = rw d.0 (is_processed_by_all-IsDone q ps id s d.1)

  IsDone-is_processed_by_all :
      (ps : List (Projection P N)) (id : Key) (s : Sink N)
      → is_processed_by_all ps id s ≡ true
      → IsDone ps id s
  unfolding is_processed_by_all
  IsDone-is_processed_by_all [] id s h = tt
  IsDone-is_processed_by_all (p ∷ []) id s h = (ground (arith, h), tt)
  IsDone-is_processed_by_all (p ∷ q ∷ ps) id s h =
      (ground (arith, h), IsDone-is_processed_by_all (q ∷ ps) id s (ground (arith, h)))

  module _ (ps : List (Projection P N)) (rs : All IsReliable ps) where
    kept-process_event :
        (id : Key) (e : Event P) (q : Progress N)
        → IsDone ps id q.sink
        → IsDone ps id (process_event ps e q).sink
    unfolding process_event
    kept-process_event id e q d = elim (Bool-cases (is_processed_by_all ps e.event_id q.sink)) [
      | inl h ↦ rw h d
      | inr h ↦ rw h (All-mono (λ p m. done-project ps p.name id e q.sink rs m) ps d)
    ]

    process_event-IsDone :
        (e : Event P) (q : Progress N) → IsDone ps e.event_id (process_event ps e q).sink
    unfolding process_event
    process_event-IsDone e q = elim (Bool-cases (is_processed_by_all ps e.event_id q.sink)) [
      | inl h ↦ rw h (IsDone-is_processed_by_all ps e.event_id q.sink h)
      | inr h ↦ rw h (project-IsDone ps e q.sink rs)
    ]

    kept-process_all :
        (id : Key) (events : List (Event P)) (q : Progress N)
        → IsDone ps id q.sink
        → IsDone ps id (process_all ps events q).sink
    unfolding process_all
    kept-process_all id [] q d = d
    kept-process_all id (e ∷ events) q d =
        kept-process_all id events _ (kept-process_event id e q d)

    process_all-IsDone :
        (id : Key) (events : List (Event P)) (q : Progress N)
        → KeySet.mem id (map (λ e. e.event_id) events) ≡ true
        → IsDone ps id (process_all ps events q).sink
    unfolding process_all KeySet.mem
    process_all-IsDone id [] q h = absurd (ground (arith, h))
    process_all-IsDone id (e ∷ events) q h = elim (key_dec e.event_id id) [
      | yes same ↦
          kept-process_all id events _
            (subst (λ i. IsDone ps i (process_event ps e q).sink) same (process_event-IsDone e q))
      | no other ↦ process_all-IsDone id events _ (ground (arith, h, other))
    ]

  process_event_done :
      (p : Projection P N) (ps : List (Projection P N)) (e : Event P) (q : Progress N)
      → IsDone (p ∷ ps) e.event_id q.sink
      → process_event (p ∷ ps) e q ≡ record q { lag_events = q.lag_events - 1 }
  unfolding process_event
  process_event_done p ps e q d = rw (is_processed_by_all-IsDone p ps e.event_id q.sink d) refl

  process_all-SkipsAll :
      (p : Projection P N) (ps : List (Projection P N)) (events : List (Event P)) (q : Progress N)
      → All (λ e. IsDone (p ∷ ps) e.event_id q.sink) events
      → SkipsAll q (process_all (p ∷ ps) events q)
  unfolding process_all
  process_all-SkipsAll p ps [] q d = (refl, refl, refl)
  process_all-SkipsAll p ps (e ∷ events) q d =
      subst (λ r. SkipsAll q (process_all (p ∷ ps) events r))
        (sym (process_event_done p ps e q d.0))
        (process_all-SkipsAll p ps events (record q { lag_events = q.lag_events - 1 }) d.1)

  -- Processing is idempotent: once a batch has been processed, by at least one projection and by none
  -- that picks its types or throws, a batch of events that were all in it changes nothing: the read
  -- models and the total stay, and the number of applied events is 0.
  pub process_events-again :
      (p : Projection P N) (ps : List (Projection P N)) (m : Manager P N)
      (batch again : List (Event P))
      → m.projections ≡ p ∷ ps
      → All IsReliable (p ∷ ps)
      → All (λ e. KeySet.mem e.event_id (map (λ x. x.event_id) batch) ≡ true) again
      → ((process_events again (process_events batch m).0).0.sink ≡ (process_events batch m).0.sink)
        × ((process_events again (process_events batch m).0).1 ≡ 0)
        × ((process_events again (process_events batch m).0).0.processed_total
            ≡ (process_events batch m).0.processed_total)
  unfolding process_events
  process_events-again p ps m batch again registered rs inside =
      let first = process_all (p ∷ ps) (sort_by_time batch) (start (sort_by_time batch) m) in
      rw registered (
        process_all-SkipsAll p ps (sort_by_time again) _ (
          All-sort (λ e. IsDone (p ∷ ps) e.event_id first.sink) again
            (All-mono
              (λ e h.
                process_all-IsDone (p ∷ ps) rs e.event_id (sort_by_time batch) _
                  (mem-sort e.event_id batch ∙ h))
              again inside)))
