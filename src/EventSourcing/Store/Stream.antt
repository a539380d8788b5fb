-- ===== src/EventSourcing/Store/Stream.antt =====
-- Streams of events whose numbers run without a gap, and what `append` does to them.
use real_time_spatial_tracki.Base.{
  ℕ, ◌+◌, ◌≤◌, ◌≡◌, refl, sym, ◌∙◌, false, List, [], ◌∷◌, ◌++◌, Option, none, some, Key, key_dec,
  ite, arith, filter, Option-cases, length, All, any, inl, inr, filter-append,
}
use mathlib.Core.List.{append_assoc, append-nil}
use real_time_spatial_tracki.Base.Map
use real_time_spatial_tracki.Base.Map.{Map}
use real_time_spatial_tracki.EventSourcing.{Event, Failure, Result, ok, failed}
use real_time_spatial_tracki.EventSourcing.Store.{
  EventStore, events_of, insert, insert_one, append, refusal, last_sequence, from_to, conflict_at,
  assert_appendable, of_other, lacks_sequence, find_duplicate,
}

module _ {P : Type 0} where
  -- The numbers of the events are those after `lo`, up to `hi`.
  abbrev pub IsRun : ℕ → List (Event P) → ℕ → Type 0
  IsRun lo [] hi = lo ≡ hi
  IsRun lo (e ∷ events) hi = (e.sequence ≡ some (lo + 1)) × IsRun (lo + 1) events hi

  pub IsRun-append :
      (lo mid hi : ℕ) (xs ys : List (Event P))
      → IsRun lo xs mid
      → IsRun mid ys hi
      → IsRun lo (xs ++ ys) hi
  IsRun-append lo mid hi [] ys h k = rw h k
  IsRun-append lo mid hi (x ∷ xs) ys h k = (h.0, IsRun-append (lo + 1) mid hi xs ys h.1 k)

  pub IsRun-length : (lo hi : ℕ) (es : List (Event P)) → IsRun lo es hi → hi ≡ lo + length es
  IsRun-length lo hi [] h = omega (arith, h)
  IsRun-length lo hi (e ∷ es) h = omega (arith, IsRun-length (lo + 1) hi es h.1)

  last_sequence-from :
      (lo hi : ℕ) (e : Event P) (es : List (Event P))
      → IsRun lo (e ∷ es) hi
      → last_sequence (e ∷ es) ≡ hi
  unfolding last_sequence
  last_sequence-from lo hi e [] h = ground (arith, h.0, h.1)
  last_sequence-from lo hi e (x ∷ es) h = last_sequence-from (lo + 1) hi x es h.1

  pub last_sequence-IsRun : (hi : ℕ) (es : List (Event P)) → IsRun 0 es hi → last_sequence es ≡ hi
  unfolding last_sequence
  last_sequence-IsRun hi [] h = h
  last_sequence-IsRun hi (e ∷ es) h = last_sequence-from 0 hi e es h

  -- The events of a run after a number in it.
  filter_earlier :
      (lo s : ℕ) (es : List (Event P)) → IsRun lo es s → filter (from_to (s + 1) none) es ≡ []
  filter_earlier lo s [] h = refl
  filter_earlier lo s (e ∷ es) h =
      ground (arith, h.0, filter_earlier (lo + 1) s es h.1, IsRun-length (lo + 1) s es h.1)

  filter_later :
      (lo hi s : ℕ) (es : List (Event P))
      → s ≤ lo
      → IsRun lo es hi
      → filter (from_to (s + 1) none) es ≡ es
  filter_later lo hi s [] le h = refl
  filter_later lo hi s (e ∷ es) le h =
      ground (arith, h.0, filter_later (lo + 1) hi s es (omega arith) h.1)

  pub filter-after :
      (hi s : ℕ) (before after : List (Event P))
      → IsRun 0 before s
      → IsRun s after hi
      → filter (from_to (s + 1) none) (before ++ after) ≡ after
  filter-after hi s before after h k =
      filter-append (from_to (s + 1) none) before after
      ∙ rw (filter_earlier 0 s before h, filter_later s hi s after (omega arith) k) refl

  pub filter_whole :
      (hi : ℕ) (es : List (Event P)) → IsRun 0 es hi → filter (from_to 1 none) es ≡ es
  filter_whole hi es h = filter_later 0 hi 0 es (omega arith) h

  -- The events are all of one aggregate.
  abbrev pub IsOf : Key → List (Event P) → Type 0
  IsOf id = All (λ e. e.aggregate_id ≡ id)

module _ {P : Type 0} where
  run-numbered : (lo hi : ℕ) (es : List (Event P)) → IsRun lo es hi → any lacks_sequence es ≡ false
  run-numbered lo hi [] h = refl
  run-numbered lo hi (e ∷ es) h = ground (arith, h.0, run-numbered (lo + 1) hi es h.1)

  IsOf-any : (id : Key) (es : List (Event P)) → IsOf id es → any (of_other id) es ≡ false
  IsOf-any id [] h = refl
  IsOf-any id (e ∷ es) h = ground (arith, h.0, IsOf-any id es h.1)

  any-of_other-IsOf : (id : Key) (es : List (Event P)) → any (of_other id) es ≡ false → IsOf id es
  any-of_other-IsOf id [] h = tt
  any-of_other-IsOf id (e ∷ es) h = elim (key_dec e.aggregate_id id) [
    | yes p ↦ (p, any-of_other-IsOf id es (ground arith))
    | no p ↦ absurd (ground arith)
  ]

module _ {P S : Type 0} where
  events_of-insert_one :
      (j : Key) (e : Event P) (store : EventStore P S)
      → events_of j (insert_one e store)
        ≡ ite (key_dec e.aggregate_id j) (events_of j store ++ e ∷ []) (events_of j store)
  unfolding insert_one
  events_of-insert_one j e store = ground (
    arith,
    Map.get-set j e.aggregate_id (events_of e.aggregate_id store ++ e ∷ []) store.by_aggregate,
  )

  pub events_of-insert :
      (id j : Key) (es : List (Event P)) (store : EventStore P S)
      → IsOf id es
      → events_of j (insert es store)
        ≡ ite (key_dec id j) (events_of j store ++ es) (events_of j store)
  unfolding insert
  events_of-insert id j [] store h = ground (arith, append-nil (events_of j store))
  events_of-insert id j (e ∷ es) store h = ground (
    arith,
    h.0,
    events_of-insert id j es (insert_one e store) h.1,
    events_of-insert_one j e store,
    append_assoc (events_of j store) (e ∷ []) es,
  )

  all-insert :
      (es : List (Event P)) (store : EventStore P S) → (insert es store).all ≡ store.all ++ es
  unfolding insert insert_one
  all-insert [] store = sym (append-nil store.all)
  all-insert (e ∷ es) store =
      all-insert es (insert_one e store) ∙ append_assoc store.all (e ∷ []) es

  pub snapshots-insert :
      (es : List (Event P)) (store : EventStore P S) → (insert es store).snapshots ≡ store.snapshots
  unfolding insert insert_one
  snapshots-insert [] store = refl
  snapshots-insert (e ∷ es) store = snapshots-insert es (insert_one e store)

  -- What an `append` that gave this result has done to the store.
  abbrev pub Appends : Key → Result (List (Event P)) → EventStore P S → EventStore P S → Type 0
  Appends id (failed failure) store next = next ≡ store
  Appends id (ok events) store next =
      ((j : Key)
        → events_of j next ≡ ite (key_dec id j) (events_of j store ++ events) (events_of j store))
      × (next.all ≡ store.all ++ events)
      × (next.snapshots ≡ store.snapshots)

  refusal-IsOf :
      (e : Event P) (es : List (Event P)) (expected : Option ℕ) (store : EventStore P S)
      → refusal (e ∷ es) expected store ≡ none
      → IsOf e.aggregate_id (e ∷ es)
  unfolding refusal assert_appendable
  refusal-IsOf e es expected store h =
      (refl, any-of_other-IsOf e.aggregate_id es (ground (arith, h)))

  pub append_refused :
      (es : List (Event P)) (expected : Option ℕ) (store : EventStore P S) (failure : Failure)
      → refusal es expected store ≡ some failure
      → append es expected store ≡ (store, failed failure)
  unfolding append
  append_refused es expected store failure h = ground (arith, h)

  -- The store after an `append` that is not refused.
  abbrev pub appended : List (Event P) → EventStore P S → EventStore P S
  appended es store =
      let inserted = insert es store in
      record inserted { appends_total = inserted.appends_total + 1 }

  pub append_accepted :
      (es : List (Event P)) (expected : Option ℕ) (store : EventStore P S)
      → refusal es expected store ≡ none
      → append es expected store ≡ (appended es store, ok es)
  unfolding append
  append_accepted es expected store h = ground (arith, h)

  -- `append` is atomic: if it throws, for whichever reason, the store is as it was; if it does not, the
  -- events have been added in their order to the stream of their one aggregate and to the log, and
  -- every other stream and all snapshots are as they were.
  pub append_atomic :
      (e : Event P) (es : List (Event P)) (expected : Option ℕ) (store : EventStore P S)
      → Appends e.aggregate_id
          (append (e ∷ es) expected store).1
          store
          (append (e ∷ es) expected store).0
  append_atomic e es expected store = elim (Option-cases (refusal (e ∷ es) expected store)) [
    | inr (failure, h) ↦ rw (append_refused (e ∷ es) expected store failure h) refl
    | inl h ↦ rw (append_accepted (e ∷ es) expected store h) (
      λ j. events_of-insert e.aggregate_id j (e ∷ es) store (refusal-IsOf e es expected store h),
      all-insert (e ∷ es) store,
      snapshots-insert (e ∷ es) store,
    )
  ]

  -- The checks pass for a run of one aggregate's events whose ids are new, if the expected number is
  -- that of the last event.
  pub refusal-IsRun :
      (lo hi : ℕ) (e : Event P) (es : List (Event P)) (expected : ℕ) (store : EventStore P S)
      → IsRun lo (e ∷ es) hi
      → IsOf e.aggregate_id es
      → find_duplicate store.ids (e ∷ es) ≡ none
      → refusal (e ∷ es) (some expected) store
        ≡ conflict_at (some expected) (last_sequence (events_of e.aggregate_id store))
  unfolding refusal assert_appendable
  refusal-IsRun lo hi e es expected store run of fresh =
      ground (arith, fresh, run-numbered lo hi (e ∷ es) run, IsOf-any e.aggregate_id es of)
