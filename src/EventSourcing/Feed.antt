-- ===== src/EventSourcing/Feed.antt =====
-- The order of events by time in src/event-sourcing.js, and the queries of the in-memory store by it.
use real_time_spatial_tracki.Base.{
  ℕ, ◌≡◌, refl, ◌∙◌, Bool, true, false, List, [], ◌∷◌, Option, none, some, Key, key_dec, ite, ltb,
  if◌then◌else◌, filter, arith, Bool-cases, inl, inr, map, All, zero, suc,
}
use real_time_spatial_tracki.Base.Order.{compare_text, is_less}
use real_time_spatial_tracki.Base.KeySet
use real_time_spatial_tracki.EventSourcing.{Event}
use real_time_spatial_tracki.EventSourcing.Store.{EventStore}

module _ {P : Type 0} where
  -- `compareByTime(a, b) < 0`.
  unfoldable pub is_before : Event P → Event P → Bool
  is_before a b =
      if ltb a.timestamp b.timestamp
      then true
      else if ltb b.timestamp a.timestamp
      then false
      else is_less (compare_text a.event_id b.event_id)

  unfoldable pub insert_by_time : Event P → List (Event P) → List (Event P)
  unfolding is_before
  insert_by_time e [] = e ∷ []
  insert_by_time e (x ∷ xs) =
      let rest = insert_by_time e xs in if is_before e x then e ∷ x ∷ xs else x ∷ rest

  -- `.sort(compareByTime)`. Where two events have one time and one id, their order is not determined.
  unfoldable pub sort_by_time : List (Event P) → List (Event P)
  unfolding insert_by_time
  sort_by_time [] = []
  sort_by_time (e ∷ events) = insert_by_time e (sort_by_time events)

  abbrev has_correlation : Key → Event P → Bool
  has_correlation id e = elim e.correlation_id [
    | none ↦ false
    | some c ↦ ite (key_dec c id) true false
  ]

  -- `slice(0, limit)`.
  abbrev pub take : ℕ → List (Event P) → List (Event P)
  take zero xs = []
  take (suc n) [] = []
  take (suc n) (x ∷ xs) = x ∷ take n xs

  -- What follows the event of that id: `none` if there is none.
  unfoldable pub after_event : Key → List (Event P) → Option (List (Event P))
  after_event id [] = none
  after_event id (e ∷ events) =
      let rest = after_event id events in ite (key_dec e.event_id id) (some events) rest

  mem-insert :
      (id : Key) (e : Event P) (events : List (Event P))
      → KeySet.mem id (map (λ e. e.event_id) (insert_by_time e events))
        ≡ KeySet.mem id (map (λ e. e.event_id) (e ∷ events))
  unfolding insert_by_time KeySet.mem
  mem-insert id e [] = refl
  mem-insert id e (x ∷ xs) = elim (Bool-cases (is_before e x)) [
    | inl h ↦ rw h refl
    | inr h ↦ rw h (ground (arith, mem-insert id e xs))
  ]

  pub mem-sort :
      (id : Key) (events : List (Event P))
      → KeySet.mem id (map (λ e. e.event_id) (sort_by_time events))
        ≡ KeySet.mem id (map (λ e. e.event_id) events)
  unfolding sort_by_time KeySet.mem
  mem-sort id [] = refl
  mem-sort id (e ∷ events) =
      mem-insert id e (sort_by_time events) ∙ ground (arith, mem-sort id events)

  All-insert :
      (Q : Event P → Type 0) (e : Event P) (events : List (Event P))
      → Q e
      → All Q events
      → All Q (insert_by_time e events)
  unfolding insert_by_time
  All-insert Q e [] q h = (q, tt)
  All-insert Q e (x ∷ xs) q h = elim (Bool-cases (is_before e x)) [
    | inl b ↦ rw b (q, h)
    | inr b ↦ rw b (h.0, All-insert Q e xs q h.1)
  ]

  pub All-sort :
      (Q : Event P → Type 0) (events : List (Event P)) → All Q events → All Q (sort_by_time events)
  unfolding sort_by_time
  All-sort Q [] h = tt
  All-sort Q (e ∷ events) h = All-insert Q e _ h.0 (All-sort Q events h.1)

module _ {P S : Type 0} where
  unfoldable pub get_events_by_correlation : Key → EventStore P S → List (Event P)
  unfolding sort_by_time
  get_events_by_correlation [] store = []
  get_events_by_correlation (c ∷ id) store =
      sort_by_time (filter (has_correlation (c ∷ id)) store.all)

  unfoldable pub get_events_after : Option Key → ℕ → EventStore P S → List (Event P)
  unfolding sort_by_time after_event
  get_events_after none limit store = take limit (sort_by_time store.all)
  get_events_after (some []) limit store = take limit (sort_by_time store.all)
  get_events_after (some (c ∷ id)) limit store =
      let sorted = sort_by_time store.all in
      elim (after_event (c ∷ id) sorted) [
        | none ↦ take limit sorted
        | some events ↦ take limit events
      ]
