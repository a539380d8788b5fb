-- ===== src/MultiRegion/LwwMap.antt =====
-- The last-writer-wins map of src/multi-region.js, which holds the sessions. `V` is the type of the
-- values.
pub mod Winner
pub mod Merge
use real_time_spatial_tracki.Base.{
  ℕ, ◌+◌, Bool, true, false, not, List, [], ◌∷◌, Option, none, some, Key, if◌then◌else◌,
}
use real_time_spatial_tracki.Base.Map
use real_time_spatial_tracki.Base.Map.{Map}
use real_time_spatial_tracki.Base.Order.{compare_text, is_more}
use real_time_spatial_tracki.MultiRegion.VectorClock.{
  VectorClock, VcOrder, equal, before, after, concurrent, vc_compare,
}

pub record Entry {ℓ} (V : Type ℓ) : Type ℓ where
  pub value : Option V
  pub clock : VectorClock
  pub writer : Key
  pub deleted : Bool

abbrev pub is_concurrent : VcOrder → Bool
is_concurrent concurrent = true
is_concurrent _ = false

module _ {ℓ} {V : Type ℓ} where
  -- `LWWMap.#winsOver(a, b)`.
  unfoldable pub wins_over : Entry V → Entry V → Bool
  wins_over a b = elim (vc_compare a.clock b.clock) [
    | after ↦ true
    | before ↦ false
    | equal ↦ false
    | concurrent ↦ is_more (compare_text a.writer b.writer)
  ]

  -- `#apply`: the new map, and whether the incoming entry won.
  unfoldable pub apply : Key → Entry V → Map (Entry V) → Map (Entry V) × Bool
  unfolding wins_over
  apply key incoming m = elim (Map.get key m) [
    | none ↦ (Map.set key incoming m, true)
    | some current ↦
        if wins_over incoming current then (Map.set key incoming m, true) else (m, false)
  ]

  unfoldable pub set : Key → V → VectorClock → Key → Map (Entry V) → Map (Entry V)
  unfolding apply
  set key value clock writer m =
      (apply key (record { value = some value; clock = clock; writer = writer; deleted = false })
        m).0

  unfoldable pub delete : Key → VectorClock → Key → Map (Entry V) → Map (Entry V)
  unfolding apply
  delete key clock writer m =
      (apply key (record { value = none; clock = clock; writer = writer; deleted = true }) m).0

  unfoldable pub get : Key → Map (Entry V) → Option V
  get key m = elim (Map.get key m) [
    | none ↦ none
    | some entry ↦ if not entry.deleted then entry.value else none
  ]

  unfoldable pub has : Key → Map (Entry V) → Bool
  has key m = elim (Map.get key m) [ none ↦ false | some entry ↦ not entry.deleted ]

  -- One more conflict if the entry is concurrent with the one that the map holds.
  unfoldable pub count_conflict : Key → Entry V → Map (Entry V) → ℕ → ℕ
  count_conflict key entry m conflicts = elim (Map.get key m) [
    | none ↦ conflicts
    | some current ↦
        if is_concurrent (vc_compare entry.clock current.clock) then conflicts + 1 else conflicts
  ]

  -- `merge`: the loop over the peer's entries, with the conflicts counted so far.
  unfoldable pub merge : Map (Entry V) → Map (Entry V) → ℕ → Map (Entry V) × ℕ
  unfolding apply count_conflict
  merge m [] conflicts = (m, conflicts)
  merge m ((key, entry) ∷ other) conflicts =
      merge (apply key entry m).0 other (count_conflict key entry m conflicts)

  -- `fromJSON` of what `toJSON` gives.
  unfoldable pub from_json : Map (Entry V) → Map (Entry V) → Map (Entry V)
  unfolding apply
  from_json m [] = m
  from_json m ((key, entry) ∷ snap) = from_json (apply key entry m).0 snap
