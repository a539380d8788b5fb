-- ===== src/MultiRegion/Rga.antt =====
-- The replicated growable array of src/multi-region.js, as the map of nodes that replicas merge. `V` is
-- the type of the payloads.
pub mod Merge
pub mod Traversal
use real_time_spatial_tracki.Base.{
  Bool, true, false, not, ◌||◌, List, [], ◌∷◌, Option, none, some, Key,
}
use real_time_spatial_tracki.Base.Map
use real_time_spatial_tracki.Base.Map.{Map}
use real_time_spatial_tracki.Base.Order.{Order, compare_text}

-- `compareMessageIds`.
unfoldable pub compare_message_ids : Key → Key → Order
compare_message_ids a b = compare_text a b

pub record Node {ℓ} (V : Type ℓ) : Type ℓ where
  pub id : Key
  pub origin_left : Option Key
  pub value : V
  pub tombstoned : Bool

module _ {ℓ} {V : Type ℓ} where
  -- A node that is known keeps its place and its payload; only its tombstone is taken over.
  unfoldable pub insert : Key → Option Key → V → Bool → Map (Node V) → Map (Node V)
  insert id origin_left value tombstoned nodes = elim (Map.get id nodes) [
    | some existing ↦
        Map.set id (record existing { tombstoned = existing.tombstoned || tombstoned }) nodes
    | none ↦
        Map.set id
          (record { id = id; origin_left = origin_left; value = value; tombstoned = tombstoned })
          nodes
  ]

  -- The new nodes, and whether the node existed.
  unfoldable pub remove : Key → Map (Node V) → Map (Node V) × Bool
  remove id nodes = elim (Map.get id nodes) [
    | none ↦ (nodes, false)
    | some node ↦ (Map.set id (record node { tombstoned = true }) nodes, true)
  ]

  unfoldable pub has : Key → Map (Node V) → Bool
  has id nodes = elim (Map.get id nodes) [ none ↦ false | some node ↦ not node.tombstoned ]

  unfoldable pub get : Key → Map (Node V) → Option V
  get id nodes = elim (Map.get id nodes) [ none ↦ none | some node ↦ some node.value ]

  -- `merge`: the loop over the peer's nodes, each inserted under its own id.
  unfoldable pub merge : Map (Node V) → Map (Node V) → Map (Node V)
  unfolding insert
  merge nodes [] = nodes
  merge nodes ((_, n) ∷ other) = merge (insert n.id n.origin_left n.value n.tombstoned nodes) other

  -- `fromJSON` of the list that `toJSON` gives.
  unfoldable pub from_json : Map (Node V) → List (Node V) → Map (Node V)
  unfolding insert
  from_json nodes [] = nodes
  from_json nodes (n ∷ snap) = from_json (insert n.id n.origin_left n.value n.tombstoned nodes) snap
