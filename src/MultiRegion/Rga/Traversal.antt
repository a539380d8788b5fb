-- ===== src/MultiRegion/Rga/Traversal.antt =====
-- The traversal of the growable array of src/multi-region.js, and what reads it. The loop over the stack
-- runs on fuel; `none` is that it ran out.
pub mod Nodes
pub mod Total
use real_time_spatial_tracki.Base.{
  ℕ, zero, suc, ◌+◌, Bool, true, false, not, List, [], ◌∷◌, ◌++◌, Option, none, some, Key, key,
  key_dec, ite, or_default, length, if◌then◌else◌, filter,
}
use real_time_spatial_tracki.Base.Map
use real_time_spatial_tracki.Base.Map.{Map}
use real_time_spatial_tracki.Base.Order.{is_more}
use real_time_spatial_tracki.MultiRegion.Rga.{Node, compare_message_ids}

-- The bucket of the nodes without a predecessor.
abbrev pub head_key : Key
head_key = 0 ∷ key "head"

module _ {V : Type 0} where
  abbrev pub bucket_key : Node V → Key
  bucket_key node = or_default node.origin_left head_key

  abbrev pub bucket : Key → Map (List (Node V)) → List (Node V)
  bucket k children = or_default (Map.get k children) []

  -- The loop over the nodes.
  unfoldable pub group : Map (Node V) → Map (List (Node V)) → Map (List (Node V))
  group [] children = children
  group ((_, node) ∷ nodes) children =
      let k = bucket_key node in group nodes (Map.set k (bucket k children ++ node ∷ []) children)

  unfoldable pub insert_by_id : Node V → List (Node V) → List (Node V)
  insert_by_id x [] = x ∷ []
  insert_by_id x (y ∷ ys) =
      let rest = insert_by_id x ys in
      if is_more (compare_message_ids x.id y.id) then y ∷ rest else x ∷ y ∷ ys

  -- `bucket.sort(…)`.
  unfoldable pub sort_by_id : List (Node V) → List (Node V)
  unfolding insert_by_id
  sort_by_id [] = []
  sort_by_id (x ∷ xs) = insert_by_id x (sort_by_id xs)

  -- The children of a node, by its id, in their order.
  unfoldable pub children_of : Map (Node V) → Key → List (Node V)
  unfolding group sort_by_id
  children_of nodes k = sort_by_id (bucket k (group nodes []))

  -- The loop over the stack, whose top comes first.
  unfoldable pub walk : ℕ → (Key → List (Node V)) → List (Node V) → Option (List (Node V))
  walk n children [] = some []
  walk zero children (node ∷ stack) = none
  walk (suc n) children (node ∷ stack) = elim (walk n children (children node.id ++ stack)) [
    | none ↦ none
    | some rest ↦ some (node ∷ rest)
  ]

  unfoldable pub traverse : Map (Node V) → Option (List (Node V))
  unfolding children_of walk
  traverse nodes = walk (length nodes) (children_of nodes) (children_of nodes head_key)

  abbrev visible : Node V → Bool
  visible node = not node.tombstoned

  -- `toArray`, whose indexes are the places in the list.
  unfoldable pub to_array : Map (Node V) → Option (List (Node V))
  unfolding traverse
  to_array nodes = elim (traverse nodes) [ none ↦ none | some order ↦ some (filter visible order) ]

  unfoldable pub last_id : List (Node V) → Option Key
  last_id [] = none
  last_id (x ∷ xs) = let rest = last_id xs in elim xs [ [] ↦ some x.id | y ∷ ys ↦ rest ]

  -- `lastVisibleId`, if the traversal ends.
  unfoldable pub last_visible_id : Map (Node V) → Option (Option Key)
  unfolding to_array last_id
  last_visible_id nodes = elim (to_array nodes) [ none ↦ none | some items ↦ some (last_id items) ]

  -- The place of an id among the visible nodes; `none` is the result -1.
  unfoldable pub place : Key → List (Node V) → Option ℕ
  place id [] = none
  place id (x ∷ xs) =
      let rest = place id xs in
      ite (key_dec x.id id) (some 0)
        (elim rest as (λ _. Option ℕ) [ none ↦ none | some n ↦ some (n + 1) ])

  unfoldable pub index_of : Key → Map (Node V) → Option (Option ℕ)
  unfolding to_array place
  index_of id nodes = elim (to_array nodes) [ none ↦ none | some items ↦ some (place id items) ]
