-- ===== src/MultiRegion/LwwElementSet.antt =====
-- The last-update-wins element set of src/multi-region.js, which holds the geofences. `V` is the type
-- of the definitions that the stamps carry.
pub mod Laws
pub mod Converge
use real_time_spatial_tracki.Base.{
  ◌≡◌, Bool, true, false, List, [], ◌∷◌, Option, none, some, Key, if◌then◌else◌,
}
use real_time_spatial_tracki.Base.Map
use real_time_spatial_tracki.Base.Map.{Map}
use real_time_spatial_tracki.Base.Order.{Order, less, same, more, compare_text, then_by, is_more}
use real_time_spatial_tracki.MultiRegion.Hlc
use real_time_spatial_tracki.MultiRegion.Hlc.{Stamp}

pub record FenceStamp {ℓ} (V : Type ℓ) : Type ℓ where
  pub hlc : Stamp
  pub region_id : Key
  pub value : Option V

module _ {ℓ} {V : Type ℓ} where
  unfoldable pub compare_stamps : FenceStamp V → FenceStamp V → Order
  compare_stamps a b = then_by (Hlc.compare a.hlc b.hlc) (compare_text a.region_id b.region_id)

pub record LwwElementSet {ℓ} (V : Type ℓ) : Type ℓ where
  pub adds : Map (FenceStamp V)
  pub removes : Map (FenceStamp V)

module _ {ℓ} {V : Type ℓ} where
  -- The write that `add` and `remove` make on their side of the set.
  unfoldable pub put : Key → FenceStamp V → Map (FenceStamp V) → Map (FenceStamp V)
  put elem stamp side = elim (Map.get elem side) [
    | none ↦ Map.set elem stamp side
    | some current ↦
        if is_more (compare_stamps stamp current) then Map.set elem stamp side else side
  ]

  unfoldable pub add : Key → FenceStamp V → LwwElementSet V → LwwElementSet V
  unfolding put
  add elem stamp s = record s { adds = put elem stamp s.adds }

  unfoldable pub remove : Key → FenceStamp V → LwwElementSet V → LwwElementSet V
  unfolding put
  remove elem stamp s = record s { removes = put elem stamp s.removes }

  unfoldable pub has : Key → LwwElementSet V → Bool
  has elem s = elim (Map.get elem s.adds) [
    | none ↦ false
    | some add_stamp ↦ elim (Map.get elem s.removes) [
      | none ↦ true
      | some remove_stamp ↦ is_more (compare_stamps add_stamp remove_stamp)
    ]
  ]

  -- `this.adds.get(elem)?.value`.
  unfoldable pub get : Key → LwwElementSet V → Option V
  get elem s = elim (Map.get elem s.adds) [ none ↦ none | some stamp ↦ stamp.value ]

  unfoldable pub add_all : Map (FenceStamp V) → LwwElementSet V → LwwElementSet V
  unfolding add
  add_all [] s = s
  add_all ((elem, stamp) ∷ m) s = add_all m (add elem stamp s)

  unfoldable pub remove_all : Map (FenceStamp V) → LwwElementSet V → LwwElementSet V
  unfolding remove
  remove_all [] s = s
  remove_all ((elem, stamp) ∷ m) s = remove_all m (remove elem stamp s)

  unfoldable pub merge : LwwElementSet V → LwwElementSet V → LwwElementSet V
  unfolding add_all remove_all
  merge s other = remove_all other.removes (add_all other.adds s)

  -- `fromJSON` of what `toJSON` gives: the two lists of entries.
  unfoldable pub from_json : LwwElementSet V → LwwElementSet V
  unfolding add_all remove_all
  from_json snap = remove_all snap.removes (add_all snap.adds (record { adds = []; removes = [] }))
