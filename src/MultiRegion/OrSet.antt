-- ===== src/MultiRegion/OrSet.antt =====
-- The observed-remove set, class `ORSet` of src/multi-region.js. A tag that the source generates is
-- an argument.
pub mod Merge
pub mod Converge
pub mod View
use real_time_spatial_tracki.Base.{
  ◌≡◌, Bool, not, List, [], ◌∷◌, or_default, Key, any, if◌then◌else◌, ◌&&◌, ◌||◌,
}
use real_time_spatial_tracki.Base.Map
use real_time_spatial_tracki.Base.Map.{Map}
use real_time_spatial_tracki.Base.KeySet

pub record OrSet : Type 0 where
  pub adds : Map (List Key)
  pub removes : List Key

abbrev pub empty : OrSet
empty = record { adds = []; removes = [] }

abbrev pub tags : Key → OrSet → List Key
tags elem s = or_default (Map.get elem s.adds) []

unfoldable pub add : Key → Key → OrSet → OrSet
add elem tag s = record s { adds = Map.set elem (KeySet.add tag (tags elem s)) s.adds }

-- `for (const tag of tags) this.removes.add(tag)`.
unfoldable pub apply_remove : List Key → OrSet → OrSet
apply_remove [] s = s
apply_remove (tag ∷ ts) s = apply_remove ts (record s { removes = KeySet.add tag s.removes })

-- The new set, and the tags retired.
unfoldable pub remove : Key → OrSet → OrSet × List Key
unfolding apply_remove
remove elem s = (apply_remove (tags elem s) s, tags elem s)

-- Whether some tag of the list is not retired.
abbrev pub is_live : OrSet → Key → Bool
is_live s tag = not (KeySet.mem tag s.removes)

unfoldable pub has : Key → OrSet → Bool
has elem s = any (is_live s) (tags elem s)

unfoldable pub members_of : OrSet → Map (List Key) → List Key
members_of s [] = []
members_of s ((elem, ts) ∷ m) =
    let rest = members_of s m in if any (is_live s) ts then elem ∷ rest else rest

unfoldable pub members : OrSet → List Key
unfolding members_of
members s = members_of s s.adds

unfoldable pub apply_add : Key → Key → OrSet → OrSet
unfolding add
apply_add elem tag s = add elem tag s

-- The loops of `merge`, over one element's tags and over all elements.
unfoldable pub add_tags : Key → List Key → OrSet → OrSet
add_tags elem [] s = s
add_tags elem (tag ∷ ts) s = add_tags elem ts (apply_add elem tag s)

unfoldable pub add_entries : Map (List Key) → OrSet → OrSet
add_entries [] s = s
add_entries ((elem, ts) ∷ m) s = add_entries m (add_tags elem ts s)

unfoldable pub merge : OrSet → OrSet → OrSet
unfolding add_entries add_tags apply_add apply_remove
merge s other = apply_remove other.removes (add_entries other.adds s)

-- `ORSet.fromJSON` of the object that `toJSON` gives, whose entries are those of the set.
unfoldable pub from_json : OrSet → OrSet
unfolding add_entries add_tags apply_add apply_remove
from_json snap = apply_remove snap.removes (add_entries snap.adds empty)
