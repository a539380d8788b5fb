-- ===== src/MultiRegion/OrSet/Merge.antt =====
-- What the operations of the observed-remove set do to the facts that it stands for: which tags back
-- an element, and which tags are retired.
use real_time_spatial_tracki.Base.{
  ◌≡◌, refl, ◌∙◌, Bool, true, ◌||◌, List, [], ◌∷◌, arith, or_default, Key, key_dec, ite,
}
use real_time_spatial_tracki.Base.Map
use real_time_spatial_tracki.Base.Map.{Map, Distinct}
use real_time_spatial_tracki.Base.KeySet
use real_time_spatial_tracki.MultiRegion.OrSet.{
  OrSet, tags, add, apply_remove, apply_add, add_tags, add_entries, merge,
}

-- The tag backs an addition of the element; the tag is retired.
abbrev pub tagged : Key → Key → OrSet → Bool
tagged elem tag s = KeySet.mem tag (tags elem s)

abbrev pub retired : Key → OrSet → Bool
retired tag s = KeySet.mem tag s.removes

pub tagged-add :
    (e t elem tag : Key) (s : OrSet)
    → tagged e t (add elem tag s)
      ≡ (ite (key_dec elem e) (ite (key_dec tag t) true (tagged e t s)) (tagged e t s))
unfolding add KeySet.mem
tagged-add e t elem tag s = ground (
  arith,
  Map.get-set e elem (KeySet.add tag (tags elem s)) s.adds,
  KeySet.mem-add t tag (tags elem s),
)

pub apply_remove-adds : (ts : List Key) (s : OrSet) → (apply_remove ts s).adds ≡ s.adds
unfolding apply_remove
apply_remove-adds [] s = refl
apply_remove-adds (t ∷ ts) s = apply_remove-adds ts (record s { removes = KeySet.add t s.removes })

pub retired-apply_remove :
    (t : Key) (ts : List Key) (s : OrSet)
    → retired t (apply_remove ts s) ≡ (KeySet.mem t ts || retired t s)
unfolding apply_remove KeySet.mem
retired-apply_remove t [] s = refl
retired-apply_remove t (u ∷ ts) s = ground (
  arith,
  retired-apply_remove t ts (record s { removes = KeySet.add u s.removes }),
  KeySet.mem-add t u s.removes,
)

add_tags-removes :
    (elem : Key) (ts : List Key) (s : OrSet) → (add_tags elem ts s).removes ≡ s.removes
unfolding add_tags apply_add add
add_tags-removes elem [] s = refl
add_tags-removes elem (t ∷ ts) s = add_tags-removes elem ts (add elem t s)

tagged-add_tags :
    (e t elem : Key) (ts : List Key) (s : OrSet)
    → tagged e t (add_tags elem ts s)
      ≡ (ite (key_dec elem e) (KeySet.mem t ts || tagged e t s) (tagged e t s))
unfolding add_tags apply_add KeySet.mem
tagged-add_tags e t elem [] s = ground arith
tagged-add_tags e t elem (u ∷ ts) s =
    ground (arith, tagged-add_tags e t elem ts (add elem u s), tagged-add e t elem u s)

add_entries-removes : (m : Map (List Key)) (s : OrSet) → (add_entries m s).removes ≡ s.removes
unfolding add_entries
add_entries-removes [] s = refl
add_entries-removes ((elem, ts) ∷ m) s =
    add_entries-removes m (add_tags elem ts s) ∙ add_tags-removes elem ts s

tagged-add_entries :
    (e t : Key) (m : Map (List Key)) (s : OrSet)
    → Distinct m
    → tagged e t (add_entries m s) ≡ (KeySet.mem t (or_default (Map.get e m) []) || tagged e t s)
unfolding add_entries Map.get KeySet.mem
tagged-add_entries e t [] s d = refl
tagged-add_entries e t ((elem, ts) ∷ m) s d =
    ground
      (arith, tagged-add_entries e t m (add_tags elem ts s) d.1, tagged-add_tags e t elem ts s, d.0)

-- A merge keeps exactly the tags and the retirements of either side.
pub merge_facts :
    (e t : Key) (a b : OrSet)
    → Distinct b.adds
    → (tagged e t (merge a b) ≡ (tagged e t b || tagged e t a))
      × (retired t (merge a b) ≡ (retired t b || retired t a))
unfolding merge
merge_facts e t a b d = (
  rw (apply_remove-adds b.removes (add_entries b.adds a)) (tagged-add_entries e t b.adds a d),
  rw (retired-apply_remove t b.removes (add_entries b.adds a), add_entries-removes b.adds a) refl,
)

-- The map of additions keeps its keys distinct.
pub add-Distinct : (elem tag : Key) (s : OrSet) → Distinct s.adds → Distinct (add elem tag s).adds
unfolding add
add-Distinct elem tag s d = Map.set-Distinct elem _ s.adds d

add_tags-Distinct :
    (elem : Key) (ts : List Key) (s : OrSet) → Distinct s.adds → Distinct (add_tags elem ts s).adds
unfolding add_tags apply_add
add_tags-Distinct elem [] s d = d
add_tags-Distinct elem (t ∷ ts) s d =
    add_tags-Distinct elem ts (add elem t s) (add-Distinct elem t s d)

add_entries-Distinct :
    (m : Map (List Key)) (s : OrSet) → Distinct s.adds → Distinct (add_entries m s).adds
unfolding add_entries
add_entries-Distinct [] s d = d
add_entries-Distinct ((elem, ts) ∷ m) s d =
    add_entries-Distinct m (add_tags elem ts s) (add_tags-Distinct elem ts s d)

pub apply_remove-Distinct :
    (ts : List Key) (s : OrSet) → Distinct s.adds → Distinct (apply_remove ts s).adds
apply_remove-Distinct ts s d = rw (apply_remove-adds ts s) d

pub merge-Distinct : (a b : OrSet) → Distinct a.adds → Distinct (merge a b).adds
unfolding merge
merge-Distinct a b d = apply_remove-Distinct b.removes _ (add_entries-Distinct b.adds a d)
