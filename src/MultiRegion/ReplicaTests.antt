-- ===== src/MultiRegion/ReplicaTests.antt =====
-- The theorems on the geofence set, the session map and the array at concrete inputs.
use real_time_spatial_tracki.Base.{
  ℕ, ◌≡◌, ◌≢◌, refl, inl, Bool, true, false, [], ◌∷◌, none, some, Key, key, key_dec, arith,
}
use real_time_spatial_tracki.Base.Order.{same, compare_text}
use real_time_spatial_tracki.Base.Map
use real_time_spatial_tracki.Base.Map.{Map, Distinct}
use real_time_spatial_tracki.Base.KeySet
use real_time_spatial_tracki.MultiRegion.Hlc
use real_time_spatial_tracki.MultiRegion.Hlc.{Stamp}
use real_time_spatial_tracki.MultiRegion.VectorClock
use real_time_spatial_tracki.MultiRegion.VectorClock.{VectorClock, before, vc_compare}
use real_time_spatial_tracki.MultiRegion.LwwElementSet
use real_time_spatial_tracki.MultiRegion.LwwElementSet.{FenceStamp, LwwElementSet, compare_stamps}
use real_time_spatial_tracki.MultiRegion.LwwElementSet.Converge.{
  IsDistinct, IsCoherent, Same, merge_laws,
}
use real_time_spatial_tracki.MultiRegion.LwwMap
use real_time_spatial_tracki.MultiRegion.LwwMap.{Entry, wins_over}
use real_time_spatial_tracki.MultiRegion.LwwMap.Merge.{merge_keeps_latest}
use real_time_spatial_tracki.MultiRegion.LwwMap.Winner.{deliver, circle_diverges}
use real_time_spatial_tracki.MultiRegion.Rga
use real_time_spatial_tracki.MultiRegion.Rga.{Node}
use real_time_spatial_tracki.MultiRegion.Rga.Merge.{nodes-Agree}

abbrev park : Key
park = key "park"

abbrev early : FenceStamp ℕ
early = record { hlc = record { l = 5; c = 0 }; region_id = key "eu"; value = some 1 }

abbrev late : FenceStamp ℕ
late = record { hlc = record { l = 5; c = 1 }; region_id = key "us"; value = some 2 }

abbrev fences_a : LwwElementSet ℕ
fences_a = record { adds = (park, early) ∷ []; removes = [] }

abbrev fences_b : LwwElementSet ℕ
fences_b = record { adds = (park, late) ∷ []; removes = (park, early) ∷ [] }

fences_a-IsDistinct : IsDistinct fences_a
unfolding Map.get
fences_a-IsDistinct = record { adds = (refl, tt); removes = tt }

fences_b-IsDistinct : IsDistinct fences_b
unfolding Map.get
fences_b-IsDistinct = record { adds = (refl, tt); removes = (refl, tt) }

stamps_apart : compare_stamps early late ≡ same → early ≡ late
unfolding compare_stamps Hlc.compare
stamps_apart h = absurd (ground arith)

fences-IsCoherent : IsCoherent fences_a fences_b
unfolding Map.get
fences-IsCoherent = record { adds = λ j. ground (arith, stamps_apart); removes = λ j. tt }

merge_laws_example :
    Same (LwwElementSet.merge fences_a fences_b) (LwwElementSet.merge fences_b fences_a)
    × Same
        (LwwElementSet.merge (LwwElementSet.merge fences_a fences_b) fences_b)
        (LwwElementSet.merge fences_a (LwwElementSet.merge fences_b fences_b))
    × Same (LwwElementSet.merge fences_a fences_a) fences_a
merge_laws_example =
    merge_laws fences_a fences_b fences_b fences_a-IsDistinct fences_b-IsDistinct
      fences_b-IsDistinct fences-IsCoherent

abbrev entry : ℕ → VectorClock → Key → Entry ℕ
entry v clock writer = record { value = some v; clock = clock; writer = writer; deleted = false }

abbrev eu : Key
eu = key "eu"

abbrev us : Key
us = key "us"

abbrev ap : Key
ap = key "ap"

-- The write of ap is causally after that of us; both are concurrent with that of eu.
abbrev x : Entry ℕ
x = entry 1 ((us, 1) ∷ []) us

abbrev y : Entry ℕ
y = entry 2 ((eu, 1) ∷ []) eu

abbrev z : Entry ℕ
z = entry 3 ((us, 1) ∷ (ap, 1) ∷ []) ap

x_y : wins_over x y ≡ true
unfolding wins_over vc_compare VectorClock.scan VectorClock.regions Map.get KeySet.add key_dec
    compare_text
x_y = refl

y_z : wins_over y z ≡ true
unfolding wins_over vc_compare VectorClock.scan VectorClock.regions Map.get KeySet.add key_dec
    compare_text
y_z = refl

z_x : wins_over z x ≡ true
unfolding wins_over vc_compare VectorClock.scan VectorClock.regions Map.get KeySet.add key_dec
    compare_text
z_x = refl

ann : Key
ann = key "ann"

circle_diverges_example :
    (Map.get ann (deliver ann z (deliver ann y (deliver ann x []))) ≡ some z)
    × (Map.get ann (deliver ann x (deliver ann z (deliver ann y []))) ≡ some x)
unfolding Map.get
circle_diverges_example = circle_diverges ann x y z [] refl x_y y_z z_x

abbrev bob : Key
bob = key "bob"

abbrev sessions_a : Map (Entry ℕ)
sessions_a = (bob, x) ∷ []

abbrev sessions_b : Map (Entry ℕ)
sessions_b = (bob, z) ∷ []

sessions_a-Distinct : Distinct sessions_a
unfolding Map.get
sessions_a-Distinct = (refl, tt)

sessions_b-Distinct : Distinct sessions_b
unfolding Map.get
sessions_b-Distinct = (refl, tt)

x_before_z : vc_compare x.clock z.clock ≡ before
unfolding vc_compare VectorClock.scan VectorClock.regions Map.get KeySet.add key_dec
x_before_z = refl

merged : Map.get bob (LwwMap.merge sessions_a sessions_b 0).0 ≡ some z
unfolding LwwMap.merge LwwMap.apply LwwMap.count_conflict wins_over vc_compare VectorClock.scan
    VectorClock.regions Map.get Map.set KeySet.add key_dec compare_text
merged = refl

merge_keeps_latest_example : vc_compare z.clock x.clock ≢ before
unfolding Map.get key_dec
merge_keeps_latest_example =
    merge_keeps_latest bob sessions_a sessions_b 0 x z sessions_b-Distinct (inl refl) merged

abbrev node : Bool → Node ℕ
node dead = record { id = key "m1"; origin_left = none; value = 9; tombstoned = dead }

nodes-Agree_example :
    Map.get (key "m1") (Rga.merge ((key "m1", node true) ∷ []) ((key "m1", node false) ∷ []))
    ≡ Map.get (key "m1") (Rga.merge ((key "m1", node false) ∷ []) ((key "m1", node true) ∷ []))
unfolding Map.get key_dec
nodes-Agree_example =
    nodes-Agree (key "m1") ((key "m1", node true) ∷ []) ((key "m1", node false) ∷ []) (refl, tt)
      (refl, tt) (refl, tt) (refl, tt) refl
