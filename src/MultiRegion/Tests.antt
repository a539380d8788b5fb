-- ===== src/MultiRegion/Tests.antt =====
-- The theorems on the replicated data types at concrete inputs.
use real_time_spatial_tracki.Base.{
  ℕ, ◌≤◌, ◌<◌, ◌≡◌, ◌↔◌, refl, true, false, List, [], ◌∷◌, Key, key, key_dec, arith,
}
use real_time_spatial_tracki.Base.Map
use real_time_spatial_tracki.Base.Map.{Map, Distinct}
use real_time_spatial_tracki.Base.KeySet
use real_time_spatial_tracki.MultiRegion.Hlc
use real_time_spatial_tracki.MultiRegion.Hlc.{Stamp, Before, Increasing}
use real_time_spatial_tracki.MultiRegion.VectorClock
use real_time_spatial_tracki.MultiRegion.VectorClock.{VectorClock, Relates, at}
use real_time_spatial_tracki.MultiRegion.OrSet
use real_time_spatial_tracki.MultiRegion.OrSet.{OrSet}
use real_time_spatial_tracki.MultiRegion.OrSet.Merge.{tagged, retired}
use real_time_spatial_tracki.MultiRegion.OrSet.Converge
use real_time_spatial_tracki.MultiRegion.OrSet.View.{Replica, view, join, join_semilattice}

abbrev eu : Key
eu = key "eu"

abbrev us : Key
us = key "us"

abbrev stamp : ℕ → ℕ → Stamp
stamp l c = record { l = l; c = c }

abbrev events : List Hlc.Event
events = Hlc.Event.local 100 ∷ Hlc.Event.remote 90 (stamp 120 4) ∷ Hlc.Event.local 110 ∷ []

issued-Increasing_example : Increasing (Hlc.issued events (stamp 0 0))
issued-Increasing_example = Hlc.issued-Increasing events (stamp 0 0)

receive_after_remote_example :
    Before (stamp 10 3) (Hlc.receive 10 (stamp 10 3) (stamp 4 0))
    ↔ (¬ ((4 < 10) × (◌≡◌ {A = ℕ} 10 10)))
receive_after_remote_example = Hlc.receive_after_remote 10 (stamp 10 3) (stamp 4 0)

-- The timestamp issued on receipt is before the one received.
receive_tie : Hlc.receive 10 (stamp 10 3) (stamp 4 0) ≡ stamp 10 0
unfolding Hlc.receive
receive_tie = refl

abbrev clock_a : VectorClock
clock_a = (eu, 2) ∷ []

abbrev clock_b : VectorClock
clock_b = (eu, 1) ∷ (us, 1) ∷ []

vc_compare_lem_example : Relates (VectorClock.vc_compare clock_a clock_b) clock_a clock_b
vc_compare_lem_example = VectorClock.vc_compare_lem clock_a clock_b

vc_compare_run : VectorClock.vc_compare clock_a clock_b ≡ VectorClock.VcOrder.concurrent
unfolding VectorClock.vc_compare VectorClock.scan VectorClock.regions Map.get KeySet.add key_dec
vc_compare_run = refl

clock_b-Distinct : Distinct clock_b
unfolding Map.get key_dec
clock_b-Distinct = (refl, (refl, tt))

clock_c : VectorClock
clock_c = (eu, 2) ∷ (us, 1) ∷ []

below_a : (r : Key) → at r clock_a ≤ at r clock_c
unfolding Map.get clock_c
below_a r = ground arith

below_b : (r : Key) → at r clock_b ≤ at r clock_c
unfolding Map.get clock_c
below_b r = ground arith

abbrev ann : Key
ann = key "ann"

abbrev tag : Key
tag = key "t1"

abbrev fresh_tag : Key
fresh_tag = key "t2"

abbrev room_a : OrSet
room_a = record { adds = (ann, tag ∷ []) ∷ []; removes = [] }

room_a-Distinct : Distinct room_a.adds
unfolding Map.get
room_a-Distinct = (refl, tt)

abbrev replica : Replica
replica = record { state = room_a; distinct = room_a-Distinct }

join_semilattice_example :
    (join (view replica) (view replica) ≡ join (view replica) (view replica))
    × (join (join (view replica) (view replica)) (view replica)
        ≡ join (view replica) (join (view replica) (view replica)))
    × (join (view replica) (view replica) ≡ view replica)
join_semilattice_example = join_semilattice (view replica) (view replica) (view replica)

unseen : tagged ann fresh_tag room_a ≡ false
unfolding Map.get KeySet.mem key_dec
unseen = refl

not_retired : retired fresh_tag room_a ≡ false
unfolding KeySet.mem
not_retired = refl

add_wins_example :
    (OrSet.has ann (OrSet.merge (OrSet.remove ann room_a).0 (OrSet.add ann fresh_tag room_a))
      ≡ true)
    × (OrSet.has ann (OrSet.merge (OrSet.add ann fresh_tag room_a) (OrSet.remove ann room_a).0)
        ≡ true)
add_wins_example =
    Converge.add_wins ann fresh_tag room_a room_a room_a-Distinct room_a-Distinct unseen not_retired
      not_retired

apart : (t : Key) → tagged ann t room_a ≡ true → tagged (key "bob") t room_a ≡ false
unfolding Map.get KeySet.mem key_dec
apart t h = refl
