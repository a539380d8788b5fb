-- ===== src/MultiRegion/LwwMap/Winner.antt =====
-- Which of two entries wins, and how three of them can win in a circle.
use real_time_spatial_tracki.Base.{
  ◌≡◌, ◌⊎◌, true, false, arith, Option, none, some, Key, key_dec, if◌then◌else◌, ite,
}
use real_time_spatial_tracki.Base.Map
use real_time_spatial_tracki.Base.Map.{Map}
use real_time_spatial_tracki.Base.Order.{compare_text-IsTotal}
use real_time_spatial_tracki.MultiRegion.VectorClock.{
  equal, concurrent, vc_compare, vc_compare-swap,
}
use real_time_spatial_tracki.MultiRegion.LwwMap.{Entry, wins_over, apply}

module _ {ℓ} {V : Type ℓ} where
  -- Of two entries at most one wins, none wins over itself, and one wins unless the clocks are equal or
  -- one region wrote both concurrently.
  pub wins_over_cases :
      (a b : Entry V)
      → ((wins_over a b ≡ true) × (wins_over b a ≡ false))
        ⊎ ((wins_over b a ≡ true) × (wins_over a b ≡ false))
        ⊎ ((vc_compare a.clock b.clock ≡ equal) × (wins_over a b ≡ false) × (wins_over b a ≡ false))
        ⊎ ((vc_compare a.clock b.clock ≡ concurrent)
            × (a.writer ≡ b.writer)
            × (wins_over a b ≡ false)
            × (wins_over b a ≡ false))
  unfolding wins_over
  wins_over_cases a b = ground (
    arith,
    vc_compare-swap a.clock b.clock,
    compare_text-IsTotal.swap a.writer b.writer,
    compare_text-IsTotal.same_eq a.writer b.writer,
  )

  -- The entry that is kept.
  abbrev pub winner : Option (Entry V) → Entry V → Entry V
  winner none incoming = incoming
  winner (some current) incoming = if wins_over incoming current then incoming else current

  pub get-apply :
      (j key : Key) (e : Entry V) (m : Map (Entry V))
      → Map.get j (apply key e m).0
        ≡ ite (key_dec key j) (some (winner (Map.get key m) e)) (Map.get j m)
  unfolding apply
  get-apply j key e m = ground (arith, Map.get-set j key e m)

  abbrev pub deliver : Key → Entry V → Map (Entry V) → Map (Entry V)
  deliver key e m = (apply key e m).0

  -- If three entries of a key that a replica does not hold win in a circle, delivering them as x,
  -- y, z leaves z and delivering them as y, z, x leaves x.
  pub circle_diverges :
      (key : Key) (x y z : Entry V) (m : Map (Entry V))
      → Map.get key m ≡ none
      → wins_over x y ≡ true
      → wins_over y z ≡ true
      → wins_over z x ≡ true
      → (Map.get key (deliver key z (deliver key y (deliver key x m))) ≡ some z)
        × (Map.get key (deliver key x (deliver key z (deliver key y m))) ≡ some x)
  circle_diverges key x y z m e xy yz zx = (
    ground (
      arith,
      get-apply key key x m,
      get-apply key key y (deliver key x m),
      get-apply key key z (deliver key y (deliver key x m)),
      wins_over_cases x y,
    ),
    ground (
      arith,
      get-apply key key y m,
      get-apply key key z (deliver key y m),
      get-apply key key x (deliver key z (deliver key y m)),
      wins_over_cases y z,
    ),
  )
