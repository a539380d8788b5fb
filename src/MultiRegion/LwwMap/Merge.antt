-- ===== src/MultiRegion/LwwMap/Merge.antt =====
-- Merging two replicas of the session map.
use real_time_spatial_tracki.Base.{
  ℕ, ◌+◌, ◌≡◌, ◌≢◌, refl, sym, ◌∙◌, ◌⊎◌, inl, inr, false, [], ◌∷◌, arith, Option, none, some, Key,
}
use real_time_spatial_tracki.Base.Map
use real_time_spatial_tracki.Base.Map.{Map, Distinct}
use real_time_spatial_tracki.MultiRegion.VectorClock.{
  before, after, concurrent, vc_compare, vc_compare-swap, vc_compare_self,
}
use real_time_spatial_tracki.MultiRegion.LwwMap.{Entry, wins_over, apply, merge, count_conflict}
use real_time_spatial_tracki.MultiRegion.LwwMap.Winner.{winner, get-apply, wins_over_cases}

module _ {ℓ} {V : Type ℓ} where
  abbrev pub winner_of : Option (Entry V) → Option (Entry V) → Option (Entry V)
  winner_of x none = x
  winner_of x (some e) = some (winner x e)

  -- After a merge every key has the winner of its two entries.
  pub get-merge :
      (j : Key) (m other : Map (Entry V)) (n : ℕ)
      → Distinct other
      → Map.get j (merge m other n).0 ≡ winner_of (Map.get j m) (Map.get j other)
  unfolding merge Map.get
  get-merge j m [] n d = refl
  get-merge j m ((k, e) ∷ other) n d = ground (
    arith,
    get-merge j (apply k e m).0 other (count_conflict k e m n) d.1,
    get-apply j k e m,
    d.0,
  )

  -- Of two entries the code can choose one, or they are the same.
  abbrev pub Resolves : Option (Entry V) → Option (Entry V) → Type ℓ
  Resolves none y = Unit
  Resolves (some x) none = Unit
  Resolves (some x) (some y) =
      (x ≡ y)
      ⊎ (vc_compare x.clock y.clock ≡ before)
      ⊎ (vc_compare x.clock y.clock ≡ after)
      ⊎ ((vc_compare x.clock y.clock ≡ concurrent) × (x.writer ≢ y.writer))

  winner_of_comm : (x y : Option (Entry V)) → Resolves x y → winner_of x y ≡ winner_of y x
  winner_of_comm none none r = refl
  winner_of_comm none (some y) r = refl
  winner_of_comm (some x) none r = refl
  winner_of_comm (some x) (some y) (inl e) = ground arith
  winner_of_comm (some x) (some y) (inr r) = ground (arith, wins_over_cases x y)

  -- Two replicas that hold no key twice and merge each other's map agree on every key whose two
  -- entries are equal, causally ordered, or concurrent writes of different regions.
  pub merge_agrees :
      (j : Key) (a b : Map (Entry V))
      → Distinct a
      → Distinct b
      → Resolves (Map.get j a) (Map.get j b)
      → Map.get j (merge a b 0).0 ≡ Map.get j (merge b a 0).0
  merge_agrees j a b da db r =
      get-merge j a b 0 db
      ∙ winner_of_comm (Map.get j a) (Map.get j b) r
      ∙ sym (get-merge j b a 0 da)

  winner_not_before :
      (c e : Entry V)
      → (vc_compare (winner (some c) e).clock c.clock ≢ before)
        × (vc_compare (winner (some c) e).clock e.clock ≢ before)
  unfolding wins_over
  winner_not_before c e = (
    λ h. absurd (ground (arith, vc_compare-swap e.clock c.clock, vc_compare_self c.clock)),
    λ h. absurd (ground (arith, vc_compare-swap e.clock c.clock, vc_compare_self e.clock)),
  )

  winner_of_not_before :
      (x y : Option (Entry V)) (e r : Entry V)
      → (x ≡ some e) ⊎ (y ≡ some e)
      → winner_of x y ≡ some r
      → vc_compare r.clock e.clock ≢ before
  winner_of_not_before none none e r h k = absurd (ground arith)
  winner_of_not_before none (some f) e r h k = ground (arith, vc_compare_self e.clock)
  winner_of_not_before (some c) none e r h k = ground (arith, vc_compare_self e.clock)
  winner_of_not_before (some c) (some f) e r (inl h) k = ground (arith, (winner_not_before c f).0)
  winner_of_not_before (some c) (some f) e r (inr h) k = ground (arith, (winner_not_before c f).1)

  -- The entry that a key has after a merge is causally before neither replica's entry of that key,
  -- if the merged replica holds no key twice.
  pub merge_keeps_latest :
      (j : Key) (m other : Map (Entry V)) (n : ℕ) (e r : Entry V)
      → Distinct other
      → (Map.get j m ≡ some e) ⊎ (Map.get j other ≡ some e)
      → Map.get j (merge m other n).0 ≡ some r
      → vc_compare r.clock e.clock ≢ before
  merge_keeps_latest j m other n e r d h k =
      winner_of_not_before (Map.get j m) (Map.get j other) e r h (sym (get-merge j m other n d) ∙ k)

  -- The conflicts of a merge, counted on the map as it was before.
  unfoldable pub conflicts_of : Map (Entry V) → Map (Entry V) → ℕ
  conflicts_of m [] = 0
  conflicts_of m ((k, e) ∷ other) = count_conflict k e m (conflicts_of m other)

  conflicts_of-apply :
      (k : Key) (e : Entry V) (m other : Map (Entry V))
      → Map.has k other ≡ false
      → conflicts_of (apply k e m).0 other ≡ conflicts_of m other
  unfolding conflicts_of count_conflict Map.get
  conflicts_of-apply k e m [] h = refl
  conflicts_of-apply k e m ((j, f) ∷ other) h =
      ground (arith, get-apply j k e m, conflicts_of-apply k e m other)

  -- If the peer's map holds no key twice, a merge raises the count of conflicts by the number of
  -- its keys whose two entries are concurrent.
  pub merge-conflicts :
      (m other : Map (Entry V)) (n : ℕ)
      → Distinct other
      → (merge m other n).1 ≡ n + conflicts_of m other
  unfolding merge conflicts_of count_conflict
  merge-conflicts m [] n d = omega arith
  merge-conflicts m ((k, e) ∷ other) n d = ground (
    arith,
    merge-conflicts (apply k e m).0 other (count_conflict k e m n) d.1,
    conflicts_of-apply k e m other d.0,
  )
