-- ===== src/MultiRegion/Rga/Merge.antt =====
-- Replicas of the array that grew from one history agree after a merge.
use real_time_spatial_tracki.Base.{
  ◌≡◌, refl, sym, ◌∙◌, ◌||◌, [], ◌∷◌, Option, none, some, Key, key_dec, ite, arith, inl, inr,
  Option-cases,
}
use real_time_spatial_tracki.Base.Map
use real_time_spatial_tracki.Base.Map.{Map, Distinct}
use real_time_spatial_tracki.MultiRegion.Rga.{Node, insert, merge}

module _ {ℓ} {V : Type ℓ} where
  -- Every node stands under its own id.
  abbrev pub IsKeyed : Map (Node V) → Type 0
  IsKeyed [] = Unit {0}
  IsKeyed ((k, n) ∷ nodes) = (n.id ≡ k) × IsKeyed nodes

  abbrev pub both : Option (Node V) → Option (Node V) → Option (Node V)
  both x none = x
  both none (some n) = some n
  both (some m) (some n) = some (record m { tombstoned = m.tombstoned || n.tombstoned })

  get-insert :
      (j : Key) (n : Node V) (nodes : Map (Node V))
      → Map.get j (insert n.id n.origin_left n.value n.tombstoned nodes)
        ≡ ite (key_dec n.id j) (both (Map.get n.id nodes) (some n)) (Map.get j nodes)
  unfolding insert
  get-insert j n nodes = elim (Option-cases (Map.get n.id nodes)) [
    | inl e ↦ ground (arith, Map.get-set j n.id n nodes)
    | inr (m, e) ↦
        ground
          (arith, Map.get-set j n.id (record m { tombstoned = m.tombstoned || n.tombstoned }) nodes)
  ]

  -- After a merge every id has the node of either side, dead if it was dead on one.
  pub get-merge :
      (j : Key) (nodes other : Map (Node V))
      → Distinct other
      → IsKeyed other
      → Map.get j (merge nodes other) ≡ both (Map.get j nodes) (Map.get j other)
  unfolding merge Map.get
  get-merge j nodes [] d k = refl
  get-merge j nodes ((i, n) ∷ other) d k = ground (
    arith,
    get-merge j (insert n.id n.origin_left n.value n.tombstoned nodes) other d.1 k.1,
    get-insert j n nodes,
    d.0,
    k.0,
  )

  -- Two nodes of one id were made by one insertion: they differ in the tombstone alone.
  abbrev pub Agree : Option (Node V) → Option (Node V) → Type ℓ
  Agree none y = Unit
  Agree (some m) none = Unit
  Agree (some m) (some n) = m ≡ record n { tombstoned = m.tombstoned }

  both_comm : (x y : Option (Node V)) → Agree x y → both x y ≡ both y x
  both_comm none none a = refl
  both_comm none (some n) a = refl
  both_comm (some m) none a = refl
  both_comm (some m) (some n) a = ground arith

  -- Two replicas that hold no id twice, keep every node under its own id and have nodes of one
  -- insertion under each common id (alike but for the tombstone) agree on every id after each
  -- merges the other.
  pub nodes-Agree :
      (j : Key) (a b : Map (Node V))
      → Distinct a
      → Distinct b
      → IsKeyed a
      → IsKeyed b
      → Agree (Map.get j a) (Map.get j b)
      → Map.get j (merge a b) ≡ Map.get j (merge b a)
  nodes-Agree j a b da db ka kb u =
      get-merge j a b db kb ∙ both_comm (Map.get j a) (Map.get j b) u ∙ sym (get-merge j b a da ka)
