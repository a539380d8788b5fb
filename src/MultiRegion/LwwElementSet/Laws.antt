-- ===== src/MultiRegion/LwwElementSet/Laws.antt =====
-- The geofence set keeps the greatest stamp of each side, whatever the order of delivery.
use real_time_spatial_tracki.Base.{
  ◌≡◌, refl, arith, Option, none, some, Key, key_dec, if◌then◌else◌, ite,
}
use real_time_spatial_tracki.Base.Map
use real_time_spatial_tracki.Base.Map.{Map, Distinct}
use real_time_spatial_tracki.Base.Order.{
  Order, less, same, more, compare_text, compare_text-IsTotal, then_by, is_more, flip,
}
use real_time_spatial_tracki.MultiRegion.Hlc
use real_time_spatial_tracki.MultiRegion.LwwElementSet.{FenceStamp, compare_stamps, put}

module _ {ℓ} {V : Type ℓ} where
  pub compare_stamps-swap : (a b : FenceStamp V) → compare_stamps b a ≡ flip (compare_stamps a b)
  unfolding compare_stamps
  compare_stamps-swap a b =
      rw (Hlc.compare-IsTotal.swap a.hlc b.hlc, compare_text-IsTotal.swap a.region_id b.region_id)
        (go (Hlc.compare a.hlc b.hlc) (compare_text a.region_id b.region_id))
    where
      go : (o p : Order) → then_by (flip o) (flip p) ≡ flip (then_by o p)
      go less p = refl
      go same p = refl
      go more p = refl

  pub compare_stamps_trans :
      (a b c : FenceStamp V)
      → compare_stamps a b ≡ more
      → compare_stamps b c ≡ more
      → compare_stamps a c ≡ more
  unfolding compare_stamps
  compare_stamps_trans a b c h k = ground (
    arith,
    Hlc.compare-IsTotal.trans a.hlc b.hlc c.hlc,
    Hlc.compare-IsTotal.same_eq a.hlc b.hlc,
    Hlc.compare-IsTotal.same_eq b.hlc c.hlc,
    compare_text-IsTotal.trans a.region_id b.region_id c.region_id,
  )

  pub compare_stamps_same :
      (t a b : FenceStamp V) → compare_stamps a b ≡ same → compare_stamps t a ≡ compare_stamps t b
  unfolding compare_stamps
  compare_stamps_same t a b h = ground (
    arith,
    Hlc.compare-IsTotal.same_eq a.hlc b.hlc,
    compare_text-IsTotal.same_eq a.region_id b.region_id,
  )

  compare_stamps_self : (a : FenceStamp V) → compare_stamps a a ≡ same
  unfolding compare_stamps
  compare_stamps_self a =
      rw (Hlc.compare-IsTotal.self a.hlc, compare_text-IsTotal.self a.region_id) refl

  -- The greater of what is there and what comes, as the code keeps it.
  abbrev pub best : Option (FenceStamp V) → FenceStamp V → FenceStamp V
  best none s = s
  best (some c) s = if is_more (compare_stamps s c) then s else c

  abbrev pub best_of : Option (FenceStamp V) → Option (FenceStamp V) → Option (FenceStamp V)
  best_of x none = x
  best_of x (some s) = some (best x s)

  pub get-put :
      (j e : Key) (s : FenceStamp V) (m : Map (FenceStamp V))
      → Map.get j (put e s m) ≡ ite (key_dec e j) (some (best (Map.get e m) s)) (Map.get j m)
  unfolding put
  get-put j e s m = ground (arith, Map.get-set j e s m)

  -- Two stamps of one moment and region are one stamp.
  abbrev pub Agree : Option (FenceStamp V) → Option (FenceStamp V) → Type ℓ
  Agree none y = Unit
  Agree (some s) none = Unit
  Agree (some s) (some t) = compare_stamps s t ≡ same → s ≡ t

  best_swap :
      (x : Option (FenceStamp V)) (s t : FenceStamp V)
      → (compare_stamps s t ≡ same → s ≡ t)
      → best (some (best x s)) t ≡ best (some (best x t)) s
  best_swap none s t u = ground (arith, compare_stamps-swap s t)
  best_swap (some c) s t u =
      ground
        (arith, compare_stamps-swap s t, compare_stamps_trans s t c, compare_stamps_trans t s c)

  -- Two writes to one side of the set, which are one if their stamps compare as equal, may be
  -- delivered in either order.
  pub put_comm :
      (j e f : Key) (s t : FenceStamp V) (m : Map (FenceStamp V))
      → (compare_stamps s t ≡ same → s ≡ t)
      → Map.get j (put f t (put e s m)) ≡ Map.get j (put e s (put f t m))
  put_comm j e f s t m u = ground (
    arith,
    get-put j f t (put e s m),
    get-put f e s m,
    get-put j e s m,
    get-put j e s (put f t m),
    get-put e f t m,
    get-put j f t m,
    best_swap (Map.get j m) s t u,
  )

  pub best_of_comm : (x y : Option (FenceStamp V)) → Agree x y → best_of x y ≡ best_of y x
  best_of_comm none none u = refl
  best_of_comm none (some t) u = refl
  best_of_comm (some s) none u = refl
  best_of_comm (some s) (some t) u = ground (arith, compare_stamps-swap s t)

  pub best_of_assoc :
      (x y z : Option (FenceStamp V)) → best_of (best_of x y) z ≡ best_of x (best_of y z)
  best_of_assoc x y none = refl
  best_of_assoc x none (some t) = refl
  best_of_assoc none (some s) (some t) = refl
  best_of_assoc (some c) (some s) (some t) = ground (
    arith,
    compare_stamps-swap c s,
    compare_stamps-swap s t,
    compare_stamps_trans t s c,
    compare_stamps_trans t c s,
    compare_stamps_same t c s,
  )

  pub best_of_self : (x : Option (FenceStamp V)) → best_of x x ≡ x
  best_of_self none = refl
  best_of_self (some s) = ground (arith, compare_stamps_self s)

  pub put-Distinct :
      (e : Key) (s : FenceStamp V) (m : Map (FenceStamp V)) → Distinct m → Distinct (put e s m)
  unfolding put
  put-Distinct e s m d = ground (arith, Map.set-Distinct e s m d)
