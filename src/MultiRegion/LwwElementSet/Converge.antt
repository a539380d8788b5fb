-- ===== src/MultiRegion/LwwElementSet/Converge.antt =====
-- Replicas of the geofence set converge when they merge.
use real_time_spatial_tracki.Base.{◌≡◌, refl, sym, ap, ◌∙◌, [], ◌∷◌, arith, Key}
use real_time_spatial_tracki.Base.Map
use real_time_spatial_tracki.Base.Map.{Map, Distinct}
use real_time_spatial_tracki.MultiRegion.LwwElementSet.{
  FenceStamp, LwwElementSet, add, remove, has, get, add_all, remove_all, merge,
}
use real_time_spatial_tracki.MultiRegion.LwwElementSet.Laws.{
  Agree, best_of, get-put, best_of_comm, best_of_assoc, best_of_self, put-Distinct,
}

module _ {ℓ} {V : Type ℓ} where
  add_all-removes :
      (m : Map (FenceStamp V)) (s : LwwElementSet V) → (add_all m s).removes ≡ s.removes
  unfolding add_all add
  add_all-removes [] s = refl
  add_all-removes ((e, t) ∷ m) s = add_all-removes m (add e t s)

  remove_all-adds : (m : Map (FenceStamp V)) (s : LwwElementSet V) → (remove_all m s).adds ≡ s.adds
  unfolding remove_all remove
  remove_all-adds [] s = refl
  remove_all-adds ((e, t) ∷ m) s = remove_all-adds m (remove e t s)

  get-add_all :
      (j : Key) (m : Map (FenceStamp V)) (s : LwwElementSet V)
      → Distinct m
      → Map.get j (add_all m s).adds ≡ best_of (Map.get j s.adds) (Map.get j m)
  unfolding add_all add Map.get
  get-add_all j [] s d = refl
  get-add_all j ((e, t) ∷ m) s d =
      ground (arith, get-add_all j m (add e t s) d.1, get-put j e t s.adds, d.0)

  get-remove_all :
      (j : Key) (m : Map (FenceStamp V)) (s : LwwElementSet V)
      → Distinct m
      → Map.get j (remove_all m s).removes ≡ best_of (Map.get j s.removes) (Map.get j m)
  unfolding remove_all remove Map.get
  get-remove_all j [] s d = refl
  get-remove_all j ((e, t) ∷ m) s d =
      ground (arith, get-remove_all j m (remove e t s) d.1, get-put j e t s.removes, d.0)

  pub record IsDistinct (s : LwwElementSet V) : Type 0 where
    pub adds : Distinct s.adds
    pub removes : Distinct s.removes

  -- A merge keeps on each side the greater of the two stamps of every element.
  pub get-merge :
      (j : Key) (a b : LwwElementSet V)
      → IsDistinct b
      → (Map.get j (merge a b).adds ≡ best_of (Map.get j a.adds) (Map.get j b.adds))
        × (Map.get j (merge a b).removes ≡ best_of (Map.get j a.removes) (Map.get j b.removes))
  unfolding merge
  get-merge j a b d = (
    rw (remove_all-adds b.removes (add_all b.adds a)) (get-add_all j b.adds a d.adds),
    rw (get-remove_all j b.removes (add_all b.adds a) d.removes, add_all-removes b.adds a) refl,
  )

  abbrev pub Same : LwwElementSet V → LwwElementSet V → Type ℓ
  Same a b =
      (j : Key)
      → (Map.get j a.adds ≡ Map.get j b.adds) × (Map.get j a.removes ≡ Map.get j b.removes)

  -- The stamps of two replicas are of one history: no moment and region has two.
  pub record IsCoherent (a b : LwwElementSet V) : Type ℓ where
    pub adds : (j : Key) → Agree (Map.get j a.adds) (Map.get j b.adds)
    pub removes : (j : Key) → Agree (Map.get j a.removes) (Map.get j b.removes)

  add_all-Distinct :
      (m : Map (FenceStamp V)) (s : LwwElementSet V) → IsDistinct s → IsDistinct (add_all m s)
  unfolding add_all add
  add_all-Distinct [] s d = d
  add_all-Distinct ((e, t) ∷ m) s d =
      add_all-Distinct m (add e t s)
        (record { adds = put-Distinct e t s.adds d.adds; removes = d.removes })

  remove_all-Distinct :
      (m : Map (FenceStamp V)) (s : LwwElementSet V) → IsDistinct s → IsDistinct (remove_all m s)
  unfolding remove_all remove
  remove_all-Distinct [] s d = d
  remove_all-Distinct ((e, t) ∷ m) s d =
      remove_all-Distinct m (remove e t s)
        (record { adds = d.adds; removes = put-Distinct e t s.removes d.removes })

  pub merge-IsDistinct : (a b : LwwElementSet V) → IsDistinct a → IsDistinct (merge a b)
  unfolding merge
  merge-IsDistinct a b d = remove_all-Distinct b.removes _ (add_all-Distinct b.adds a d)

  -- For replicas that hold no element twice on a side: merging two whose stamps are of one history
  -- gives the same stamps in either order, merging three gives the same stamps in any grouping, and
  -- merging a replica with itself changes none.
  pub merge_laws :
      (a b c : LwwElementSet V)
      → IsDistinct a
      → IsDistinct b
      → IsDistinct c
      → IsCoherent a b
      → Same (merge a b) (merge b a)
        × Same (merge (merge a b) c) (merge a (merge b c))
        × Same (merge a a) a
  merge_laws a b c da db dc u = (
    λ j.
        let ab = get-merge j a b db in
        let ba = get-merge j b a da in
        (
          ab.0 ∙ best_of_comm (Map.get j a.adds) (Map.get j b.adds) (u.adds j) ∙ sym ba.0,
          ab.1 ∙ best_of_comm (Map.get j a.removes) (Map.get j b.removes) (u.removes j) ∙ sym ba.1,
        ),
    λ j.
        let ab = get-merge j a b db in
        let abc = get-merge j (merge a b) c dc in
        let bc = get-merge j b c dc in
        let a_bc = get-merge j a (merge b c) (merge-IsDistinct b c db) in
        (
          abc.0
              ∙ ap (λ x. best_of x (Map.get j c.adds)) ab.0
              ∙ best_of_assoc (Map.get j a.adds) (Map.get j b.adds) (Map.get j c.adds)
              ∙ sym (a_bc.0 ∙ ap (best_of (Map.get j a.adds)) bc.0),
          abc.1
              ∙ ap (λ x. best_of x (Map.get j c.removes)) ab.1
              ∙ best_of_assoc (Map.get j a.removes) (Map.get j b.removes) (Map.get j c.removes)
              ∙ sym (a_bc.1 ∙ ap (best_of (Map.get j a.removes)) bc.1),
        ),
    λ j.
        let aa = get-merge j a a da in
        (aa.0 ∙ best_of_self (Map.get j a.adds), aa.1 ∙ best_of_self (Map.get j a.removes)),
  )

  -- Replicas with the same stamps answer every query alike.
  pub has-Same :
      (j : Key) (a b : LwwElementSet V) → Same a b → (has j a ≡ has j b) × (get j a ≡ get j b)
  unfolding has get
  has-Same j a b h = (ground (arith, (h j).0, (h j).1), ground (arith, (h j).0))
