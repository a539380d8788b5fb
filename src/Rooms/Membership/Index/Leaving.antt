-- ===== src/Rooms/Membership/Index/Leaving.antt =====
-- Leaving and disconnecting keep the indices valid and leave no membership behind.
use real_time_spatial_tracki.Base.{
  ◌+◌, ◌≡◌, refl, sym, subst, inl, inr, true, false, List, [], ◌∷◌, some, Key, key_dec, arith,
  length, or_default, if◌then◌else◌, Option-cases, List-cases, ite, if_neg,
}
use real_time_spatial_tracki.Base.Map
use real_time_spatial_tracki.Base.Map.{Map, Distinct, sum_by}
use real_time_spatial_tracki.Base.KeySet
use real_time_spatial_tracki.Base.KeySet.{Unique}
use real_time_spatial_tracki.Rooms.Membership.{cleanup_room, drop_from}
use real_time_spatial_tracki.Rooms.Membership.Index.{IsOccupied, members_total}

abbrev pub members_at {ℓ} : {W : Type ℓ} → Key → Map (Map W) → Map W
members_at r rooms = or_default (Map.get r rooms) []

-- One client taken out of one room, and the room deleted if that empties it: what `leave` and the loop
-- of `disconnect` do.
abbrev pub take_out {ℓ} : {W : Type ℓ} → Key → Key → Map (Map W) → Map (Map W)
take_out c r rooms = cleanup_room r (Map.set r (Map.delete c (members_at r rooms)) rooms)

module _ {ℓ} {W : Type ℓ} (c r : Key) (rooms : Map (Map W)) where
  get-take_out :
      (s : Key)
      → members_at s (take_out c r rooms)
        ≡ ite (key_dec r s) (Map.delete c (members_at r rooms)) (members_at s rooms)
  unfolding cleanup_room
  get-take_out s = ground (
    arith,
    Map.get-set s r (Map.delete c (members_at r rooms)) rooms,
    Map.get-set r r (Map.delete c (members_at r rooms)) rooms,
    Map.get-delete s r (Map.set r (Map.delete c (members_at r rooms)) rooms),
  )

  take_out-Distinct : Distinct rooms → Distinct (take_out c r rooms)
  unfolding cleanup_room
  take_out-Distinct d = ground (
    arith,
    Map.set-Distinct r (Map.delete c (members_at r rooms)) rooms d,
    Map.delete-Distinct r (Map.set r (Map.delete c (members_at r rooms)) rooms),
  )

  pub has-take_out :
      (d s : Key)
      → Map.has d (members_at s (take_out c r rooms)) ≡ (
          ite
            (key_dec r s)
            (ite (key_dec c d) false (Map.has d (members_at s rooms)))
            (Map.has d (members_at s rooms)))
  has-take_out d s = rw (get-take_out s) (ground (arith, Map.get-delete d c (members_at r rooms)))

  pub members_total-take_out :
      Distinct rooms
      → Distinct (members_at r rooms)
      → Map.has c (members_at r rooms) ≡ true
      → members_total (take_out c r rooms) + 1 ≡ members_total rooms
  unfolding members_total cleanup_room
  members_total-take_out d dm h =
      let kept = Map.delete c (members_at r rooms) in
      let written : Distinct (Map.set r kept rooms) = Map.set-Distinct r kept rooms d in
      elim (Option-cases (Map.get c (members_at r rooms))) [
        | inl e ↦ absurd (ground arith)
        | inr (v, e) ↦ ground (
          arith,
          Map.length-delete c (members_at r rooms) {v = v} dm e,
          Map.sum-set length r kept rooms,
          Map.sum-delete length r (Map.set r kept rooms) written,
          Map.get-set r r kept rooms,
        )
      ]

  IsOccupied-take_out :
      ((s : Key) → IsOccupied (Map.get s rooms))
      → Distinct (members_at r rooms)
      → (s : Key) → IsOccupied (Map.get s (take_out c r rooms))
  unfolding cleanup_room
  IsOccupied-take_out o d s =
      let kept = Map.delete c (members_at r rooms) in
      rw (Map.get-set_self r kept rooms, cleanup_room)
        (elim (List-cases kept) [
          | inl e ↦
              rw (e, cleanup_room)
                (Map.get-delete_cases IsOccupied s r (Map.set r kept rooms) tt (λ ne.
                  rw
                    (
                      Map.get-set s r kept rooms,
                      if_neg (key_dec r s) ne (some kept) (Map.get s rooms),
                    )
                    (o s)))
          | inr (x, rest, e) ↦
              rw (e, cleanup_room)
                (Map.get-set_cases IsOccupied s r rooms kept
                  (Map.delete-Distinct c (members_at r rooms) d, rw e (omega arith)) (λ _. o s))
        ])

-- The loop of `disconnect` over rooms that the client is in.
module _ {ℓ} {W : Type ℓ} (c : Key) where
  -- What the loop and `leave` ask of the rooms, and keep.
  pub record Fits (rooms : Map (Map W)) : Type 0 where
    pub distinct : Distinct rooms
    pub occupied : (r : Key) → IsOccupied (Map.get r rooms)

  pub members-Distinct :
      (r : Key) (rooms : Map (Map W)) → Fits rooms → Distinct (members_at r rooms)
  members-Distinct r rooms f = elim (Option-cases (Map.get r rooms)) [
    | inl e ↦ rw e tt
    | inr (ms, e) ↦ rw e (subst IsOccupied e (f.occupied r)).0
  ]

  pub take_out-Fits : (r : Key) (rooms : Map (Map W)) → Fits rooms → Fits (take_out c r rooms)
  take_out-Fits r rooms f = record {
    distinct = take_out-Distinct c r rooms f.distinct;
    occupied = IsOccupied-take_out c r rooms f.occupied (members-Distinct r rooms f);
  }

  drop_from-step :
      (r : Key) (rs : List Key) (rooms : Map (Map W))
      → Map.has c (members_at r rooms) ≡ true
      → drop_from c (r ∷ rs) rooms ≡ drop_from c rs (take_out c r rooms)
  unfolding drop_from Map.get
  drop_from-step r rs rooms h = ground arith

  -- The client is a member of every listed room, and no room is listed twice.
  abbrev pub In : List Key → Map (Map W) → Type 0
  In [] rooms = Unit {0}
  In (r ∷ rs) rooms =
      (Map.has c (members_at r rooms) ≡ true) × (KeySet.mem r rs ≡ false) × In rs rooms

  In-take_out :
      (r : Key) (rs : List Key) (rooms : Map (Map W))
      → KeySet.mem r rs ≡ false
      → In rs rooms
      → In rs (take_out c r rooms)
  unfolding KeySet.mem
  In-take_out r [] rooms h i = tt
  In-take_out r (s ∷ rs) rooms h i = (
    ground (arith, has-take_out c r rooms c s, i.0),
    i.1,
    In-take_out r rs rooms (ground arith) i.2,
  )

  -- After the loop the client is out of the listed rooms and all else is as it was; the memberships
  -- are fewer by the number of rooms.
  pub drop_from_facts :
      (rs : List Key) (rooms : Map (Map W))
      → Fits rooms
      → In rs rooms
      → Fits (drop_from c rs rooms)
        × (members_total (drop_from c rs rooms) + length rs ≡ members_total rooms)
        × ((d s : Key)
            → Map.has d (members_at s (drop_from c rs rooms)) ≡ (
                if KeySet.mem s rs
                then ite (key_dec c d) false (Map.has d (members_at s rooms))
                else Map.has d (members_at s rooms)))
  unfolding KeySet.mem drop_from
  drop_from_facts [] rooms f i = (f, omega arith, λ d s. refl)
  drop_from_facts (r ∷ rs) rooms f i =
      let rest =
        drop_from_facts rs (take_out c r rooms) (take_out-Fits r rooms f)
          (In-take_out r rs rooms i.1 i.2) in
      let same = drop_from-step r rs rooms i.0 in
      (
        subst Fits (sym same) rest.0,
        ground (
          arith,
          same,
          rest.1,
          members_total-take_out c r rooms f.distinct (members-Distinct r rooms f) i.0,
        ),
        λ d s. ground (arith, same, rest.2 d s, has-take_out c r rooms d s),
      )
