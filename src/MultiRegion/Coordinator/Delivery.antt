-- ===== src/MultiRegion/Coordinator/Delivery.antt =====
-- What a peer's operation does to the members of a room where it is delivered.
use real_time_spatial_tracki.Base.{
  ℕ, ◌≡◌, refl, ap, ◌∙◌, Bool, true, false, not, ◌&&◌, ◌||◌, List, [], ◌∷◌, Key, key_dec,
  key_ite_self, ite, arith, List-cases, Option-cases, inl, inr, or_default, any,
}
use real_time_spatial_tracki.Base.Map
use real_time_spatial_tracki.Base.KeySet
use real_time_spatial_tracki.MultiRegion.OrSet
use real_time_spatial_tracki.MultiRegion.OrSet.{OrSet}
use real_time_spatial_tracki.MultiRegion.OrSet.Merge.{
  tagged, retired, tagged-add, apply_remove-adds, retired-apply_remove,
}
use real_time_spatial_tracki.MultiRegion.Coordinator.{
  membership_add, membership_remove, Op, Region, room_of, new_replica, ensure_room, set_membership,
}
use real_time_spatial_tracki.MultiRegion.Coordinator.Incoming.{
  record_lag, observe, apply_change, handle_peer_operation,
}

not_or : (a b : Bool) → not (a || b) ≡ (not a && not b)
not_or a b = ground arith

any_agree : (p q : Key → Bool) → ((x : Key) → p x ≡ q x) → (xs : List Key) → any p xs ≡ any q xs
any_agree p q h [] = refl
any_agree p q h (x ∷ xs) = ground (arith, h x, any_agree p q h xs)

module _ {V : Type 0} where
  abbrev pub members_in : Key → Region V → OrSet
  members_in r c = (room_of r c).membership

  room_of-ensure_room : (r : Key) (c : Region V) → room_of r (ensure_room r c) ≡ room_of r c
  unfolding ensure_room
  room_of-ensure_room r c = elim (Option-cases (Map.get r c.rooms)) [
    | inl e ↦ ground (arith, e, Map.get-set_self r (new_replica {V = V}) c.rooms)
    | inr (x, e) ↦ ground (arith, e)
  ]

  members_in-set_membership :
      (r : Key) (s : OrSet) (c : Region V) → members_in r (set_membership r s c) ≡ s
  members_in-set_membership r s c =
      ap (λ o. (or_default o new_replica).membership)
        (Map.get-set_self r (record (room_of r c) { membership = s }) c.rooms)

  rooms-observed :
      (wall : ℕ) (op : Op V) (c : Region V)
      → (observe wall op (record_lag wall op c)).rooms ≡ c.rooms
  unfolding observe record_lag
  rooms-observed wall op c = elim (List-cases op.region_id) [
    | inl e ↦ ground (arith, e)
    | inr (x, xs, e) ↦ ground (arith, e)
  ]

  -- The set of members after an operation that replaces it by a function of itself.
  members_in-changed :
      (f : OrSet → OrSet) (r : Key) (wall : ℕ) (op : Op V) (c : Region V)
      → let o = observe wall op (record_lag wall op c) in
        members_in r (set_membership r (f (members_in r (ensure_room r o))) (ensure_room r o))
        ≡ f (members_in r c)
  members_in-changed f r wall op c =
      let o = observe wall op (record_lag wall op c) in
      members_in-set_membership r (f (members_in r (ensure_room r o))) (ensure_room r o)
      ∙ ap (λ room. f room.membership) (room_of-ensure_room r o)
      ∙ ap (λ rooms. f (or_default (Map.get r rooms) new_replica).membership)
          (rooms-observed wall op c)

  -- A join that is delivered takes effect: the operation is applied, and the client is in the room there,
  -- unless its tag had been retired there before.
  pub handle_peer_operation-join :
      (wall : ℕ) (client r tag : Key) (op : Op V) (c : Region V)
      → KeySet.mem tag (room_of r c).membership.removes ≡ false
      → let after =
          handle_peer_operation wall (record op { change = membership_add r client tag }) c in
        (after.1 ≡ true) × (OrSet.has client (room_of r after.0).membership ≡ true)
  unfolding handle_peer_operation apply_change
  handle_peer_operation-join wall client r tag op c live =
      let op1 : Op V = record op { change = membership_add r client tag } in
      let s = members_in r c in
      (
        refl,
        ap (OrSet.has client) (members_in-changed (OrSet.apply_add client tag) r wall op1 c)
            ∙ (unfold OrSet.has OrSet.apply_add in
                KeySet.any-mem (OrSet.is_live (OrSet.add client tag s)) tag
                  (OrSet.tags client (OrSet.add client tag s))
                  (tagged-add client tag client tag s
                    ∙ key_ite_self (ite (key_dec tag tag) true (tagged client tag s))
                        (tagged client tag s) client
                    ∙ key_ite_self true (tagged client tag s) tag)
                  (unfold OrSet.add in ap not live)),
      )

  -- A leave that is delivered retires the tags that the leaver had seen and no others: the client stays in
  -- the room there exactly if it had another tag there that was not retired.
  pub handle_peer_operation-leave :
      (wall : ℕ) (client r : Key) (seen : List Key) (op : Op V) (c : Region V)
      → let after =
          handle_peer_operation wall (record op { change = membership_remove r client seen }) c in
        (after.1 ≡ true)
        × (OrSet.has client (room_of r after.0).membership
            ≡ any
                (λ t.
                  not (KeySet.mem t seen) && not (KeySet.mem t (room_of r c).membership.removes))
                (OrSet.tags client (room_of r c).membership))
  unfolding handle_peer_operation apply_change
  handle_peer_operation-leave wall client r seen op c =
      let op1 : Op V = record op { change = membership_remove r client seen } in
      let s = members_in r c in
      (
        refl,
        ap (OrSet.has client) (members_in-changed (OrSet.apply_remove seen) r wall op1 c)
            ∙ (unfold OrSet.has in
                ap
                  (λ adds.
                    any (OrSet.is_live (OrSet.apply_remove seen s))
                      (or_default (Map.get client adds) []))
                  (apply_remove-adds seen s)
                ∙ any_agree _ _
                    (λ t.
                      ap not (retired-apply_remove t seen s)
                      ∙ not_or (KeySet.mem t seen) (retired t s))
                    (OrSet.tags client s)),
      )
