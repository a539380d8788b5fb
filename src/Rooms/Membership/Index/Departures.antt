-- ===== src/Rooms/Membership/Index/Departures.antt =====
-- `leave` and `disconnect` keep the indices valid and leave no membership behind.
use real_time_spatial_tracki.Base.{
  ◌+◌, ◌-◌, ◌≡◌, sym, ap, ◌∙◌, subst, inl, inr, true, false, List, [], ◌∷◌, none, Key, key_dec,
  arith, length, or_default, if◌then◌else◌, Bool-cases, Option-cases, ite, if_pos, if_neg,
  key_ite_self,
}
use real_time_spatial_tracki.Base.Map
use real_time_spatial_tracki.Base.Map.{Map, Distinct, sum_by}
use real_time_spatial_tracki.Base.KeySet
use real_time_spatial_tracki.Base.KeySet.{Unique}
use real_time_spatial_tracki.Rooms.{Manager}
use real_time_spatial_tracki.Rooms.Membership.{
  room, rooms_of, cleanup_client, leave_members, leave_index, leave_state, leave_room, drop_from,
  disconnect_client,
}
use real_time_spatial_tracki.Rooms.Membership.Index.{members_total, IsValid}
use real_time_spatial_tracki.Rooms.Membership.Index.Leaving.{
  members_at, take_out, has-take_out, members_total-take_out, Fits, take_out-Fits, members-Distinct,
  In, drop_from_facts,
}

module _ {W P : Type 0} (c : Key) (m : Manager W P) where
  disconnect-rooms : (disconnect_client c m).rooms ≡ drop_from c (rooms_of c m) m.rooms
  unfolding disconnect_client drop_from
  disconnect-rooms = ground arith

  disconnect-client_rooms :
      (d : Key) → rooms_of d (disconnect_client c m) ≡ ite (key_dec c d) [] (rooms_of d m)
  unfolding disconnect_client
  disconnect-client_rooms d = ground (arith, Map.get-delete d c m.client_rooms)

  disconnect-total : (disconnect_client c m).total_members ≡ m.total_members - length (rooms_of c m)
  unfolding disconnect_client
  disconnect-total = ground arith

  leave-rooms :
      (r : Key)
      → (leave_room c r m).rooms ≡ (if Map.has c (room r m) then take_out c r m.rooms else m.rooms)
  unfolding leave_room
  leave-rooms r = ground arith

  leave_state-client_rooms :
      (r : Key) (n : Manager W P) → (leave_state c r n).client_rooms ≡ n.client_rooms
  unfolding leave_state
  leave_state-client_rooms r n = ground arith

  leave_members-client_rooms : (r : Key) → (leave_members c r m).client_rooms ≡ m.client_rooms
  unfolding leave_members
  leave_members-client_rooms r = ground arith

  rooms_of-leave_index :
      (r d : Key) (n : Manager W P)
      → rooms_of d (leave_index c r n)
        ≡ ite (key_dec c d) (KeySet.delete r (rooms_of c n)) (rooms_of d n)
  unfolding leave_index cleanup_client KeySet.delete
  rooms_of-leave_index r d n = elim (Option-cases (Map.get c n.client_rooms)) [
    | inl e ↦ ground arith
    | inr (s, e) ↦
        let written = Map.set c (KeySet.delete r s) n.client_rooms in
        ground (
          arith,
          Map.get-set d c (KeySet.delete r s) n.client_rooms,
          Map.get-set c c (KeySet.delete r s) n.client_rooms,
          Map.get-delete d c written,
        )
  ]

  leave-client_rooms :
      (r d : Key)
      → rooms_of d (leave_room c r m)
        ≡ ite (key_dec c d) (KeySet.delete r (rooms_of c m)) (rooms_of d m)
  unfolding leave_room
  leave-client_rooms r d =
      ap (λ index. or_default (Map.get d index) [])
        (leave_state-client_rooms r (leave_index c r (leave_members c r m)))
      ∙ rooms_of-leave_index r d (leave_members c r m)
      ∙ ap
          (λ index.
            ite (key_dec c d) (KeySet.delete r (or_default (Map.get c index) []))
              (or_default (Map.get d index) []))
          (leave_members-client_rooms r)

  leave-total :
      (r : Key)
      → (leave_room c r m).total_members
        ≡ (if Map.has c (room r m) then m.total_members - 1 else m.total_members)
  unfolding leave_room
  leave-total r = ground arith

  fits : IsValid m → Fits c m.rooms
  fits v = record { distinct = v.distinct; occupied = v.occupied }

  -- After `leave` the client is not a member of the room, and every other pair is as before.
  pub has-leave :
      (r d s : Key)
      → Map.has d (room s (leave_room c r m)) ≡ (
          ite (key_dec r s) (ite (key_dec c d) false (Map.has d (room s m))) (Map.has d (room s m)))
  has-leave r d s = elim (Bool-cases (Map.has c (room r m))) [
    | inl e ↦ rw (leave-rooms r, e) (has-take_out c r m.rooms d s)
    | inr e ↦ rw (leave-rooms r, e) (ground arith)
  ]

  leave-Fits : (r : Key) → IsValid m → Fits c (leave_room c r m).rooms
  leave-Fits r v = elim (Bool-cases (Map.has c (room r m))) [
    | inl e ↦ rw (leave-rooms r, e) (take_out-Fits c r m.rooms (fits v))
    | inr e ↦ rw (leave-rooms r, e) (fits v)
  ]

  leave_memberships :
      (r : Key)
      → IsValid m
      → (leave_room c r m).total_members ≡ members_total (leave_room c r m).rooms
  leave_memberships r v = elim (Bool-cases (Map.has c (room r m))) [
    | inl e ↦
        rw (leave-total r, leave-rooms r, e)
          (omega (
            arith,
            v.total,
            members_total-take_out c r m.rooms v.distinct (members-Distinct c r m.rooms (fits v)) e,
          ))
    | inr e ↦ rw (leave-total r, leave-rooms r, e) v.total
  ]

  index-Unique :
      (d : Key) (s : List Key)
      → Unique s
      → Unique (rooms_of d m)
      → Unique (ite (key_dec c d) s (rooms_of d m))
  index-Unique d s u v = elim (key_dec c d) [
    | yes p ↦ rw (if_pos (key_dec c d) p s (rooms_of d m)) u
    | no p ↦ rw (if_neg (key_dec c d) p s (rooms_of d m)) v
  ]

  -- `leave` keeps the invariant of the two indices and of `_totalMembers`, whether the client was
  -- in the room or not.
  pub leave-IsValid : (r : Key) → IsValid m → IsValid (leave_room c r m)
  leave-IsValid r v = record {
    agree = λ d s. ground (
      arith,
      has-leave r d s,
      leave-client_rooms r d,
      KeySet.mem-delete s r (rooms_of c m),
      v.agree d s,
      v.agree c s,
    );
    distinct = (leave-Fits r v).distinct;
    occupied = (leave-Fits r v).occupied;
    unique = λ d. rw (leave-client_rooms r d) (
        index-Unique d (KeySet.delete r (rooms_of c m))
          (KeySet.delete-Unique r (rooms_of c m) (v.unique c)) (v.unique d));
    total = leave_memberships r v;
  }

  In-of :
      (rs : List Key)
      → Unique rs
      → ((r : Key) → KeySet.mem r rs ≡ true → Map.has c (members_at r m.rooms) ≡ true)
      → In c rs m.rooms
  unfolding KeySet.mem
  In-of [] u h = tt
  In-of (r ∷ rs) u h =
      (h r (key_ite_self true (KeySet.mem r rs) r), u.0, In-of rs u.1 (λ s k. h s (ground arith)))

  disconnect_facts :
      IsValid m
      → Fits c (disconnect_client c m).rooms
        × (members_total (disconnect_client c m).rooms + length (rooms_of c m)
            ≡ members_total m.rooms)
        × ((d s : Key)
            → Map.has d (room s (disconnect_client c m)) ≡ (
                if KeySet.mem s (rooms_of c m)
                then ite (key_dec c d) false (Map.has d (room s m))
                else Map.has d (room s m)))
  disconnect_facts v =
      let loop =
        drop_from_facts c (rooms_of c m) m.rooms (fits v)
          (In-of (rooms_of c m) (v.unique c) (λ r k. v.agree c r ∙ k)) in
      (
        subst (Fits c) (sym disconnect-rooms) loop.0,
        ap (λ rooms. members_total rooms + length (rooms_of c m)) disconnect-rooms ∙ loop.1,
        λ d s. ap (λ rooms. Map.has d (members_at s rooms)) disconnect-rooms ∙ loop.2 d s,
      )

  -- `disconnect` keeps the invariant of the two indices and of `_totalMembers`, whether the client
  -- was known or not.
  pub disconnect-IsValid : IsValid m → IsValid (disconnect_client c m)
  disconnect-IsValid v =
      let facts = disconnect_facts v in
      record {
        agree = λ d s.
            ground (arith, facts.2 d s, disconnect-client_rooms d, v.agree d s, KeySet.mem-nil s);
        distinct = facts.0.distinct;
        occupied = facts.0.occupied;
        unique = λ d. rw (disconnect-client_rooms d) (index-Unique d [] tt (v.unique d));
        total = rw disconnect-total (omega (arith, facts.1, v.total));
      }

  -- From valid indices, a disconnected client is in no room and every other client is in exactly the rooms
  -- that it was in; no index entry and no acknowledgment state of the client is left, and its client
  -- state goes exactly if backpressure is on.
  pub disconnect_leaves_nothing :
      IsValid m
      → ((d r : Key)
          → Map.has d (room r (disconnect_client c m))
            ≡ ite (key_dec c d) false (Map.has d (room r m)))
        × (Map.get c (disconnect_client c m).client_rooms ≡ none)
        × (Map.get c (disconnect_client c m).ack_state ≡ none)
        × (Map.get c (disconnect_client c m).client_state
            ≡ (if m.config.backpressure then none else Map.get c m.client_state))
  unfolding disconnect_client Map.get
  disconnect_leaves_nothing v = (
    λ d r. ground (arith, (disconnect_facts v).2 d r, v.agree d r),
    ground (arith, Map.get-delete c c m.client_rooms),
    ground (arith, Map.get-delete c c m.ack_state),
    ground (arith, Map.get-delete c c m.client_state),
  )
