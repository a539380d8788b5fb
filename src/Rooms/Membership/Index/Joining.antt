-- ===== src/Rooms/Membership/Index/Joining.antt =====
-- Joins keep the indices valid.
use real_time_spatial_tracki.Base.{
  ℕ, ◌+◌, ◌<◌, ◌≡◌, sym, ap, ◌∙◌, subst, ◌⊎◌, inl, inr, Bool, true, false, [], none, some, Key,
  key_dec, arith, length, or_default, if◌then◌else◌, Bool-cases, Option-cases, ite,
}
use real_time_spatial_tracki.Base.Map
use real_time_spatial_tracki.Base.Map.{Map, Distinct, sum_by}
use real_time_spatial_tracki.Base.KeySet
use real_time_spatial_tracki.Base.KeySet.{Unique}
use real_time_spatial_tracki.Rooms.{Manager, reached, use_new_join_format}
use real_time_spatial_tracki.Rooms.Membership.{
  room, rooms_of, admit, ensure_room, check_circuit_breaker, join_room, join_refusal, ErrorCode,
  room_full, undefined, ok, full, error,
}
use real_time_spatial_tracki.Rooms.Membership.Index.{IsOccupied, members_total, IsValid}

module _ {W P : Type 0} (c r : Key) (ws : W) (m : Manager W P) where
  -- The two indices after an admission.
  admit-rooms : (admit c r ws m).rooms ≡ Map.set r (Map.set c ws (room r m)) m.rooms
  unfolding admit
  admit-rooms = ground arith

  admit-client_rooms :
      (admit c r ws m).client_rooms ≡ Map.set c (KeySet.add r (rooms_of c m)) m.client_rooms
  unfolding admit
  admit-client_rooms = ground arith

  admit-total :
      (admit c r ws m).total_members
      ≡ (if Map.has c (room r m) then m.total_members else m.total_members + 1)
  unfolding admit
  admit-total = ground arith

  -- An admission makes the client a member of the room, in both indices, and changes no other pair.
  pub has-admit :
      (d s : Key)
      → Map.has d (room s (admit c r ws m))
        ≡ (ite (key_dec r s) (ite (key_dec c d) true (Map.has d (room s m))) (Map.has d (room s m)))
  has-admit d s = rw admit-rooms (
      ground
        (arith, Map.get-set s r (Map.set c ws (room r m)) m.rooms, Map.get-set d c ws (room r m)))

  pub mem-admit :
      (d s : Key)
      → KeySet.mem s (rooms_of d (admit c r ws m)) ≡ (
          ite
            (key_dec c d)
            (ite (key_dec r s) true (KeySet.mem s (rooms_of d m)))
            (KeySet.mem s (rooms_of d m)))
  mem-admit d s = rw admit-client_rooms (
      ground (
        arith,
        Map.get-set d c (KeySet.add r (rooms_of c m)) m.client_rooms,
        KeySet.mem-add s r (rooms_of c m),
      ))

  room-Distinct : ((s : Key) → IsOccupied (Map.get s m.rooms)) → Distinct (room r m)
  room-Distinct h = elim (Option-cases (Map.get r m.rooms)) [
    | inl e ↦ rw e tt
    | inr (ms, e) ↦ rw e (subst IsOccupied e (h r)).0
  ]

  -- An admission keeps the invariant.
  pub admit-IsValid : IsValid m → IsValid (admit c r ws m)
  unfolding members_total
  admit-IsValid v = record {
    agree = λ d s. ground (arith, has-admit d s, mem-admit d s, v.agree d s);
    distinct = rw admit-rooms (Map.set-Distinct r _ m.rooms v.distinct);
    occupied = λ s. rw admit-rooms (
        Map.get-set_cases IsOccupied s r m.rooms _
          (
            Map.set-Distinct c ws (room r m) (room-Distinct v.occupied),
            Map.length-set-pos c ws (room r m),
          )
          (λ ne. v.occupied s));
    unique = λ d. rw admit-client_rooms (
        Map.get-set_cases (λ o. Unique (or_default o [])) d c m.client_rooms _
          (KeySet.add-Unique r (rooms_of c m) (v.unique c)) (λ ne. v.unique d));
    total =
        rw (admit-total, admit-rooms)
          (ground (
            arith,
            Map.length-set c ws (room r m),
            Map.sum-set length r (Map.set c ws (room r m)) m.rooms,
            v.total,
          ));
  }

module _ {W P : Type 0} where
  -- The circuit breaker touches its own state alone.
  check_changes :
      (heap : ℕ) (m : Manager W P)
      → check_circuit_breaker heap m
        ≡ record m { breaker_open = (check_circuit_breaker heap m).breaker_open }
  unfolding check_circuit_breaker
  check_changes heap m = ground arith

  breaker-IsValid :
      (b : Bool) (m : Manager W P) → IsValid m → IsValid (record m { breaker_open = b })
  breaker-IsValid b m v = record {
    agree = v.agree;
    distinct = v.distinct;
    occupied = v.occupied;
    unique = v.unique;
    total = v.total;
  }

  pub check-IsValid :
      (heap : ℕ) (m : Manager W P) → IsValid m → IsValid (check_circuit_breaker heap m)
  check-IsValid heap m v = subst IsValid (sym (check_changes heap m)) (breaker-IsValid _ m v)

  -- The room that `join` makes is the one that the admission writes.
  pub room-ensure_room : (r s : Key) (m : Manager W P) → room s (ensure_room r m) ≡ room s m
  unfolding ensure_room
  room-ensure_room r s m = ground (arith, Map.get-set s r [] m.rooms)

  pub admit-ensure_room :
      (c r : Key) (ws : W) (m : Manager W P) → admit c r ws (ensure_room r m) ≡ admit c r ws m
  unfolding admit ensure_room
  admit-ensure_room c r ws m = elim (Option-cases (Map.get r m.rooms)) [
    | inl e ↦ ground (arith, Map.get-set r r [] m.rooms, Map.set-set r (Map.set c ws []) [] m.rooms)
    | inr (ms, e) ↦ ground arith
  ]

  ensure_room_occupied : (r : Key) (m : Manager W P) → 0 < length (room r m) → ensure_room r m ≡ m
  unfolding ensure_room
  ensure_room_occupied r m h = ground arith

  ensure_room-config : (r : Key) (m : Manager W P) → (ensure_room r m).config ≡ m.config
  unfolding ensure_room
  ensure_room-config r m = ground arith

  -- The three ends of `join`: a refusal by a limit or the breaker, a full room, and an admission.
  pub join_room_cases :
      (heap : ℕ) (c r : Key) (ws : W) (start : Manager W P)
      → let m = check_circuit_breaker heap start in
        ((code : ErrorCode) × (join_refusal c r m ≡ some code)
          × (join_room heap c r ws start ≡ (m, error code)))
        ⊎ ((join_refusal c r m ≡ none)
            × (Map.has c (room r m) ≡ false)
            × (reached m.config.max_room_size (length (room r m)) ≡ true)
            × (join_room heap c r ws start ≡ (
              ensure_room r m,
              if use_new_join_format m.config then error room_full else full,
            )))
        ⊎ ((join_refusal c r m ≡ none)
            × ((Map.has c (room r m) ≡ true)
                ⊎ (reached m.config.max_room_size (length (room r m)) ≡ false))
            × (join_room heap c r ws start
                ≡ (admit c r ws m, if use_new_join_format m.config then undefined else ok)))
  unfolding join_room
  join_room_cases heap c r ws start =
      let m = check_circuit_breaker heap start in
      let same_room = room-ensure_room r r m in
      let same_config = ensure_room-config r m in
      let same_end = admit-ensure_room c r ws m in
      elim (Option-cases (join_refusal c r m)) [
        | inr (code, e) ↦ inl (code, e, ground arith)
        | inl e ↦ elim (Bool-cases (Map.has c (room r m))) [
          | inl h ↦ inr (inr (e, inl h, ground (arith, same_room, same_config, same_end)))
          | inr h ↦ elim (Bool-cases (reached m.config.max_room_size (length (room r m)))) [
            | inl k ↦ inr (inl (e, h, k, ground (arith, same_room, same_config, same_end)))
            | inr k ↦ inr (inr (e, inr k, ground (arith, same_room, same_config, same_end)))
          ]
        ]
      ]

  -- With a limit on the size of rooms that is not 0, `join` of a client to a room keeps the
  -- invariant of the two indices and of `_totalMembers`, whether it is refused or not.
  pub join_room-IsValid :
      (heap : ℕ) (c r : Key) (ws : W) (m : Manager W P)
      → reached m.config.max_room_size 0 ≡ false
      → IsValid m
      → IsValid (join_room heap c r ws m).0
  join_room-IsValid heap c r ws m positive v = elim (join_room_cases heap c r ws m) [
    | inl (code, _, e) ↦ subst (λ p. IsValid p.0) (sym e) valid
    | inr (inl (_, _, full_room, e)) ↦
        let some_member : 0 < length (room r checked) = ground (arith, same_limit) in
        subst (λ p. IsValid p.0) (sym e)
          (subst IsValid (sym (ensure_room_occupied r checked some_member)) valid)
    | inr (inr (_, _, e)) ↦ subst (λ p. IsValid p.0) (sym e) (admit-IsValid c r ws checked valid)
  ]
    where
      checked : Manager W P
      checked = check_circuit_breaker heap m

      same_limit : checked.config ≡ m.config
      same_limit = ap (λ (k : Manager W P). k.config) (check_changes heap m)

      valid : IsValid checked
      valid = check-IsValid heap m v

  made_room :
      (r : Key) (m : Manager W P)
      → Map.get r m.rooms ≡ none
      → Map.get r (ensure_room r m).rooms ≡ some []
  unfolding ensure_room
  made_room r m e = ground (arith, Map.get-set r r [] m.rooms)

  -- With a room size of 0, a `join` to a room that does not exist and that no other limit refuses
  -- leaves an empty room behind.
  pub join_zero_size :
      (heap : ℕ) (c r : Key) (ws : W) (m : Manager W P)
      → join_refusal c r (check_circuit_breaker heap m) ≡ none
      → m.config.max_room_size ≡ some 0
      → Map.get r m.rooms ≡ none
      → Map.get r (join_room heap c r ws m).0.rooms ≡ some []
  unfolding Map.get
  join_zero_size heap c r ws m e zero_size no_room = elim (join_room_cases heap c r ws m) [
    | inl (code, f, _) ↦ absurd (ground arith)
    | inr (inl (_, _, _, f)) ↦
        subst (λ p. Map.get r p.0.rooms ≡ some []) (sym f) (made_room r checked gone)
    | inr (inr (_, inl h, _)) ↦ absurd (ground (arith, gone))
    | inr (inr (_, inr h, _)) ↦ absurd (ground (arith, gone, same_limit))
  ]
    where
      checked : Manager W P
      checked = check_circuit_breaker heap m

      same_limit : checked.config ≡ m.config
      same_limit = ap (λ (k : Manager W P). k.config) (check_changes heap m)

      gone : Map.get r checked.rooms ≡ none
      gone = ap (λ (k : Manager W P). Map.get r k.rooms) (check_changes heap m) ∙ no_room
