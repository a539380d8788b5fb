-- ===== src/Rooms/Membership/Index/Renaming.antt =====
-- `updateClientId`: where it loses count of the memberships.
use real_time_spatial_tracki.Base.{
  ◌+◌, ◌≡◌, ◌≢◌, subst, inl, inr, true, [], ◌∷◌, some, Key, arith, length, Option-cases,
}
use real_time_spatial_tracki.Base.Map
use real_time_spatial_tracki.Base.Map.{Map, Distinct, sum_by}
use real_time_spatial_tracki.Base.KeySet
use real_time_spatial_tracki.Rooms.{Manager}
use real_time_spatial_tracki.Rooms.Membership.{room, rename_client, rename_in}
use real_time_spatial_tracki.Rooms.Membership.Index.{IsOccupied, members_total, IsValid}

-- One room's members when `old` becomes `new`.
module _ {ℓ} {W : Type ℓ} (old new : Key) where
  length-rename :
      (ws v : W) (members : Map W)
      → Distinct members
      → old ≢ new
      → Map.get old members ≡ some ws
      → Map.has new members ≡ true
      → length (Map.set new v (Map.delete old members)) + 1 ≡ length members
  length-rename ws v members d ne e h = ground (
    arith,
    Map.length-set new v (Map.delete old members),
    Map.get-delete new old members,
    Map.length-delete old members {v = ws} d e,
  )

module _ {W P : Type 0} (old new r : Key) (m : Manager W P) where
  -- From valid indices, if the old client is in one room alone and the new id is a member of it
  -- already, then after `updateClientId` `_totalMembers` is one more than the number of
  -- memberships.
  pub rename_overcounts :
      IsValid m
      → old ≢ new
      → Map.get old m.client_rooms ≡ some (r ∷ [])
      → Map.has new (room r m) ≡ true
      → (rename_client old new m).total_members ≡ members_total (rename_client old new m).rooms + 1
  unfolding rename_client rename_in members_total Map.get KeySet.mem
  rename_overcounts v ne index h = elim (Option-cases (Map.get r m.rooms)) [
    | inl e ↦ absurd (ground arith)
    | inr (members, e) ↦ elim (Option-cases (Map.get old members)) [
      | inl f ↦ absurd (ground (arith, v.agree old r))
      | inr (ws, f) ↦ ground (
        arith,
        v.total,
        length-rename old new ws ws members (subst IsOccupied e (v.occupied r)).0 ne f,
        Map.sum-set length r (Map.set new ws (Map.delete old members)) m.rooms,
      )
    ]
  ]
