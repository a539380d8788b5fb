-- ===== src/EventSourcing/Commands/Crossing.antt =====
-- What a fix does to the set of fences that a vehicle is inside of.
use real_time_spatial_tracki.Base.{
  ◌≡◌, refl, sym, ap, ◌∙◌, Bool, true, false, not, ◌&&◌, List, [], ◌∷◌, ◌++◌, map, none, some, Key,
  key_dec, arith, length, Bool-cases, inl, inr, if◌then◌else◌, ite, All, key_ite_self,
}
use real_time_spatial_tracki.Base.Map.{Map}
use real_time_spatial_tracki.Base.KeySet
use real_time_spatial_tracki.EventSourcing.{Event}
use real_time_spatial_tracki.EventSourcing.Aggregate.{apply, stage, record_event}
use real_time_spatial_tracki.EventSourcing.Payload.{
  Payload, location_update, geofence_entered, geofence_exited, Geometry, Draw, create_event,
}
use real_time_spatial_tracki.EventSourcing.Classes.{Vehicle, mutate_vehicle, vehicle_class}
use real_time_spatial_tracki.EventSourcing.TypedEvents.{location_updated_event}
use real_time_spatial_tracki.EventSourcing.Commands.{
  Command, VehicleAggregate, options, cross_fence, cross_fences, cross_rooms, record_location,
}

-- The fences of all the rooms, in the order in which the loops visit them.
abbrev pub all_fences : {F : Type 0} → Map (List F) → List F
all_fences [] = []
all_fences ((r, fences) ∷ geofences) = fences ++ all_fences geofences

module _ {L F : Type 0} where
  pub recorded-state :
      (e : Event (Payload L F)) (a : VehicleAggregate L F)
      → e.sequence ≡ none
      → (record_event vehicle_class e a).state ≡ mutate_vehicle e.payload e.timestamp a.state
  unfolding record_event stage apply vehicle_class
  recorded-state e a h = ground (arith, h)

module _ {L F : Type 0} (g : Geometry L F) (draw : Draw) (cmd : Command L F) (fix : L) where
  abbrev is_in : Key → VehicleAggregate L F → Bool
  is_in j a = KeySet.mem j a.state.inside_geofences

  -- What one fence does to the vehicle's fields.
  cross_state : F → Vehicle L F → Vehicle L F
  cross_state f v =
      let inside = g.is_inside fix f in
      let was_inside = KeySet.mem (g.fence_id f) v.inside_geofences in
      if inside && not was_inside
      then mutate_vehicle (geofence_entered (g.fence_id f) (g.fence_room f) (g.coordinates fix))
          draw.now v
      else if not inside && was_inside
      then mutate_vehicle (geofence_exited (g.fence_id f) (g.fence_room f) (g.coordinates fix))
          draw.now v
      else v

  cross_fence-cross_state :
      (f : F) (a : VehicleAggregate L F)
      → (cross_fence g draw cmd fix f a).state ≡ cross_state f a.state
  unfolding cross_fence cross_state create_event
  cross_fence-cross_state f a = elim (Bool-cases (g.is_inside fix f)) [
    | inl i ↦ elim (Bool-cases (is_in (g.fence_id f) a)) [
      | inl m ↦ rw (i, m) refl
      | inr m ↦ rw (i, m) (recorded-state _ a refl)
    ]
    | inr i ↦ elim (Bool-cases (is_in (g.fence_id f) a)) [
      | inl m ↦ rw (i, m) (recorded-state _ a refl)
      | inr m ↦ rw (i, m) refl
    ]
  ]

  mem-cross_state :
      (j : Key) (f : F) (v : Vehicle L F)
      → KeySet.mem j (cross_state f v).inside_geofences
        ≡ ite (key_dec (g.fence_id f) j) (g.is_inside fix f) (KeySet.mem j v.inside_geofences)
  unfolding cross_state mutate_vehicle
  mem-cross_state j f v = elim (key_dec (g.fence_id f) j) [
    | yes p ↦ ground (
      arith,
      p,
      ap (λ k. KeySet.mem k v.inside_geofences) p,
      KeySet.mem-add j (g.fence_id f) v.inside_geofences,
      KeySet.mem-delete j (g.fence_id f) v.inside_geofences,
    )
    | no p ↦ ground (
      arith,
      p,
      KeySet.mem-add j (g.fence_id f) v.inside_geofences,
      KeySet.mem-delete j (g.fence_id f) v.inside_geofences,
    )
  ]

  location-cross_state : (f : F) (v : Vehicle L F) → (cross_state f v).location ≡ v.location
  unfolding cross_state mutate_vehicle
  location-cross_state f v = ground arith

  -- One fence decides about its own id, and about no other.
  is_in-cross_fence :
      (j : Key) (f : F) (a : VehicleAggregate L F)
      → is_in j (cross_fence g draw cmd fix f a)
        ≡ ite (key_dec (g.fence_id f) j) (g.is_inside fix f) (is_in j a)
  is_in-cross_fence j f a =
      ap (λ v. KeySet.mem j v.inside_geofences) (cross_fence-cross_state f a)
      ∙ mem-cross_state j f a.state

  location-cross_fences :
      (fences : List F) (a : VehicleAggregate L F)
      → (cross_fences g draw cmd fix fences a).state.location ≡ a.state.location
  unfolding cross_fences
  location-cross_fences [] a = refl
  location-cross_fences (f ∷ fences) a =
      location-cross_fences fences (cross_fence g draw cmd fix f a)
      ∙ ap (λ v. v.location) (cross_fence-cross_state f a)
      ∙ location-cross_state f a.state

  cross_fences-append :
      (xs ys : List F) (a : VehicleAggregate L F)
      → cross_fences g draw cmd fix (xs ++ ys) a
        ≡ cross_fences g draw cmd fix ys (cross_fences g draw cmd fix xs a)
  unfolding cross_fences
  cross_fences-append [] ys a = refl
  cross_fences-append (f ∷ xs) ys a = cross_fences-append xs ys (cross_fence g draw cmd fix f a)

  cross_rooms-all_fences :
      (geofences : Map (List F)) (a : VehicleAggregate L F)
      → cross_rooms g draw cmd fix geofences a
        ≡ cross_fences g draw cmd fix (all_fences geofences) a
  unfolding cross_rooms cross_fences
  cross_rooms-all_fences [] a = refl
  cross_rooms-all_fences ((r, fences) ∷ geofences) a =
      cross_rooms-all_fences geofences (cross_fences g draw cmd fix fences a)
      ∙ sym (cross_fences-append fences (all_fences geofences) a)

  -- Whatever fences are crossed, the vehicle is at the fix.
  pub location-record_location :
      (a : VehicleAggregate L F)
      → (record_location g draw cmd fix a).state.location ≡ some (fix, draw.now)
  unfolding record_location
  location-record_location a =
      let event =
        location_updated_event (options draw (length a.uncommitted) cmd) cmd.client_id fix in
      let located = record_event vehicle_class event a in
      let at : located.state.location ≡ some (fix, draw.now) =
        unfold create_event mutate_vehicle in
        ap (λ v. v.location) (recorded-state event a (unfold create_event in refl)) in
      elim (Bool-cases (g.has_position fix)) [
        | inr h ↦ rw h at
        | inl h ↦ rw h (
            ap (λ b. b.state.location) (cross_rooms-all_fences located.state.geofences located)
            ∙ location-cross_fences (all_fences located.state.geofences) located
            ∙ at)
      ]

  abbrev ids : List F → List Key
  ids = map g.fence_id

  crossed_other :
      (j : Key) (fences : List F) (a : VehicleAggregate L F)
      → KeySet.mem j (ids fences) ≡ false
      → is_in j (cross_fences g draw cmd fix fences a) ≡ is_in j a
  unfolding cross_fences KeySet.mem
  crossed_other j [] a h = refl
  crossed_other j (f ∷ fences) a h =
      crossed_other j fences (cross_fence g draw cmd fix f a) (ground (arith, h))
      ∙ is_in-cross_fence j f a
      ∙ ground (arith, h)

  crossed-All :
      (fences : List F) (a : VehicleAggregate L F)
      → KeySet.Unique (ids fences)
      → All
          (λ f. is_in (g.fence_id f) (cross_fences g draw cmd fix fences a) ≡ g.is_inside fix f)
          fences
  unfolding cross_fences
  crossed-All [] a u = tt
  crossed-All (f ∷ fences) a u =
      let next = cross_fence g draw cmd fix f a in
      (
        crossed_other (g.fence_id f) fences next u.0
            ∙ is_in-cross_fence (g.fence_id f) f a
            ∙ key_ite_self (g.is_inside fix f) (is_in (g.fence_id f) a) (g.fence_id f),
        crossed-All fences next u.1,
      )

  abbrev located : VehicleAggregate L F → VehicleAggregate L F
  located a =
      record_event vehicle_class
        (location_updated_event (options draw (length a.uncommitted) cmd) cmd.client_id fix) a

  record_location_positioned :
      (a : VehicleAggregate L F)
      → g.has_position fix ≡ true
      → record_location g draw cmd fix a
        ≡ cross_rooms g draw cmd fix (located a).state.geofences (located a)
  unfolding record_location
  record_location_positioned a h = ground (arith, h)

  -- After a fix with a position has been recorded, the vehicle stands there, and it is inside of exactly
  -- those of its fences that the geometry puts the fix in, if no two of them, of one room or of two,
  -- have one id; about ids of other fences nothing changes.
  pub record_location-crossed :
      (a : VehicleAggregate L F)
      → g.has_position fix ≡ true
      → KeySet.Unique (map g.fence_id (all_fences a.state.geofences))
      → ((record_location g draw cmd fix a).state.location ≡ some (fix, draw.now))
        × All
            (λ f.
              KeySet.mem (g.fence_id f) (record_location g draw cmd fix a).state.inside_geofences
              ≡ g.is_inside fix f)
            (all_fences a.state.geofences)
        × ((j : Key)
            → KeySet.mem j (map g.fence_id (all_fences a.state.geofences)) ≡ false
            → KeySet.mem j (record_location g draw cmd fix a).state.inside_geofences
              ≡ KeySet.mem j a.state.inside_geofences)
  record_location-crossed a h u =
      let a1 = located a in
      let at : a1.state ≡ mutate_vehicle (location_update fix) draw.now a.state =
        unfold create_event in recorded-state _ a refl in
      let fences = all_fences a.state.geofences in
      let same : all_fences a1.state.geofences ≡ fences =
        ap (λ v. all_fences v.geofences) at ∙ (unfold mutate_vehicle in refl) in
      let whole : record_location g draw cmd fix a ≡ cross_fences g draw cmd fix fences a1 =
        record_location_positioned a h
        ∙ cross_rooms-all_fences a1.state.geofences a1
        ∙ ap (λ xs. cross_fences g draw cmd fix xs a1) same in
      rw whole (
        location-cross_fences fences a1 ∙ ap (λ v. v.location) at ∙ (unfold mutate_vehicle in refl),
        crossed-All fences a1 u,
        λ j other.
            crossed_other j fences a1 other
            ∙ ap (λ v. KeySet.mem j v.inside_geofences) at
            ∙ (unfold mutate_vehicle in refl),
      )
