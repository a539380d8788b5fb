-- ===== src/EventSourcing/Projections/Membership.antt =====
-- The read model of a room's members in src/event-sourcing.js against the rooms of the vehicles themselves.
use real_time_spatial_tracki.Base.{
  ℕ, ◌≡◌, refl, sym, ap, ◌∙◌, subst, Bool, true, false, List, [], ◌∷◌, Key, key_dec, ite, arith,
  All, Option-cases, inl, inr, or_default,
}
use real_time_spatial_tracki.Base.Map
use real_time_spatial_tracki.Base.Map.{Map}
use real_time_spatial_tracki.Base.KeySet
use real_time_spatial_tracki.EventSourcing.{Event, vehicle}
use real_time_spatial_tracki.EventSourcing.Aggregate.Replay.{replay}
use real_time_spatial_tracki.EventSourcing.Classes.{
  Vehicle, new_vehicle, mutate_vehicle, vehicle_class,
}
use real_time_spatial_tracki.EventSourcing.Payload.{
  Payload, location_update, room_joined, room_left, geofence_updated, geofence_entered,
  geofence_exited, session_resumed, message_ack, message_nack, other,
}
use real_time_spatial_tracki.EventSourcing.Projections.MemorySink.{
  Sink, add_room_member, remove_room_member, get_room_members, new_sink,
}
use real_time_spatial_tracki.EventSourcing.Projections.Builtin.{
  project_room_membership, room_membership_projection,
}

mem-keys {ℓ} : {V : Type ℓ} (k : Key) (m : Map V) → KeySet.mem k (Map.keys m) ≡ Map.has k m
unfolding KeySet.mem Map.get
mem-keys k [] = refl
mem-keys k ((j, v) ∷ m) = ground (arith, mem-keys k m)

abbrev is_member : {N : Type 0} → Key → Key → Sink N → Bool
is_member c r s = Map.has c (or_default (Map.get r s.room_members) [])

is_member-add :
    {N : Type 0} (c r j : Key) (t : ℕ) (s : Sink N)
    → is_member c r (add_room_member j c t s) ≡ ite (key_dec j r) true (is_member c r s)
unfolding add_room_member
is_member-add c r j t s =
    let m = or_default (Map.get j s.room_members) [] in
    ground (arith, Map.get-set r j (Map.set c t m) s.room_members, Map.get-set_self c t m)

has_nil : (c : Key) → Map.has {V = ℕ} c [] ≡ false
unfolding Map.get
has_nil c = refl

is_member-remove :
    {N : Type 0} (c r j : Key) (s : Sink N)
    → is_member c r (remove_room_member j c s) ≡ ite (key_dec j r) false (is_member c r s)
unfolding remove_room_member
is_member-remove c r j s = elim (Option-cases (Map.get j s.room_members)) [
  | inl e ↦ elim (key_dec j r) [
    | yes p ↦ ground (arith, e, p, ap (λ k. Map.get k s.room_members) p, has_nil c)
    | no p ↦ ground (arith, e, p)
  ]
  | inr (m, e) ↦ elim (key_dec j r) [
    | yes p ↦
        ground
          (arith, e, p, Map.get-set r j (Map.delete c m) s.room_members, Map.get-delete_self c m)
    | no p ↦ ground (arith, e, p, Map.get-set r j (Map.delete c m) s.room_members)
  ]
]

abbrev resumes : {L F : Type 0} → Payload L F → Bool
resumes (session_resumed rooms) = true
resumes _ = false

-- An event of the vehicle `c` that does not resume a session.
abbrev pub IsOwn : {L F : Type 0} → Key → Event (Payload L F) → Type 0
IsOwn c e = (e.aggregate_id ≡ c) × (e.aggregate_type ≡ vehicle) × (resumes e.payload ≡ false)

abbrev Agrees : {L F N : Type 0} → Key → Key → Sink N → Vehicle L F → Type 0
Agrees c r s v = is_member c r s ≡ KeySet.mem r v.rooms

module _ {L F N : Type 0} where
  step-Agrees :
      (c r : Key) (e : Event (Payload L F)) (p : Payload L F) (s : Sink N) (v : Vehicle L F)
      → e.aggregate_id ≡ c
      → resumes p ≡ false
      → Agrees c r s v
      → Agrees c r (project_room_membership e p s) (mutate_vehicle p e.timestamp v)
  unfolding project_room_membership mutate_vehicle
  step-Agrees c r e (location_update fix) s v own h a = a
  step-Agrees c r e (room_joined d j) s v own h a =
      subst
        (λ k.
          is_member c r (add_room_member j k e.timestamp s) ≡ KeySet.mem r (KeySet.add j v.rooms))
        (sym own)
        (is_member-add c r j e.timestamp s
          ∙ ap (ite (key_dec j r) true) a
          ∙ sym (KeySet.mem-add r j v.rooms))
  step-Agrees c r e (room_left d j) s v own h a =
      subst (λ k. is_member c r (remove_room_member j k s) ≡ KeySet.mem r (KeySet.delete j v.rooms))
        (sym own)
        (is_member-remove c r j s
          ∙ ap (ite (key_dec j r) false) a
          ∙ sym (KeySet.mem-delete r j v.rooms))
  step-Agrees c r e (geofence_updated j []) s v own h a = a
  step-Agrees c r e (geofence_updated j (f ∷ fs)) s v own h a = a
  step-Agrees c r e (geofence_entered f j l) s v own h a = a
  step-Agrees c r e (geofence_exited f j l) s v own h a = a
  step-Agrees c r e (session_resumed rs) s v own h a = absurd (ground (arith, h))
  step-Agrees c r e (message_ack j n) s v own h a = a
  step-Agrees c r e (message_nack j n t) s v own h a = a
  step-Agrees c r e other s v own h a = a

  -- The events as the projection takes them, one after the other.
  unfoldable pub project_members : List (Event (Payload L F)) → Sink N → Sink N
  project_members [] s = s
  project_members (e ∷ events) s =
      project_members events ((room_membership_projection {L = L} {F = F} {N = N}).handle e s).0

  projected-Agrees :
      (c r : Key) (events : List (Event (Payload L F))) (s : Sink N) (v : Vehicle L F)
      → All (λ e. IsOwn c e) events
      → Agrees c r s v
      → Agrees c r (project_members events s) (replay vehicle_class events v)
  unfolding project_members replay vehicle_class project_room_membership
  projected-Agrees c r [] s v own a = a
  projected-Agrees c r (e ∷ events) s v (own, more) a = rw own.1 (
      projected-Agrees c r events (project_room_membership e e.payload s)
        (mutate_vehicle e.payload e.timestamp v) more
        (step-Agrees c r e e.payload s v own.0 own.2 a))

-- The read model of members is the vehicles' own view: after the events of one vehicle, none of which
-- resumes a session, the vehicle is listed among the members of a room exactly if the aggregate that is
-- rebuilt from those events is in that room.
pub get_room_members-replay :
    {L F : Type 0} (N : Type 0) (c r : Key) (events : List (Event (Payload L F)))
    → All (λ e. IsOwn c e) events
    → KeySet.mem c (get_room_members r (project_members {N = N} events new_sink))
      ≡ KeySet.mem r (replay vehicle_class events new_vehicle).rooms
unfolding get_room_members
get_room_members-replay N c r events own =
    mem-keys c (or_default (Map.get r (project_members {N = N} events new_sink).room_members) [])
    ∙ projected-Agrees c r events (new_sink {N = N}) new_vehicle own
        (unfold Map.get KeySet.mem in refl)
