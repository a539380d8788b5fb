-- ===== src/EventSourcing/Projections/Reliable.antt =====
-- The four projections of src/event-sourcing.js take every event, never throw, and leave the marks alone.
use real_time_spatial_tracki.Base.{
  ℕ, ◌≡◌, refl, ◌∙◌, Bool, [], ◌∷◌, ◌++◌, Option, none, some, Key, key, arith, All, Bool-cases,
  Option-cases, inl, inr, if◌then◌else◌, leb,
}
use real_time_spatial_tracki.Base.Map
use real_time_spatial_tracki.Base.Map.{Map}
use real_time_spatial_tracki.EventSourcing.{Event}
use real_time_spatial_tracki.EventSourcing.Payload.{
  Payload, location_update, room_joined, room_left, geofence_updated, geofence_entered,
  geofence_exited, session_resumed, message_ack, message_nack, other,
}
use real_time_spatial_tracki.EventSourcing.Projections.{new_manager, register}
use real_time_spatial_tracki.EventSourcing.Projections.MemorySink.{
  Sink, add_room_member, remove_room_member, upsert_vehicle_state, add_geofence_violation,
  set_sequence, bump_room_sequence, sequence_of,
}
use real_time_spatial_tracki.EventSourcing.Projections.Builtin.{
  Reading, project_vehicle_state, project_room_membership, project_violation, project_sequence,
  sequenced_room, register_default_projections, is_newer, state_of, is_vehicle, bump,
}
use real_time_spatial_tracki.EventSourcing.Projections.Idempotence.{IsReliable}

-- Both have the same marks.
abbrev Keeps : {N : Type 0} → Sink N → Sink N → Type 0
Keeps s t = t.processed_events ≡ s.processed_events

if-Keeps :
    {N : Type 0} (b : Bool) (s t u : Sink N) → Keeps s t → Keeps s u → Keeps s (if b then t else u)
if-Keeps b s t u h k = elim (Bool-cases b) [ inl e ↦ rw e h | inr e ↦ rw e k ]

remove-Keeps :
    {N : Type 0} (r c : Key) (s : Sink N)
    → (remove_room_member r c s).processed_events ≡ s.processed_events
unfolding remove_room_member
remove-Keeps r c s = elim (Option-cases (Map.get r s.room_members)) [
  | inl e ↦ ground (arith, e)
  | inr (m, e) ↦ ground (arith, e)
]

sequenced-Keeps :
    {N : Type 0} (k : Key) (o : Option ℕ) (id : Key) (s : Sink N)
    → Keeps s (elim o as (λ _. Sink N) [ none ↦ s | some n ↦ set_sequence k n id s ])
unfolding set_sequence
sequenced-Keeps k none id s = refl
sequenced-Keeps k (some n) id s = if-Keeps (leb (sequence_of k s) n) s _ s refl refl

module _ {L F N : Type 0} where
  vehicle_state-Keeps :
      (rd : Reading L N) (e : Event (Payload L F)) (p : Payload L F) (s : Sink N)
      → Keeps s (project_vehicle_state rd e p s)
  unfolding project_vehicle_state upsert_vehicle_state
  vehicle_state-Keeps rd e (location_update fix) s =
      if-Keeps (is_newer (state_of e.aggregate_id s).location_updated_at e.timestamp) s s _ refl
        refl
  vehicle_state-Keeps rd e (room_joined c r) s = refl
  vehicle_state-Keeps rd e (room_left c r) s = refl
  vehicle_state-Keeps rd e (geofence_updated r fs) s = refl
  vehicle_state-Keeps rd e (geofence_entered f r l) s = refl
  vehicle_state-Keeps rd e (geofence_exited f r l) s = refl
  vehicle_state-Keeps rd e (session_resumed rs) s = refl
  vehicle_state-Keeps rd e (message_ack r n) s = refl
  vehicle_state-Keeps rd e (message_nack r n t) s = refl
  vehicle_state-Keeps rd e other s = refl

  membership-Keeps :
      (e : Event (Payload L F)) (p : Payload L F) (s : Sink N)
      → Keeps s (project_room_membership e p s)
  unfolding project_room_membership add_room_member
  membership-Keeps e (location_update fix) s = refl
  membership-Keeps e (room_joined c r) s = refl
  membership-Keeps e (room_left c r) s = remove-Keeps r e.aggregate_id s
  membership-Keeps e (geofence_updated r fs) s = refl
  membership-Keeps e (geofence_entered f r l) s = refl
  membership-Keeps e (geofence_exited f r l) s = refl
  membership-Keeps e (session_resumed rs) s = refl
  membership-Keeps e (message_ack r n) s = refl
  membership-Keeps e (message_nack r n t) s = refl
  membership-Keeps e other s = refl

  violation-Keeps :
      (e : Event (Payload L F)) (p : Payload L F) (s : Sink N) → Keeps s (project_violation e p s)
  unfolding project_violation add_geofence_violation
  violation-Keeps e (location_update fix) s = refl
  violation-Keeps e (room_joined c r) s = refl
  violation-Keeps e (room_left c r) s = refl
  violation-Keeps e (geofence_updated r fs) s = refl
  violation-Keeps e (geofence_entered f r l) s = refl
  violation-Keeps e (geofence_exited f r l) s = refl
  violation-Keeps e (session_resumed rs) s = refl
  violation-Keeps e (message_ack r n) s = refl
  violation-Keeps e (message_nack r n t) s = refl
  violation-Keeps e other s = refl

  bump-Keeps : (e : Event (Payload L F)) (o : Option Key) (s : Sink N) → Keeps s (bump e o s)
  unfolding bump_room_sequence
  bump-Keeps e none s = refl
  bump-Keeps e (some []) s = refl
  bump-Keeps e (some (c ∷ r)) s = if-Keeps (is_vehicle e.aggregate_type) s _ s refl refl

pub default-IsReliable :
    {L N : Type 0} (F : Type 0) (rd : Reading L N)
    → All
        (λ p. IsReliable p)
        (register_default_projections rd (new_manager {P = Payload L F})).projections
unfolding register_default_projections register project_sequence
default-IsReliable F rd = (
  record {
    all_types = refl;
    succeeds = λ e s. refl;
    keeps_marks = λ e s.
        if-Keeps (is_vehicle e.aggregate_type) s _ s (vehicle_state-Keeps rd e e.payload s) refl;
  },
  (
    record {
      all_types = refl;
      succeeds = λ e s. refl;
      keeps_marks =
          λ e s. if-Keeps (is_vehicle e.aggregate_type) s _ s (membership-Keeps e e.payload s) refl;
    },
    (
      record {
        all_types = refl;
        succeeds = λ e s. refl;
        keeps_marks = λ e s. violation-Keeps e e.payload s;
      },
      (
        record {
          all_types = refl;
          succeeds = λ e s. refl;
          keeps_marks = λ e s.
              bump-Keeps e (sequenced_room rd e.payload) _
              ∙ sequenced-Keeps (key "aggregate:" ++ e.aggregate_id) e.sequence e.event_id s;
        },
        tt,
      ),
    ),
  ),
)
