-- ===== src/Rooms/Backpressure/Coalescing.antt =====
-- The messages that are kept for slow clients, and how a room is drained of them.
use real_time_spatial_tracki.Base.{
  ℕ, ◌≡◌, Bool, true, [], ◌∷◌, Option, none, some, Key, key_dec, arith, ite, inl, inr, Option-cases,
}
use real_time_spatial_tracki.Base.Map
use real_time_spatial_tracki.Base.Map.{Map}
use real_time_spatial_tracki.Rooms.{Manager}
use real_time_spatial_tracki.Rooms.Delivery.{Platform}
use real_time_spatial_tracki.Rooms.Backpressure.{coalesce, drain}

module _ {W P : Type 0} where
  -- The message that is kept for a client.
  abbrev pub coalesced_of : Key → Manager W P → Option P
  coalesced_of c m = elim (Map.get c m.client_state) [
    | none ↦ none
    | some state ↦ state.coalesced_message
  ]

  coalesced_of-coalesce :
      (d c : Key) (m : Manager W P)
      → coalesced_of d (coalesce c none m) ≡ ite (key_dec c d) none (coalesced_of d m)
  unfolding coalesce
  coalesced_of-coalesce d c m = elim (Option-cases (Map.get c m.client_state)) [
    | inl e ↦ ground arith
    | inr (state, e) ↦
        ground (arith, Map.get-set d c (record state { coalesced_message = none }) m.client_state)
  ]

module _ {W P : Type 0} (js : Platform P) (is_open : W → Bool) (buffered : W → ℕ) where
  drain-none :
      (c : Key) (members : Map W) (m : Manager W P)
      → coalesced_of c m ≡ none
      → coalesced_of c (drain js is_open buffered members m).0 ≡ none
  unfolding drain
  drain-none c [] m h = h
  drain-none c ((d, ws) ∷ members) m h = ground (
    arith,
    drain-none c members m,
    drain-none c members (coalesce d none m),
    coalesced_of-coalesce c d m,
  )

  -- After a drain nothing is kept for a member whose socket is open.
  pub drain-coalesced_of :
      (c : Key) (ws : W) (members : Map W) (m : Manager W P)
      → Map.get c members ≡ some ws
      → is_open ws ≡ true
      → coalesced_of c (drain js is_open buffered members m).0 ≡ none
  unfolding drain Map.get
  drain-coalesced_of c ws [] m e h = absurd (ground arith)
  drain-coalesced_of c ws ((d, v) ∷ members) m e h = ground (
    arith,
    drain-coalesced_of c ws members m,
    drain-coalesced_of c ws members (coalesce d none m),
    drain-none c members (coalesce d none m),
    coalesced_of-coalesce c d m,
  )
