-- ===== src/MultiRegion/Coordinator/Replication.antt =====
-- What `replicate` hands to the transport: data residency.
use real_time_spatial_tracki.Base.{
  ℕ, ◌≡◌, refl, sym, ap, ◌∙◌, Bool, true, not, ◌&&◌, List, [], ◌∷◌, ◌++◌, map, Option, none, some,
  Key, arith, Bool-cases, inl, inr, if◌then◌else◌, or_default, filter,
}
use mathlib.Core.List.{append_assoc, append-nil}
use real_time_spatial_tracki.Base.Map
use real_time_spatial_tracki.Base.KeySet
use real_time_spatial_tracki.MultiRegion.Hlc.{Stamp}
use real_time_spatial_tracki.MultiRegion.Coordinator.{
  Change, Config, Op, Region, can_replicate_to, op_of, offer, fan_out, replicate, residency_global,
}

filter_agree {ℓ} :
    {A : Type ℓ} (p q : A → Bool)
    → ((x : A) → p x ≡ q x)
    → (xs : List A) → filter p xs ≡ filter q xs
filter_agree p q h [] = refl
filter_agree p q h (x ∷ xs) = ground (arith, h x, filter_agree p q h xs)

module _ {V : Type 0} where
  -- The peer is not marked as failed, and the policy of the zone lets it have the data.
  abbrev pub is_eligible : Key → Region V → Key → Bool
  is_eligible zone c peer = not (KeySet.mem peer c.failed_regions) && can_replicate_to peer zone c

  abbrev pub sends : Op V → List Key → List (Key × Op V)
  sends op peers = map (λ peer. (peer, op)) peers

  -- What `offer` leaves as it is.
  record SameSettings (c d : Region V) : Type 0 where
    failed : d.failed_regions ≡ c.failed_regions
    config : d.config ≡ c.config

  offer-SameSettings : (op : Op V) (peer : Key) (c : Region V) → SameSettings c (offer op peer c)
  unfolding offer
  offer-SameSettings op peer c = elim (Bool-cases (KeySet.mem peer c.failed_regions)) [
    | inl f ↦ rw f (record { failed = refl; config = refl })
    | inr f ↦
        elim (Bool-cases (can_replicate_to peer (or_default op.residency residency_global) c)) [
          | inl p ↦ rw (f, p) (record { failed = refl; config = refl })
          | inr p ↦ rw (f, p) (record { failed = refl; config = refl })
        ]
  ]

  outbox-offer :
      (op : Op V) (peer : Key) (c : Region V)
      → (offer op peer c).outbox
        ≡ c.outbox
          ++ (if is_eligible (or_default op.residency residency_global) c peer
              then (peer, op) ∷ []
              else [])
  unfolding offer
  outbox-offer op peer c = elim (Bool-cases (KeySet.mem peer c.failed_regions)) [
    | inl f ↦ rw f (sym (append-nil c.outbox))
    | inr f ↦
        elim (Bool-cases (can_replicate_to peer (or_default op.residency residency_global) c)) [
          | inl p ↦ rw (f, p) refl
          | inr p ↦ rw (f, p) (sym (append-nil c.outbox))
        ]
  ]

  is_eligible-SameSettings :
      (zone : Key) (c d : Region V) (peer : Key)
      → SameSettings c d
      → is_eligible zone d peer ≡ is_eligible zone c peer
  unfolding can_replicate_to
  is_eligible-SameSettings zone c d peer s =
      let policy_allows : Config → Bool = λ config.
        elim (Map.get zone config.data_residency) as (λ _. Bool) [
          | none ↦ true
          | some policy ↦ KeySet.mem peer policy
        ] in
      ap (λ failed. not (KeySet.mem peer failed) && policy_allows d.config) s.failed
      ∙ ap (λ config. not (KeySet.mem peer c.failed_regions) && policy_allows config) s.config

  sends_one :
      (op : Op V) (peer : Key) (b : Bool) (xs : List Key)
      → (if b then (peer, op) ∷ [] else []) ++ sends op xs ≡ sends op (if b then peer ∷ xs else xs)
  sends_one op peer b xs = elim (Bool-cases b) [ inl h ↦ rw h refl | inr h ↦ rw h refl ]

  outbox-fan_out :
      (op : Op V) (peers : List Key) (c : Region V)
      → (fan_out op peers c).outbox
        ≡ c.outbox
          ++ sends op (filter (is_eligible (or_default op.residency residency_global) c) peers)
  unfolding fan_out
  outbox-fan_out op [] c = sym (append-nil c.outbox)
  outbox-fan_out op (peer ∷ peers) c =
      let zone = or_default op.residency residency_global in
      let next = offer op peer c in
      let s = offer-SameSettings op peer c in
      outbox-fan_out op peers next
      ∙ ap (λ xs. next.outbox ++ sends op xs)
          (filter_agree (is_eligible zone next) (is_eligible zone c)
            (λ x. is_eligible-SameSettings zone c next x s) peers)
      ∙ ap (λ box. box ++ sends op (filter (is_eligible zone c) peers)) (outbox-offer op peer c)
      ∙ append_assoc c.outbox _ _
      ∙ ap (λ xs. c.outbox ++ xs)
          (sends_one op peer (is_eligible zone c peer) (filter (is_eligible zone c) peers))

  -- `replicate` hands the operation to exactly those peers, in their order, that are not marked as failed
  -- and that the policy of the operation's residency zone, "global" if it has none, lets have the data.
  pub outbox-replicate :
      (wall : ℕ) (change : Change V) (hlc : Option Stamp) (residency : Option Key) (c : Region V)
      → c.has_transport ≡ true
      → (replicate wall change hlc residency c).outbox
        ≡ c.outbox
          ++ map
              (λ peer. (peer, op_of wall change hlc residency c))
              (filter
                (λ peer.
                  not (KeySet.mem peer c.failed_regions)
                  && can_replicate_to peer (or_default residency residency_global) c)
                c.peer_regions)
  unfolding replicate
  outbox-replicate wall change hlc residency c h =
      simp h (outbox-fan_out (op_of wall change hlc residency c) c.peer_regions c)
