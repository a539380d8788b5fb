-- ===== src/MultiRegion/Coordinator/Quorum/Majority.antt =====
-- Quorums are majorities.
use real_time_spatial_tracki.Base.{
  ℕ, ◌+◌, ◌≤◌, ◌<◌, ◌≡◌, refl, sym, ap, ◌∙◌, subst, Bool, true, false, not, ◌&&◌, List, [], ◌∷◌,
  ◌++◌, Option, none, some, Key, key_dec, key_ite_self, ite, arith, Bool-cases, inl, inr,
  if◌then◌else◌, filter, length,
}
use real_time_spatial_tracki.Base.KeySet
use real_time_spatial_tracki.MultiRegion.Hlc.{Stamp}
use real_time_spatial_tracki.MultiRegion.Coordinator.{Change, Op, Region, op_of, residency_global}
use real_time_spatial_tracki.MultiRegion.Coordinator.Quorum.{
  Answer, ack, no_ack, thrown, acks_of, quorum_size, send_all, quorum_replicate,
}

abbrev is_ack : Answer → Bool
is_ack ack = true
is_ack no_ack = false
is_ack thrown = false

acks_of-is_ack : (a : Answer) → acks_of a ≡ (if is_ack a then 1 else 0)
acks_of-is_ack ack = refl
acks_of-is_ack no_ack = refl
acks_of-is_ack thrown = refl

left_true : (a b : Bool) → a && b ≡ true → a ≡ true
left_true a b h = ground (arith, h)

right_true : (a b : Bool) → a && b ≡ true → b ≡ true
right_true a b h = ground (arith, h)

-- Lists of distinct keys, with_count.
module _ (p : Key → Bool) (id : Key) where
  abbrev or_self : Key → Bool
  or_self x = ite (key_dec x id) true (p x)

  count_without :
      (xs : List Key)
      → KeySet.mem id xs ≡ false
      → length (filter or_self xs) ≡ length (filter p (KeySet.delete id xs))
  unfolding KeySet.mem KeySet.delete
  count_without [] h = refl
  count_without (x ∷ xs) h = ground (arith, h, count_without xs)

  count_with :
      (xs : List Key)
      → KeySet.Unique xs
      → KeySet.mem id xs ≡ true
      → length (filter or_self xs) ≡ 1 + length (filter p (KeySet.delete id xs))
  unfolding KeySet.mem KeySet.delete
  count_with [] u h = absurd (ground (arith, h))
  count_with (x ∷ xs) u h = elim (key_dec x id) [
    | yes e ↦ ground (arith, e, count_without xs (subst (λ k. KeySet.mem k xs ≡ false) e u.0))
    | no e ↦ ground (arith, e, h, count_with xs u.1)
  ]

length-delete_absent :
    (id : Key) (xs : List Key) → KeySet.mem id xs ≡ false → length (KeySet.delete id xs) ≡ length xs
unfolding KeySet.mem KeySet.delete
length-delete_absent id [] h = refl
length-delete_absent id (x ∷ xs) h = ground (arith, h, length-delete_absent id xs)

pub length-delete :
    (id : Key) (xs : List Key)
    → KeySet.Unique xs
    → KeySet.mem id xs ≡ true
    → 1 + length (KeySet.delete id xs) ≡ length xs
unfolding KeySet.mem KeySet.delete
length-delete id [] u h = absurd (ground (arith, h))
length-delete id (x ∷ xs) u h = elim (key_dec x id) [
  | yes e ↦
      ground (arith, e, length-delete_absent id xs (subst (λ k. KeySet.mem k xs ≡ false) e u.0))
  | no e ↦ ground (arith, e, h, length-delete id xs u.1)
]

pigeonhole :
    (p q : Key → Bool) (xs : List Key)
    → length (filter p xs) + length (filter q xs) ≤ length xs + length (filter (λ x. p x && q x) xs)
pigeonhole p q [] = omega arith
pigeonhole p q (x ∷ xs) = ground (arith, pigeonhole p q xs)

found :
    (p : Key → Bool) (xs : List Key)
    → 0 < length (filter p xs)
    → (x : Key) × (KeySet.mem x xs ≡ true) × (p x ≡ true)
unfolding KeySet.mem
found p [] h = absurd (omega (arith, h))
found p (x ∷ xs) h = elim (Bool-cases (p x)) [
  | inl e ↦ (x, key_ite_self true (KeySet.mem x xs) x, e)
  | inr e ↦ let (y, m, py) = found p xs (rw e at h) in (y, ground (arith, m), py)
]

module _ {V : Type 0} (transport : Key → Op V → Answer) where
  -- The peers that acknowledge.
  abbrev pub acked : Op V → Region V → List Key → List Key
  acked op c peers =
      filter
        (λ peer.
          not (KeySet.mem peer c.failed_regions) && (c.has_transport && is_ack (transport peer op)))
        peers

  acks-send_all :
      (op : Op V) (peers : List Key) (c d : Region V)
      → d.failed_regions ≡ c.failed_regions
      → d.has_transport ≡ c.has_transport
      → (send_all transport op peers d).1 ≡ length (acked op c peers)
  unfolding send_all
  acks-send_all op [] c d f t = refl
  acks-send_all op (peer ∷ peers) c d f t = ground (
    arith,
    ap (KeySet.mem peer) f,
    t,
    acks_of-is_ack (transport peer op),
    acks-send_all op peers c d f t,
    acks-send_all op peers c (record d { outbox = d.outbox ++ (peer, op) ∷ [] }) f t,
  )

module _ {V : Type 0} where
  -- The region has taken the write: it is the writer, or it acknowledged the operation.
  abbrev pub has_taken : (Key → Op V → Answer) → Op V → Region V → Key → Bool
  has_taken transport op c x =
      ite (key_dec x c.region_id) true
        (not (KeySet.mem x c.failed_regions) && (c.has_transport && is_ack (transport x op)))

  -- A coordinator of one of these regions whose peers are the others, with the computed quorum.
  pub record IsMember (all : List Key) (c : Region V) : Type 0 where
    pub own : KeySet.mem c.region_id all ≡ true
    pub others : c.peer_regions ≡ KeySet.delete c.region_id all
    pub computed : c.config.quorum_size ≡ none

  module _ (all : List Key) (u : KeySet.Unique all) where
    taken_count :
        (transport : Key → Op V → Answer) (op : Op V) (c d : Region V)
        → IsMember all c
        → d.failed_regions ≡ c.failed_regions
        → d.has_transport ≡ c.has_transport
        → 1 + (send_all transport op c.peer_regions d).1
          ≡ length (filter (has_taken transport op c) all)
    taken_count transport op c d m f t =
        ap (λ n. 1 + n)
          (acks-send_all transport op c.peer_regions c d f t
            ∙ ap (λ xs. length (acked transport op c xs)) m.others)
        ∙ sym (
            count_with
              (λ x.
                not (KeySet.mem x c.failed_regions) && (c.has_transport && is_ack (transport x op)))
              c.region_id all u m.own)

    quorum_half : (c : Region V) → IsMember all c → length all < quorum_size c + quorum_size c
    unfolding quorum_size
    quorum_half c m =
        ground (arith, m.computed, ap length m.others, length-delete c.region_id all u m.own)

    abbrev took : (Key → Op V → Answer) → ℕ → Change V → Option Stamp → Region V → Key → Bool
    took transport wall change hlc c =
        has_taken transport (op_of wall change hlc (some residency_global) c) c

    -- The region once the write has been with_count.
    abbrev with_count : Region V → Region V
    with_count c = record c {
      metrics = record c.metrics { quorum_writes_total = c.metrics.quorum_writes_total + 1 };
    }

    committed-acks :
        (transport : Key → Op V → Answer) (wall : ℕ) (change : Change V) (hlc : Option Stamp)
        (c : Region V)
        → (quorum_replicate transport wall change hlc c).1.committed ≡ true
        → quorum_size c
          ≤ 1
            + (send_all transport
                (op_of wall change hlc (some residency_global) c)
                c.peer_regions
                (with_count c)).1
    unfolding quorum_replicate quorum_size
    committed-acks transport wall change hlc c h = ground (arith, h)

    committed-count :
        (transport : Key → Op V → Answer) (wall : ℕ) (change : Change V) (hlc : Option Stamp)
        (c : Region V)
        → IsMember all c
        → (quorum_replicate transport wall change hlc c).1.committed ≡ true
        → quorum_size c ≤ length (filter (took transport wall change hlc c) all)
    committed-count transport wall change hlc c m h =
        subst (λ n. quorum_size c ≤ n)
          (taken_count transport (op_of wall change hlc (some residency_global) c) c (with_count c)
            m refl refl)
          (committed-acks transport wall change hlc c h)

    -- Two committed writes share a region: if two regions of one set, whose peers are the others and whose
    -- quorum is the computed one, each commit a quorum write, then some region has taken both, whatever
    -- regions the two hold for failed and whoever did not answer.
    pub committed_overlap :
        (transport other : Key → Op V → Answer) (wall later : ℕ) (change next : Change V)
        (hlc stamp : Option Stamp) (c d : Region V)
        → IsMember all c
        → IsMember all d
        → (quorum_replicate transport wall change hlc c).1.committed ≡ true
        → (quorum_replicate other later next stamp d).1.committed ≡ true
        → (x : Key) × (KeySet.mem x all ≡ true)
          × (has_taken transport (op_of wall change hlc (some residency_global) c) c x ≡ true)
          × (has_taken other (op_of later next stamp (some residency_global) d) d x ≡ true)
    committed_overlap transport other wall later change next hlc stamp c d m k h g =
        let p = took transport wall change hlc c in
        let q = took other later next stamp d in
        let (x, inside, both) =
          found (λ x. p x && q x) all
            (omega (
              arith,
              pigeonhole p q all,
              quorum_half c m,
              quorum_half d k,
              committed-count transport wall change hlc c m h,
              committed-count other later next stamp d k g,
            )) in
        (x, inside, left_true (p x) (q x) both, right_true (p x) (q x) both)
