-- ===== src/MultiRegion/VectorClock.antt =====
-- Vector clocks of src/multi-region.js: maps from a region to a counter, where a region that is
-- absent counts 0.
use real_time_spatial_tracki.Base.{
  ℕ, ◌+◌, ◌≤◌, ◌<◌, ◌≡◌, refl, sym, subst, ◌⊎◌, inl, inr, Bool, true, false, ◌||◌, List, [], ◌∷◌,
  arith, ltb, if◌then◌else◌, max, or_default, Key, key_dec, All, Bool-cases, ltb→lt, ltb_false→le,
  any, any_witness, any_none, ite, if_neg,
}
use real_time_spatial_tracki.Base.Map
use real_time_spatial_tracki.Base.Map.{Map, Distinct}
use real_time_spatial_tracki.Base.KeySet

abbrev pub VectorClock : Type 0
VectorClock = Map ℕ

-- `clock[region] ?? 0`.
abbrev pub at : Key → VectorClock → ℕ
at region clock = or_default (Map.get region clock) 0

unfoldable pub vc_increment : VectorClock → Key → VectorClock
vc_increment clock region = Map.set region (at region clock + 1) clock

unfoldable pub vc_merge : VectorClock → VectorClock → VectorClock
vc_merge out [] = out
vc_merge out ((region, counter) ∷ b) = vc_merge (Map.set region (max (at region out) counter) out) b

pub data VcOrder : Type 0 where
  equal before after concurrent : VcOrder

-- The loop of `vcCompare` over the regions, with its two flags.
unfoldable pub scan : VectorClock → VectorClock → List Key → Bool → Bool → Bool × Bool
scan a b [] a_greater b_greater = (a_greater, b_greater)
scan a b (region ∷ rs) a_greater b_greater =
    let a_more = ltb (at region b) (at region a) in
    scan a b rs (if a_more then true else a_greater)
      (if a_more then b_greater else if ltb (at region a) (at region b) then true else b_greater)

unfoldable pub add_all : List Key → List Key → List Key
add_all [] s = s
add_all (k ∷ ks) s = add_all ks (KeySet.add k s)

-- `new Set([...Object.keys(a), ...Object.keys(b)])`.
unfoldable pub regions : VectorClock → VectorClock → List Key
unfolding add_all
regions a b = add_all (Map.keys b) (add_all (Map.keys a) [])

verdict : Bool × Bool → VcOrder
verdict (true, true) = concurrent
verdict (true, false) = after
verdict (false, true) = before
verdict (false, false) = equal

unfoldable pub vc_compare : VectorClock → VectorClock → VcOrder
unfolding verdict scan regions
vc_compare a b = verdict (scan a b (regions a b) false false)

-- The counter of a region after an increment and after a merge.
pub at-vc_increment :
    (region r : Key) (clock : VectorClock)
    → at r (vc_increment clock region) ≡ ite (key_dec region r) (at r clock + 1) (at r clock)
unfolding vc_increment
at-vc_increment region r clock = ground (arith, Map.get-set r region (at region clock + 1) clock)

-- A merge takes the greater of the two counters of every region.
pub at-vc_merge :
    (r : Key) (a b : VectorClock) → Distinct b → at r (vc_merge a b) ≡ max (at r a) (at r b)
unfolding vc_merge Map.get
at-vc_merge r a [] d = omega arith
at-vc_merge r a ((k, n) ∷ b) d = ground (
  arith,
  at-vc_merge r (Map.set k (max (at k a) n) a) b d.1,
  Map.get-set r k (max (at k a) n) a,
  d.0,
)

-- What each verdict says of the clocks.
abbrev pub Relates : VcOrder → VectorClock → VectorClock → Type 0
Relates equal a b = (r : Key) → at r a ≡ at r b
Relates before a b = ((r : Key) → at r a ≤ at r b) × ((r : Key) × (at r a < at r b))
Relates after a b = ((r : Key) → at r b ≤ at r a) × ((r : Key) × (at r b < at r a))
Relates concurrent a b = ((r : Key) × (at r a < at r b)) × ((r : Key) × (at r b < at r a))

abbrev exceeds : VectorClock → VectorClock → Key → Bool
exceeds a b r = ltb (at r b) (at r a)

-- A flag is up after the loop if it was, or if some region raised it.
scan_flags :
    (a b : VectorClock) (rs : List Key) (x y : Bool)
    → scan a b rs x y ≡ (x || any (exceeds a b) rs, y || any (exceeds b a) rs)
unfolding scan
scan_flags a b [] x y = ground arith
scan_flags a b (r ∷ rs) x y = ground (
  arith,
  scan_flags a b rs (if exceeds a b r then true else x)
      (if exceeds a b r then y else if exceeds b a r then true else y),
)

-- The loop visits every region that either clock counts.
mem-add_all :
    (r : Key) (ks s : List Key) → KeySet.mem r (add_all ks s) ≡ (KeySet.mem r ks || KeySet.mem r s)
unfolding add_all KeySet.mem
mem-add_all r [] s = refl
mem-add_all r (k ∷ ks) s = ground (arith, mem-add_all r ks (KeySet.add k s), KeySet.mem-add r k s)

mem-keys : (r : Key) (a : VectorClock) → KeySet.mem r (Map.keys a) ≡ Map.has r a
unfolding KeySet.mem Map.get
mem-keys r [] = refl
mem-keys r ((k, n) ∷ a) = ground (arith, mem-keys r a)

All-mem : (P : Key → Type 0) (s : List Key) (r : Key) → All P s → KeySet.mem r s ≡ true → P r
unfolding KeySet.mem
All-mem P [] r h m = cc
All-mem P (k ∷ s) r h m = elim (key_dec k r) [
  | yes p ↦ subst P p h.0
  | no p ↦ All-mem P s r h.1 (rw (if_neg (key_dec k r) p true (KeySet.mem r s)) at m)
]

mem-regions :
    (r : Key) (a b : VectorClock) → KeySet.mem r (regions a b) ≡ (Map.has r b || Map.has r a)
unfolding regions KeySet.mem
mem-regions r a b = ground (
  arith,
  mem-add_all r (Map.keys b) (add_all (Map.keys a) []),
  mem-add_all r (Map.keys a) [],
  mem-keys r a,
  mem-keys r b,
)

-- No visited region exceeds, so none does: one that neither clock counts is 0 in both.
bounded_everywhere :
    (a b c d : VectorClock) (r : Key)
    → All (λ r. exceeds a b r ≡ false) (regions c d)
    → KeySet.mem r (regions c d) ≡ (Map.has r b || Map.has r a)
    → at r a ≤ at r b
bounded_everywhere a b c d r all m = elim (Bool-cases (KeySet.mem r (regions c d))) [
  | inl e ↦
      ltb_false→le (at r b) (at r a) (All-mem (λ r. exceeds a b r ≡ false) (regions c d) r all e)
  | inr e ↦ ground arith
]

flag_cases :
    (a b c d : VectorClock)
    → ((r : Key) → KeySet.mem r (regions c d) ≡ (Map.has r b || Map.has r a))
    → ((any (exceeds a b) (regions c d) ≡ true) × ((r : Key) × (at r b < at r a)))
      ⊎ ((any (exceeds a b) (regions c d) ≡ false) × ((r : Key) → at r a ≤ at r b))
flag_cases a b c d m = elim (Bool-cases (any (exceeds a b) (regions c d))) [
  | inl e ↦
      let (r, h) = any_witness (exceeds a b) (regions c d) e in
      inl (e, (r, ltb→lt (at r b) (at r a) h))
  | inr e ↦
      inr (e, λ r. bounded_everywhere a b c d r (any_none (exceeds a b) (regions c d) e) (m r))
]

-- `vcCompare` gives the order of the clocks, as functions of the region that are 0 where a region is
-- absent: equal, below everywhere and somewhere strictly, above, or incomparable.
pub vc_compare_lem : (a b : VectorClock) → Relates (vc_compare a b) a b
unfolding vc_compare verdict
vc_compare_lem a b =
    rw (scan_flags a b (regions a b) false false)
      (elim (flag_cases a b a b (λ r. mem-regions r a b)) [
        | inl (e, more) ↦ elim (flag_cases b a a b (λ r. swapped r)) [
          | inl (e', less) ↦ rw (e, e') (less, more)
          | inr (e', le) ↦ rw (e, e') (le, more)
        ]
        | inr (e, le) ↦ elim (flag_cases b a a b (λ r. swapped r)) [
          | inl (e', less) ↦ rw (e, e') (le, less)
          | inr (e', ge) ↦ rw (e, e') (λ r. omega (arith, le r, ge r))
        ]
      ])
  where
    swapped : (r : Key) → KeySet.mem r (regions a b) ≡ (Map.has r a || Map.has r b)
    swapped r = ground (arith, mem-regions r a b)

-- The four relations exclude one another, so the verdict is the only one that holds.
pub Relates-unique : (o p : VcOrder) (a b : VectorClock) → Relates o a b → Relates p a b → o ≡ p
Relates-unique equal equal a b h k = refl
Relates-unique equal before a b h k = let (r, e) = k.1 in absurd (omega (arith, h r))
Relates-unique equal after a b h k = let (r, e) = k.1 in absurd (omega (arith, h r))
Relates-unique equal concurrent a b h k = let (r, e) = k.0 in absurd (omega (arith, h r))
Relates-unique before equal a b h k = let (r, e) = h.1 in absurd (omega (arith, k r))
Relates-unique before before a b h k = refl
Relates-unique before after a b h k = let (r, e) = h.1 in absurd (omega (arith, (k.0) r))
Relates-unique before concurrent a b h k = let (r, e) = k.1 in absurd (omega (arith, (h.0) r))
Relates-unique after equal a b h k = let (r, e) = h.1 in absurd (omega (arith, k r))
Relates-unique after before a b h k = let (r, e) = h.1 in absurd (omega (arith, (k.0) r))
Relates-unique after after a b h k = refl
Relates-unique after concurrent a b h k = let (r, e) = k.0 in absurd (omega (arith, (h.0) r))
Relates-unique concurrent equal a b h k = let (r, e) = h.0 in absurd (omega (arith, k r))
Relates-unique concurrent before a b h k = let (r, e) = h.1 in absurd (omega (arith, (k.0) r))
Relates-unique concurrent after a b h k = let (r, e) = h.0 in absurd (omega (arith, (k.0) r))
Relates-unique concurrent concurrent a b h k = refl

-- The verdict with the arguments swapped.
abbrev pub swap_order : VcOrder → VcOrder
swap_order equal = equal
swap_order before = after
swap_order after = before
swap_order concurrent = concurrent

Relates-swap : (o : VcOrder) (a b : VectorClock) → Relates o a b → Relates (swap_order o) b a
Relates-swap equal a b h = λ r. sym (h r)
Relates-swap before a b h = h
Relates-swap after a b h = h
Relates-swap concurrent a b h = (h.1, h.0)

pub vc_compare-swap : (a b : VectorClock) → vc_compare b a ≡ swap_order (vc_compare a b)
vc_compare-swap a b =
    Relates-unique (vc_compare b a) (swap_order (vc_compare a b)) b a (vc_compare_lem b a)
      (Relates-swap (vc_compare a b) a b (vc_compare_lem a b))

-- If the second clock names no region twice and a third clock is at least as great as both
-- everywhere, then the merge of the two is at least as great as each of them and nowhere greater
-- than the third.
pub vc_merge_least :
    (a b c : VectorClock)
    → Distinct b
    → ((r : Key) → at r a ≤ at r c)
    → ((r : Key) → at r b ≤ at r c)
    → ((r : Key) → at r a ≤ at r (vc_merge a b))
      × ((r : Key) → at r b ≤ at r (vc_merge a b))
      × ((r : Key) → at r (vc_merge a b) ≤ at r c)
vc_merge_least a b c d p q = (
  λ r. omega (arith, at-vc_merge r a b d),
  λ r. omega (arith, at-vc_merge r a b d),
  λ r. omega (arith, at-vc_merge r a b d, p r, q r),
)

-- An increment makes the clock causally later, by one at its own region alone.
pub vc_compare-vc_increment :
    (clock : VectorClock) (region : Key) → vc_compare clock (vc_increment clock region) ≡ before
vc_compare-vc_increment clock region =
    Relates-unique _ before clock (vc_increment clock region)
      (vc_compare_lem clock (vc_increment clock region))
      (
        λ r. ground (arith, at-vc_increment region r clock),
        (region, ground (arith, at-vc_increment region region clock)),
      )

pub vc_compare_self : (a : VectorClock) → vc_compare a a ≡ equal
vc_compare_self a = Relates-unique _ equal a a (vc_compare_lem a a) (λ r. refl)
