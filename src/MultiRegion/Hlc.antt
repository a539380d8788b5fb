-- ===== src/MultiRegion/Hlc.antt =====
-- The hybrid logical clock, class `HLC` of src/multi-region.js. A reading of `Date.now()` is the
-- argument `wall`.
use real_time_spatial_tracki.Base.{
  ℕ, ◌+◌, ◌≤◌, ◌<◌, ◌≡◌, ◌⊎◌, ◌↔◌, ◌&&◌, arith, ltb, ◌==◌, if◌then◌else◌, max, List, [], ◌∷◌, All,
}
use real_time_spatial_tracki.Base.Order.{Order, less, same, more, compare_ℕ, IsTotal}

-- A timestamp, and the state of a clock: `l` is in milliseconds, `c` counts within one.
pub record Stamp : Type 0 where
  pub l : ℕ
  pub c : ℕ

-- `now()`: the new state, which is also the timestamp issued.
unfoldable pub now : ℕ → Stamp → Stamp
now wall s = if ltb s.l wall then record { l = wall; c = 0 } else record { l = s.l; c = s.c + 1 }

unfoldable pub receive : ℕ → Stamp → Stamp → Stamp
receive wall remote s =
    if ltb s.l remote.l && ltb wall remote.l
    then record { l = remote.l; c = remote.c + 1 }
    else if ltb s.l wall
    then record { l = wall; c = 0 }
    else if ltb remote.l s.l
    then record { l = s.l; c = s.c + 1 }
    else record { l = s.l; c = max s.c remote.c + 1 }

-- `HLC.compare(a, b)`, by the sign of its result.
unfoldable pub compare : Stamp → Stamp → Order
compare a b = if a.l == b.l then compare_ℕ a.c b.c else compare_ℕ a.l b.l

-- The strict order of timestamps that `compare` decides.
abbrev pub Before : Stamp → Stamp → Type 0
Before a b = (a.l < b.l) ⊎ ((a.l ≡ b.l) × (a.c < b.c))

-- `compare` is a total order: its result says which of the three cases holds, it is 0 for equal
-- timestamps alone, and it changes sign when its arguments are swapped.
pub compare_cases :
    (a b : Stamp)
    → ((compare a b ≡ less) × Before a b × (compare b a ≡ more))
      ⊎ ((compare a b ≡ same) × (a ≡ b) × (compare b a ≡ same))
      ⊎ ((compare a b ≡ more) × Before b a × (compare b a ≡ less))
unfolding compare
compare_cases a b = ground arith

Before-trans : (a b c : Stamp) → Before a b → Before b c → Before a c
Before-trans a b c p q = grind arith

-- A fresh local timestamp is after the last one, and not behind the wall clock.
pub now_after : (wall : ℕ) (s : Stamp) → Before s (now wall s) × (wall ≤ (now wall s).l)
unfolding now
now_after wall s = ground arith

-- Receiving a timestamp moves the local clock strictly forward, to the greatest of the local, the
-- remote and the physical milliseconds.
pub receive_after :
    (wall : ℕ) (remote s : Stamp)
    → Before s (receive wall remote s) × ((receive wall remote s).l ≡ max s.l (max remote.l wall))
unfolding receive
receive_after wall remote s = ground arith

-- The new reading is strictly after the remote timestamp exactly when it is not the case that the
-- physical clock is ahead of the local one and ties the remote milliseconds.
pub receive_after_remote :
    (wall : ℕ) (remote s : Stamp)
    → Before remote (receive wall remote s) ↔ (¬ ((s.l < wall) × (remote.l ≡ wall)))
unfolding receive
receive_after_remote wall remote s = (ground arith, ground arith)

-- What a region's clock meets: a local event, or a timestamp from a peer.
pub data Event : Type 0 where
  local : ℕ → Event
  remote : ℕ → Stamp → Event

unfoldable pub step : Event → Stamp → Stamp
step (local wall) s = now wall s
step (remote wall r) s = receive wall r s

-- The timestamps that a clock issues in a series of events.
unfoldable pub issued : List Event → Stamp → List Stamp
issued [] s = []
issued (e ∷ es) s = step e s ∷ issued es (step e s)

abbrev pub Increasing : List Stamp → Type 0
Increasing [] = Unit {0}
Increasing (t ∷ ts) = All (Before t) ts × Increasing ts

step_after : (e : Event) (s : Stamp) → Before s (step e s)
unfolding step
step_after (local wall) s = (now_after wall s).0
step_after (remote wall r) s = (receive_after wall r s).0

issued_after : (es : List Event) (a s : Stamp) → Before a s → All (Before a) (issued es s)
unfolding issued
issued_after [] a s h = tt
issued_after (e ∷ es) a s h =
    let later : Before a (step e s) = Before-trans a s (step e s) h (step_after e s) in
    (later, issued_after es a (step e s) later)

issued_first : (es : List Event) (s : Stamp) → All (Before s) (issued es s)
unfolding issued
issued_first [] s = tt
issued_first (e ∷ es) s = (step_after e s, issued_after es s (step e s) (step_after e s))

-- Whatever the wall clock reads and whatever the peers send, each timestamp that a clock issues is
-- strictly after all that it issued before.
pub issued-Increasing : (es : List Event) (s : Stamp) → Increasing (issued es s)
unfolding issued
issued-Increasing [] s = tt
issued-Increasing (e ∷ es) s = (issued_first es (step e s), issued-Increasing es (step e s))

pub compare-IsTotal : IsTotal compare
unfolding compare
compare-IsTotal = record {
  self = λ a. ground arith;
  same_eq = λ a b h. ground arith;
  swap = λ a b. ground arith;
  trans = λ a b c h k. ground arith;
}
