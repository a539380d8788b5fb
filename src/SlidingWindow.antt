-- ===== src/SlidingWindow.antt =====
-- The sliding window that src/rate-limiter.js and src/conn-rate-limiter.js share: a map from a
-- client (or an address) to the times of its admitted events. The length of the window and the
-- limit are arguments, and so is the clock's reading `now`.
pub mod Lists
pub mod Refinement
pub mod Bound
mod Tests
use real_time_spatial_tracki.Base.{
  ℕ, ◌+◌, Bool, true, false, List, [], ◌∷◌, ◌++◌, Option, none, some, arith, ltb, leb, length,
  filter, if◌then◌else◌, or_default, Key, not,
}
use real_time_spatial_tracki.Base.Map
use real_time_spatial_tracki.Base.Map.{Map}

-- `t > cutoff`, where `cutoff = now - window`.
abbrev pub fresh : ℕ → ℕ → ℕ → Bool
fresh window now t = ltb now (t + window)

-- The timestamps are filtered only if the first of them has left the window.
unfoldable pub evict : ℕ → ℕ → List ℕ → List ℕ
evict window now [] = []
evict window now (t ∷ ts) =
    if leb (t + window) now then filter (fresh window now) (t ∷ ts) else t ∷ ts

abbrev pub Windows : Type 0
Windows = Map (List ℕ)

abbrev pub timestamps : Key → Windows → List ℕ
timestamps id ws = or_default (Map.get id ws) []

unfoldable pub check : ℕ → ℕ → ℕ → Key → Windows → Windows × Bool
unfolding evict
check limit window now id ws =
    let kept = evict window now (timestamps id ws) in
    if ltb (length kept) limit
    then (Map.set id (kept ++ now ∷ []) ws, true)
    else (Map.set id kept ws, false)

unfoldable pub remove : Key → Windows → Windows
remove id ws = Map.delete id ws

unfoldable pub cleanup : ℕ → ℕ → Windows → Windows
cleanup window now [] = []
cleanup window now ((id, ts) ∷ ws) =
    let rest = cleanup window now ws in
    let kept = filter (fresh window now) ts in
    elim kept [ [] ↦ rest | t ∷ more ↦ (id, t ∷ more) ∷ rest ]
