-- ===== src/ConnRateLimiter.antt =====
-- src/conn-rate-limiter.js: the limiter of connections per address, over a window of one minute.
use real_time_spatial_tracki.Base.{ℕ, ◌<◌, ◌≡◌, Bool, true, Key, arith, [], ◌∷◌}
use real_time_spatial_tracki.Base.Map
use real_time_spatial_tracki.SlidingWindow
use real_time_spatial_tracki.SlidingWindow.{Windows, timestamps}

abbrev pub window_ms : ℕ
window_ms = 60_000

unfoldable pub check : ℕ → ℕ → Key → Windows → Windows × Bool
check limit now ip ws = SlidingWindow.check limit window_ms now ip ws

unfoldable pub cleanup : Key → Windows → Windows
cleanup ip ws = SlidingWindow.remove ip ws

-- After its state is removed an address starts anew: with a limit that is not 0 its next connection
-- is admitted, and is the only one that is counted.
pub check-cleanup :
    (limit now : ℕ) (ip : Key) (ws : Windows)
    → 0 < limit
    → ((check limit now ip (cleanup ip ws)).1 ≡ true)
      × (timestamps ip (check limit now ip (cleanup ip ws)).0 ≡ now ∷ [])
unfolding check cleanup SlidingWindow.check SlidingWindow.remove
check-cleanup limit now ip ws h = (
  ground (arith, Map.get-delete_self ip ws),
  ground (arith, Map.get-delete_self ip ws, Map.get-set_self ip (now ∷ []) (Map.delete ip ws)),
)
