-- ===== src/RateLimiter.antt =====
-- src/rate-limiter.js: the limiter of messages per client, over a window of one second. Its state
-- is the map `windows`; the limit and the clock's reading are arguments.
use real_time_spatial_tracki.Base.{ℕ, Bool, Key, length}
use real_time_spatial_tracki.SlidingWindow
use real_time_spatial_tracki.SlidingWindow.{Windows}

abbrev pub window_ms : ℕ
window_ms = 1000

unfoldable pub check : ℕ → ℕ → Key → Windows → Windows × Bool
check limit now client_id ws = SlidingWindow.check limit window_ms now client_id ws

unfoldable pub remove : Key → Windows → Windows
remove client_id ws = SlidingWindow.remove client_id ws

unfoldable pub cleanup : ℕ → Windows → Windows
cleanup now ws = SlidingWindow.cleanup window_ms now ws

-- The number of clients that are tracked.
unfoldable pub size : Windows → ℕ
size ws = length ws
