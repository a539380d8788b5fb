-- ===== src/SlidingWindow/Tests.antt =====
-- The limiters' theorems at concrete inputs, and runs of the definitions.
use real_time_spatial_tracki.Base.{
  ◌≤◌, ◌≡◌, refl, true, false, List, [], ◌∷◌, Key, key, key_dec, arith, length, filter,
}
use real_time_spatial_tracki.Base.Map
use real_time_spatial_tracki.SlidingWindow
use real_time_spatial_tracki.SlidingWindow.{timestamps}
use real_time_spatial_tracki.SlidingWindow.Refinement.{
  Call, checks, removes, cleans, answers, answers_spec, answers_lem,
}
use real_time_spatial_tracki.SlidingWindow.Bound.{admitted, within, admitted_bound}

abbrev alice : Key
alice = key "alice"

abbrev bob : Key
bob = key "bob"

abbrev calls : List Call
calls =
    checks alice 5000
    ∷ checks alice 5200
    ∷ checks bob 5300
    ∷ checks alice 5400
    ∷ cleans 5500
    ∷ checks alice 6100
    ∷ removes bob
    ∷ checks alice 6150
    ∷ []

-- Two messages a second: the third is refused, and the window slides.
answers_run : answers 2 1000 calls [] ≡ true ∷ true ∷ true ∷ false ∷ true ∷ false ∷ []
unfolding answers SlidingWindow.check SlidingWindow.remove SlidingWindow.cleanup Map.get Map.set
    Map.delete key_dec
answers_run = refl

answers_lem_example : answers 2 1000 calls [] ≡ answers_spec 2 1000 calls []
answers_lem_example = answers_lem 2 1000 calls (omega arith)

admitted_bound_example : length (filter (within 1000 5100) (admitted 2 1000 alice calls [] [])) ≤ 2
admitted_bound_example = admitted_bound 2 1000 alice calls (omega arith) 5100
