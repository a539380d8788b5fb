-- ===== src/SlidingWindow/Lists.antt =====
-- Timestamps in ascending order, and what filtering them by a window does.
use real_time_spatial_tracki.Base.{
  ℕ, ◌+◌, ◌≤◌, ◌<◌, ◌≡◌, refl, sym, Bool, List, [], ◌∷◌, ◌++◌, arith, leb, filter, All, Bool-cases,
  inl, inr, All-append, All-mono,
}
use real_time_spatial_tracki.SlidingWindow.{fresh, evict}

abbrev pub Ascending : List ℕ → Type 0
Ascending [] = Unit {0}
Ascending (t ∷ ts) = All (λ u. t ≤ u) ts × Ascending ts

-- A list whose items are all fresh is kept whole.
filter-All :
    (window now : ℕ) (ts : List ℕ)
    → All (λ t. now < t + window) ts
    → filter (fresh window now) ts ≡ ts
filter-All window now [] h = refl
filter-All window now (t ∷ ts) h = ground (arith, filter-All window now ts h.1, h.0)

-- On ascending timestamps the lazy eviction is the filter.
pub evict-filter :
    (window now : ℕ) (ts : List ℕ)
    → Ascending ts
    → evict window now ts ≡ filter (fresh window now) ts
unfolding evict
evict-filter window now [] h = refl
evict-filter window now (t ∷ ts) h = elim (Bool-cases (leb (t + window) now)) [
  | inl e ↦ rw e
  | inr e ↦
      rw e (
        sym (filter-All window now (t ∷ ts) (ground arith, All-mono (λ u le. ground arith) ts h.0)))
]

-- A later window selects from what an earlier one kept.
pub filter-filter :
    (window now later : ℕ) (ts : List ℕ)
    → now ≤ later
    → filter (fresh window later) (filter (fresh window now) ts) ≡ filter (fresh window later) ts
filter-filter window now later [] h = refl
filter-filter window now later (t ∷ ts) h = ground (arith, filter-filter window now later ts h)

pub All-filter : (P : ℕ → Type 0) (p : ℕ → Bool) (ts : List ℕ) → All P ts → All P (filter p ts)
All-filter P p [] h = tt
All-filter P p (t ∷ ts) h = elim (Bool-cases (p t)) [
  | inl e ↦ rw e (h.0, All-filter P p ts h.1)
  | inr e ↦ rw e (All-filter P p ts h.1)
]

pub filter-Ascending : (p : ℕ → Bool) (ts : List ℕ) → Ascending ts → Ascending (filter p ts)
filter-Ascending p [] h = tt
filter-Ascending p (t ∷ ts) h = elim (Bool-cases (p t)) [
  | inl e ↦ rw e (All-filter (λ u. t ≤ u) p ts h.0, filter-Ascending p ts h.1)
  | inr e ↦ rw e (filter-Ascending p ts h.1)
]

pub append-Ascending :
    (ts : List ℕ) (now : ℕ) → Ascending ts → All (λ t. t ≤ now) ts → Ascending (ts ++ now ∷ [])
append-Ascending [] now h k = (tt, tt)
append-Ascending (t ∷ ts) now h k =
    (All-append (λ u. t ≤ u) ts (now ∷ []) h.0 (k.0, tt), append-Ascending ts now h.1 k.1)
