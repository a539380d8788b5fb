-- ===== src/SlidingWindow/Bound.antt =====
-- How many events a limiter admits in any window of its length.
use real_time_spatial_tracki.Base.{
  ℕ, ◌+◌, ◌≤◌, ◌≡◌, refl, sym, Bool, true, List, [], ◌∷◌, ◌++◌, arith, ltb, leb, length, filter,
  if◌then◌else◌, Bool-cases, inl, inr, filter-append, Key, key_dec, or_default, length-append, ite,
  ◌&&◌, tests,
}
use real_time_spatial_tracki.Base.Map
use real_time_spatial_tracki.SlidingWindow.{fresh, Windows, timestamps, check, remove, cleanup}
use real_time_spatial_tracki.SlidingWindow.Refinement.{
  Call, checks, removes, cleans, Monotone, Refines, Refines-empty, Refines-later, Refines-delete,
  Refines-cleanup, check-Refines, check_spec,
}

-- `a < t ≤ a + window`.
abbrev pub within : ℕ → ℕ → ℕ → Bool
within window a t = ltb a t && leb t (a + window)

-- The times at which a client was admitted since its state was last removed.
pub admitted : ℕ → ℕ → Key → List Call → Windows → List ℕ → List ℕ
admitted limit window id [] ws log = log
admitted limit window id (checks j now ∷ cs) ws log =
    let (ws', ok) = check limit window now j ws in
    admitted limit window id cs ws' (ite (key_dec j id) (if ok then log ++ now ∷ [] else log) log)
admitted limit window id (removes j ∷ cs) ws log =
    admitted limit window id cs (remove j ws) (ite (key_dec j id) [] log)
admitted limit window id (cleans now ∷ cs) ws log =
    admitted limit window id cs (cleanup window now ws) log

-- The log respects the limit in every window.
abbrev IsBounded : ℕ → ℕ → List ℕ → Type 0
IsBounded limit window log = (a : ℕ) → length (filter (within window a) log) ≤ limit

within-le-fresh :
    (window a now : ℕ) (log : List ℕ)
    → now ≤ a + window
    → length (filter (within window a) log) ≤ length (filter (fresh window now) log)
within-le-fresh window a now [] h = omega arith
within-le-fresh window a now (t ∷ log) h = ground (arith, within-le-fresh window a now log h)

-- An admission keeps the bound, since the times before it in a window that holds it are fresh.
IsBounded-append :
    (limit window now : ℕ) (log : List ℕ)
    → ltb (length (filter (fresh window now) log)) limit ≡ true
    → IsBounded limit window log
    → IsBounded limit window (log ++ now ∷ [])
IsBounded-append limit window now log room b a =
    rw (filter-append (within window a) log (now ∷ []), length-append)
      (elim (Bool-cases (within window a now)) [
        | inl e ↦ rw e (omega (tests, room, within-le-fresh window a now log (ground arith)))
        | inr e ↦ rw e (omega (arith, b a))
      ])

-- What the reference's log of a client becomes in a check of any client.
timestamps-check_spec :
    (limit window now : ℕ) (j id : Key) (h : Windows)
    → timestamps id (check_spec limit window now j h).0
      ≡ ite
          (key_dec j id)
          (if (check_spec limit window now j h).1
            then timestamps id h ++ now ∷ []
            else timestamps id h)
          (timestamps id h)
unfolding check_spec
timestamps-check_spec limit window now j id h =
    ground (arith, Map.get-set id j (timestamps j h ++ now ∷ []) h)

check_spec-IsBounded :
    (limit window now : ℕ) (j id : Key) (h : Windows)
    → ((i : Key) → IsBounded limit window (timestamps i h))
    → IsBounded limit window (timestamps id (check_spec limit window now j h).0)
unfolding check_spec
check_spec-IsBounded limit window now j id h b =
    elim (Bool-cases (ltb (length (filter (fresh window now) (timestamps j h))) limit)) [
      | inl e ↦ rw e (
          Map.get-set_cases (λ o. IsBounded limit window (or_default o [])) id j h _
            (IsBounded-append limit window now (timestamps j h) e (b j)) (λ ne. b id))
      | inr e ↦ rw e (b id)
    ]

delete-IsBounded :
    (limit window : ℕ) (j id : Key) (h : Windows)
    → ((i : Key) → IsBounded limit window (timestamps i h))
    → IsBounded limit window (timestamps id (Map.delete j h))
delete-IsBounded limit window j id h b =
    Map.get-delete_cases (λ o. IsBounded limit window (or_default o [])) id j h (λ a. omega arith)
      (λ ne. b id)

timestamps-delete :
    (j id : Key) (h : Windows)
    → timestamps id (Map.delete j h) ≡ ite (key_dec j id) [] (timestamps id h)
timestamps-delete j id h = ground (arith, Map.get-delete id j h)

admitted-Refines :
    (limit window clock : ℕ) (id : Key) (cs : List Call) {ws h : Windows} (log : List ℕ)
    → Monotone clock cs
    → Refines window clock ws h
    → ((i : Key) → IsBounded limit window (timestamps i h))
    → log ≡ timestamps id h
    → IsBounded limit window (admitted limit window id cs ws log)
unfolding admitted remove
admitted-Refines limit window clock id [] log m r b e = rw e (b id)
admitted-Refines limit window clock id (checks j now ∷ cs) {ws} {h} log m r b e =
    let step = check-Refines limit window now j (Refines-later window clock now m.0 r) in
    admitted-Refines limit window now id cs _ m.1 step.1
      (λ i. check_spec-IsBounded limit window now j i h b)
      (rw (e, step.0) (sym (timestamps-check_spec limit window now j id h)))
admitted-Refines limit window clock id (removes j ∷ cs) {ws} {h} log m r b e =
    admitted-Refines limit window clock id cs _ m (Refines-delete window clock j r)
      (λ i. delete-IsBounded limit window j i h b) (rw e (sym (timestamps-delete j id h)))
admitted-Refines limit window clock id (cleans now ∷ cs) log m r b e =
    admitted-Refines limit window now id cs log m.1
      (Refines-cleanup window now (Refines-later window clock now m.0 r)) b e

-- From an empty map, with a clock that does not run backwards, no window of the given length holds
-- more than `limit` of the times at which one client was admitted since its state was last removed.
pub admitted_bound :
    (limit window : ℕ) (id : Key) (cs : List Call)
    → Monotone 0 cs
    → (a : ℕ) → length (filter (within window a) (admitted limit window id cs [] [])) ≤ limit
unfolding Map.get
admitted_bound limit window id cs m =
    admitted-Refines limit window 0 id cs [] m (Refines-empty window) (λ i a. omega arith) refl
