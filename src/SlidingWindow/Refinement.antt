-- ===== src/SlidingWindow/Refinement.antt =====
-- The limiter against a reference limiter that forgets nothing and counts.
use real_time_spatial_tracki.Base.{
  ℕ, ◌≤◌, ◌≡◌, refl, sym, ap, ap₂, subst, ◌∙◌, Bool, true, false, List, [], ◌∷◌, ◌++◌, none, some,
  arith, ltb, length, filter, All, if◌then◌else◌, Bool-cases, inl, inr, All-append, All-mono,
  filter-append, Key, key_dec, if_pos, if_neg,
}
use real_time_spatial_tracki.Base.Map
use real_time_spatial_tracki.Base.Map.{Distinct}
use real_time_spatial_tracki.SlidingWindow.{fresh, Windows, timestamps, check, remove, cleanup}
use real_time_spatial_tracki.SlidingWindow.Lists.{
  Ascending, evict-filter, filter-filter, All-filter, filter-Ascending, append-Ascending,
}

-- A call of the limiter, with the clock's reading where it reads the clock.
pub data Call : Type 0 where
  checks : Key → ℕ → Call
  removes : Key → Call
  cleans : ℕ → Call

-- The reference: every admitted time is kept, and an event is admitted exactly if fewer than `limit`
-- admitted ones lie in the window that ends now.
unfoldable pub check_spec : ℕ → ℕ → ℕ → Key → Windows → Windows × Bool
check_spec limit window now id h =
    let log = timestamps id h in
    if ltb (length (filter (fresh window now) log)) limit
    then (Map.set id (log ++ now ∷ []) h, true)
    else (h, false)

-- The answers of a series of calls.
unfoldable pub answers : ℕ → ℕ → List Call → Windows → List Bool
answers limit window [] ws = []
answers limit window (checks id now ∷ cs) ws =
    let (ws', ok) = check limit window now id ws in ok ∷ answers limit window cs ws'
answers limit window (removes id ∷ cs) ws = answers limit window cs (remove id ws)
answers limit window (cleans now ∷ cs) ws = answers limit window cs (cleanup window now ws)

pub answers_spec : ℕ → ℕ → List Call → Windows → List Bool
answers_spec limit window [] h = []
answers_spec limit window (checks id now ∷ cs) h =
    let (h', ok) = check_spec limit window now id h in ok ∷ answers_spec limit window cs h'
answers_spec limit window (removes id ∷ cs) h = answers_spec limit window cs (Map.delete id h)
answers_spec limit window (cleans now ∷ cs) h = answers_spec limit window cs h

-- The clock does not run backwards.
abbrev pub Monotone : ℕ → List Call → Type 0
Monotone clock [] = Unit {0}
Monotone clock (checks id now ∷ cs) = (clock ≤ now) × Monotone now cs
Monotone clock (removes id ∷ cs) = Monotone clock cs
Monotone clock (cleans now ∷ cs) = (clock ≤ now) × Monotone now cs

-- The kept timestamps agree with the whole log on what is fresh at the clock or later.
pub record Agrees (window clock : ℕ) (kept log : List ℕ) : Type 0 where
  pub ascending : Ascending kept
  pub past : All (λ t. t ≤ clock) kept
  pub same : filter (fresh window clock) kept ≡ filter (fresh window clock) log

pub record Refines (window clock : ℕ) (ws h : Windows) : Type 0 where
  pub distinct : Distinct ws
  pub agrees : (id : Key) → Agrees window clock (timestamps id ws) (timestamps id h)

Agrees-later :
    (window clock later : ℕ) {kept log : List ℕ}
    → clock ≤ later
    → Agrees window clock kept log
    → Agrees window later kept log
Agrees-later window clock later {kept} {log} h a = record {
  ascending = a.ascending;
  past = All-mono (λ t p. omega arith) kept a.past;
  same =
      sym (filter-filter window clock later kept h)
      ∙ ap (filter (fresh window later)) a.same
      ∙ filter-filter window clock later log h;
}

Agrees-filter :
    (window clock : ℕ) {kept log : List ℕ}
    → Agrees window clock kept log
    → Agrees window clock (filter (fresh window clock) kept) log
Agrees-filter window clock {kept} {log} a = record {
  ascending = filter-Ascending _ kept a.ascending;
  past = All-filter _ _ kept a.past;
  same = filter-filter window clock clock kept (omega arith) ∙ a.same;
}

Agrees-append :
    (window clock : ℕ) {kept log : List ℕ}
    → Agrees window clock kept log
    → Agrees window clock (kept ++ clock ∷ []) (log ++ clock ∷ [])
Agrees-append window clock {kept} {log} a = record {
  ascending = append-Ascending kept clock a.ascending a.past;
  past = All-append _ kept (clock ∷ []) a.past (omega arith, tt);
  same = rw (
    filter-append (fresh window clock) kept (clock ∷ []),
    filter-append (fresh window clock) log (clock ∷ []),
    a.same,
  );
}

pub Refines-later :
    (window clock later : ℕ) {ws h : Windows}
    → clock ≤ later
    → Refines window clock ws h
    → Refines window later ws h
Refines-later window clock later le r = record {
  distinct = r.distinct;
  agrees = λ id. Agrees-later window clock later le (r.agrees id);
}

-- A write on both sides of lists that agree.
Refines-set :
    (window clock : ℕ) (id : Key) (kept log : List ℕ) {ws h : Windows}
    → Agrees window clock kept log
    → Refines window clock ws h
    → Refines window clock (Map.set id kept ws) (Map.set id log h)
Refines-set window clock id kept log {ws} {h} a r = record {
  distinct = Map.set-Distinct id kept ws r.distinct;
  agrees = λ j.
      rw (Map.get-set j id kept ws, Map.get-set j id log h)
        (elim (key_dec id j) [
          | yes p ↦
              rw
                (
                  if_pos (key_dec id j) p (some kept) (Map.get j ws),
                  if_pos (key_dec id j) p (some log) (Map.get j h),
                )
                a
          | no p ↦
              rw
                (
                  if_neg (key_dec id j) p (some kept) (Map.get j ws),
                  if_neg (key_dec id j) p (some log) (Map.get j h),
                )
                (r.agrees j)
        ]);
}

-- A write on the limiter's side alone.
Refines-set_kept :
    (window clock : ℕ) (id : Key) (kept : List ℕ) {ws h : Windows}
    → Agrees window clock kept (timestamps id h)
    → Refines window clock ws h
    → Refines window clock (Map.set id kept ws) h
Refines-set_kept window clock id kept {ws} {h} a r = record {
  distinct = Map.set-Distinct id kept ws r.distinct;
  agrees = λ j. rw (Map.get-set j id kept ws) (elim (key_dec id j) [
    | yes p ↦
        rw (if_pos (key_dec id j) p (some kept) (Map.get j ws))
          (subst (λ i. Agrees window clock kept (timestamps i h)) p a)
    | no p ↦ rw (if_neg (key_dec id j) p (some kept) (Map.get j ws)) (r.agrees j)
  ]);
}

pub Refines-delete :
    (window clock : ℕ) (id : Key) {ws h : Windows}
    → Refines window clock ws h
    → Refines window clock (Map.delete id ws) (Map.delete id h)
Refines-delete window clock id {ws} {h} r = record {
  distinct = Map.delete-Distinct id ws r.distinct;
  agrees = λ j.
      rw (Map.get-delete j id ws, Map.get-delete j id h)
        (elim (key_dec id j) [
          | yes p ↦
              rw
                (
                  if_pos (key_dec id j) p none (Map.get j ws),
                  if_pos (key_dec id j) p none (Map.get j h),
                )
                (record { ascending = tt; past = tt; same = refl })
          | no p ↦
              rw
                (
                  if_neg (key_dec id j) p none (Map.get j ws),
                  if_neg (key_dec id j) p none (Map.get j h),
                )
                (r.agrees j)
        ]);
}

-- The periodic cleanup filters each list, and drops the keys that keep nothing.
has-cleanup :
    (window now : ℕ) (id : Key) (ws : Windows)
    → Map.has id ws ≡ false
    → Map.has id (cleanup window now ws) ≡ false
unfolding cleanup Map.get
has-cleanup window now id [] h = refl
has-cleanup window now id ((j, ts) ∷ ws) h = ground (arith, has-cleanup window now id ws)

pub timestamps-cleanup :
    (window now : ℕ) (id : Key) (ws : Windows)
    → Distinct ws
    → timestamps id (cleanup window now ws) ≡ filter (fresh window now) (timestamps id ws)
unfolding cleanup Map.get
timestamps-cleanup window now id [] d = refl
timestamps-cleanup window now id ((j, ts) ∷ ws) d =
    ground (arith, timestamps-cleanup window now id ws d.1, has-cleanup window now j ws d.0)

cleanup-Distinct : (window now : ℕ) (ws : Windows) → Distinct ws → Distinct (cleanup window now ws)
unfolding cleanup
cleanup-Distinct window now [] d = tt
cleanup-Distinct window now ((j, ts) ∷ ws) d =
    ground (arith, cleanup-Distinct window now ws d.1, has-cleanup window now j ws d.0)

pub Refines-cleanup :
    (window clock : ℕ) {ws h : Windows}
    → Refines window clock ws h
    → Refines window clock (cleanup window clock ws) h
Refines-cleanup window clock {ws} r = record {
  distinct = cleanup-Distinct window clock ws r.distinct;
  agrees = λ id.
      rw (timestamps-cleanup window clock id ws r.distinct)
        (Agrees-filter window clock (r.agrees id));
}

-- A check at the clock gives the reference's answer and keeps the two in step.
pub check-Refines :
    (limit window now : ℕ) (id : Key) {ws h : Windows}
    → Refines window now ws h
    → ((check limit window now id ws).1 ≡ (check_spec limit window now id h).1)
      × Refines window now (check limit window now id ws).0 (check_spec limit window now id h).0
unfolding check check_spec
check-Refines limit window now id {ws} {h} r =
    rw (evict-filter window now (timestamps id ws) (r.agrees id).ascending, (r.agrees id).same)
      (elim (Bool-cases (ltb (length fits) limit)) [
        | inl e ↦ rw e (refl, Refines-set window now id _ _ (Agrees-append window now kept) r)
        | inr e ↦ rw e (refl, Refines-set_kept window now id _ kept r)
      ])
  where
    log : List ℕ
    log = timestamps id h

    fits : List ℕ
    fits = filter (fresh window now) log

    kept : Agrees window now fits log
    kept =
        subst (λ l. Agrees window now l log) (r.agrees id).same
          (Agrees-filter window now (r.agrees id))

-- The limiter answers every series of calls as the reference does.
pub answers-Refines :
    (limit window clock : ℕ) (cs : List Call) {ws h : Windows}
    → Monotone clock cs
    → Refines window clock ws h
    → answers limit window cs ws ≡ answers_spec limit window cs h
unfolding answers answers_spec remove
answers-Refines limit window clock [] m r = refl
answers-Refines limit window clock (checks id now ∷ cs) m r =
    let step = check-Refines limit window now id (Refines-later window clock now m.0 r) in
    ap₂ (λ a l. a ∷ l) step.0 (answers-Refines limit window now cs m.1 step.1)
answers-Refines limit window clock (removes id ∷ cs) {ws} {h} m r =
    answers-Refines limit window clock cs m (Refines-delete window clock id r)
answers-Refines limit window clock (cleans now ∷ cs) m r =
    answers-Refines limit window now cs m.1
      (Refines-cleanup window now (Refines-later window clock now m.0 r))

pub Refines-empty : (window : ℕ) → Refines window 0 [] []
unfolding Map.get
Refines-empty window = record {
  distinct = tt;
  agrees = λ id. record { ascending = tt; past = tt; same = refl };
}

-- From an empty map, with a clock that does not run backwards, the limiter gives to every series of
-- checks, removals and cleanups the answers of the reference limiter, which never evicts and
-- admits an event exactly if fewer than `limit` admitted ones lie in the window.
pub answers_lem :
    (limit window : ℕ) (cs : List Call)
    → Monotone 0 cs
    → answers limit window cs [] ≡ answers_spec limit window cs []
answers_lem limit window cs m = answers-Refines limit window 0 cs m (Refines-empty window)
