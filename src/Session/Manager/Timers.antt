-- ===== src/Session/Manager/Timers.antt =====
-- The timers of the debounced saves: which of them run when a client's is cleared or a new one set.
use real_time_spatial_tracki.Base.{
  ℕ, ◌<◌, ◌≡◌, refl, ap, ◌∙◌, List, [], ◌∷◌, ◌++◌, Option, none, some, Key, key_dec, arith, ◌==◌,
  All, Bool-cases, inl, inr, ite, if_neg, ◌≢◌,
}
use real_time_spatial_tracki.Base.Map
use real_time_spatial_tracki.Session.Manager.{Manager, Timer, clear_timeout, find_timer}

-- The timers of a client that the platform still runs.
abbrev pub live : Key → List Timer → List Timer
live client [] = []
live client (t ∷ timers) =
    let rest = live client timers in ite (key_dec t.client client) (t ∷ rest) rest

module _ {K S : Type 0} where
  -- Every timer that runs is the one that the manager keeps for its client, and no later one has its
  -- identity.
  pub record IsTimed (m : Manager K S) : Type 0 where
    pub kept : All (λ t. Map.get t.client m.debounce_timers ≡ some t.id) m.timers
    pub issued : All (λ t. t.id < m.next_timer) m.timers

-- The timers once the one that a client has, if any, is cleared.
abbrev pub cleared : Option ℕ → List Timer → List Timer
cleared none timers = timers
cleared (some id) timers = clear_timeout id timers

-- The map has the timers, each under its client.
abbrev pub IsKept : Map.Map ℕ → List Timer → Type 0
IsKept held = All (λ t. Map.get t.client held ≡ some t.id)

module _ (client : Key) (held : Map.Map ℕ) where
  -- Forgetting the client leaves the timers of all others kept.
  pub kept_other :
      (c : Key) (o : Option ℕ)
      → client ≢ c
      → Map.get c held ≡ o
      → Map.get c (Map.delete client held) ≡ o
  kept_other c o other h =
      Map.get-delete c client held ∙ if_neg (key_dec client c) other none (Map.get c held) ∙ h

  pub cleared-IsKept :
      (o : Option ℕ) (timers : List Timer)
      → Map.get client held ≡ o
      → IsKept held timers
      → IsKept (Map.delete client held) (cleared o timers)
  unfolding clear_timeout
  cleared-IsKept none [] h k = tt
  cleared-IsKept none (t ∷ timers) h k = (
    kept_other t.client (some t.id) (λ same. cc (h, k.0, ap (λ c. Map.get c held) same)) k.0,
    cleared-IsKept none timers h k.1,
  )
  cleared-IsKept (some id) [] h k = tt
  cleared-IsKept (some id) (t ∷ timers) h k = elim (Bool-cases (t.id == id)) [
    | inl e ↦ rw e (cleared-IsKept (some id) timers h k.1)
    | inr e ↦ rw e (
      kept_other t.client (some t.id)
          (λ same. ground (arith, e, h, k.0, ap (λ c. Map.get c held) same)) k.0,
      cleared-IsKept (some id) timers h k.1,
    )
  ]

  pub live-cleared :
      (o : Option ℕ) (timers : List Timer)
      → Map.get client held ≡ o
      → IsKept held timers
      → live client (cleared o timers) ≡ []
  unfolding clear_timeout
  live-cleared none [] h k = refl
  live-cleared none (t ∷ timers) h k = elim (key_dec t.client client) [
    | yes same ↦ absurd (cc (h, k.0, ap (λ c. Map.get c held) same))
    | no other ↦
        if_neg (key_dec t.client client) other (t ∷ live client timers) (live client timers)
        ∙ live-cleared none timers h k.1
  ]
  live-cleared (some id) [] h k = refl
  live-cleared (some id) (t ∷ timers) h k = elim (Bool-cases (t.id == id)) [
    | inl e ↦ rw e (live-cleared (some id) timers h k.1)
    | inr e ↦ elim (key_dec t.client client) [
      | yes same ↦ absurd (ground (arith, e, h, k.0, ap (λ c. Map.get c held) same))
      | no other ↦
          rw
            (
              e,
              if_neg (key_dec t.client client) other (t ∷ live client (clear_timeout id timers))
                  (live client (clear_timeout id timers)),
            )
            (live-cleared (some id) timers h k.1)
    ]
  ]

pub issued-cleared :
    (n : ℕ) (o : Option ℕ) (timers : List Timer)
    → All (λ t. t.id < n) timers
    → All (λ t. t.id < n) (cleared o timers)
unfolding clear_timeout
issued-cleared n none timers h = h
issued-cleared n (some id) [] h = tt
issued-cleared n (some id) (t ∷ timers) h = elim (Bool-cases (t.id == id)) [
  | inl e ↦ rw e (issued-cleared n (some id) timers h.1)
  | inr e ↦ rw e (h.0, issued-cleared n (some id) timers h.1)
]

pub live-append :
    (client : Key) (xs ys : List Timer) → live client (xs ++ ys) ≡ live client xs ++ live client ys
live-append client [] ys = refl
live-append client (t ∷ xs) ys = ground (arith, live-append client xs ys)

-- A timer whose identity is new is found behind the others, and clearing it leaves them.
pub find-new :
    (t : Timer) (timers : List Timer)
    → All (λ x. x.id < t.id) timers
    → (find_timer t.id (timers ++ t ∷ []) ≡ some t)
      × (clear_timeout t.id (timers ++ t ∷ []) ≡ timers)
unfolding find_timer clear_timeout
find-new t [] h = (ground arith, ground arith)
find-new t (x ∷ timers) h =
    let (found, left) = find-new t timers h.1 in
    (ground (arith, found, h.0), ground (arith, left, h.0))

pub set-IsKept :
    (client : Key) (n : ℕ) (held : Map.Map ℕ) (timers : List Timer)
    → Map.get client held ≡ none
    → IsKept held timers
    → IsKept (Map.set client n held) timers
set-IsKept client n held [] h k = tt
set-IsKept client n held (t ∷ timers) h k = (
  Map.get-set t.client client n held
      ∙ if_neg (key_dec client t.client) (λ same. cc (h, k.0, ap (λ c. Map.get c held) same))
          (some n) (Map.get t.client held)
      ∙ k.0,
  set-IsKept client n held timers h k.1,
)
