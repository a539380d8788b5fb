-- ===== src/EventSourcing/Dispatch/Once.antt =====
-- A command that is sent again is not executed again.
use real_time_spatial_tracki.Base.{
  ℕ, ◌+◌, ◌≤◌, ◌<◌, ◌≡◌, ◌≢◌, refl, sym, ap, ◌∙◌, subst, List, [], ◌∷◌, none, some, Key, key_dec,
  ite, arith, length, inl, inr, Option-cases,
}
use real_time_spatial_tracki.Base.Map
use real_time_spatial_tracki.Base.Map.{Map}
use real_time_spatial_tracki.EventSourcing.{Event, no_handler, Result, ok, failed}
use real_time_spatial_tracki.EventSourcing.Dispatch.{
  Handler, CommandHandler, Envelope, evict, settle, dispatch,
}

module _ {ℓ} {V : Type ℓ} where
  -- The number of entries after that of a key.
  unfoldable pub age : Key → Map V → ℕ
  age k [] = 0
  age k ((j, v) ∷ m) = ite (key_dec j k) (length m) (age k m)

  age-lt : (k : Key) (m : Map V) (v : V) → Map.get k m ≡ some v → age k m < length m
  unfolding age Map.get
  age-lt k [] v h = absurd (ground arith)
  age-lt k ((j, w) ∷ m) v h = ground (arith, age-lt k m v)

  -- Eviction keeps what is young enough.
  get-evict :
      (k : Key) (size : ℕ) (m : Map V) (v : V)
      → Map.get k m ≡ some v
      → age k m < size
      → (Map.get k (evict size m) ≡ some v) × (age k (evict size m) ≡ age k m)
  unfolding evict age Map.get
  get-evict k size [] v h a = absurd (ground arith)
  get-evict k size ((j, w) ∷ m) v h a = ground (arith, get-evict k size m v)

  -- A write of another key makes a key older by one at most.
  age-set :
      (k j : Key) (w : V) (m : Map V) (v : V)
      → Map.get k m ≡ some v
      → age k (Map.set j w m) ≤ age k m + 1
  unfolding age Map.set Map.get
  age-set k j w [] v h = absurd (ground arith)
  age-set k j w ((i, x) ∷ m) v h = ground (arith, age-set k j w m v, Map.length-set j w m)

  age-set_self : (k : Key) (w : V) (m : Map V) → Map.get k m ≡ none → age k (Map.set k w m) ≡ 0
  unfolding age Map.set Map.get
  age-set_self k w [] h = ground arith
  age-set_self k w ((i, x) ∷ m) h = ground (arith, age-set_self k w m)

module _ {C P W : Type 0} (env : Envelope C) where
  -- The events of a command are still known, with at most so many other commands after it.
  pub record IsKnown (id : Key) (events : List (Event P)) (n : ℕ) (h : CommandHandler C P W)
      : Type 0 where
    pub cached : Map.get id h.dedup ≡ some events
    pub young : age id h.dedup ≤ n

  -- The settling of another command.
  settle-IsKnown :
      (id j : Key) (events : List (Event P)) (n : ℕ) (r : W × Result (List (Event P)))
      (h : CommandHandler C P W)
      → j ≢ id
      → n + 1 < h.dedup_cache_size
      → IsKnown id events n h
      → IsKnown id events (n + 1) (settle j r h).handler
  unfolding settle
  settle-IsKnown id j events n (world, failed failure) h ne room k = record {
    cached = k.cached;
    young = omega (arith, k.young);
  }
  settle-IsKnown id j events n (world, ok new) h ne room k =
      let set_other : Map.get id (Map.set j new h.dedup) ≡ some events =
        ground (arith, Map.get-set id j new h.dedup, k.cached) in
      let older = age-set id j new h.dedup events k.cached in
      let kept =
        get-evict id h.dedup_cache_size (Map.set j new h.dedup) events set_other
          (omega (arith, older, k.young)) in
      record { cached = kept.0; young = omega (arith, kept.1, older, k.young) }

  size-settle :
      (j : Key) (r : W × Result (List (Event P))) (h : CommandHandler C P W)
      → (settle j r h).handler.dedup_cache_size ≡ h.dedup_cache_size
  unfolding settle
  size-settle j (world, failed failure) h = refl
  size-settle j (world, ok events) h = refl

  -- The three ways that `dispatch` goes.
  dispatch_known :
      (c : C) (h : CommandHandler C P W) (w : W) (events : List (Event P))
      → Map.get (env.command_id c) h.dedup ≡ some events
      → dispatch env c h w ≡ record {
        handler = record h { commands_deduplicated_total = h.commands_deduplicated_total + 1 };
        world = w;
        result = ok events;
        notified = none;
      }
  unfolding dispatch
  dispatch_known c h w events e = ground (arith, e)

  dispatch_unhandled :
      (c : C) (h : CommandHandler C P W) (w : W)
      → Map.get (env.command_id c) h.dedup ≡ none
      → Map.get (env.type c) h.handlers ≡ none
      → dispatch env c h w
        ≡ record { handler = h; world = w; result = failed no_handler; notified = none }
  unfolding dispatch
  dispatch_unhandled c h w e f = ground (arith, e, f)

  dispatch_handled :
      (c : C) (h : CommandHandler C P W) (w : W) (handle : Handler C P W)
      → Map.get (env.command_id c) h.dedup ≡ none
      → Map.get (env.type c) h.handlers ≡ some handle
      → dispatch env c h w ≡ settle (env.command_id c) (handle c w) h
  unfolding dispatch
  dispatch_handled c h w handle e f = ground (arith, e, f)

  size-dispatch :
      (c : C) (h : CommandHandler C P W) (w : W)
      → (dispatch env c h w).handler.dedup_cache_size ≡ h.dedup_cache_size
  size-dispatch c h w = elim (Option-cases (Map.get (env.command_id c) h.dedup)) [
    | inr (events, e) ↦ rw (dispatch_known c h w events e) refl
    | inl e ↦ elim (Option-cases (Map.get (env.type c) h.handlers)) [
      | inl f ↦ rw (dispatch_unhandled c h w e f) refl
      | inr (handle, f) ↦
          rw (dispatch_handled c h w handle e f) (size-settle (env.command_id c) (handle c w) h)
    ]
  ]

  dispatch-IsKnown :
      (id : Key) (events : List (Event P)) (n : ℕ) (c : C) (h : CommandHandler C P W) (w : W)
      → n + 1 < h.dedup_cache_size
      → IsKnown id events n h
      → IsKnown id events (n + 1) (dispatch env c h w).handler
  dispatch-IsKnown id events n c h w room k =
      elim (Option-cases (Map.get (env.command_id c) h.dedup)) [
        | inr (old, e) ↦
            rw (dispatch_known c h w old e)
              (record { cached = k.cached; young = omega (arith, k.young) })
        | inl e ↦ elim (Option-cases (Map.get (env.type c) h.handlers)) [
          | inl f ↦
              rw (dispatch_unhandled c h w e f)
                (record { cached = k.cached; young = omega (arith, k.young) })
          | inr (handle, f) ↦ rw (dispatch_handled c h w handle e f) (
              settle-IsKnown id (env.command_id c) events n (handle c w) h
                (λ same. absurd (ground (arith, k.cached, e, ap (λ i. Map.get i h.dedup) same)))
                room k)
        ]
      ]

  -- A series of commands: the handler and what it changed.
  unfoldable pub dispatch_all : List C → CommandHandler C P W → W → CommandHandler C P W × W
  dispatch_all [] h w = (h, w)
  dispatch_all (c ∷ cs) h w = let d = dispatch env c h w in dispatch_all cs d.handler d.world

  dispatch_all-IsKnown :
      (id : Key) (events : List (Event P)) (n : ℕ) (cs : List C) (h : CommandHandler C P W) (w : W)
      → n + length cs < h.dedup_cache_size
      → IsKnown id events n h
      → IsKnown id events (n + length cs) (dispatch_all cs h w).0
  unfolding dispatch_all
  dispatch_all-IsKnown id events n [] h w room k = record {
    cached = k.cached;
    young = omega (arith, k.young);
  }
  dispatch_all-IsKnown id events n (c ∷ cs) h w room k =
      let d = dispatch env c h w in
      subst (λ m. IsKnown id events m (dispatch_all cs d.handler d.world).0) (omega arith)
        (dispatch_all-IsKnown id events (n + 1) cs d.handler d.world
          (omega (arith, size-dispatch c h w)) (dispatch-IsKnown id events n c h w (omega arith) k))

  settled-IsKnown :
      (id : Key) (events : List (Event P)) (world : W) (h : CommandHandler C P W)
      → Map.get id h.dedup ≡ none
      → 0 < h.dedup_cache_size
      → IsKnown id events 0 (settle id (world, ok events) h).handler
  unfolding settle
  settled-IsKnown id events world h new room =
      let kept =
        get-evict id h.dedup_cache_size (Map.set id events h.dedup) events
          (Map.get-set_self id events h.dedup)
          (omega (arith, age-set_self id events h.dedup new)) in
      record { cached = kept.0; young = omega (arith, kept.1, age-set_self id events h.dedup new) }

  -- A command is executed once: if a new command was handled and returned its events, and fewer commands
  -- than the cache holds were dispatched since, whatever they were, then to dispatch it again returns
  -- the same events, leaves what the handlers change as it is, and tells the subscribers nothing.
  pub dispatch_once :
      (c : C) (cs : List C) (h : CommandHandler C P W) (w : W) (handle : Handler C P W)
      (events : List (Event P)) (world : W)
      → Map.get (env.command_id c) h.dedup ≡ none
      → Map.get (env.type c) h.handlers ≡ some handle
      → handle c w ≡ (world, ok events)
      → length cs < h.dedup_cache_size
      → let later = dispatch_all cs (dispatch env c h w).handler (dispatch env c h w).world in
        ((dispatch env c later.0 later.1).result ≡ ok events)
        × ((dispatch env c later.0 later.1).world ≡ later.1)
        × ((dispatch env c later.0 later.1).notified ≡ none)
  dispatch_once c cs h w handle events world new handled returned room =
      let id = env.command_id c in
      let first : dispatch env c h w ≡ settle id (world, ok events) h =
        dispatch_handled c h w handle new handled ∙ ap (λ r. settle id r h) returned in
      let d = dispatch env c h w in
      let known : IsKnown id events 0 d.handler =
        subst (λ x. IsKnown id events 0 x.handler) (sym first)
          (settled-IsKnown id events world h new (omega arith)) in
      let later = dispatch_all cs d.handler d.world in
      let still =
        dispatch_all-IsKnown id events 0 cs d.handler d.world (omega (arith, size-dispatch c h w))
          known in
      rw (dispatch_known c later.0 later.1 events still.cached) (refl, refl, refl)
