-- ===== src/Session/Manager/Debounce.antt =====
-- Rapid changes of one client's state are saved once, and every load is counted once.
use real_time_spatial_tracki.Base.{
  ℕ, ◌+◌, ◌<◌, ◌≡◌, refl, sym, ap, ◌∙◌, subst, true, List, [], ◌∷◌, ◌++◌, Option, none, some, Key,
  key_dec, arith, ltb, if◌then◌else◌, is_some, All, All-append, All-mono, Option-cases, inl, inr,
  if_pos,
}
use real_time_spatial_tracki.Base.Map
use real_time_spatial_tracki.Session.Manager.{
  Cipher, Manager, Counters, Timer, load, cancel, debounced_save, run_save, fire, flush, find_timer,
  save,
}
use real_time_spatial_tracki.Session.Manager.Timers.{
  IsKept, IsTimed, cleared, cleared-IsKept, find-new, issued-cleared, live, live-append,
  live-cleared, set-IsKept,
}

abbrev pub outcomes : Counters → ℕ
outcomes c = c.success + c.decrypt_failed + c.expired + c.mismatch + c.new_session

module _ {K S : Type 0} (cipher : Cipher K S) where
  -- Every `load` that counts its success adds exactly one to the outcomes, and it is `success` exactly if
  -- a state is returned.
  pub load_counts :
      (now : ℕ) (session_id : Key) (m : Manager K S)
      → (outcomes (load cipher now session_id true m).0.counters ≡ outcomes m.counters + 1)
        × ((load cipher now session_id true m).0.counters.success
            ≡ m.counters.success + (if is_some (load cipher now session_id true m).1 then 1 else 0))
  unfolding load
  load_counts now session_id m = (ground arith, ground arith)

module _ {K S : Type 0} where
  -- Nothing of the client is pending: no timer runs, and neither map has it.
  pub record IsIdle (client : Key) (m : Manager K S) : Type 0 where
    pub quiet : live client m.timers ≡ []
    pub no_timer : Map.get client m.debounce_timers ≡ none
    pub no_provider : Map.get client m.debounce_providers ≡ none

  timers-cancel :
      (client : Key) (m : Manager K S)
      → (cancel client m).0.timers ≡ cleared (Map.get client m.debounce_timers) m.timers
  unfolding cancel
  timers-cancel client m = elim (Option-cases (Map.get client m.debounce_timers)) [
    | inl e ↦ ground (arith, e)
    | inr (id, e) ↦ ground (arith, e)
  ]

  cancel-IsTimed : (client : Key) (m : Manager K S) → IsTimed m → IsTimed (cancel client m).0
  cancel-IsTimed client m w = record {
    kept =
        subst (IsKept (cancel client m).0.debounce_timers) (sym (timers-cancel client m))
          (unfold cancel in cleared-IsKept client m.debounce_timers _ m.timers refl w.kept);
    issued =
        subst (All (λ t. t.id < (cancel client m).0.next_timer)) (sym (timers-cancel client m))
          (unfold cancel in issued-cleared m.next_timer _ m.timers w.issued);
  }

  cancel-IsIdle : (client : Key) (m : Manager K S) → IsTimed m → IsIdle client (cancel client m).0
  cancel-IsIdle client m w = record {
    quiet =
        ap (live client) (timers-cancel client m)
        ∙ live-cleared client m.debounce_timers _ m.timers refl w.kept;
    no_timer = unfold cancel in Map.get-delete_self client m.debounce_timers;
    no_provider = unfold cancel in Map.get-delete_self client m.debounce_providers;
  }

  -- What asking for a save makes of a manager: its timers are those of the others and one of the client.
  record IsWaiting (now d : ℕ) (client : Key) (q : ℕ → Option S) (m : Manager K S) : Type 0 where
    before : List Timer
    timer : Timer
    named : timer.client ≡ client
    due : timer.fires_at ≡ now + d
    all : m.timers ≡ before ++ timer ∷ []
    older : All (λ t. t.id < timer.id) before
    others : live client before ≡ []
    kept : Map.get client m.debounce_timers ≡ some timer.id
    provider : Map.get client m.debounce_providers ≡ some q
    timed : IsTimed m

  debounced_save-IsWaiting :
      (now c : ℕ) (rest : Key) (q : ℕ → Option S) (d : ℕ) (m : Manager K S)
      → IsTimed m
      → IsWaiting now d (c ∷ rest) q (debounced_save now (c ∷ rest) q (some d) m).0
  unfolding debounced_save
  debounced_save-IsWaiting now c rest q d m w =
      let client = c ∷ rest in
      let idle = (cancel client m).0 in
      let free = cancel-IsIdle client m w in
      let calm = cancel-IsTimed client m w in
      let timer : Timer = record { id = idle.next_timer; client = client; fires_at = now + d } in
      record {
        before = idle.timers;
        timer = timer;
        named = refl;
        due = refl;
        all = refl;
        older = calm.issued;
        others = free.quiet;
        kept = Map.get-set_self client _ _;
        provider = Map.get-set_self client _ _;
        timed = record {
          kept =
              All-append _ idle.timers (timer ∷ [])
                (set-IsKept client idle.next_timer idle.debounce_timers idle.timers free.no_timer
                  calm.kept)
                (Map.get-set_self client _ _, tt);
          issued =
              All-append _ idle.timers (timer ∷ [])
                (All-mono (λ t h. omega (arith, h)) idle.timers calm.issued) (omega arith, tt);
        };
      }

  live-waiting :
      (now d : ℕ) (client : Key) (q : ℕ → Option S) (m : Manager K S)
      (w : IsWaiting now d client q m)
      → live client m.timers ≡ w.timer ∷ []
  live-waiting now d client q m w =
      ap (live client) w.all
      ∙ live-append client w.before (w.timer ∷ [])
      ∙ ap (λ ts. ts ++ live client (w.timer ∷ [])) w.others
      ∙ if_pos (key_dec w.timer.client client) w.named (w.timer ∷ []) []

module _ {K S : Type 0} (cipher : Cipher K S) where
  run_save-IsIdle :
      (now : ℕ) (iv client c : Key) (q : ℕ → Option S) (m : Manager K S)
      → IsIdle c m
      → IsIdle c (run_save cipher now iv client q m).0
  unfolding run_save save
  run_save-IsIdle now iv [] c q m i = elim (Option-cases (q now)) [
    | inl e ↦ rw (run_save, e) i
    | inr (state, e) ↦ rw (run_save, e) i
  ]
  run_save-IsIdle now iv (x ∷ client) c q m i = record {
    quiet = ground (arith, i.quiet);
    no_timer = ground (arith, i.no_timer);
    no_provider = ground (arith, i.no_provider);
  }

  module _ (now d later : ℕ) (iv client : Key) (q : ℕ → Option S) (m : Manager K S)
      (w : IsWaiting now d client q m) where
    flush-waiting :
        flush cipher later iv client m ≡ run_save cipher later iv client q (cancel client m).0
    unfolding flush cancel
    flush-waiting = ground (arith, w.kept, w.provider)

    flush-IsIdle : IsIdle client (flush cipher later iv client m).0
    flush-IsIdle =
        rw flush-waiting
          (run_save-IsIdle later iv client client q _ (cancel-IsIdle client m w.timed))

    fire-waiting :
        fire cipher later iv w.timer.id m
        ≡ (if ltb later (now + d) then (m, none) else flush cipher later iv client m)
    unfolding fire cancel
    fire-waiting =
        let found : find_timer w.timer.id m.timers ≡ some w.timer =
          ap (find_timer w.timer.id) w.all ∙ (find-new w.timer w.before w.older).0 in
        rw (flush-waiting, fire, found, w.named, w.due, w.provider, w.kept) (ground arith)

  -- From a manager whose timers are all kept, of two saves of a client (with an id that is not empty)
  -- that are asked for in turn, only the later provider runs. Of the client's timers exactly one is left,
  -- that of the second save. Its callback does nothing before its time, and from then on what a flush
  -- does; a flush runs the second provider, and after it no timer runs for the client and neither map has
  -- it. All timers are still kept.
  pub debounced_save_once :
      (first second later : ℕ) (iv : Key) (c : ℕ) (rest : Key) (p q : ℕ → Option S) (d : ℕ)
      (m : Manager K S)
      → IsTimed m
      → let client = c ∷ rest in
        let waiting =
          (debounced_save second client q
            (some d)
            (debounced_save first client p (some d) m).0).0 in
        (t : Timer) × (live client waiting.timers ≡ t ∷ [])
        × (t.fires_at ≡ second + d)
        × (fire cipher later iv t.id waiting ≡ (
            if ltb later (second + d)
            then (waiting, none)
            else flush cipher later iv client waiting))
        × (flush cipher later iv client waiting
            ≡ run_save cipher later iv client q (cancel client waiting).0)
        × IsIdle client (flush cipher later iv client waiting).0
        × IsTimed waiting
  debounced_save_once first second later iv c rest p q d m timed =
      let client = c ∷ rest in
      let start = debounced_save first client p (some d) m in
      let w =
        debounced_save-IsWaiting second c rest q d start.0
          (debounced_save-IsWaiting first c rest p d m timed).timed in
      let m = (debounced_save second client q (some d) start.0).0 in
      (
        w.timer,
        live-waiting second d client q m w,
        w.due,
        fire-waiting second d later iv client q m w,
        flush-waiting second d later iv client q m w,
        flush-IsIdle second d later iv client q m w,
        w.timed,
      )
