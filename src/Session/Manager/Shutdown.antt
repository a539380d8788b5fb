-- ===== src/Session/Manager/Shutdown.antt =====
-- `flushAll` and `recordResumption` of src/session-manager.js.
use real_time_spatial_tracki.Base.{
  ℕ, ◌+◌, ◌≡◌, refl, ap, ◌∙◌, List, [], ◌∷◌, Option, none, Key, key_dec, arith, ite, if◌then◌else◌,
  inl, inr, Option-cases,
}
use real_time_spatial_tracki.Base.Map
use real_time_spatial_tracki.Base.Map.{Map}
use real_time_spatial_tracki.Base.KeySet
use real_time_spatial_tracki.Session.Manager.{
  Cipher, Manager, Counters, cancel, save, run_save, flush,
}

-- The outcomes of a resumption that are counted; the code throws on any other text.
pub data Resumption : Type 0 where
  success decrypt_failed expired mismatch new_session : Resumption

-- The counters after one more outcome.
unfoldable pub counted : Resumption → Counters → Counters
counted success c = record c { success = c.success + 1 }
counted decrypt_failed c = record c { decrypt_failed = c.decrypt_failed + 1 }
counted expired c = record c { expired = c.expired + 1 }
counted mismatch c = record c { mismatch = c.mismatch + 1 }
counted new_session c = record c { new_session = c.new_session + 1 }

unfoldable pub record_resumption : {K S : Type 0} → Resumption → Manager K S → Manager K S
unfolding counted
record_resumption result m = record m { counters = counted result m.counters }

-- A map has nothing under a key that is not among its keys.
get-keys {ℓ} :
    {V : Type ℓ} (c : Key) (m : Map V)
    → Map.get c m ≡ (if KeySet.mem c (Map.keys m) then Map.get c m else none)
unfolding Map.get KeySet.mem
get-keys c [] = refl
get-keys c ((k, v) ∷ m) = ground (arith, get-keys c m)

module _ {K S : Type 0} (cipher : Cipher K S) where
  -- The flushes of the clients that were pending, in order. Each save draws its initialisation vector.
  unfoldable pub flush_each :
      ℕ → (Key → Key) → List Key → Manager K S → Manager K S × List (Option Key)
  unfolding flush
  flush_each now ivs [] m = (m, [])
  flush_each now ivs (client ∷ clients) m =
      let here = flush cipher now (ivs client) client m in
      let (last, blobs) = flush_each now ivs clients here.0 in (last, here.1 ∷ blobs)

  unfoldable pub flush_all : ℕ → (Key → Key) → Manager K S → Manager K S × List (Option Key)
  unfolding flush_each
  flush_all now ivs m = flush_each now ivs (Map.keys m.debounce_timers) m

  debounce_timers-run_save :
      (now : ℕ) (iv client : Key) (provider : ℕ → Option S) (m : Manager K S)
      → (run_save cipher now iv client provider m).0.debounce_timers ≡ m.debounce_timers
  unfolding run_save save
  debounce_timers-run_save now iv [] provider m = ground arith
  debounce_timers-run_save now iv (x ∷ client) provider m = ground arith

  debounce_timers-flush :
      (now : ℕ) (iv client c : Key) (m : Manager K S)
      → Map.get c (flush cipher now iv client m).0.debounce_timers
        ≡ ite (key_dec client c) none (Map.get c m.debounce_timers)
  unfolding flush cancel
  debounce_timers-flush now iv client c m = elim (Option-cases (Map.get client m.debounce_timers)) [
    | inl e ↦ ground (arith, e, Map.get-delete c client m.debounce_timers)
    | inr (id, e) ↦ elim (Option-cases (Map.get client m.debounce_providers)) [
      | inl none_found ↦ ground (arith, e, none_found, Map.get-delete c client m.debounce_timers)
      | inr (p, found) ↦
          rw (e, found)
            (ap (Map.get c) (debounce_timers-run_save now iv client p _)
              ∙ Map.get-delete c client m.debounce_timers)
    ]
  ]

  debounce_timers-flush_each :
      (now : ℕ) (ivs : Key → Key) (clients : List Key) (c : Key) (m : Manager K S)
      → Map.get c (flush_each now ivs clients m).0.debounce_timers
        ≡ (if KeySet.mem c clients then none else Map.get c m.debounce_timers)
  unfolding flush_each KeySet.mem
  debounce_timers-flush_each now ivs [] c m = refl
  debounce_timers-flush_each now ivs (client ∷ clients) c m = ground (
    arith,
    debounce_timers-flush_each now ivs clients c (flush cipher now (ivs client) client m).0,
    debounce_timers-flush now (ivs client) client c m,
  )

  -- After `flushAll` no client has a timer.
  pub debounce_timers-flush_all :
      (now : ℕ) (ivs : Key → Key) (c : Key) (m : Manager K S)
      → Map.get c (flush_all now ivs m).0.debounce_timers ≡ none
  unfolding flush_all
  debounce_timers-flush_all now ivs c m = ground (
    arith,
    debounce_timers-flush_each now ivs (Map.keys m.debounce_timers) c m,
    get-keys c m.debounce_timers,
  )
