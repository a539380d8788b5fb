-- ===== src/Session/Tests.antt =====
-- The theorems on sessions at concrete inputs. The cipher puts the key in front of the state, and
-- every byte of a text is moved up by one in its base64.
use real_time_spatial_tracki.Base.{
  ℕ, ◌+◌, ◌-◌, ◌≡◌, refl, ap₂, true, [], ◌∷◌, ◌++◌, Option, none, some, Key, key, key_dec, arith,
  leb, ltb, ◌==◌, if◌then◌else◌,
}
use real_time_spatial_tracki.Base.Map
use real_time_spatial_tracki.Base.Map.{Map, Distinct}
use real_time_spatial_tracki.Session.Store
use real_time_spatial_tracki.Session.Store.{Store}
use real_time_spatial_tracki.Session.Manager.{
  Cipher, Manager, Timer, dot, blob_of, join_fields, load, save, delete, debounced_save, cancel,
  run_save, fire, flush,
}
use real_time_spatial_tracki.Session.Manager.RoundTrip.{NoDot, IsCipher, load-save}
use real_time_spatial_tracki.Session.Manager.Debounce.{IsIdle, debounced_save_once}
use real_time_spatial_tracki.Session.Manager.Timers.{IsTimed, live}

abbrev low : Key → Key
low [] = []
low (x ∷ xs) = (x - 100) ∷ low xs

abbrev high : Key → Key
high [] = []
high (x ∷ xs) = (x + 100) ∷ high xs

low-high : (bytes : Key) → low (high bytes) ≡ bytes
low-high [] = refl
low-high (x ∷ bytes) = ap₂ (λ y ys. y ∷ ys) (omega arith) (low-high bytes)

high-NoDot : (bytes : Key) → NoDot (high bytes)
high-NoDot [] = tt
high-NoDot (x ∷ bytes) = (ground arith, high-NoDot bytes)

abbrev tag : Key
tag = 0 ∷ 0 ∷ 0 ∷ 0 ∷ 0 ∷ 0 ∷ 0 ∷ 0 ∷ 0 ∷ 0 ∷ 0 ∷ 0 ∷ 0 ∷ 0 ∷ 0 ∷ 0 ∷ []

abbrev ann : Key
ann = key "ann"

-- The state is a position, and every session is ann's.
abbrev opened : ℕ → Key → Option ℕ
opened k [] = none
opened k (x ∷ []) = none
opened k (x ∷ y ∷ ys) = if x == k then some y else none

abbrev cipher : Cipher ℕ ℕ
cipher = record {
  encrypt = λ k iv state. (k ∷ state ∷ [], tag);
  decrypt = λ k iv ciphertext t. opened k ciphertext;
  to_base64 = high;
  from_base64 = low;
  client_id = λ state. some ann;
}

cipher-IsCipher : IsCipher cipher
cipher-IsCipher = record {
  opens = λ k iv state. ground arith;
  base64 = low-high;
  plain = high-NoDot;
  tagged = λ k iv state. refl;
  filled = λ k iv state. refl;
}

abbrev manager : Manager ℕ ℕ
manager = record {
  keys = (key "k1", 7) ∷ [];
  key_id = key "k1";
  sealing_key = 7;
  ttl_ms = 1000;
  debounce_ms = 50;
  store = [];
  debounce_timers = [];
  debounce_providers = [];
  timers = [];
  next_timer = 0;
  counters = record { success = 0; decrypt_failed = 0; expired = 0; mismatch = 0; new_session = 0 };
  state_size_bytes = 0;
}

abbrev iv : Key
iv = 1 ∷ 2 ∷ 3 ∷ 4 ∷ 5 ∷ 6 ∷ 7 ∷ 8 ∷ 9 ∷ 10 ∷ 11 ∷ 12 ∷ []

abbrev store : Store
store = Store.set 100 (key "a") (key "v") 50 (Store.set 100 (key "b") (key "w") 90 [])

store-Distinct : Distinct store
unfolding Store.set Map.get Map.set key_dec
store-Distinct = (refl, (refl, tt))

abbrev first : ℕ → Option ℕ
first now = some 5

abbrev second : ℕ → Option ℕ
second now = some 6

abbrev waiting : Manager ℕ ℕ
waiting =
    (debounced_save 10 ann second (some 50) (debounced_save 0 ann first (some 50) manager).0).0

manager-IsTimed : IsTimed manager
manager-IsTimed = record { kept = tt; issued = tt }

debounced_save_once_example :
    (t : Timer) × (live ann waiting.timers ≡ t ∷ [])
    × (t.fires_at ≡ 10 + 50)
    × (fire cipher 60 iv t.id waiting
        ≡ (if ltb 60 (10 + 50) then (waiting, none) else flush cipher 60 iv ann waiting))
    × (flush cipher 60 iv ann waiting ≡ run_save cipher 60 iv ann second (cancel ann waiting).0)
    × IsIdle ann (flush cipher 60 iv ann waiting).0
    × IsTimed waiting
debounced_save_once_example =
    debounced_save_once cipher 0 10 60 iv 97 (110 ∷ 110 ∷ []) first second 50 manager
      manager-IsTimed

k1-NoDot : NoDot (key "k1")
k1-NoDot = (refl, (refl, tt))

abbrev blob : Key
blob = key "k1" ++ (dot ∷ (high iv ++ (dot ∷ ((107 ∷ 105 ∷ []) ++ (dot ∷ high tag)))))

saved : (save cipher 100 iv ann 5 manager).1 ≡ some blob
unfolding save blob_of join_fields
saved = refl

load-save_example :
    ((load cipher 1099 blob true (save cipher 100 iv ann 5 manager).0).1
      ≡ (if leb (100 + 1000) 1099 then none else some 5))
    × ((load cipher 1099 blob true (delete ann (save cipher 100 iv ann 5 manager).0).0).1 ≡ none)
unfolding Map.get key_dec
load-save_example =
    load-save cipher cipher-IsCipher 100 1099 iv ann 5 true manager blob refl k1-NoDot refl refl
      saved
