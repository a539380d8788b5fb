-- ===== src/Session/Store.antt =====
-- `MemoryStore` of src/session-manager.js: the in-memory stand-in for Redis. The timer of an entry is
-- the time at which it fires.
pub mod Expiry
use real_time_spatial_tracki.Base.{
  ℕ, ◌+◌, Bool, List, [], ◌∷◌, Option, none, some, Key, leb, if◌then◌else◌, length,
}
use real_time_spatial_tracki.Base.Map
use real_time_spatial_tracki.Base.Map.{Map}

pub record Held : Type 0 where
  pub value : Key
  pub expires_at : ℕ
  pub timer : ℕ

abbrev pub Store : Type 0
Store = Map Held

unfoldable pub set : ℕ → Key → Key → ℕ → Store → Store
set now key value px store =
    Map.set key (record { value = value; expires_at = now + px; timer = now + px }) store

-- The store after the read, from which an expired entry is gone, and what was read.
unfoldable pub get : ℕ → Key → Store → Store × Option Key
get now key store = elim (Map.get key store) [
  | none ↦ (store, none)
  | some entry ↦
      if leb entry.expires_at now then (Map.delete key store, none) else (store, some entry.value)
]

unfoldable pub del : Key → Store → Store
del key store = Map.delete key store

unfoldable pub sweep : ℕ → Store → Store
sweep now [] = []
sweep now ((key, entry) ∷ store) =
    let rest = sweep now store in if leb entry.expires_at now then rest else (key, entry) ∷ rest

-- The timer of a key fires at its time, and deletes the key.
unfoldable pub fire : ℕ → Key → Store → Store
fire now key store = elim (Map.get key store) [
  | none ↦ store
  | some entry ↦ if leb entry.timer now then Map.delete key store else store
]

unfoldable pub clear : Store → Store
clear store = []

unfoldable pub size : Store → ℕ
size store = length store
