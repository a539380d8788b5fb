-- ===== src/Session/Manager.antt =====
-- `SessionManager` of src/session-manager.js over the in-memory store. `K` is the type of derived keys
-- and `S` that of session states.
pub mod RoundTrip
pub mod Timers
pub mod Debounce
pub mod Shutdown
use real_time_spatial_tracki.Base.{
  ℕ, suc, ◌+◌, Bool, true, false, not, ◌||◌, List, [], ◌∷◌, ◌++◌, Option, none, some, Key, key_dec,
  ite, key, leb, ltb, ◌==◌, if◌then◌else◌, length, is_some, inl, inr, filter, or_default,
}
use real_time_spatial_tracki.Base.Map
use real_time_spatial_tracki.Base.Map.{Map}
use real_time_spatial_tracki.Session.Store
use real_time_spatial_tracki.Session.Store.{Store}

-- What the platform gives: compression, AES-256-GCM and JSON as one sealing, base64, and the reading of
-- a state's `clientId`, if the state is an object that has it as a string.
pub record Cipher (K S : Type 0) : Type 0 where
  -- The ciphertext and the tag, under a key and an initialisation vector.
  pub encrypt : K → Key → S → Key × Key
  -- `none` if anything throws: the tag, the decompression or the parser.
  pub decrypt : K → Key → Key → Key → Option S
  pub to_base64 : Key → Key
  pub from_base64 : Key → Key
  pub client_id : S → Option Key

abbrev pub dot : ℕ
dot = b'.'

-- `[a, b, c, d].join(".")`.
unfoldable pub join_fields : Key → Key → Key → Key → Key
join_fields a b c d = a ++ (dot ∷ (b ++ (dot ∷ (c ++ (dot ∷ d)))))

-- `text.split(".")`: the first field and the others.
unfoldable pub split_dots : Key → Key × List Key
split_dots [] = ([], [])
split_dots (x ∷ text) =
    let (first, others) = split_dots text in
    if x == dot then ([], first ∷ others) else (x ∷ first, others)

pub record Counters : Type 0 where
  pub success : ℕ
  pub decrypt_failed : ℕ
  pub expired : ℕ
  pub mismatch : ℕ
  pub new_session : ℕ

-- What `setTimeout` keeps of a debounced save: the timer's identity, the client that its callback names,
-- and when it fires.
pub record Timer : Type 0 where
  pub id : ℕ
  pub client : Key
  pub fires_at : ℕ

-- `_debounceTimers` and `_debounceProviders` are maps of the manager; `timers` are those that the
-- platform still runs, and `next_timer` is the identity of the next one. A provider gives what it
-- returns at a time, or `none` if it throws.
pub record Manager (K S : Type 0) : Type 0 where
  pub keys : Map K
  pub key_id : Key
  pub sealing_key : K
  pub ttl_ms : ℕ
  pub debounce_ms : ℕ
  pub store : Store
  pub debounce_timers : Map ℕ
  pub debounce_providers : Map (ℕ → Option S)
  pub timers : List Timer
  pub next_timer : ℕ
  pub counters : Counters
  pub state_size_bytes : ℕ

abbrev pub iv_bytes : ℕ
iv_bytes = 12

abbrev pub tag_bytes : ℕ
tag_bytes = 16

abbrev pub max_blob_bytes : ℕ
max_blob_bytes = 16384

-- `session:<clientId>`.
unfoldable pub storage_key : Key → Key
storage_key client = key "session:" ++ client

module _ {K S : Type 0} (cipher : Cipher K S) where
  unfoldable pub blob_of : K → Key → Key → S → Key
  unfolding join_fields
  blob_of sealing key_id iv state =
      let (ciphertext, tag) = cipher.encrypt sealing iv state in
      join_fields key_id (cipher.to_base64 iv) (cipher.to_base64 ciphertext) (cipher.to_base64 tag)

  -- `save`: the new manager and the blob, or `none` if it throws: the client's id is empty, or the blob
  -- is too large. A state is an object. The blob is ASCII, so its bytes are its code units.
  unfoldable pub save : ℕ → Key → Key → S → Manager K S → Manager K S × Option Key
  unfolding blob_of storage_key
  save now iv [] state m = (m, none)
  save now iv (c ∷ rest) state m =
      let client = c ∷ rest in
      let blob = blob_of m.sealing_key m.key_id iv state in
      let sized = record m { state_size_bytes = length blob } in
      if ltb max_blob_bytes (length blob) then (sized, none) else (
        record sized { store = Store.set now (storage_key client) blob m.ttl_ms m.store },
        some blob,
      )

  -- The first key that opens the blob decides.
  unfoldable pub open_with : Key → Key → Key → List K → Option S
  open_with iv ciphertext tag [] = none
  open_with iv ciphertext tag (k ∷ ks) =
      let rest = open_with iv ciphertext tag ks in
      elim (cipher.decrypt k iv ciphertext tag) [
        | none ↦ rest
        | some state ↦ if is_some (cipher.client_id state) then some state else none
      ]

-- The keys but the named one, in their order.
unfoldable pub others : {K : Type 0} → Key → Map K → List K
others id [] = []
others id ((j, k) ∷ ks) = let rest = others id ks in ite (key_dec j id) rest (k ∷ rest)

-- The named key first, then every other.
unfoldable pub candidates : {K : Type 0} → Key → Map K → List K
unfolding others
candidates id keys = elim (Map.get id keys) [ none ↦ others id keys | some k ↦ k ∷ others id keys ]

module _ {K S : Type 0} (cipher : Cipher K S) where
  unfoldable pub open_parts : Key → Key → Key → Key → Map K → Option S
  unfolding open_with candidates
  open_parts id iv ciphertext tag keys =
      if not (length iv == iv_bytes) || not (length tag == tag_bytes) || length ciphertext == 0
      then none
      else open_with cipher iv ciphertext tag (candidates id keys)

  -- `_open`.
  unfoldable pub open_fields : Key × List Key → Map K → Option S
  unfolding open_parts
  open_fields (id, iv ∷ ciphertext ∷ tag ∷ []) keys =
      open_parts id (cipher.from_base64 iv) (cipher.from_base64 ciphertext) (cipher.from_base64 tag)
        keys
  open_fields _ keys = none

  unfoldable pub open_blob : Key → Map K → Option S
  unfolding open_fields split_dots
  open_blob session_id keys = open_fields (split_dots session_id) keys

  -- `load`, with `countSuccess`.
  unfoldable pub load : ℕ → Key → Bool → Manager K S → Manager K S × Option S
  unfolding open_blob storage_key
  load now session_id count_success m = elim (open_blob session_id m.keys) [
    | none ↦ (failed, none)
    | some state ↦ elim (cipher.client_id state) [
      | none ↦ (failed, none)
      | some client ↦
          let (store, stored) = Store.get now (storage_key client) m.store in
          if is_some stored
          then (
            record m {
              store = store;
              counters =
                  if count_success
                  then record (m.counters) { success = m.counters.success + 1 }
                  else m.counters;
            },
            some state,
          )
          else (
            record m {
              store = store;
              counters = record (m.counters) { expired = m.counters.expired + 1 };
            },
            none,
          )
    ]
  ]
    where
      failed : Manager K S
      failed = record m {
        counters = record (m.counters) { decrypt_failed = m.counters.decrypt_failed + 1 };
      }

-- `clearTimeout`.
unfoldable pub clear_timeout : ℕ → List Timer → List Timer
clear_timeout id timers = filter (λ t. not (t.id == id)) timers

unfoldable pub find_timer : ℕ → List Timer → Option Timer
find_timer id [] = none
find_timer id (t ∷ timers) = let rest = find_timer id timers in if t.id == id then some t else rest

module _ {K S : Type 0} where
  -- `_cancelDebounce`: the client's timer is cleared, both maps forget it, and its provider is returned.
  unfoldable pub cancel : Key → Manager K S → Manager K S × Option (ℕ → Option S)
  unfolding clear_timeout
  cancel client m = (
    record m {
      timers = elim (Map.get client m.debounce_timers) as (λ _. List Timer) [
        | none ↦ m.timers
        | some id ↦ clear_timeout id m.timers
      ];
      debounce_timers = Map.delete client m.debounce_timers;
      debounce_providers = Map.delete client m.debounce_providers;
    },
    Map.get client m.debounce_providers,
  )

  -- `debouncedSave`, with a state object as the provider that returns it, and nothing else as a provider,
  -- by its type; `false` if it throws. The
  -- delay is `none` when `ms` is no number from 0 on.
  unfoldable pub debounced_save :
      ℕ → Key → (ℕ → Option S) → Option ℕ → Manager K S → Manager K S × Bool
  unfolding cancel
  debounced_save now [] provider ms m = (m, false)
  debounced_save now (c ∷ rest) provider ms m =
      let client = c ∷ rest in
      let delay = or_default ms m.debounce_ms in
      let idle = (cancel client m).0 in
      (
        record idle {
          debounce_providers = Map.set client provider idle.debounce_providers;
          debounce_timers = Map.set client idle.next_timer idle.debounce_timers;
          timers =
              idle.timers
              ++ record { id = idle.next_timer; client = client; fires_at = now + delay } ∷ [];
          next_timer = idle.next_timer + 1;
        },
        true,
      )

module _ {K S : Type 0} (cipher : Cipher K S) where
  -- `_runSave`: a provider or a save that fails gives no blob.
  unfoldable pub run_save : ℕ → Key → Key → (ℕ → Option S) → Manager K S → Manager K S × Option Key
  unfolding save
  run_save now iv client provider m = elim (provider now) [
    | none ↦ (m, none)
    | some state ↦ save cipher now iv client state m
  ]

  abbrev run_provider :
      ℕ → Key → Key → Option (ℕ → Option S) → Manager K S → Manager K S × Option Key
  run_provider now iv client found m = elim found [
    | none ↦ (m, none)
    | some provider ↦ run_save now iv client provider m
  ]

  -- The platform runs the callback of a timer that is due. A timer that was cleared is not run.
  unfoldable pub fire : ℕ → Key → ℕ → Manager K S → Manager K S × Option Key
  unfolding find_timer clear_timeout run_save
  fire now iv id m = elim (find_timer id m.timers) [
    | none ↦ (m, none)
    | some t ↦
        if leb t.fires_at now
        then run_provider now iv t.client (Map.get t.client m.debounce_providers) (record m {
          timers = clear_timeout id m.timers;
          debounce_timers = Map.delete t.client m.debounce_timers;
          debounce_providers = Map.delete t.client m.debounce_providers;
        })
        else (m, none)
  ]

  -- `flush`.
  unfoldable pub flush : ℕ → Key → Key → Manager K S → Manager K S × Option Key
  unfolding cancel run_save
  flush now iv client m =
      let (idle, found) = cancel client m in
      if Map.has client m.debounce_timers
      then run_provider now iv client found idle
      else (idle, none)

module _ {K S : Type 0} where
  -- `delete`; `false` if it throws.
  unfoldable pub delete : Key → Manager K S → Manager K S × Bool
  unfolding cancel storage_key
  delete [] m = (m, false)
  delete (c ∷ rest) m =
      let idle = (cancel (c ∷ rest) m).0 in
      (record idle { store = Store.del (storage_key (c ∷ rest)) idle.store }, true)

  -- The loop of `close`.
  unfoldable pub cancel_each : List Key → Manager K S → Manager K S
  unfolding cancel
  cancel_each [] m = m
  cancel_each (client ∷ clients) m = cancel_each clients (cancel client m).0

  -- `close`. The timer that sweeps the store is not part of the state.
  unfoldable pub close : Manager K S → Manager K S
  unfolding cancel_each
  close m = record (cancel_each (Map.keys m.debounce_timers) m) { store = [] }
