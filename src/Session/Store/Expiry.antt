-- ===== src/Session/Store/Expiry.antt =====
-- The store against a map from keys to values with an expiry.
use real_time_spatial_tracki.Base.{
  ℕ, ◌+◌, ◌≤◌, ◌≡◌, refl, subst, false, [], ◌∷◌, Option, none, some, Key, key_dec, ite, leb, arith,
  if◌then◌else◌, inl, inr, Option-cases,
}
use real_time_spatial_tracki.Base.Map
use real_time_spatial_tracki.Base.Map.{Map, Distinct}
use real_time_spatial_tracki.Session.Store.{Held, Store, set, get, del, sweep, fire}

-- What is live at a time: the abstract contents of the store.
abbrev pub live_entry : ℕ → Option Held → Option Key
live_entry now none = none
live_entry now (some entry) = if leb entry.expires_at now then none else some entry.value

abbrev pub live : ℕ → Key → Store → Option Key
live now key store = live_entry now (Map.get key store)

-- A read returns the live value of its key, and changes the live value of no key, at its time or
-- later.
pub get-live :
    (now later : ℕ) (key j : Key) (store : Store)
    → now ≤ later
    → ((get now key store).1 ≡ live now key store)
      × (live later j (get now key store).0 ≡ live later j store)
unfolding get
get-live now later key j store h = (ground arith, ground (arith, Map.get-delete j key store))

-- A value is live from its write until its time to live has passed, and then no more; other keys are
-- as before.
pub live-set :
    (now later px : ℕ) (key j value : Key) (store : Store)
    → live later j (set now key value px store)
      ≡ ite (key_dec key j) (if leb (now + px) later then none else some value) (live later j store)
unfolding set
live-set now later px key j value store = ground (
  arith,
  Map.get-set j key (record { value = value; expires_at = now + px; timer = now + px }) store,
)

pub live-del :
    (now : ℕ) (key j : Key) (store : Store)
    → live now j (del key store) ≡ ite (key_dec key j) none (live now j store)
unfolding del
live-del now key j store = ground (arith, Map.get-delete j key store)

has-sweep :
    (now : ℕ) (j : Key) (store : Store)
    → Map.has j store ≡ false
    → Map.has j (sweep now store) ≡ false
unfolding sweep Map.get
has-sweep now j [] h = refl
has-sweep now j ((key, entry) ∷ store) h = ground (arith, has-sweep now j store)

-- In a store that holds no key twice, a sweep changes the live value of no key, at its time or
-- later.
pub live-sweep :
    (now later : ℕ) (j : Key) (store : Store)
    → now ≤ later
    → Distinct store
    → live later j (sweep now store) ≡ live later j store
unfolding sweep Map.get
live-sweep now later j [] h d = refl
live-sweep now later j ((key, entry) ∷ store) h d =
    ground (arith, live-sweep now later j store h d.1, has-sweep now key store d.0)

-- An entry's timer is set to its expiry.
abbrev pub IsTimed : Option Held → Type 0
IsTimed none = Unit {0}
IsTimed (some entry) = entry.timer ≡ entry.expires_at

pub live-fire :
    (now later : ℕ) (key j : Key) (store : Store)
    → now ≤ later
    → IsTimed (Map.get key store)
    → live later j (fire now key store) ≡ live later j store
unfolding fire
live-fire now later key j store h t = elim (Option-cases (Map.get key store)) [
  | inl e ↦ ground arith
  | inr (entry, e) ↦ ground (arith, subst IsTimed e t, Map.get-delete j key store)
]
