-- ===== src/Base/Map.antt =====
-- A JavaScript `Map` with string keys: an association list in insertion order. `set` of a key that
-- is present replaces the value in its place, any other goes to the end.
use Prim.Native.Nat.{ℕ, ◌+◌, ◌<◌}
use mathlib.Core.Path.{◌≡◌, refl, subst}
use mathlib.Core.Logic.{◌≢◌, ite, if_pos, if_neg}
use mathlib.Core.Bool.{Bool, false}
use mathlib.Core.Option.{Option, none, some}
use mathlib.Core.List.{List, [], ◌∷◌, map}
use native.Mathlib.Omega.{arith}
use real_time_spatial_tracki.Base.Tests.{is_some, if◌then◌else◌}
use real_time_spatial_tracki.Base.Lists.{length}
use real_time_spatial_tracki.Base.Keys.{Key, key_dec, key_ite_self}

abbrev pub Map {ℓ} : Type ℓ → Type ℓ
Map V = List (Key × V)

module _ {ℓ} {V : Type ℓ} where
  unfoldable pub get : Key → Map V → Option V
  get k [] = none
  get k ((j, v) ∷ m) = ite (key_dec j k) (some v) (get k m)

  unfoldable pub set : Key → V → Map V → Map V
  set k v [] = (k, v) ∷ []
  set k v ((j, w) ∷ m) = ite (key_dec j k) ((j, v) ∷ m) ((j, w) ∷ set k v m)

  unfoldable pub delete : Key → Map V → Map V
  delete k [] = []
  delete k ((j, v) ∷ m) = let rest = delete k m in ite (key_dec j k) rest ((j, v) ∷ rest)

  abbrev pub has : Key → Map V → Bool
  has k m = is_some (get k m)

  abbrev pub keys : Map V → List Key
  keys = map (λ e. e.0)

  pub get-set :
      (j k : Key) (v : V) (m : Map V) → get j (set k v m) ≡ ite (key_dec k j) (some v) (get j m)
  unfolding get set
  get-set j k v [] = refl
  get-set j k v ((i, w) ∷ m) = ground (arith, get-set j k v m)

  pub get-delete : (j k : Key) (m : Map V) → get j (delete k m) ≡ ite (key_dec k j) none (get j m)
  unfolding get delete
  get-delete j k [] = ground arith
  get-delete j k ((i, w) ∷ m) = ground (arith, get-delete j k m)

  pub get-set_self : (k : Key) (v : V) (m : Map V) → get k (set k v m) ≡ some v
  get-set_self k v m = rw get-set (key_ite_self (some v) (get k m) k)

  pub get-delete_self : (k : Key) (m : Map V) → get k (delete k m) ≡ none
  get-delete_self k m = rw get-delete (key_ite_self none (get k m) k)

  pub length-set :
      (k : Key) (v : V) (m : Map V)
      → length (set k v m) ≡ (if has k m then length m else length m + 1)
  unfolding get set
  length-set k v [] = omega arith
  length-set k v ((j, w) ∷ m) = ground (arith, length-set k v m)

-- No key stands twice.
abbrev pub Distinct {ℓ} : {V : Type ℓ} → Map V → Type 0
Distinct [] = Unit {0}
Distinct ((k, v) ∷ m) = (has k m ≡ false) × Distinct m

-- The sum of a measure over the values.
unfoldable pub sum_by {ℓ} : {V : Type ℓ} → (V → ℕ) → Map V → ℕ
sum_by f [] = 0
sum_by f ((k, v) ∷ m) = f v + sum_by f m

module _ {ℓ} {V : Type ℓ} where
  pub delete_absent : (k : Key) (m : Map V) → has k m ≡ false → delete k m ≡ m
  unfolding get delete
  delete_absent k [] h = refl
  delete_absent k ((j, v) ∷ m) h = ground (arith, delete_absent k m)

  pub set-Distinct : (k : Key) (v : V) (m : Map V) → Distinct m → Distinct (set k v m)
  unfolding set get
  set-Distinct k v [] d = (refl, tt)
  set-Distinct k v ((j, w) ∷ m) d = elim (key_dec j k) [
    | yes p ↦ rw (if_pos (key_dec j k) p ((j, v) ∷ m) ((j, w) ∷ set k v m)) d
    | no p ↦
        rw (if_neg (key_dec j k) p ((j, v) ∷ m) ((j, w) ∷ set k v m))
          (ground (arith, get-set j k v m, d.0), set-Distinct k v m d.1)
  ]

  pub delete-Distinct : (k : Key) (m : Map V) → Distinct m → Distinct (delete k m)
  unfolding delete get
  delete-Distinct k [] d = tt
  delete-Distinct k ((j, w) ∷ m) d = elim (key_dec j k) [
    | yes p ↦
        rw (if_pos (key_dec j k) p (delete k m) ((j, w) ∷ delete k m)) (delete-Distinct k m d.1)
    | no p ↦
        rw (if_neg (key_dec j k) p (delete k m) ((j, w) ∷ delete k m))
          (ground (arith, get-delete j k m, d.0), delete-Distinct k m d.1)
  ]

  pub length-delete :
      (k : Key) (m : Map V) {v : V}
      → Distinct m
      → get k m ≡ some v
      → length (delete k m) + 1 ≡ length m
  unfolding get delete
  length-delete k [] d h = absurd (ground arith)
  length-delete k ((j, w) ∷ m) {v} d h = elim (key_dec j k) [
    | yes p ↦
        rw (if_pos (key_dec j k) p (delete k m) ((j, w) ∷ delete k m))
          (rw (delete_absent k m (subst (λ i. has i m ≡ false) p d.0)) (omega arith))
    | no p ↦
        rw (if_neg (key_dec j k) p (delete k m) ((j, w) ∷ delete k m))
          (omega (arith, length-delete k m {v = v} d.1 (ground arith)))
  ]

  -- What a key adds to the sum.
  abbrev pub share : (V → ℕ) → Key → Map V → ℕ
  share f k m = elim (get k m) [ none ↦ 0 | some v ↦ f v ]

  pub sum-set :
      (f : V → ℕ) (k : Key) (v : V) (m : Map V)
      → sum_by f (set k v m) + share f k m ≡ sum_by f m + f v
  unfolding set get sum_by
  sum-set f k v [] = omega arith
  sum-set f k v ((j, w) ∷ m) = ground (arith, sum-set f k v m)

  pub sum-delete :
      (f : V → ℕ) (k : Key) (m : Map V)
      → Distinct m
      → sum_by f (delete k m) + share f k m ≡ sum_by f m
  unfolding delete get sum_by
  sum-delete f k [] d = omega arith
  sum-delete f k ((j, w) ∷ m) d = elim (key_dec j k) [
    | yes p ↦
        let gone : delete k m ≡ m = delete_absent k m (subst (λ i. has i m ≡ false) p d.0) in
        ground (arith, gone)
    | no p ↦ ground (arith, sum-delete f k m d.1)
  ]

-- To prove a property of a lookup after a write, prove it for the key and for every other key.
module _ {ℓ κ} {V : Type ℓ} (P : Option V → Type κ) (j k : Key) (m : Map V) where
  pub get-set_cases : (v : V) → P (some v) → (k ≢ j → P (get j m)) → P (get j (set k v m))
  get-set_cases v self other = rw (get-set j k v m) (elim (key_dec k j) [
    | yes p ↦ rw (if_pos (key_dec k j) p (some v) (get j m)) self
    | no p ↦ rw (if_neg (key_dec k j) p (some v) (get j m)) (other p)
  ])

  pub get-delete_cases : P none → (k ≢ j → P (get j m)) → P (get j (delete k m))
  get-delete_cases self other = rw (get-delete j k m) (elim (key_dec k j) [
    | yes p ↦ rw (if_pos (key_dec k j) p none (get j m)) self
    | no p ↦ rw (if_neg (key_dec k j) p none (get j m)) (other p)
  ])

module _ {ℓ} {V : Type ℓ} where
  pub length-set-pos : (k : Key) (v : V) (m : Map V) → 0 < length (set k v m)
  unfolding set
  length-set-pos k v [] = omega arith
  length-set-pos k v ((j, w) ∷ m) = ground arith

  pub set-set : (k : Key) (v w : V) (m : Map V) → set k v (set k w m) ≡ set k v m
  unfolding set
  set-set k v w [] = ground arith
  set-set k v w ((j, x) ∷ m) = ground (arith, set-set k v w m)
