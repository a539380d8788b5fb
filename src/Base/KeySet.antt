-- ===== src/Base/KeySet.antt =====
-- A JavaScript `Set` of strings: the members in insertion order.
use mathlib.Core.Path.{◌≡◌, refl, ap}
use mathlib.Core.Logic.{ite, inl, inr, if_pos, if_neg}
use mathlib.Core.Bool.{Bool, true, false}
use mathlib.Core.List.{List, [], ◌∷◌}
use native.Mathlib.Omega.{arith}
use real_time_spatial_tracki.Base.Tests.{Bool-cases}
use real_time_spatial_tracki.Base.Lists.{any}
use real_time_spatial_tracki.Base.Keys.{Key, key_dec, key_ite_self}

unfoldable pub mem : Key → List Key → Bool
mem k [] = false
mem k (j ∷ s) = ite (key_dec j k) true (mem k s)

unfoldable pub add : Key → List Key → List Key
add k [] = k ∷ []
add k (j ∷ s) = ite (key_dec j k) (j ∷ s) (j ∷ add k s)

unfoldable pub delete : Key → List Key → List Key
delete k [] = []
delete k (j ∷ s) = let rest = delete k s in ite (key_dec j k) rest (j ∷ rest)

pub mem-add : (j k : Key) (s : List Key) → mem j (add k s) ≡ ite (key_dec k j) true (mem j s)
unfolding mem add
mem-add j k [] = refl
mem-add j k (i ∷ s) = ground (arith, mem-add j k s)

pub mem-delete : (j k : Key) (s : List Key) → mem j (delete k s) ≡ ite (key_dec k j) false (mem j s)
unfolding mem delete
mem-delete j k [] = ground arith
mem-delete j k (i ∷ s) = ground (arith, mem-delete j k s)

pub mem-add_self : (k : Key) (s : List Key) → mem k (add k s) ≡ true
mem-add_self k s = rw mem-add (key_ite_self true (mem k s) k)

-- Some member satisfies a test.
pub any-mem :
    (p : Key → Bool) (k : Key) (s : List Key) → mem k s ≡ true → p k ≡ true → any p s ≡ true
unfolding mem
any-mem p k [] m h = cc
any-mem p k (j ∷ s) m h = elim (key_dec j k) [
  | yes e ↦ ground (arith, ap p e)
  | no e ↦ ground (arith, any-mem p k s)
]

pub any_member :
    (p : Key → Bool) (s : List Key) → any p s ≡ true → (k : Key) × (mem k s ≡ true) × (p k ≡ true)
unfolding mem
any_member p [] h = cc
any_member p (j ∷ s) h = elim (Bool-cases (p j)) [
  | inl e ↦ (j, key_ite_self true (mem j s) j, e)
  | inr e ↦ let (k, m, pk) = any_member p s (rw e at h) in (k, ground (arith, m), pk)
]

-- No member stands twice.
abbrev pub Unique : List Key → Type 0
Unique [] = Unit {0}
Unique (k ∷ s) = (mem k s ≡ false) × Unique s

pub add-Unique : (k : Key) (s : List Key) → Unique s → Unique (add k s)
unfolding add mem
add-Unique k [] u = (refl, tt)
add-Unique k (j ∷ s) u = elim (key_dec j k) [
  | yes p ↦ rw (if_pos (key_dec j k) p (j ∷ s) (j ∷ add k s)) u
  | no p ↦
      rw (if_neg (key_dec j k) p (j ∷ s) (j ∷ add k s))
        (ground (arith, mem-add j k s), add-Unique k s u.1)
]

pub delete-Unique : (k : Key) (s : List Key) → Unique s → Unique (delete k s)
unfolding delete mem
delete-Unique k [] u = tt
delete-Unique k (j ∷ s) u = elim (key_dec j k) [
  | yes p ↦ rw (if_pos (key_dec j k) p (delete k s) (j ∷ delete k s)) (delete-Unique k s u.1)
  | no p ↦
      rw (if_neg (key_dec j k) p (delete k s) (j ∷ delete k s))
        (ground (arith, mem-delete j k s), delete-Unique k s u.1)
]

pub mem-nil : (k : Key) → mem k [] ≡ false
unfolding mem
mem-nil k = refl
