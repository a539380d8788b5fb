-- ===== src/Base/Keys.antt =====
-- JavaScript strings as they are compared: lists of UTF-16 code units. Identifiers of clients,
-- rooms, regions and tags are such strings; in tests they are written as ASCII texts.
use Prim.Native.Nat.{ℕ}
use Prim.Native.Char.{code}
use Prim.Native.String.{String}
use mathlib.Core.Path.{◌≡◌, refl}
use mathlib.Core.Logic.{◌≢◌, ite, if_pos, if_neg}
use mathlib.Core.List.{List, [], ◌∷◌}
use native.Mathlib.Decide.{ℕ_discrete}

abbrev pub Key : Type 0
Key = List ℕ

unfoldable pub key_dec : Discrete Key
unfolding ℕ_discrete
key_dec = hlevel ℕ_discrete

-- The key that an ASCII text stands for.
abbrev pub key : String → Key
key String.[] = []
key (String.◌∷◌ c s) = code c ∷ key s

module _ {ℓ} {A : Type ℓ} (x y : A) where
  pub key_ite_self : (k : Key) → ite (key_dec k k) x y ≡ x
  key_ite_self k = if_pos (key_dec k k) refl x y

  pub key_ite_ne : {k j : Key} → k ≢ j → ite (key_dec k j) x y ≡ y
  key_ite_ne {k} {j} h = if_neg (key_dec k j) h x y
