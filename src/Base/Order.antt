-- ===== src/Base/Order.antt =====
-- The sign of a comparison function's result.
use real_time_spatial_tracki.Base.Tests.{ltb, if◌then◌else◌}
use Prim.Native.Nat.{ℕ}
use mathlib.Core.Bool.{Bool}
use mathlib.Core.Path.{◌≡◌, refl}
use mathlib.Core.List.{List, [], ◌∷◌}
use native.Mathlib.Omega.{arith}

pub data Order : Type 0 where
  less same more : Order

abbrev pub compare_ℕ : ℕ → ℕ → Order
compare_ℕ a b = if ltb a b then less else if ltb b a then more else same

abbrev pub flip : Order → Order
flip less = more
flip same = same
flip more = less

abbrev pub is_more : Order → Bool
is_more more = Bool.true
is_more less = Bool.false
is_more same = Bool.false

abbrev pub is_less : Order → Bool
is_less less = Bool.true
is_less more = Bool.false
is_less same = Bool.false

-- The laws of a comparison function by which replicas may decide: only equal keys compare as the
-- same, swapping the arguments swaps the sign, and `more` is transitive.
pub record IsTotal {ℓ} {A : Type ℓ} (compare : A → A → Order) : Type ℓ where
  pub self : (a : A) → compare a a ≡ same
  pub same_eq : (a b : A) → compare a b ≡ same → a ≡ b
  pub swap : (a b : A) → compare b a ≡ flip (compare a b)
  pub trans : (a b c : A) → compare a b ≡ more → compare b c ≡ more → compare a c ≡ more

-- The JavaScript order of strings: lexicographic by code units.
unfoldable pub compare_text : List ℕ → List ℕ → Order
compare_text [] [] = same
compare_text [] (y ∷ ys) = less
compare_text (x ∷ xs) [] = more
compare_text (x ∷ xs) (y ∷ ys) =
    let rest = compare_text xs ys in if ltb x y then less else if ltb y x then more else rest

text_self : (a : List ℕ) → compare_text a a ≡ same
unfolding compare_text
text_self [] = refl
text_self (x ∷ a) = ground (arith, text_self a)

text_same_eq : (a b : List ℕ) → compare_text a b ≡ same → a ≡ b
unfolding compare_text
text_same_eq [] [] h = refl
text_same_eq [] (y ∷ b) h = absurd (ground arith)
text_same_eq (x ∷ a) [] h = absurd (ground arith)
text_same_eq (x ∷ a) (y ∷ b) h = ground (arith, text_same_eq a b)

text_swap : (a b : List ℕ) → compare_text b a ≡ flip (compare_text a b)
unfolding compare_text
text_swap [] [] = refl
text_swap [] (y ∷ b) = refl
text_swap (x ∷ a) [] = refl
text_swap (x ∷ a) (y ∷ b) = ground (arith, text_swap a b)

text_trans :
    (a b c : List ℕ) → compare_text a b ≡ more → compare_text b c ≡ more → compare_text a c ≡ more
unfolding compare_text
text_trans [] [] c h k = absurd (ground arith)
text_trans [] (y ∷ b) c h k = absurd (ground arith)
text_trans (x ∷ a) [] [] h k = absurd (ground arith)
text_trans (x ∷ a) [] (z ∷ c) h k = absurd (ground arith)
text_trans (x ∷ a) (y ∷ b) [] h k = refl
text_trans (x ∷ a) (y ∷ b) (z ∷ c) h k = ground (arith, text_trans a b c)

pub compare_text-IsTotal : IsTotal compare_text
compare_text-IsTotal = record {
  self = text_self;
  same_eq = text_same_eq;
  swap = text_swap;
  trans = text_trans;
}

pub compare_ℕ-IsTotal : IsTotal compare_ℕ
compare_ℕ-IsTotal = record {
  self = λ a. ground arith;
  same_eq = λ a b h. ground arith;
  swap = λ a b. ground arith;
  trans = λ a b c h k. ground arith;
}

-- By the first comparison, and by the second where the first ties.
abbrev pub then_by : Order → Order → Order
then_by less o = less
then_by same o = o
then_by more o = more
