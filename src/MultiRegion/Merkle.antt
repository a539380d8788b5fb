-- ===== src/MultiRegion/Merkle.antt =====
-- `merkleRoot` of src/multi-region.js over a hash of texts, which is the platform's. The loop over the
-- levels runs on fuel; `none` is that it ran out.
use real_time_spatial_tracki.Base.{
  ℕ, zero, suc, ◌≤◌, ◌≡◌, refl, ap, ◌∙◌, true, List, [], ◌∷◌, ◌++◌, Option, none, some, Key, arith,
  length, is_some, length-append,
}

module _ (sha256 : Key → Key) where
  -- The inner loop: one level from the one below.
  unfoldable pub next_level : List Key → List Key
  next_level [] = []
  next_level (left ∷ []) = sha256 (left ++ left) ∷ []
  next_level (left ∷ right ∷ level) = sha256 (left ++ right) ∷ next_level level

  -- The outer loop.
  unfoldable pub climb : ℕ → List Key → Option Key
  unfolding next_level
  climb n [] = none
  climb n (root ∷ []) = some root
  climb zero (x ∷ y ∷ level) = none
  climb (suc n) (x ∷ y ∷ level) = climb n (next_level (x ∷ y ∷ level))

  unfoldable pub merkle_root : List Key → Option Key
  unfolding climb
  merkle_root [] = some (sha256 [])
  merkle_root (x ∷ leaves) = climb (length (x ∷ leaves)) (x ∷ leaves)

  -- An even number of leaves.
  abbrev pub IsEven : List Key → Type 0
  IsEven [] = Unit {0}
  IsEven (x ∷ []) = ⊥
  IsEven (x ∷ y ∷ xs) = IsEven xs

  length-next_level : (level : List Key) → length (next_level level) ≤ length level
  unfolding next_level
  length-next_level [] = omega arith
  length-next_level (x ∷ []) = omega arith
  length-next_level (x ∷ y ∷ level) = omega (arith, length-next_level level)

  next_level-repeat :
      (xs : List Key) (x : Key)
      → IsEven xs
      → next_level (xs ++ x ∷ x ∷ []) ≡ next_level (xs ++ x ∷ [])
  unfolding next_level
  next_level-repeat [] x even = refl
  next_level-repeat (y ∷ []) x even = absurd even
  next_level-repeat (y ∷ z ∷ xs) x even =
      ap (λ level. sha256 (y ++ z) ∷ level) (next_level-repeat xs x even)

  climb-agree :
      (m n : ℕ) (level : List Key)
      → length level ≤ m
      → length level ≤ n
      → climb m level ≡ climb n level
  unfolding climb next_level
  climb-agree m n [] h k = refl
  climb-agree m n (x ∷ []) h k = refl
  climb-agree zero n (x ∷ y ∷ level) h k = absurd (omega (arith, h))
  climb-agree (suc m) zero (x ∷ y ∷ level) h k = absurd (omega (arith, k))
  climb-agree (suc m) (suc n) (x ∷ y ∷ level) h k =
      climb-agree m n (sha256 (x ++ y) ∷ next_level level)
        (omega (arith, h, length-next_level level)) (omega (arith, k, length-next_level level))

  climb_returns :
      (n : ℕ) (x : Key) (level : List Key)
      → length (x ∷ level) ≤ n
      → is_some (climb n (x ∷ level)) ≡ true
  unfolding climb next_level
  climb_returns n x [] h = refl
  climb_returns zero x (y ∷ level) h = absurd (omega (arith, h))
  climb_returns (suc n) x (y ∷ level) h =
      climb_returns n (sha256 (x ++ y)) (next_level level)
        (omega (arith, h, length-next_level level))

  merkle_root_returns : (leaves : List Key) → is_some (merkle_root leaves) ≡ true
  unfolding merkle_root
  merkle_root_returns [] = refl
  merkle_root_returns (x ∷ leaves) = climb_returns (length (x ∷ leaves)) x leaves (omega arith)

  -- The root does not tell the leaves: whatever the hash, an odd number of leaves, three at least, has a
  -- root, and the same leaves with the last one twice have that root too.
  pub merkle_root_repeat :
      (y z : Key) (xs : List Key) (x : Key)
      → IsEven xs
      → (is_some (merkle_root (y ∷ z ∷ (xs ++ x ∷ []))) ≡ true)
        × (merkle_root (y ∷ z ∷ (xs ++ x ∷ x ∷ [])) ≡ merkle_root (y ∷ z ∷ (xs ++ x ∷ [])))
  unfolding merkle_root climb next_level
  merkle_root_repeat y z xs x even = (
    merkle_root_returns (y ∷ z ∷ (xs ++ x ∷ [])),
    ap (climb (length (z ∷ (xs ++ x ∷ x ∷ [])))) (next_level-repeat (y ∷ z ∷ xs) x even)
        ∙ climb-agree (length (z ∷ (xs ++ x ∷ x ∷ []))) (length (z ∷ (xs ++ x ∷ [])))
            (sha256 (y ++ z) ∷ next_level (xs ++ x ∷ []))
            (omega (
              arith,
              length-next_level (xs ++ x ∷ []),
              length-append xs (x ∷ []),
              length-append xs (x ∷ x ∷ []),
            ))
            (omega (arith, length-next_level (xs ++ x ∷ []))),
  )
