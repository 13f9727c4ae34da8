-- ===== src/Base/Newest.antt =====
-- The newest `n` entries of a history that grows at its end: what a bounded queue keeps.
use neonet.Base.{
  ℕ, suc, ◌≤◌, ◌≡◌, refl, List, [], ◌∷◌, ◌++◌, arith, leb, length, drop, length-append,
  if◌then◌else◌,
}

module _ {ℓ} {A : Type ℓ} where
  unfoldable pub newest : ℕ → List A → List A
  newest n [] = []
  newest n (x ∷ xs) = let rest = newest n xs in if leb (length (x ∷ xs)) n then x ∷ xs else rest

  pub newest_all : (n : ℕ) (xs : List A) → length xs ≤ n → newest n xs ≡ xs
  unfolding newest
  newest_all n [] h = refl
  newest_all n (x ∷ xs) h = ground arith

  pub length-newest : (n : ℕ) (xs : List A) → length (newest n xs) ≤ n
  unfolding newest
  length-newest n [] = omega arith
  length-newest n (x ∷ xs) = ground (arith, length-newest n xs)

  -- One entry too many: the oldest goes.
  pub newest-drop : (n : ℕ) (xs : List A) → length xs ≡ suc n → newest n xs ≡ drop 1 xs
  unfolding newest
  newest-drop n [] h = refl
  newest-drop n (x ∷ xs) h = ground (arith, newest_all n xs)

  -- Forgetting early changes nothing.
  pub newest-append : (n : ℕ) (xs ys : List A) → newest n (newest n xs ++ ys) ≡ newest n (xs ++ ys)
  unfolding newest
  newest-append n [] ys = refl
  newest-append n (x ∷ xs) ys = ground (arith, newest-append n xs ys, length-append xs ys)
