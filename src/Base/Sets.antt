-- ===== src/Base/Sets.antt =====
-- `HashSet` and `Vec::contains` as lists under a membership test.
use mathlib.Core.Path.{◌≡◌, refl}
use mathlib.Core.Bool.{Bool, false, ◌&&◌, ◌||◌, not}
use mathlib.Core.List.{List, [], ◌∷◌, ◌++◌}
use Prim.Native.Nat.{◌+◌, ◌≤◌}
use native.Mathlib.Omega.{arith}
use neonet.Base.Tests.{if◌then◌else◌}
use neonet.Base.Lists.{length, length-append}
use neonet.Base.Equality.{Eq, ◌==◌}

module _ {ℓ} {A : Type ℓ} ⦃e : Eq A⦄ where
  unfoldable pub contains : A → List A → Bool
  contains a [] = false
  contains a (x ∷ xs) = x == a || contains a xs

  -- `insert` of a set, which adds a new element at the end.
  unfoldable pub add : A → List A → List A
  unfolding contains
  add a xs = if contains a xs then xs else xs ++ a ∷ []

  -- `remove` of a set
  unfoldable pub discard : A → List A → List A
  discard a [] = []
  discard a (x ∷ xs) = let rest = discard a xs in if x == a then rest else x ∷ rest

  pub contains-append :
      (a : A) (xs ys : List A) → contains a (xs ++ ys) ≡ (contains a xs || contains a ys)
  unfolding contains
  contains-append a [] ys = refl
  contains-append a (x ∷ xs) ys = ground (arith, contains-append a xs ys)

  pub contains-add : (a b : A) (xs : List A) → contains a (add b xs) ≡ (contains a xs || b == a)
  unfolding add contains
  contains-add a b xs = ground (arith, contains-append a xs (b ∷ []), e.beq_iff b a, e.beq_iff a b)

  pub contains-discard :
      (a b : A) (xs : List A) → contains a (discard b xs) ≡ (contains a xs && not (b == a))
  unfolding discard contains
  contains-discard a b [] = refl
  contains-discard a b (x ∷ xs) =
      ground (arith, contains-discard a b xs, e.beq_iff b a, e.beq_iff x b, e.beq_iff x a)

  pub length-add : (a : A) (xs : List A) → length (add a xs) ≤ length xs + 1
  unfolding add
  length-add a xs = ground (arith, length-append xs (a ∷ []))
