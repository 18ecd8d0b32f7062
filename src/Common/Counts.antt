-- ===== src/Common/Counts.antt =====
-- Lists with the same elements, each as often, are equally long.
use Prim.Native.Nat.{◌+◌, ◌<◌}
use mathlib.Core.Path.{◌≡◌, refl}
use mathlib.Core.Bool.{Bool}
use mathlib.Core.List.{List, [], ◌∷◌}
use native.Mathlib.Omega.{arith}
use tak_rs.Common.Tests.{if◌then◌else◌}
use tak_rs.Common.Equality.{Eq, ◌=?◌, =?_iff}
use tak_rs.Common.Lists.{length, count}

module _ {ℓ} {A : Type ℓ} ⦃e : Eq A⦄ where
  remove_first : A → List A → List A
  remove_first a [] = []
  remove_first a (x ∷ xs) = let rest = remove_first a xs in if a =? x then xs else x ∷ rest

  remove_first_counts :
      (a b : A) (xs : List A)
      → 0 < count a xs
      → (count b (remove_first a xs) + (if b =? a then 1 else 0) ≡ count b xs)
        × (length (remove_first a xs) + 1 ≡ length xs)
  unfolding remove_first
  remove_first_counts a b [] h = absurd (omega arith)
  remove_first_counts a b (x ∷ xs) h =
      ground (arith, =?_iff a x, =?_iff b x, =?_iff b a, remove_first_counts a b xs)

  pub length-same_counts :
      (xs ys : List A) → ((a : A) → count a xs ≡ count a ys) → length xs ≡ length ys
  length-same_counts [] [] h = refl
  length-same_counts [] (y ∷ ys) h = absurd (ground (arith, h y, =?_iff y y))
  length-same_counts (x ∷ xs) ys h = ground (
    arith,
    there,
    remove_first_counts x x ys,
    length-same_counts xs (remove_first x ys)
        (λ a. ground (arith, h a, there, remove_first_counts x a ys)),
  )
    where
      there : 0 < count x ys
      there = ground (arith, h x, =?_iff x x)

  -- The elements that pass a test, and how many they are.
  abbrev pub select : (A → Bool) → List A → List A
  select w [] = []
  select w (x ∷ xs) = let rest = select w xs in if w x then x ∷ rest else rest

  pub count-select :
      (w : A → Bool) (a : A) (xs : List A) → count a (select w xs) ≡ (if w a then count a xs else 0)
  count-select w a [] = ground arith
  count-select w a (x ∷ xs) = ground (arith, count-select w a xs, =?_iff a x)

  pub select-same :
      (w v : A → Bool) (xs : List A)
      → ((a : A) → 0 < count a xs → w a ≡ v a)
      → select w xs ≡ select v xs
  select-same w v [] h = refl
  select-same w v (x ∷ xs) h =
      rw
        (
          h x (ground (arith, =?_iff x x)),
          select-same w v xs (λ a there. h a (omega (arith, there))),
        )
        refl
