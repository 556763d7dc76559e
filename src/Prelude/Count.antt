-- ===== src/Prelude/Count.antt =====
-- How often a value occurs in a list, and tests for occurrence.
use Prim.Native.Nat.{ℕ, zero, suc, ◌+◌, ◌<◌, ◌≤◌}
use mathlib.Core.Path.{◌≡◌, refl, ap}
use mathlib.Core.List.{List, [], ◌∷◌, ◌++◌}
use mathlib.Core.Logic.{inl, inr}
use mathlib.Core.Bool.{Bool, true, false, not, ◌&&◌, ◌||◌}
use mathlib.Core.Option.{some, some-injective}
use native.Mathlib.Omega.{arith}
use ftre.Prelude.Lists.{get_elem?, pop_at}
use ftre.Prelude.Tests.{if◌then◌else◌, Key, ◌==◌, Bool-cases, ==_refl, ==_eq}

-- 1 for true, 0 for false.
abbrev pub one_if : Bool → ℕ
one_if b = if b then 1 else 0

module _ {ℓ} {A : Type ℓ} ⦃e : Key A⦄ where
  abbrev pub count : A → List A → ℕ
  count a [] = 0
  count a (x ∷ xs) = one_if (x == a) + count a xs

  abbrev pub contains : A → List A → Bool
  contains a [] = false
  contains a (x ∷ xs) = x == a || contains a xs

  -- `len(xs) == len(set(xs))`.
  abbrev pub all_distinct : List A → Bool
  all_distinct [] = true
  all_distinct (x ∷ xs) = not (contains x xs) && all_distinct xs

  pub count-append : (a : A) (xs ys : List A) → count a (xs ++ ys) ≡ count a xs + count a ys
  count-append a [] ys = omega arith
  count-append a (x ∷ xs) ys = omega (arith, count-append a xs ys)

  pub contains-count_pos : (a : A) (xs : List A) → contains a xs ≡ true → 0 < count a xs
  contains-count_pos a [] h = cc
  contains-count_pos a (x ∷ xs) h = ground (arith, contains-count_pos a xs)

  pub count-zero_of_not-contains : (a : A) (xs : List A) → contains a xs ≡ false → count a xs ≡ 0
  count-zero_of_not-contains a [] h = refl
  count-zero_of_not-contains a (x ∷ xs) h = ground (arith, count-zero_of_not-contains a xs)

  pub all_distinct_of_count : (xs : List A) → ((a : A) → count a xs ≤ 1) → all_distinct xs ≡ true
  all_distinct_of_count [] h = refl
  all_distinct_of_count (x ∷ xs) h = ground (
    arith,
    h x,
    ==_refl x,
    contains-count_pos x xs,
    all_distinct_of_count xs (λ a. ground (arith, h a)),
  )

  pub count-le_one_of_all_distinct : (xs : List A) (a : A) → all_distinct xs ≡ true → count a xs ≤ 1
  count-le_one_of_all_distinct [] a h = omega arith
  count-le_one_of_all_distinct (x ∷ xs) a h = elim (Bool-cases (x == a)) [
    | inl p ↦
        ground (arith, p, ap (λ (t : A). count t xs) (==_eq x a p), count-zero_of_not-contains x xs)
    | inr p ↦ ground (arith, p, count-le_one_of_all_distinct xs a)
  ]

  -- An item that is popped is counted once less.
  pub count-pop_at :
      (xs : List A) (k : ℕ) (x a : A)
      → get_elem? xs k ≡ some x
      → count a xs ≡ one_if (x == a) + count a (pop_at xs k)
  count-pop_at [] k x a e = cc
  count-pop_at (y ∷ xs) zero x a e = ap (λ z. one_if (z == a) + count a xs) (some-injective _ _ e)
  count-pop_at (y ∷ xs) (suc k) x a e = omega (arith, count-pop_at xs k x a e)
