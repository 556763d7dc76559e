-- ===== src/Prelude/Order/Sorted.antt =====
-- Laws of sorting, of popping by index, and of counting under both.
use Prim.Native.Nat.{ℕ, zero, suc, ◌+◌, ◌≤◌}
use mathlib.Core.Path.{◌≡◌, refl, ap, sym, ◌∙◌, subst}
use mathlib.Core.List.{List, [], ◌∷◌, ◌++◌, map}
use mathlib.Core.Option.{some, some-injective}
use mathlib.Core.Logic.{inl, inr}
use native.Mathlib.Omega.{arith}
use ftre.Prelude.Tests.{leb, Key, ◌==◌, Bool-cases}
use ftre.Prelude.Lists.{All, get_elem?, pop_at, set}
use ftre.Prelude.Count.{count, one_if}
use ftre.Prelude.Order.{insert_by, sort_by}

-- Each number is at most the later ones.
abbrev pub Ascending : List ℕ → Type 0
Ascending [] = Unit
Ascending (x ∷ xs) = All (λ y. x ≤ y) xs × Ascending xs

pub All-append {ℓ κ} :
    {A : Type ℓ} (P : A → Type κ) (xs ys : List A) → All P xs → All P ys → All P (xs ++ ys)
All-append P [] ys hx hy = hy
All-append P (x ∷ xs) ys hx hy = (hx.0, All-append P xs ys hx.1 hy)

pub All-pop_at {ℓ κ} :
    {A : Type ℓ} (P : A → Type κ) (xs : List A) (i : ℕ) → All P xs → All P (pop_at xs i)
All-pop_at P [] i h = h
All-pop_at P (x ∷ xs) zero h = h.1
All-pop_at P (x ∷ xs) (suc i) h = (h.0, All-pop_at P xs i h.1)

pub All-get {ℓ κ} :
    {A : Type ℓ} (P : A → Type κ) (xs : List A) (i : ℕ) {a : A}
    → get_elem? xs i ≡ some a
    → All P xs
    → P a
All-get P [] i e h = cc
All-get P (x ∷ xs) zero e h = subst P (some-injective _ _ e) h.0
All-get P (x ∷ xs) (suc i) e h = All-get P xs i e h.1

pub Ascending-pop_at : (xs : List ℕ) (i : ℕ) → Ascending xs → Ascending (pop_at xs i)
Ascending-pop_at [] i h = h
Ascending-pop_at (x ∷ xs) zero h = h.1
Ascending-pop_at (x ∷ xs) (suc i) h = (All-pop_at (λ y. x ≤ y) xs i h.0, Ascending-pop_at xs i h.1)

pub Ascending-append_last :
    (xs : List ℕ) (n : ℕ) → Ascending xs → All (λ y. y ≤ n) xs → Ascending (xs ++ n ∷ [])
Ascending-append_last [] n h b = omega arith
Ascending-append_last (x ∷ xs) n h b =
    (All-append (λ y. x ≤ y) xs (n ∷ []) h.0 (b.0, tt), Ascending-append_last xs n h.1 b.1)

abbrev itself : ℕ → ℕ
itself n = n

All-insert_by :
    (P : ℕ → Type 0) (x : ℕ) (xs : List ℕ) → P x → All P xs → All P (insert_by itself x xs)
All-insert_by P x [] p h = (p, tt)
All-insert_by P x (y ∷ ys) p h = elim (Bool-cases (leb x y)) [
  | inl e ↦ rw e (p, h)
  | inr e ↦ rw e (h.0, All-insert_by P x ys p h.1)
]

pub All-sort_by : (P : ℕ → Type 0) (xs : List ℕ) → All P xs → All P (sort_by itself xs)
All-sort_by P [] h = tt
All-sort_by P (x ∷ xs) h = All-insert_by P x (sort_by itself xs) h.0 (All-sort_by P xs h.1)

All-le_trans : (x y : ℕ) (ys : List ℕ) → x ≤ y → All (λ z. y ≤ z) ys → All (λ z. x ≤ z) ys
All-le_trans x y [] h a = tt
All-le_trans x y (z ∷ zs) h a = (omega arith, All-le_trans x y zs h a.1)

Ascending-insert_by : (x : ℕ) (xs : List ℕ) → Ascending xs → Ascending (insert_by itself x xs)
Ascending-insert_by x [] h = (tt, tt)
Ascending-insert_by x (y ∷ ys) h = elim (Bool-cases (leb x y)) [
  | inl e ↦ let le : x ≤ y = ground arith in rw e ((le, All-le_trans x y ys le h.0), h)
  | inr e ↦ rw e (All-insert_by (λ z. y ≤ z) x ys (ground arith) h.0, Ascending-insert_by x ys h.1)
]

pub Ascending-sort_by : (xs : List ℕ) → Ascending (sort_by itself xs)
Ascending-sort_by [] = tt
Ascending-sort_by (x ∷ xs) = Ascending-insert_by x (sort_by itself xs) (Ascending-sort_by xs)

insert_by_least : (x : ℕ) (xs : List ℕ) → All (λ y. x ≤ y) xs → insert_by itself x xs ≡ x ∷ xs
insert_by_least x [] h = refl
insert_by_least x (y ∷ ys) h = ground arith

-- What is in order is left alone.
pub sort_by_of_Ascending : (xs : List ℕ) → Ascending xs → sort_by itself xs ≡ xs
sort_by_of_Ascending [] h = refl
sort_by_of_Ascending (x ∷ xs) h = rw (sort_by_of_Ascending xs h.1) (insert_by_least x xs h.0)

module _ {ℓ} {A : Type ℓ} (key : A → ℕ) where
  map-insert_by :
      (x : A) (xs : List A) → map key (insert_by key x xs) ≡ insert_by itself (key x) (map key xs)
  map-insert_by x [] = refl
  map-insert_by x (y ∷ ys) = elim (Bool-cases (leb (key x) (key y))) [
    | inl e ↦ rw e
    | inr e ↦ rw e (ap (λ (t : List ℕ). key y ∷ t) (map-insert_by x ys))
  ]

  pub map-sort_by : (xs : List A) → map key (sort_by key xs) ≡ sort_by itself (map key xs)
  map-sort_by [] = refl
  map-sort_by (x ∷ xs) =
      map-insert_by x (sort_by key xs) ∙ ap (insert_by itself (key x)) (map-sort_by xs)

  module _ {κ} {B : Type κ} ⦃e : Key B⦄ (f : A → B) (b : B) where
    count-insert_by :
        (x : A) (xs : List A) → count b (map f (insert_by key x xs)) ≡ count b (map f (x ∷ xs))
    count-insert_by x [] = refl
    count-insert_by x (y ∷ ys) = elim (Bool-cases (leb (key x) (key y))) [
      | inl h ↦ rw h
      | inr h ↦ rw h (omega (arith, count-insert_by x ys))
    ]

    -- Sorting neither adds nor drops.
    pub count-sort_by : (xs : List A) → count b (map f (sort_by key xs)) ≡ count b (map f xs)
    count-sort_by [] = refl
    count-sort_by (x ∷ xs) = omega (arith, count-insert_by x (sort_by key xs), count-sort_by xs)

module _ {ℓ κ} {A : Type ℓ} {B : Type κ} (f : A → B) where
  pub map-pop_at : (xs : List A) (i : ℕ) → map f (pop_at xs i) ≡ pop_at (map f xs) i
  map-pop_at [] i = refl
  map-pop_at (x ∷ xs) zero = refl
  map-pop_at (x ∷ xs) (suc i) = ap (λ (t : List B). f x ∷ t) (map-pop_at xs i)

  -- An overwritten item with the same image leaves the images alone.
  pub map-set :
      (xs : List A) (i : ℕ) {x : A} (y : A)
      → get_elem? xs i ≡ some x
      → f y ≡ f x
      → map f (set xs i y) ≡ map f xs
  map-set [] i y e h = cc
  map-set (x ∷ xs) zero y e h = ap (λ (t : B). t ∷ map f xs) (h ∙ ap f (sym (some-injective _ _ e)))
  map-set (x ∷ xs) (suc i) y e h = ap (λ (t : List B). f x ∷ t) (map-set xs i y e h)

module _ {ℓ} {A : Type ℓ} ⦃e : Key A⦄ where
  pub count-pop_at-le : (a : A) (xs : List A) (i : ℕ) → count a (pop_at xs i) ≤ count a xs
  count-pop_at-le a [] i = omega arith
  count-pop_at-le a (x ∷ xs) zero = omega arith
  count-pop_at-le a (x ∷ xs) (suc i) = omega (arith, count-pop_at-le a xs i)

module _ {ℓ κ} {A : Type ℓ} {B : Type κ} ⦃e : Key B⦄ (f : A → B) (b : B) where
  -- What is popped is what the list has less.
  pub count-pop_at :
      (xs : List A) (i : ℕ) {x : A}
      → get_elem? xs i ≡ some x
      → count b (map f xs) ≡ one_if (f x == b) + count b (map f (pop_at xs i))
  count-pop_at [] i h = cc
  count-pop_at (y ∷ ys) zero {x} h =
      ap (λ (t : A). one_if (f t == b) + count b (map f ys)) (some-injective _ _ h)
  count-pop_at (y ∷ ys) (suc i) h = omega (arith, count-pop_at ys i h)
