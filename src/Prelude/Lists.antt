-- ===== src/Prelude/Lists.antt =====
-- Lists measured and indexed by native numbers, under the library's names.
use Prim.Native.Nat.{ℕ, zero, suc, ◌+◌, ◌<◌}
use mathlib.Core.Path.{◌≡◌, refl, ap, sym}
use mathlib.Core.Logic.{◌≢◌, ◌⊎◌, inl, inr}
use mathlib.Core.List.{List, [], ◌∷◌, ◌++◌, map}
use mathlib.Core.Option.{Option, none, some, some-injective}
use native.Mathlib.Omega.{arith}

module _ {ℓ} {A : Type ℓ} where
  abbrev pub length : List A → ℕ
  length [] = 0
  length (x ∷ xs) = suc (length xs)

  abbrev pub get_elem? : List A → ℕ → Option A
  get_elem? [] i = none
  get_elem? (x ∷ xs) zero = some x
  get_elem? (x ∷ xs) (suc i) = get_elem? xs i

  abbrev pub set : List A → ℕ → A → List A
  set [] i v = []
  set (x ∷ xs) zero v = v ∷ xs
  set (x ∷ xs) (suc i) v = x ∷ set xs i v

  -- The item at an index, changed where it stands.
  abbrev pub alter : List A → ℕ → (A → A) → List A
  alter [] i f = []
  alter (x ∷ xs) zero f = f x ∷ xs
  alter (x ∷ xs) (suc i) f = x ∷ alter xs i f

  -- `xs.pop(i)`, the popped item aside.
  abbrev pub pop_at : List A → ℕ → List A
  pop_at [] i = []
  pop_at (x ∷ xs) zero = xs
  pop_at (x ∷ xs) (suc i) = x ∷ pop_at xs i

  abbrev pub take : ℕ → List A → List A
  take zero xs = []
  take (suc n) [] = []
  take (suc n) (x ∷ xs) = x ∷ take n xs

  abbrev pub drop : ℕ → List A → List A
  drop zero xs = xs
  drop (suc n) [] = []
  drop (suc n) (x ∷ xs) = drop n xs

  pub length-append : (xs ys : List A) → length (xs ++ ys) ≡ length xs + length ys
  length-append [] ys = omega arith
  length-append (x ∷ xs) ys = omega (arith, length-append xs ys)

  pub get_elem?-alter_cases :
      (xs : List A) (i j : ℕ) (f : A → A) (y : A)
      → get_elem? (alter xs i f) j ≡ some y
      → ((i ≡ j) × (x : A) × (get_elem? xs j ≡ some x) × (y ≡ f x))
        ⊎ ((i ≢ j) × (get_elem? xs j ≡ some y))
  get_elem?-alter_cases [] i j f y e = cc
  get_elem?-alter_cases (x ∷ xs) zero zero f y e = inl (refl, x, refl, sym (some-injective _ _ e))
  get_elem?-alter_cases (x ∷ xs) zero (suc j) f y e = inr ((λ p. omega (arith, p)), e)
  get_elem?-alter_cases (x ∷ xs) (suc i) zero f y e = inr ((λ p. omega (arith, p)), e)
  get_elem?-alter_cases (x ∷ xs) (suc i) (suc j) f y e = elim (get_elem?-alter_cases xs i j f y e) [
    | inl (p, z, g, q) ↦ inl (ap suc p, z, g, q)
    | inr (n, g) ↦ inr ((λ p. n (omega (arith, p))), g)
  ]

  pub length-alter : (xs : List A) (i : ℕ) (f : A → A) → length (alter xs i f) ≡ length xs
  length-alter [] i f = refl
  length-alter (x ∷ xs) zero f = refl
  length-alter (x ∷ xs) (suc i) f = ap suc (length-alter xs i f)

  pub get_elem?-alter :
      (xs : List A) (i : ℕ) (f : A → A) (x : A)
      → get_elem? xs i ≡ some x
      → get_elem? (alter xs i f) i ≡ some (f x)
  get_elem?-alter [] i f x e = cc
  get_elem?-alter (y ∷ xs) zero f x e = ap (λ z. some (f z)) (some-injective _ _ e)
  get_elem?-alter (y ∷ xs) (suc i) f x e = get_elem?-alter xs i f x e

  pub get_elem?-alter_other :
      (xs : List A) (i j : ℕ) (f : A → A) → i ≢ j → get_elem? (alter xs i f) j ≡ get_elem? xs j
  get_elem?-alter_other [] i j f n = refl
  get_elem?-alter_other (x ∷ xs) zero zero f n = absurd (n refl)
  get_elem?-alter_other (x ∷ xs) zero (suc j) f n = refl
  get_elem?-alter_other (x ∷ xs) (suc i) zero f n = refl
  get_elem?-alter_other (x ∷ xs) (suc i) (suc j) f n =
      get_elem?-alter_other xs i j f (λ e. n (ap suc e))

  pub get_elem?-append_last : (xs : List A) (x : A) → get_elem? (xs ++ x ∷ []) (length xs) ≡ some x
  get_elem?-append_last [] x = refl
  get_elem?-append_last (y ∷ xs) x = get_elem?-append_last xs x

  pub get_elem?-append_some :
      (xs ys : List A) (i : ℕ) (x : A) → get_elem? xs i ≡ some x → get_elem? (xs ++ ys) i ≡ some x
  get_elem?-append_some [] ys i x e = cc
  get_elem?-append_some (y ∷ xs) ys zero x e = e
  get_elem?-append_some (y ∷ xs) ys (suc i) x e = get_elem?-append_some xs ys i x e

  pub get_elem?-append_last_cases :
      (xs : List A) (x : A) (i : ℕ) (y : A)
      → get_elem? (xs ++ x ∷ []) i ≡ some y
      → (get_elem? xs i ≡ some y) ⊎ ((i ≡ length xs) × (y ≡ x))
  get_elem?-append_last_cases [] x zero y e = inr (refl, sym (some-injective _ _ e))
  get_elem?-append_last_cases [] x (suc i) y e = cc
  get_elem?-append_last_cases (z ∷ xs) x zero y e = inl e
  get_elem?-append_last_cases (z ∷ xs) x (suc i) y e =
      elim (get_elem?-append_last_cases xs x i y e) [
        | inl g ↦ inl g
        | inr (p, q) ↦ inr (ap suc p, q)
      ]

  pub get_elem?-lt : (xs : List A) (i : ℕ) (x : A) → get_elem? xs i ≡ some x → i < length xs
  get_elem?-lt [] i x e = cc
  get_elem?-lt (y ∷ xs) zero x e = omega arith
  get_elem?-lt (y ∷ xs) (suc i) x e = omega (arith, get_elem?-lt xs i x e)

  pub get_elem?-pop_at_lt :
      (xs : List A) (i j : ℕ) → j < i → get_elem? (pop_at xs i) j ≡ get_elem? xs j
  get_elem?-pop_at_lt [] i j h = refl
  get_elem?-pop_at_lt (x ∷ xs) zero j h = absurd (omega arith)
  get_elem?-pop_at_lt (x ∷ xs) (suc i) zero h = refl
  get_elem?-pop_at_lt (x ∷ xs) (suc i) (suc j) h = get_elem?-pop_at_lt xs i j (omega arith)

module _ {ℓ κ} {A : Type ℓ} {B : Type κ} where
  pub length-map : (xs : List A) (f : A → B) → length (map f xs) ≡ length xs
  length-map [] f = refl
  length-map (x ∷ xs) f = ap suc (length-map xs f)

module _ {ℓ κ} {A : Type ℓ} {B : Type κ} (g : A → B) where
  -- What is seen of an item changes with it.
  pub map-alter :
      (xs : List A) (i : ℕ) (f : A → A) (h : B → B)
      → ((x : A) → g (f x) ≡ h (g x))
      → map g (alter xs i f) ≡ alter (map g xs) i h
  map-alter [] i f h e = refl
  map-alter (x ∷ xs) zero f h e = ap (λ y. y ∷ map g xs) (e x)
  map-alter (x ∷ xs) (suc i) f h e = ap (λ ys. g x ∷ ys) (map-alter xs i f h e)

  pub map-alter_unseen :
      (xs : List A) (i : ℕ) (f : A → A)
      → ((x : A) → g (f x) ≡ g x)
      → map g (alter xs i f) ≡ map g xs
  map-alter_unseen [] i f e = refl
  map-alter_unseen (x ∷ xs) zero f e = ap (λ y. y ∷ map g xs) (e x)
  map-alter_unseen (x ∷ xs) (suc i) f e = ap (λ ys. g x ∷ ys) (map-alter_unseen xs i f e)

  pub get_elem?-map :
      (xs : List A) (i : ℕ) (x : A) → get_elem? xs i ≡ some x → get_elem? (map g xs) i ≡ some (g x)
  get_elem?-map [] i x e = cc
  get_elem?-map (y ∷ xs) zero x e = ap (λ z. some (g z)) (some-injective _ _ e)
  get_elem?-map (y ∷ xs) (suc i) x e = get_elem?-map xs i x e

  pub get_elem?-of_map :
      (xs : List A) (i : ℕ) (y : B)
      → get_elem? (map g xs) i ≡ some y
      → (x : A) × (get_elem? xs i ≡ some x) × (y ≡ g x)
  get_elem?-of_map [] i y e = cc
  get_elem?-of_map (x ∷ xs) zero y e = (x, refl, sym (some-injective _ _ e))
  get_elem?-of_map (x ∷ xs) (suc i) y e = get_elem?-of_map xs i y e

-- A predicate by recursion computes to tuples, which the tactics read and build.
module _ {ℓ κ} {A : Type ℓ} (P : A → Type κ) where
  abbrev pub All : List A → Type κ
  All [] = Unit
  All (x ∷ xs) = P x × All xs

pub All-of {ℓ κ} : {A : Type ℓ} (P : A → Type κ) → ((a : A) → P a) → (xs : List A) → All P xs
All-of P h [] = tt
All-of P h (x ∷ xs) = (h x, All-of P h xs)

pub All-map {ℓ κ ι} :
    {A : Type ℓ} (P : A → Type κ) (Q : A → Type ι)
    → ((a : A) → P a → Q a)
    → (xs : List A) → All P xs
    → All Q xs
All-map P Q f [] h = tt
All-map P Q f (x ∷ xs) h = (f x h.0, All-map P Q f xs h.1)
