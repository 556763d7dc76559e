-- ===== src/Prelude/Options.antt =====
-- Chains of results that may fail.
use mathlib.Core.Path.{◌≡◌, refl}
use mathlib.Core.List.{List, [], ◌∷◌, map}
use mathlib.Core.Option.{Option, none, some}
use ftre.Prelude.Lists.{All}

infixl 5 ◌>>=◌
abbrev pub ◌>>=◌ {ℓ κ} : {A : Type ℓ} {B : Type κ} → Option A → (A → Option B) → Option B
none >>= f = none
some a >>= f = f a

-- `[f(x) for x in xs]`, where `f` may raise.
abbrev pub traverse {ℓ κ} : {A : Type ℓ} {B : Type κ} → (A → Option B) → List A → Option (List B)
traverse f [] = some []
traverse f (x ∷ xs) = let rest = traverse f xs in f x >>= λ y. rest >>= λ ys. some (y ∷ ys)

-- What is written item by item is read back.
pub traverse-map {ℓ κ} :
    {A : Type ℓ} {B : Type κ} (f : B → Option A) (g : A → B) (xs : List A)
    → All (λ a. f (g a) ≡ some a) xs
    → traverse f (map g xs) ≡ some xs
traverse-map f g [] h = refl
traverse-map f g (x ∷ xs) h = rw (h.0, traverse-map f g xs h.1)

taken_apart {ℓ κ} :
    {A : Type ℓ} {B : Type κ} (f : A → Option B) (x : A) (xs : List A) (ys : List B) (o : Option B)
    (p : Option (List B))
    → f x ≡ o
    → traverse f xs ≡ p
    → (o >>= λ y. p >>= λ zs. some (y ∷ zs)) ≡ some ys
    → (y : B) × (zs : List B) × (f x ≡ some y) × (traverse f xs ≡ some zs) × (ys ≡ y ∷ zs)
taken_apart f x xs ys (some y) (some zs) e k g = (y, zs, e, k, cc)
taken_apart f x xs ys none p e k g = cc
taken_apart f x xs ys (some y) none e k g = cc

-- A chain over a list that succeeds, taken apart at its head.
pub traverse-cons {ℓ κ} :
    {A : Type ℓ} {B : Type κ} (f : A → Option B) (x : A) (xs : List A) {ys : List B}
    → traverse f (x ∷ xs) ≡ some ys
    → (y : B) × (zs : List B) × (f x ≡ some y) × (traverse f xs ≡ some zs) × (ys ≡ y ∷ zs)
traverse-cons f x xs {ys} h = taken_apart f x xs ys (f x) (traverse f xs) refl refl h
