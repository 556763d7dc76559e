-- ===== src/Prelude/Map.antt =====
-- Python's `dict` with keys of any type that has an equality, in insertion order.
use Prim.Native.String.{String}
use Prim.Native.Nat.{◌≤◌}
use mathlib.Core.Path.{◌≡◌, refl, sym, ◌∙◌, ap₂}
use mathlib.Core.Logic.{◌≢◌, ◌↔◌, inl, inr}
use mathlib.Core.List.{List, [], ◌∷◌}
use mathlib.Core.Option.{Option, none, some}
use mathlib.Core.Bool.{Bool, true, false}
use native.Mathlib.Omega.{arith}
use ftre.Prelude.Lists.{length}
use ftre.Prelude.Tests.{if◌then◌else◌, Key, String_key, ◌==◌, Bool-cases, ==_eq, ==_refl, ne_==}

abbrev pub Map {κ ℓ} : Type κ → Type ℓ → Type (κ ⊔ ℓ)
Map K V = List (K × V)

module _ {κ ℓ} {K : Type κ} {V : Type ℓ} ⦃e : Key K⦄ where
  -- d.get(k)
  abbrev pub find : Map K V → K → Option V
  find [] k = none
  find ((j, v) ∷ d) k = if j == k then some v else find d k

  -- d[k] = v
  abbrev pub store : Map K V → K → V → Map K V
  store [] k v = (k, v) ∷ []
  store ((j, w) ∷ d) k v = let rest = store d k v in if j == k then (j, v) ∷ d else (j, w) ∷ rest

  -- d.pop(k, None)
  abbrev pub erase : Map K V → K → Map K V
  erase [] k = []
  erase ((j, w) ∷ d) k = let rest = erase d k in if j == k then rest else (j, w) ∷ rest

  pub find-store_same : (d : Map K V) (k : K) (v : V) → find (store d k v) k ≡ some v
  find-store_same [] k v = rw (==_refl k) refl
  find-store_same ((j, w) ∷ d) k v = elim (Bool-cases (j == k)) [
    | inl m ↦ rw (m, m) refl
    | inr m ↦ rw (m, m) (find-store_same d k v)
  ]

  pub find-store_other : (d : Map K V) (k j : K) (v : V) → k ≢ j → find (store d k v) j ≡ find d j
  find-store_other [] k j v n = rw (ne_== k j n) refl
  find-store_other ((i, w) ∷ d) k j v n = elim (Bool-cases (i == k)) [
    | inl m ↦
        let other : (i == j) ≡ false = ne_== i j (λ p. n (sym (==_eq i k m) ∙ p)) in
        rw (m, other) refl
    | inr m ↦ elim (Bool-cases (i == j)) [
      | inl q ↦ rw (m, q) refl
      | inr q ↦ rw (m, q) (find-store_other d k j v n)
    ]
  ]

  pub find-erase_same : (d : Map K V) (k : K) → find (erase d k) k ≡ none
  find-erase_same [] k = refl
  find-erase_same ((j, w) ∷ d) k = elim (Bool-cases (j == k)) [
    | inl m ↦ rw m (find-erase_same d k)
    | inr m ↦ rw (m, m) (find-erase_same d k)
  ]

  pub find-erase_other : (d : Map K V) (k j : K) → k ≢ j → find (erase d k) j ≡ find d j
  find-erase_other [] k j n = refl
  find-erase_other ((i, w) ∷ d) k j n = elim (Bool-cases (i == k)) [
    | inl m ↦
        let other : (i == j) ≡ false = ne_== i j (λ p. n (sym (==_eq i k m) ∙ p)) in
        rw (m, other) (find-erase_other d k j n)
    | inr m ↦ elim (Bool-cases (i == j)) [
      | inl q ↦ rw (m, q) refl
      | inr q ↦ rw (m, q) (find-erase_other d k j n)
    ]
  ]

  pub length-erase : (d : Map K V) (k : K) → length (erase d k) ≤ length d
  length-erase [] k = omega arith
  length-erase ((j, w) ∷ d) k = ground (arith, length-erase d k)

abbrev pub same_pair : String × String → String × String → Bool
same_pair x y = if x.0 == y.0 then x.1 == y.1 else false

pub same_pair_iff : (x y : String × String) → (same_pair x y ≡ true) ↔ (x ≡ y)
same_pair_iff x y = (
  (λ h. elim (Bool-cases (x.0 == y.0)) [
    | inl m ↦
        let second : (x.1 == y.1) ≡ true = sym (rw m refl) ∙ h in
        ap₂ (λ a b. (a, b)) (==_eq x.0 y.0 m) (==_eq x.1 y.1 second)
    | inr m ↦ let bad : false ≡ true = sym (rw m refl) ∙ h in cc
  ]),
  (λ p. rw p (rw (==_refl y.0) (==_refl y.1))),
)

-- Two texts as one key.
instance abbrev pub pair_key : Key (String × String)
pair_key = record { equal = same_pair; equal_iff = same_pair_iff }
