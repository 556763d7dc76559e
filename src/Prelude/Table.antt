-- ===== src/Prelude/Table.antt =====
-- Python's `dict` and `set` with integer keys; a dict keeps the place of a key that is present.
use Prim.Native.Nat.{ℕ}
use mathlib.Core.Path.{◌≡◌, refl}
use mathlib.Core.List.{List, [], ◌∷◌}
use mathlib.Core.Option.{Option, none, some}
use mathlib.Core.Bool.{Bool, true, false}
use native.Mathlib.Omega.{arith}
use ftre.Prelude.Tests.{if◌then◌else◌, ◌==◌, ℕ_key, nat_beq_iff}

abbrev pub Table {ℓ} : Type ℓ → Type ℓ
Table V = List (ℕ × V)

module _ {ℓ} {V : Type ℓ} where
  -- d.get(k)
  unfoldable pub lookup : Table V → ℕ → Option V
  lookup [] k = none
  lookup ((j, v) ∷ d) k = if j == k then some v else lookup d k

  -- d[k] = v
  unfoldable pub assign : Table V → ℕ → V → Table V
  assign [] k v = (k, v) ∷ []
  assign ((j, w) ∷ d) k v = if j == k then (j, v) ∷ d else (j, w) ∷ assign d k v

  -- d.pop(k, None)
  unfoldable pub without : Table V → ℕ → Table V
  without [] k = []
  without ((j, w) ∷ d) k = let rest = without d k in if j == k then rest else (j, w) ∷ rest

  pub lookup-assign :
      (k j : ℕ) (v : V) (d : Table V)
      → lookup (assign d k v) j ≡ (if k == j then some v else lookup d j)
  unfolding lookup assign
  lookup-assign k j v [] = refl
  lookup-assign k j v ((i, w) ∷ d) =
      ground (arith, nat_beq_iff k j, nat_beq_iff i k, nat_beq_iff i j, lookup-assign k j v d)

  pub lookup-without :
      (k j : ℕ) (d : Table V) → lookup (without d k) j ≡ (if k == j then none else lookup d j)
  unfolding lookup without
  lookup-without k j [] = ground arith
  lookup-without k j ((i, w) ∷ d) =
      ground (arith, nat_beq_iff k j, nat_beq_iff i k, nat_beq_iff i j, lookup-without k j d)

-- k in s
unfoldable pub has : List ℕ → ℕ → Bool
has [] k = false
has (j ∷ s) k = if j == k then true else has s k

-- s.add(k)
unfoldable pub add : List ℕ → ℕ → List ℕ
add [] k = k ∷ []
add (j ∷ s) k = if j == k then j ∷ s else j ∷ add s k

-- s.discard(k)
unfoldable pub discard : List ℕ → ℕ → List ℕ
discard [] k = []
discard (j ∷ s) k = let rest = discard s k in if j == k then rest else j ∷ rest

pub has-add : (k j : ℕ) (s : List ℕ) → has (add s k) j ≡ (if k == j then true else has s j)
unfolding has add
has-add k j [] = refl
has-add k j (i ∷ s) =
    ground (arith, nat_beq_iff k j, nat_beq_iff i k, nat_beq_iff i j, has-add k j s)

pub has-discard : (k j : ℕ) (s : List ℕ) → has (discard s k) j ≡ (if k == j then false else has s j)
unfolding has discard
has-discard k j [] = ground arith
has-discard k j (i ∷ s) =
    ground (arith, nat_beq_iff k j, nat_beq_iff i k, nat_beq_iff i j, has-discard k j s)
