-- ===== src/Prelude/Dict/Keys.antt =====
-- The keys of a dict, in the order of their first assignment.
use Prim.Native.String.{String}
use mathlib.Core.Path.{◌≡◌, refl, ap, sym, subst, ◌∙◌}
use mathlib.Core.Logic.{◌≢◌, inl, inr}
use mathlib.Core.List.{List, [], ◌∷◌, ◌++◌}
use mathlib.Core.Option.{none, some, some-injective}
use ftre.Prelude.Tests.{◌==◌, String_key, Bool-cases, ==_eq, ==_ne, ne_==, ==_refl}
use ftre.Prelude.Lists.{All}
use ftre.Prelude.Options.{traverse}
use ftre.Prelude.Dict.{Dict, get, put}

-- No text stands twice.
abbrev pub Apart : List String → Type 0
Apart [] = Unit
Apart (x ∷ xs) = All (λ y. y ≢ x) xs × Apart xs

pub Apart-append_last :
    (xs : List String) (k : String) → Apart xs → All (λ y. y ≢ k) xs → Apart (xs ++ k ∷ [])
Apart-append_last [] k a n = (tt, tt)
Apart-append_last (x ∷ xs) k a n = (behind xs a.0, Apart-append_last xs k a.1 n.1)
  where
    behind : (ys : List String) → All (λ y. y ≢ x) ys → All (λ y. y ≢ x) (ys ++ k ∷ [])
    behind [] h = ((λ e. n.0 (sym e)), tt)
    behind (y ∷ ys) h = (h.0, behind ys h.1)

module _ {ℓ} {V : Type ℓ} where
  abbrev pub keys : Dict V → List String
  keys [] = []
  keys ((k, v) ∷ d) = k ∷ keys d

  abbrev pub values : Dict V → List V
  values [] = []
  values ((k, v) ∷ d) = v ∷ values d

  pub keys-put_new :
      (d : Dict V) (k : String) (v : V) → get d k ≡ none → keys (put d k v) ≡ keys d ++ k ∷ []
  unfolding get put
  keys-put_new [] k v e = refl
  keys-put_new ((j, w) ∷ d) k v e = elim (Bool-cases (j == k)) [
    | inl m ↦ let bad : some w ≡ none = sym (rw m) ∙ e in cc
    | inr m ↦ rw m (ap (λ (t : List String). j ∷ t) (keys-put_new d k v (sym (rw m) ∙ e)))
  ]

  pub keys-put_old :
      (d : Dict V) (k : String) (v w : V) → get d k ≡ some w → keys (put d k v) ≡ keys d
  unfolding get put
  keys-put_old [] k v w e = cc
  keys-put_old ((j, u) ∷ d) k v w e = elim (Bool-cases (j == k)) [
    | inl m ↦ rw m refl
    | inr m ↦ rw m (ap (λ (t : List String). j ∷ t) (keys-put_old d k v w (sym (rw m) ∙ e)))
  ]

  pub absent : (d : Dict V) (k : String) → get d k ≡ none → All (λ y. y ≢ k) (keys d)
  unfolding get
  absent [] k e = tt
  absent ((j, w) ∷ d) k e = elim (Bool-cases (j == k)) [
    | inl m ↦ let bad : some w ≡ none = sym (rw m) ∙ e in cc
    | inr m ↦ (==_ne j k m, absent d k (sym (rw m) ∙ e))
  ]

  get_head : (d : Dict V) (k : String) (v : V) → get ((k, v) ∷ d) k ≡ some v
  unfolding get
  get_head d k v = rw (==_refl k) refl

  get_tail : (d : Dict V) (k j : String) (v : V) → j ≢ k → get ((k, v) ∷ d) j ≡ get d j
  unfolding get
  get_tail d k j v n = rw (ne_== k j (λ e. n (sym e))) refl

  -- Where the keys differ, they read the values in order.
  pub traverse-get : (d : Dict V) → Apart (keys d) → traverse (get d) (keys d) ≡ some (values d)
  traverse-get [] a = refl
  traverse-get ((k, v) ∷ d) a =
      let first : get ((k, v) ∷ d) k ≡ some v = get_head d k v in
      rw (first, same (keys d) a.0, traverse-get d a.1)
    where
      same :
          (ks : List String)
          → All (λ y. y ≢ k) ks
          → traverse (get ((k, v) ∷ d)) ks ≡ traverse (get d) ks
      same [] h = refl
      same (j ∷ ks) h =
          let other : get ((k, v) ∷ d) j ≡ get d j = get_tail d k j v h.0 in rw (other, same ks h.1)

  module _ {κ} (P : String → V → Type κ) where
    abbrev pub AllEntries : Dict V → Type κ
    AllEntries [] = Unit
    AllEntries ((k, v) ∷ d) = P k v × AllEntries d

    pub AllEntries-put :
        (d : Dict V) (k : String) (v : V) → AllEntries d → P k v → AllEntries (put d k v)
    unfolding put
    AllEntries-put [] k v h p = (p, tt)
    AllEntries-put ((j, w) ∷ d) k v h p = elim (Bool-cases (j == k)) [
      | inl m ↦ rw m (rw (==_eq j k m) p, h.1)
      | inr m ↦ rw m (h.0, AllEntries-put d k v h.1 p)
    ]

    pub AllEntries-get : (d : Dict V) (k : String) (v : V) → get d k ≡ some v → AllEntries d → P k v
    unfolding get
    AllEntries-get [] k v e h = cc
    AllEntries-get ((j, w) ∷ d) k v e h = elim (Bool-cases (j == k)) [
      | inl m ↦
          subst (λ x. P k x) (some-injective _ _ (sym (rw m) ∙ e))
            (subst (λ x. P x w) (==_eq j k m) h.0)
      | inr m ↦ AllEntries-get d k v (sym (rw m) ∙ e) h.1
    ]
