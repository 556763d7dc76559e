-- ===== src/Hooks/Ranked.antt =====
-- The order numbers of listeners in runtime.py.
pub mod Run
use ftre.Prelude.{
  ℕ, zero, suc, ◌+◌, ◌<◌, ◌≤◌, String, ◌≡◌, ◌≢◌, refl, ap, sym, subst, ◌∙◌, Bool, true, false,
  Option, none, some, List, [], ◌∷◌, ◌++◌, ◌==◌, ℕ_key, String_key, Bool-cases, inl, inr, arith,
  get_elem?, alter, length, if◌then◌else◌, if-elim, ==_eq, ==_ne, All, All-map, map,
  get_elem?-alter, get_elem?-alter_other, get_elem?-append_some, get_elem?-map, nat_beq_iff,
}
use mathlib.Core.Option.{some-injective}
use ftre.Prelude.Dict.{get, put, get-put}
use ftre.Hooks.{Registration}
use ftre.Hooks.Register.{remaining, is_gone}
use ftre.Hooks.Steady.{Standing, standing, later_standing, shift_standings}

-- The list's registrations have the orders n, n + 1 and so on.
abbrev pub Ranked : List Standing → ℕ → List ℕ → Type 0
Ranked ss n [] = Unit
Ranked ss n (i ∷ is) =
    ((s : Standing) × (get_elem? ss i ≡ some s) × (s.order ≡ n)) × Ranked ss (suc n) is

-- What stands earlier is another registration.
apart :
    (ss : List Standing) (is : List ℕ) (n i : ℕ) (s : Standing)
    → get_elem? ss i ≡ some s
    → s.order < n
    → Ranked ss n is
    → All (λ j. i ≢ j) is
apart ss [] n i s e lt h = tt
apart ss (j ∷ is) n i s e lt h = (
  (λ p.
      let same : s ≡ h.0.0 = some-injective _ _ (sym e ∙ (ap (get_elem? ss) p ∙ h.0.1)) in
      omega (arith, lt, ap Standing.order same, h.0.2)),
  apart ss is (suc n) i s e (omega (arith, lt)) h.1,
)

Ranked-alter_other :
    (ss : List Standing) (i : ℕ) (f : Standing → Standing) (n : ℕ) (is : List ℕ)
    → All (λ j. i ≢ j) is
    → Ranked ss n is
    → Ranked (alter ss i f) n is
Ranked-alter_other ss i f n [] a h = tt
Ranked-alter_other ss i f n (j ∷ is) a h = (
  (h.0.0, get_elem?-alter_other ss i j f a.0 ∙ h.0.1, h.0.2),
  Ranked-alter_other ss i f (suc n) is a.1 h.1,
)

get_elem?-shift_other :
    (is : List ℕ) (ss : List Standing) (j : ℕ)
    → All (λ i. j ≢ i) is
    → get_elem? (shift_standings is ss) j ≡ get_elem? ss j
get_elem?-shift_other [] ss j a = refl
get_elem?-shift_other (i ∷ is) ss j a =
    get_elem?-shift_other is (alter ss i later_standing) j a.1
    ∙ get_elem?-alter_other ss i j later_standing (λ p. a.0 (sym p))

-- Behind a registration that is put first, all others move by one.
pub Ranked-shift :
    (is : List ℕ) (ss : List Standing) (n : ℕ)
    → Ranked ss n is
    → Ranked (shift_standings is ss) (suc n) is
Ranked-shift [] ss n h = tt
Ranked-shift (i ∷ is) ss n h =
    let away : All (λ j. i ≢ j) is = apart ss is (suc n) i h.0.0 h.0.1 (omega (arith, h.0.2)) h.1 in
    (
      (
        later_standing h.0.0,
        get_elem?-shift_other is (alter ss i later_standing) i away
            ∙ get_elem?-alter ss i later_standing h.0.0 h.0.1,
        ap suc h.0.2,
      ),
      Ranked-shift is (alter ss i later_standing) (suc n)
          (Ranked-alter_other ss i later_standing (suc n) is away h.1),
    )

-- The registrations of another hook stay where they are.
pub Ranked-shift_other :
    (js : List ℕ) (ss : List Standing) (n : ℕ) (is : List ℕ)
    → All (λ i. All (λ j. i ≢ j) js) is
    → Ranked ss n is
    → Ranked (shift_standings js ss) n is
Ranked-shift_other js ss n [] a h = tt
Ranked-shift_other js ss n (i ∷ is) a h = (
  (h.0.0, get_elem?-shift_other js ss i a.0 ∙ h.0.1, h.0.2),
  Ranked-shift_other js ss (suc n) is a.1 h.1,
)

pub Ranked-append :
    (ss ts : List Standing) (n : ℕ) (is : List ℕ) → Ranked ss n is → Ranked (ss ++ ts) n is
Ranked-append ss ts n [] h = tt
Ranked-append ss ts n (i ∷ is) h =
    ((h.0.0, get_elem?-append_some ss ts i h.0.0 h.0.1, h.0.2), Ranked-append ss ts (suc n) is h.1)

pub Ranked-append_last :
    (ss : List Standing) (n : ℕ) (is : List ℕ) (i : ℕ) (s : Standing)
    → get_elem? ss i ≡ some s
    → s.order ≡ n + length is
    → Ranked ss n is
    → Ranked ss n (is ++ i ∷ [])
Ranked-append_last ss n [] i s e o h = ((s, e, omega (arith, o)), tt)
Ranked-append_last ss n (j ∷ is) i s e o h =
    (h.0, Ranked-append_last ss (suc n) is i s e (omega (arith, o)) h.1)

-- Where no fiber has ended, all entries remain.
pub remaining-all :
    (objects : List Registration) (is : List ℕ)
    → All (λ (s : Standing). s.gone ≡ false) (map standing objects)
    → remaining objects is ≡ is
remaining-all objects [] h = refl
remaining-all objects (i ∷ is) h =
    rw (here objects i h) (ap (λ js. i ∷ js) (remaining-all objects is h))
  where
    here :
        (os : List Registration) (i : ℕ)
        → All (λ (s : Standing). s.gone ≡ false) (map standing os)
        → is_gone (get_elem? os i) ≡ false
    here [] i h = refl
    here (r ∷ os) zero h = h.0
    here (r ∷ os) (suc i) h = here os i h.1
