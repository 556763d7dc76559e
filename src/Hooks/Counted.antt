-- ===== src/Hooks/Counted.antt =====
-- The calls in flight and the counters of the registrations in runtime.py.
mod Steps
pub mod Stuck
use ftre.Prelude.{
  ℕ, suc, ◌+◌, ◌≤◌, ◌<◌, String, ◌≡◌, ◌≢◌, refl, sym, subst, ◌∙◌, Bool, true, false, Option, none,
  some, List, [], ◌∷◌, ◌++◌, ◌==◌, ℕ_key, Bool-cases, inl, inr, arith, get_elem?, alter, pop_at,
  length, count, one_if, count-pop_at, length-alter, length-append, get_elem?-alter_cases,
  get_elem?-append_last_cases, get_elem?-lt, nat_beq_iff,
}
use ftre.Hooks.{HookRuntime, Registration}
use ftre.Hooks.Register.{later, shift, receipt_used, ended}
use ftre.Hooks.Calls.{counted, release_call, once_over}

-- A registration that counts k calls: its barrier is open where there is none.
abbrev pub Counts : ℕ → Registration → Type 0
Counts k r = (r.active_calls ≡ k) × (r.drained ≡ (k == 0))

-- Each registration counts as many calls as `n` says of its number.
pub record IsFit (n : ℕ → ℕ) (objects : List Registration) : Type 0 where
  pub each : (i : ℕ) (r : Registration) → get_elem? objects i ≡ some r → Counts (n i) r
  pub fresh : (i : ℕ) → length objects ≤ i → n i ≡ 0

pub IsFit-same :
    (n m : ℕ → ℕ) (objects : List Registration)
    → ((i : ℕ) → n i ≡ m i)
    → IsFit n objects
    → IsFit m objects
IsFit-same n m objects e h = record {
  each = λ i r g. subst (λ k. Counts k r) (e i) (h.each i r g);
  fresh = λ i le. sym (e i) ∙ h.fresh i le;
}

-- One registration changes with its number's calls.
pub IsFit-alter :
    (n m : ℕ → ℕ) (objects : List Registration) (i : ℕ) (f : Registration → Registration)
    → ((j : ℕ) → i ≢ j → n j ≡ m j)
    → ((r : Registration) → Counts (n i) r → Counts (m i) (f r))
    → (length objects ≤ i → m i ≡ 0)
    → IsFit n objects
    → IsFit m (alter objects i f)
IsFit-alter n m objects i f others step out h = record {
  each = λ j r g. elim (get_elem?-alter_cases objects i j f r g) [
    | inl (p, q, e, s) ↦
        subst (λ k. Counts (m k) r) p
          (subst (Counts (m i)) (sym s)
            (step q (h.each i q (subst (λ k. get_elem? objects k ≡ some q) (sym p) e))))
    | inr (ne, e) ↦ subst (λ k. Counts k r) (others j ne) (h.each j r e)
  ];
  fresh = λ j le.
      let short : length objects ≤ j = omega (arith, le, length-alter objects i f) in
      elim (Bool-cases (i == j)) [
        | inl e ↦
            let p : i ≡ j = (nat_beq_iff i j).0 e in
            subst (λ k. m k ≡ 0) p (out (subst (λ k. length objects ≤ k) (sym p) short))
        | inr e ↦ sym (others j (λ p. cc ((nat_beq_iff i j).1 p))) ∙ h.fresh j short
      ];
}

-- A change that leaves the counter and the barrier alone.
pub IsFit-kept :
    (n : ℕ → ℕ) (objects : List Registration) (i : ℕ) (f : Registration → Registration)
    → ((r : Registration) → ((f r).active_calls ≡ r.active_calls) × ((f r).drained ≡ r.drained))
    → IsFit n objects
    → IsFit n (alter objects i f)
IsFit-kept n objects i f same h =
    IsFit-alter n n objects i f (λ j ne. refl) (λ r c. ((same r).0 ∙ c.0, (same r).1 ∙ c.1))
      (h.fresh i) h

pub IsFit-shift :
    (n : ℕ → ℕ) (is : List ℕ) (objects : List Registration)
    → IsFit n objects
    → IsFit n (shift is objects)
IsFit-shift n [] objects h = h
IsFit-shift n (i ∷ is) objects h =
    IsFit-shift n is (alter objects i later) (IsFit-kept n objects i later (λ r. (refl, refl)) h)

pub IsFit-append :
    (n : ℕ → ℕ) (objects : List Registration) (r : Registration)
    → Counts 0 r
    → IsFit n objects
    → IsFit n (objects ++ r ∷ [])
IsFit-append n objects r c h = record {
  each = λ i q g. elim (get_elem?-append_last_cases objects r i q g) [
    | inl e ↦ h.each i q e
    | inr (p, e) ↦
        let zero_calls : n i ≡ 0 = h.fresh i (omega (arith, p)) in
        subst (Counts (n i)) (sym e) (subst (λ k. Counts k r) (sym zero_calls) c)
  ];
  fresh = λ i le. h.fresh i (omega (arith, le, length-append objects (r ∷ [])));
}

pub Counts-counted : (k : ℕ) (r : Registration) → Counts k r → Counts (suc k) (counted r)
Counts-counted k r c = ground (arith, c.0, c.1)

pub Counts-release_call : (k : ℕ) (r : Registration) → Counts (suc k) r → Counts k (release_call r)
unfolding release_call
Counts-release_call k r c = ground (arith, c.0, c.1)
