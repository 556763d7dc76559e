-- ===== src/Runtime/Completion/Woken.antt =====
-- The coroutines that wait in completion.py and the futures in the lists of their requests.
pub mod Run
use ftre.Prelude.{
  ℕ, suc, zero, ◌+◌, ◌≤◌, ◌<◌, ◌≡◌, ◌≢◌, ◌⊎◌, refl, ap, sym, subst, ◌∙◌, Bool, true, false, ◌||◌,
  Option, none, some, List, [], ◌∷◌, ◌++◌, if◌then◌else◌, ◌==◌, ℕ_key, Bool-cases, inl, inr, arith,
  All, All-map, ne_==, ==_refl, ==_eq, ==_ne, get_elem?, pop_at, contains, nat_beq_iff, if-elim,
}
use mathlib.Core.Option.{some-injective}
use ftre.Prelude.Order.Sorted.{All-pop_at, All-get}
use ftre.Prelude.Table.{Table, lookup, assign, lookup-assign}
use ftre.Prelude.Map.{
  Map, find, store, erase, pair_key, find-store_same, find-store_other, find-erase_other,
  find-erase_same,
}
use ftre.Runtime.Completion.{
  RequestKey, CompletionRegistry, Answer, outcome, closed, or_none_wait, answer_one, answer_all,
  complete, wait, wait_cached, removed, keep_rest, leave_list, resume, resume_at, all_futures,
  close, new_registry,
}
use ftre.Runtime.Completion.Cache.{
  Event, complete_call, wait_call, resume_call, close_call, perform, perform_all,
}

pub contains-append : (f : ℕ) (xs ys : List ℕ) → contains f xs ≡ true → contains f (xs ++ ys) ≡ true
contains-append f [] ys h = cc
contains-append f (x ∷ xs) ys h = ground (arith, contains-append f xs ys)

pub contains-append_right :
    (f : ℕ) (xs ys : List ℕ) → contains f ys ≡ true → contains f (xs ++ ys) ≡ true
contains-append_right f [] ys h = h
contains-append_right f (x ∷ xs) ys h = ground (arith, contains-append_right f xs ys h)

pub contains-removed :
    (f g : ℕ) (xs : List ℕ) → f ≢ g → contains f xs ≡ true → contains f (removed g xs) ≡ true
contains-removed f g [] n h = cc
contains-removed f g (x ∷ xs) n h = elim (Bool-cases (x == g)) [
  | inl m ↦
      let other : (x == f) ≡ false = ne_== x f (λ p. n (sym p ∙ ==_eq x g m)) in
      rw m (sym (rw other refl) ∙ h)
  | inr m ↦ rw m (ground (arith, contains-removed f g xs n, h))
]

-- No two coroutines wait for one future.
abbrev pub Apart : List (RequestKey × ℕ) → Type 0
Apart [] = Unit
Apart (w ∷ ws) = All (λ (v : RequestKey × ℕ). v.1 ≢ w.1) ws × Apart ws

pub Apart-pop_at : (ws : List (RequestKey × ℕ)) (n : ℕ) → Apart ws → Apart (pop_at ws n)
Apart-pop_at [] n h = h
Apart-pop_at (w ∷ ws) zero h = h.1
Apart-pop_at (w ∷ ws) (suc n) h = (All-pop_at _ ws n h.0, Apart-pop_at ws n h.1)

pub others :
    (ws : List (RequestKey × ℕ)) (n : ℕ) (w : RequestKey × ℕ)
    → get_elem? ws n ≡ some w
    → Apart ws
    → All (λ (v : RequestKey × ℕ). v.1 ≢ w.1) (pop_at ws n)
others [] n w e h = cc
others (v ∷ ws) zero w e h =
    subst (λ (u : RequestKey × ℕ). All (λ (v : RequestKey × ℕ). v.1 ≢ u.1) ws)
      (some-injective _ _ e) h.0
others (v ∷ ws) (suc n) w e h =
    ((λ p. All-get (λ (u : RequestKey × ℕ). u.1 ≢ v.1) ws n e h.0 (sym p)), others ws n w e h.1)

pub contains-all_futures :
    (waiters : Map RequestKey (List ℕ)) (k : RequestKey) (f : ℕ)
    → contains f (or_none_wait (find waiters k)) ≡ true
    → contains f (all_futures waiters) ≡ true
contains-all_futures [] k f h = cc
contains-all_futures (x ∷ d) k f h = elim (Bool-cases (x.0 == k)) [
  | inl m ↦ contains-append f x.1 (all_futures d) (sym (rw m refl) ∙ h)
  | inr m ↦
      contains-append_right f x.1 (all_futures d) (contains-all_futures d k f (sym (rw m refl) ∙ h))
]

module _ {O : Type 0} where
  -- The future has its answer.
  abbrev pub IsDone : Table (Answer O) → ℕ → Type 0
  IsDone answers f = (a : Answer O) × (lookup answers f ≡ some a)

  pub IsDone-one :
      (o : Option (Answer O)) (f g : ℕ) (a : Answer O) (answers : Table (Answer O))
      → IsDone answers g
      → IsDone (answer_one o f a answers) g
  IsDone-one (some old) f g a answers h = h
  IsDone-one none f g a answers (old, e) = elim (Bool-cases (f == g)) [
    | inl m ↦ (a, lookup-assign f g a answers ∙ rw m)
    | inr m ↦ (old, lookup-assign f g a answers ∙ (rw m refl ∙ e))
  ]

  pub IsDone-own :
      (o : Option (Answer O)) (f : ℕ) (a : Answer O) (answers : Table (Answer O))
      → lookup answers f ≡ o
      → IsDone (answer_one o f a answers) f
  IsDone-own (some old) f a answers e = (old, e)
  IsDone-own none f a answers e = (a, lookup-assign f f a answers ∙ rw (==_refl f))

  pub IsDone-answer_all :
      (fs : List ℕ) (g : ℕ) (a : Answer O) (answers : Table (Answer O))
      → IsDone answers g
      → IsDone (answer_all fs a answers) g
  unfolding answer_all
  IsDone-answer_all [] g a answers h = h
  IsDone-answer_all (f ∷ fs) g a answers h =
      IsDone-answer_all fs g a _ (IsDone-one (lookup answers f) f g a answers h)

  pub answer_all-IsDone :
      (fs : List ℕ) (g : ℕ) (a : Answer O) (answers : Table (Answer O))
      → contains g fs ≡ true
      → IsDone (answer_all fs a answers) g
  unfolding answer_all
  answer_all-IsDone [] g a answers h = cc
  answer_all-IsDone (f ∷ fs) g a answers h = elim (Bool-cases (f == g)) [
    | inl m ↦ IsDone-answer_all fs g a _ (
        subst (IsDone (answer_one (lookup answers f) f a answers)) (==_eq f g m)
          (IsDone-own (lookup answers f) f a answers refl))
    | inr m ↦ answer_all-IsDone fs g a _ (sym (rw m refl) ∙ h)
  ]

  -- The coroutine has its answer, or the list of its request has its future.
  abbrev pub IsFound : Map RequestKey (List ℕ) → Table (Answer O) → RequestKey × ℕ → Type 0
  IsFound waiters answers w =
      IsDone answers w.1 ⊎ (contains w.1 (or_none_wait (find waiters w.0)) ≡ true)

  pub IsFound-complete :
      (k : RequestKey) (a : Answer O) (waiters : Map RequestKey (List ℕ))
      (answers : Table (Answer O)) (w : RequestKey × ℕ)
      → IsFound waiters answers w
      → IsFound (erase waiters k) (answer_all (or_none_wait (find waiters k)) a answers) w
  IsFound-complete k a waiters answers w (inl d) = inl (IsDone-answer_all _ w.1 a answers d)
  IsFound-complete k a waiters answers w (inr h) = elim (Bool-cases (k == w.0)) [
    | inl m ↦ inl (
        answer_all-IsDone _ w.1 a answers (
          subst (λ j. contains w.1 (or_none_wait (find waiters j)) ≡ true) (sym (==_eq k w.0 m)) h))
    | inr m ↦ inr (
        ap (λ o. contains w.1 (or_none_wait o)) (find-erase_other waiters k w.0 (==_ne k w.0 m))
        ∙ h)
  ]

  pub IsFound-store :
      (k : RequestKey) (fs : List ℕ) (waiters : Map RequestKey (List ℕ))
      (answers : Table (Answer O)) (w : RequestKey × ℕ)
      → (w.0 ≡ k → contains w.1 (or_none_wait (find waiters k)) ≡ true → contains w.1 fs ≡ true)
      → IsFound waiters answers w
      → IsFound (store waiters k fs) answers w
  IsFound-store k fs waiters answers w f (inl d) = inl d
  IsFound-store k fs waiters answers w f (inr h) = elim (Bool-cases (k == w.0)) [
    | inl m ↦
        let p : k ≡ w.0 = ==_eq k w.0 m in
        inr (
          subst (λ j. contains w.1 (or_none_wait (find (store waiters k fs) j)) ≡ true) p
            (ap (λ o. contains w.1 (or_none_wait o)) (find-store_same waiters k fs)
              ∙ f (sym p)
                  (subst (λ j. contains w.1 (or_none_wait (find waiters j)) ≡ true) (sym p) h)))
    | inr m ↦ inr (
        ap (λ o. contains w.1 (or_none_wait o)) (find-store_other waiters k w.0 fs (==_ne k w.0 m))
        ∙ h)
  ]

  pub IsFound-keep_rest :
      (k : RequestKey) (fs : List ℕ) (waiters : Map RequestKey (List ℕ))
      (answers : Table (Answer O)) (w : RequestKey × ℕ)
      → (w.0 ≡ k → contains w.1 (or_none_wait (find waiters k)) ≡ true → contains w.1 fs ≡ true)
      → IsFound waiters answers w
      → IsFound (keep_rest fs k waiters) answers w
  IsFound-keep_rest k [] waiters answers w f (inl d) = inl d
  IsFound-keep_rest k [] waiters answers w f (inr h) = elim (Bool-cases (k == w.0)) [
    | inl m ↦
        let p : k ≡ w.0 = ==_eq k w.0 m in
        let bad : false ≡ true =
          f (sym p) (subst (λ j. contains w.1 (or_none_wait (find waiters j)) ≡ true) (sym p) h) in
        cc
    | inr m ↦ inr (
        ap (λ o. contains w.1 (or_none_wait o)) (find-erase_other waiters k w.0 (==_ne k w.0 m))
        ∙ h)
  ]
  IsFound-keep_rest k (x ∷ fs) waiters answers w f h =
      IsFound-store k (x ∷ fs) waiters answers w f h

  pub IsFound-leave_list :
      (o : Option (List ℕ)) (k : RequestKey) (g : ℕ) (waiters : Map RequestKey (List ℕ))
      (answers : Table (Answer O)) (w : RequestKey × ℕ)
      → find waiters k ≡ o
      → w.1 ≢ g
      → IsFound waiters answers w
      → IsFound (leave_list o k g waiters) answers w
  IsFound-leave_list none k g waiters answers w e n h = h
  IsFound-leave_list (some []) k g waiters answers w e n h = h
  IsFound-leave_list (some (x ∷ fs)) k g waiters answers w e n h =
      if-elim (λ (d : Map RequestKey (List ℕ)). IsFound d answers w) (contains g (x ∷ fs))
        (IsFound-keep_rest k (removed g (x ∷ fs)) waiters answers w
          (λ p c.
            contains-removed w.1 g (x ∷ fs) n
              (subst (λ r. contains w.1 (or_none_wait r) ≡ true) e c))
          h)
        h

  pub IsFound-closed :
      (waiters : Map RequestKey (List ℕ)) (answers : Table (Answer O)) (w : RequestKey × ℕ)
      → IsFound waiters answers w
      → IsDone (answer_all (all_futures waiters) closed answers) w.1
  IsFound-closed waiters answers w (inl d) = IsDone-answer_all _ w.1 closed answers d
  IsFound-closed waiters answers w (inr h) =
      answer_all-IsDone _ w.1 closed answers (contains-all_futures waiters w.0 w.1 h)
