-- ===== src/Runtime/Completion/Cache.antt =====
-- The outcomes that completion.py keeps, over any sequence of events.
use ftre.Prelude.{
  ℕ, suc, ◌+◌, ◌≤◌, ◌<◌, ◌≡◌, ◌≢◌, refl, ap, sym, subst, ◌∙◌, Bool, true, false, not, Option, none,
  some, List, [], ◌∷◌, ◌++◌, ◌==◌, Bool-cases, inl, inr, arith, leb, length, length-append, All,
  ne_==, ==_refl, ==_ne, one_if, append_assoc,
}
use ftre.Prelude.Map.{Map, find, erase, pair_key, length-erase}
use ftre.Runtime.Completion.{
  RequestKey, CompletionRegistry, complete, evict, cached_last, cache_limit, wait, wait_cached,
  resume, resume_at, close,
}

-- A call, or a coroutine that goes on, the n-th of those that wait.
pub data Event (O : Type 0) : Type 0 where
  complete_call : RequestKey → O → Event O
  wait_call : RequestKey → Event O
  resume_call : ℕ → Event O
  close_call : Event O

differ : (k j : RequestKey) → not (k == j) ≡ true → k ≢ j
differ k j h = elim (Bool-cases (k == j)) [
  | inl m ↦ let bad : false ≡ true = sym (rw m refl) ∙ h in cc
  | inr m ↦ ==_ne k j m
]

module _ {O : Type 0} where
  unfoldable pub perform : Event O → CompletionRegistry O → CompletionRegistry O
  perform (complete_call k o) c = complete k o c
  perform (wait_call k) c = (wait k c).1
  perform (resume_call n) c = resume n c
  perform close_call c = close c

  unfoldable pub perform_all : List (Event O) → CompletionRegistry O → CompletionRegistry O
  perform_all [] c = c
  perform_all (e ∷ es) c = perform_all es (perform e c)

  length-evict : (d : Map RequestKey O) → length (evict d) ≤ cache_limit
  length-evict [] = omega arith
  length-evict (x ∷ d) = ground (arith, length-evict d)

  cache-wait_cached :
      (o : Option O) (k : RequestKey) (c : CompletionRegistry O)
      → (wait_cached o k c).1.cache ≡ c.cache
  cache-wait_cached none k c = refl
  cache-wait_cached (some o) k c = refl

  cache-resume_at :
      (o : Option (RequestKey × ℕ)) (n : ℕ) (c : CompletionRegistry O)
      → (resume_at o n c).cache ≡ c.cache
  cache-resume_at none n c = refl
  cache-resume_at (some w) n c = refl

  length-perform :
      (e : Event O) (c : CompletionRegistry O)
      → length c.cache ≤ cache_limit
      → length (perform e c).cache ≤ cache_limit
  unfolding perform complete wait resume close
  length-perform (complete_call k o) c h = length-evict (cached_last c.cache k o)
  length-perform (wait_call k) c h =
      omega (arith, h, ap length (cache-wait_cached (find c.cache k) k c))
  length-perform (resume_call n) c h = omega (arith, h, ap length (cache-resume_at _ n c))
  length-perform close_call c h = omega arith

  -- From a registry whose cache is within its limit, whatever happens keeps it there.
  pub length-perform_all :
      (es : List (Event O)) (c : CompletionRegistry O)
      → length c.cache ≤ cache_limit
      → length (perform_all es c).cache ≤ cache_limit
  unfolding perform_all
  length-perform_all [] c h = h
  length-perform_all (e ∷ es) c h = length-perform_all es (perform e c) (length-perform e c h)

  -- The outcome is in the cache with at most n others behind it.
  record IsHeld (k : RequestKey) (o : O) (n : ℕ) (d : Map RequestKey O) : Type 0 where
    pub before : Map RequestKey O
    pub after : Map RequestKey O
    pub shape : d ≡ before ++ (k, o) ∷ after
    pub few : length after ≤ n
    pub apart : All (λ (x : RequestKey × O). x.0 ≢ k) before

  find-IsHeld :
      (k : RequestKey) (o : O) (n : ℕ) (d : Map RequestKey O) → IsHeld k o n d → find d k ≡ some o
  find-IsHeld k o n d h = ap (λ (x : Map RequestKey O). find x k) h.shape ∙ at h.before h.apart
    where
      at :
          (before : Map RequestKey O)
          → All (λ (x : RequestKey × O). x.0 ≢ k) before
          → find (before ++ (k, o) ∷ h.after) k ≡ some o
      at [] a = rw (==_refl k) refl
      at (x ∷ before) a = rw (ne_== x.0 k a.0) (at before a.1)

  IsHeld-evict :
      (k : RequestKey) (o : O) (n : ℕ) (d : Map RequestKey O)
      → n < cache_limit
      → IsHeld k o n d
      → IsHeld k o n (evict d)
  IsHeld-evict k o n d lt h =
      subst (λ x. IsHeld k o n (evict x)) (sym h.shape) (at h.before h.apart)
    where
      at :
          (before : Map RequestKey O)
          → All (λ (x : RequestKey × O). x.0 ≢ k) before
          → IsHeld k o n (evict (before ++ (k, o) ∷ h.after))
      at [] a =
          let fits : leb (suc (length h.after)) cache_limit ≡ true = ground (arith, lt, h.few) in
          rw fits (record { before = []; after = h.after; shape = refl; few = h.few; apart = tt })
      at (x ∷ before) a =
          elim (Bool-cases (leb (length ((x ∷ before) ++ (k, o) ∷ h.after)) cache_limit)) [
            | inl m ↦ rw m (record {
              before = x ∷ before;
              after = h.after;
              shape = refl;
              few = h.few;
              apart = a;
            })
            | inr m ↦ rw m (at before a.1)
          ]

  erase-append :
      (xs ys : Map RequestKey O) (j : RequestKey) → erase (xs ++ ys) j ≡ erase xs j ++ erase ys j
  erase-append [] ys j = refl
  erase-append (x ∷ xs) ys j = elim (Bool-cases (x.0 == j)) [
    | inl m ↦ rw m (erase-append xs ys j)
    | inr m ↦ rw m (ap (λ zs. x ∷ zs) (erase-append xs ys j))
  ]

  All-erase :
      (k j : RequestKey) (xs : Map RequestKey O)
      → All (λ (x : RequestKey × O). x.0 ≢ k) xs
      → All (λ (x : RequestKey × O). x.0 ≢ k) (erase xs j)
  All-erase k j [] a = tt
  All-erase k j (x ∷ xs) a = elim (Bool-cases (x.0 == j)) [
    | inl m ↦ rw m (All-erase k j xs a.1)
    | inr m ↦ rw m (a.0, All-erase k j xs a.1)
  ]

  IsHeld-cached_last :
      (k j : RequestKey) (o p : O) (n : ℕ) (d : Map RequestKey O)
      → k ≢ j
      → IsHeld k o n d
      → IsHeld k o (suc n) (cached_last d j p)
  IsHeld-cached_last k j o p n d ne h = record {
    before = erase h.before j;
    after = erase h.after j ++ (j, p) ∷ [];
    shape =
        ap (λ (x : Map RequestKey O). x ++ (j, p) ∷ [])
          (ap (λ (x : Map RequestKey O). erase x j) h.shape
            ∙ (erase-append h.before ((k, o) ∷ h.after) j ∙ rw (ne_== k j ne) refl))
        ∙ append_assoc (erase h.before j) ((k, o) ∷ erase h.after j) ((j, p) ∷ []);
    few =
        omega (arith, h.few, length-erase h.after j, length-append (erase h.after j) ((j, p) ∷ []));
    apart = All-erase k j h.before h.apart;
  }

  IsHeld-own :
      (k : RequestKey) (o : O) (d : Map RequestKey O) → IsHeld k o 0 (evict (cached_last d k o))
  IsHeld-own k o d =
      IsHeld-evict k o 0 (cached_last d k o) (omega arith)
        (record { before = erase d k; after = []; shape = refl; few = omega arith; apart = gone d })
    where
      gone : (d : Map RequestKey O) → All (λ (x : RequestKey × O). x.0 ≢ k) (erase d k)
      gone [] = tt
      gone (x ∷ d) = elim (Bool-cases (x.0 == k)) [
        | inl m ↦ rw m (gone d)
        | inr m ↦ rw m (==_ne x.0 k m, gone d)
      ]

  -- The event neither completes this request nor closes the registry.
  abbrev pub spares : RequestKey → Event O → Bool
  spares k (complete_call j o) = not (k == j)
  spares k (wait_call j) = true
  spares k (resume_call n) = true
  spares k close_call = false

  abbrev is_completion : Event O → Bool
  is_completion (complete_call j o) = true
  is_completion (wait_call j) = false
  is_completion (resume_call n) = false
  is_completion close_call = false

  -- How many requests are completed.
  unfoldable pub completions : List (Event O) → ℕ
  completions [] = 0
  completions (e ∷ es) = one_if (is_completion e) + completions es

  IsHeld-perform_all :
      (k : RequestKey) (o : O) (n : ℕ) (es : List (Event O)) (c : CompletionRegistry O)
      → All (λ e. spares k e ≡ true) es
      → n + completions es < cache_limit
      → IsHeld k o n c.cache
      → IsHeld k o (n + completions es) (perform_all es c).cache
  unfolding perform_all perform completions complete wait resume
  IsHeld-perform_all k o n [] c s lt h = subst (λ m. IsHeld k o m c.cache) (omega arith) h
  IsHeld-perform_all k o n (complete_call j p ∷ es) c s lt h =
      subst (λ m. IsHeld k o m (perform_all es (complete j p c)).cache) (omega arith)
        (IsHeld-perform_all k o (suc n) es (complete j p c) s.1 (omega (arith, lt)) (
          IsHeld-evict k o (suc n) (cached_last c.cache j p) (omega (arith, lt))
            (IsHeld-cached_last k j o p n c.cache (differ k j s.0) h)))
  IsHeld-perform_all k o n (wait_call j ∷ es) c s lt h =
      subst (λ m. IsHeld k o m (perform_all es (wait j c).1).cache) (omega arith)
        (IsHeld-perform_all k o n es (wait j c).1 s.1 (omega (arith, lt))
          (subst (IsHeld k o n) (sym (cache-wait_cached (find c.cache j) j c)) h))
  IsHeld-perform_all k o n (resume_call i ∷ es) c s lt h =
      subst (λ m. IsHeld k o m (perform_all es (resume i c)).cache) (omega arith)
        (IsHeld-perform_all k o n es (resume i c) s.1 (omega (arith, lt))
          (subst (IsHeld k o n) (sym (cache-resume_at _ i c)) h))
  IsHeld-perform_all k o n (close_call ∷ es) c s lt h = cc

  found_at :
      (o : O) (r : Option O) (k : RequestKey) (c : CompletionRegistry O)
      → r ≡ some o
      → (wait_cached r k c).0 ≡ some o
  found_at o none k c e = cc
  found_at o (some p) k c e = e

  -- A request that was completed, in whatever state, is answered at once to who waits for it later,
  -- with its outcome, as long as fewer than 256 other requests were completed since, it was not
  -- completed again and the registry was not closed.
  pub complete-wait :
      (k : RequestKey) (o : O) (es : List (Event O)) (c : CompletionRegistry O)
      → All (λ e. spares k e ≡ true) es
      → completions es < cache_limit
      → (wait k (perform_all es (complete k o c))).0 ≡ some o
  unfolding wait complete
  complete-wait k o es c s lt =
      let held =
        IsHeld-perform_all k o 0 es (complete k o c) s (omega (arith, lt))
          (IsHeld-own k o c.cache) in
      found_at o _ k _ (find-IsHeld k o _ _ held)
