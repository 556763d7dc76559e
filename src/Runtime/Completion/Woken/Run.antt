-- ===== src/Runtime/Completion/Woken/Run.antt =====
-- The coroutines that wait in completion.py, over any sequence of events.
use ftre.Prelude.{
  ℕ, ◌<◌, ◌≡◌, ◌≢◌, refl, ap, sym, ◌∙◌, true, false, Option, none, some, List, [], ◌∷◌, ◌++◌, ℕ_key,
  inl, inr, arith, All, All-map, get_elem?, pop_at, contains, nat_beq_iff,
}
use ftre.Prelude.Order.Sorted.{All-pop_at, All-get}
use ftre.Prelude.Map.{find, pair_key, find-store_same, find-erase_same}
use ftre.Runtime.Completion.{
  RequestKey, CompletionRegistry, outcome, or_none_wait, complete, wait, wait_cached, leave_list,
  resume, resume_at, close, new_registry,
}
use ftre.Runtime.Completion.Cache.{
  Event, complete_call, wait_call, resume_call, close_call, perform, perform_all,
}
use ftre.Runtime.Completion.Woken.{
  contains-append, contains-append_right, Apart, Apart-pop_at, others, IsDone, IsFound,
  IsFound-complete, IsFound-store, IsFound-leave_list, IsFound-closed,
}

module _ {O : Type 0} where
  record IsSound (c : CompletionRegistry O) : Type 0 where
    pub reach : All (IsFound c.waiters c.answers) c.waiting
    pub fresh : All (λ (w : RequestKey × ℕ). w.1 < c.next_future) c.waiting
    pub apart : Apart c.waiting

  IsSound-wait :
      (o : Option O) (k : RequestKey) (c : CompletionRegistry O)
      → IsSound c
      → IsSound (wait_cached o k c).1
  IsSound-wait (some o) k c h = record { reach = h.reach; fresh = h.fresh; apart = h.apart }
  IsSound-wait none k c h =
      let old : List ℕ = or_none_wait (find c.waiters k) in
      record {
        reach = (
          inr (
              ap (λ o. contains c.next_future (or_none_wait o)) (find-store_same c.waiters k _)
              ∙ contains-append_right c.next_future old (c.next_future ∷ [])
                  (ground (arith, nat_beq_iff c.next_future c.next_future))),
          All-map _ _
              (λ w r.
                IsFound-store k (old ++ c.next_future ∷ []) c.waiters c.answers w
                  (λ p g. contains-append w.1 old (c.next_future ∷ []) g) r)
              c.waiting h.reach,
        );
        fresh = (omega arith, All-map _ _ (λ w lt. omega (arith, lt)) c.waiting h.fresh);
        apart = (All-map _ _ (λ w lt p. omega (arith, lt, p)) c.waiting h.fresh, h.apart);
      }

  IsSound-resume_at :
      (o : Option (RequestKey × ℕ)) (n : ℕ) (c : CompletionRegistry O)
      → get_elem? c.waiting n ≡ o
      → IsSound c
      → IsSound (resume_at o n c)
  IsSound-resume_at none n c e h = h
  IsSound-resume_at (some (k, f)) n c e h = record {
    reach =
        still (pop_at c.waiting n) (others c.waiting n (k, f) e h.apart)
          (All-pop_at _ c.waiting n h.reach);
    fresh = All-pop_at _ c.waiting n h.fresh;
    apart = Apart-pop_at c.waiting n h.apart;
  }
    where
      still :
          (ws : List (RequestKey × ℕ))
          → All (λ (w : RequestKey × ℕ). w.1 ≢ f) ws
          → All (IsFound c.waiters c.answers) ws
          → All (IsFound (leave_list (find c.waiters k) k f c.waiters) c.answers) ws
      still [] a r = tt
      still (w ∷ ws) a r = (
        IsFound-leave_list (find c.waiters k) k f c.waiters c.answers w refl a.0 r.0,
        still ws a.1 r.1,
      )

  IsSound-perform : (e : Event O) (c : CompletionRegistry O) → IsSound c → IsSound (perform e c)
  unfolding perform complete wait resume close
  IsSound-perform (complete_call k o) c h = record {
    reach =
        All-map _ _ (λ w r. IsFound-complete k (outcome o) c.waiters c.answers w r) c.waiting
          h.reach;
    fresh = h.fresh;
    apart = h.apart;
  }
  IsSound-perform (wait_call k) c h = IsSound-wait (find c.cache k) k c h
  IsSound-perform (resume_call n) c h = IsSound-resume_at (get_elem? c.waiting n) n c refl h
  IsSound-perform close_call c h = record {
    reach = All-map _ _ (λ w r. inl (IsFound-closed c.waiters c.answers w r)) c.waiting h.reach;
    fresh = h.fresh;
    apart = h.apart;
  }

  IsSound-perform_all :
      (es : List (Event O)) (c : CompletionRegistry O) → IsSound c → IsSound (perform_all es c)
  unfolding perform_all
  IsSound-perform_all [] c h = h
  IsSound-perform_all (e ∷ es) c h = IsSound-perform_all es (perform e c) (IsSound-perform e c h)

  new_registry-IsSound : IsSound new_registry
  unfolding new_registry
  new_registry-IsSound = record { reach = tt; fresh = tt; apart = tt }

  -- Whatever happened to a registry: a coroutine that still waits for a request has its answer once
  -- the request is completed, and once the registry is closed.
  pub complete-IsDone :
      (es : List (Event O)) (n : ℕ) (k : RequestKey) (f : ℕ) (o : O)
      → get_elem? (perform_all es new_registry).waiting n ≡ some (k, f)
      → IsDone (complete k o (perform_all es new_registry)).answers f
        × IsDone (close (perform_all es new_registry)).answers f
  unfolding complete close
  complete-IsDone es n k f o e =
      let c : CompletionRegistry O = perform_all es new_registry in
      let h : IsSound c = IsSound-perform_all es new_registry new_registry-IsSound in
      let r : IsFound c.waiters c.answers (k, f) = All-get _ c.waiting n e h.reach in
      (
        (elim (IsFound-complete k (outcome o) c.waiters c.answers (k, f) r) [
          | inl d ↦ d
          | inr g ↦
              let bad : false ≡ true =
                sym (ap (λ p. contains f (or_none_wait p)) (find-erase_same c.waiters k)) ∙ g in
              cc
        ]),
        IsFound-closed c.waiters c.answers (k, f) r,
      )
