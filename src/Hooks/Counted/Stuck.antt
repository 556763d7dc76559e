-- ===== src/Hooks/Counted/Stuck.antt =====
-- What the counters of runtime.py come to over any sequence of events.
use ftre.Prelude.{
  ℕ, ◌+◌, ◌≤◌, String, ◌≡◌, refl, sym, subst, ◌∙◌, Bool, true, false, Option, none, some, List, [],
  ◌∷◌, ◌==◌, ℕ_key, arith, get_elem?, alter, count-pop_at, one_if, nat_beq_iff,
}
use ftre.Hooks.{HookRuntime, Registration, is_waterfall, new_runtime}
use ftre.Hooks.Calls.{
  counted, at_object, guarded, invoke, invoke_at, raised, escaped, value, awaitable, failed,
  returned, cancelled, unstarted, leave_of, leave_at, finish_of, finish_at, listener_returns,
  finish_async,
}
use ftre.Hooks.Counted.{IsFit-same}
use ftre.Hooks.Counted.Steps.{
  IsCounted, IsCounted-perform, new_runtime-IsCounted, nothing_lost, begun,
}
use ftre.Hooks.Run.{
  Event, register_call, dispose_call, lifecycle_call, invoke_call, next_call, listener_end,
  async_end, perform, perform_all,
}

module _ (blank : String → Bool) where
  -- A state that is counted with more calls lost, if anything.
  record IsWorse (lost : ℕ → ℕ) (rt : HookRuntime) : Type 0 where
    pub amount : ℕ → ℕ
    pub at_least : (i : ℕ) → lost i ≤ amount i
    pub is_counted : IsCounted amount rt

  unchanged : (lost : ℕ → ℕ) (rt : HookRuntime) → IsCounted lost rt → IsWorse lost rt
  unchanged lost rt h = record { amount = lost; at_least = λ i. omega arith; is_counted = h }

  abbrev one_more : (ℕ → ℕ) → ℕ → ℕ → ℕ
  one_more lost i j = lost j + one_if (i == j)

  lost_call :
      (lost : ℕ → ℕ) (rt : HookRuntime) (i : ℕ) (r : Registration)
      → get_elem? rt.objects i ≡ some r
      → IsCounted lost rt
      → IsCounted (one_more lost i) (at_object i counted rt)
  lost_call lost rt i r e h =
      IsFit-same _ _ (alter rt.objects i counted) (λ j. omega arith) (begun lost rt i r e h)

  without_next :
      (lost : ℕ → ℕ) (o : Option Registration) (i : ℕ) (rt : HookRuntime)
      → get_elem? rt.objects i ≡ o
      → IsCounted lost rt
      → IsWorse lost (invoke_at o i false rt).1
  without_next lost none i rt e h = unchanged lost rt h
  without_next lost (some r) i rt e h = by_mode (is_waterfall r.spec.mode)
    where
      by_mode : (b : Bool) → IsWorse lost (guarded b false i (at_object i counted rt)).1
      by_mode false =
          unchanged lost _
            (IsFit-same _ _ (alter rt.objects i counted) (λ j. omega arith) (begun lost rt i r e h))
      by_mode true = record {
        amount = one_more lost i;
        at_least = λ j. omega arith;
        is_counted = lost_call lost rt i r e h;
      }

  -- A call that leaves by an exception which is not caught is lost.
  escape :
      (lost : ℕ → ℕ) (k : ℕ) (rt : HookRuntime) (at : Option ℕ)
      → get_elem? rt.listening k ≡ at
      → IsCounted lost rt
      → IsWorse lost (leave_at at escaped k rt).1
  escape lost k rt none e h = unchanged lost rt h
  escape lost k rt (some i) e h = of (get_elem? rt.objects i)
    where
      of : (r : Option Registration) → IsWorse lost (leave_of r escaped i k rt).1
      of none = unchanged lost rt h
      of (some r) = record {
        amount = one_more lost i;
        at_least = λ j. omega arith;
        is_counted =
            IsFit-same _ _ rt.objects (λ j. omega (arith, count-pop_at rt.listening k i j e)) h;
      }

  -- So is one whose coroutine never started.
  drop :
      (lost : ℕ → ℕ) (k : ℕ) (rt : HookRuntime) (at : Option ℕ)
      → get_elem? rt.awaiting k ≡ at
      → IsCounted lost rt
      → IsWorse lost (finish_at at unstarted k rt).1
  drop lost k rt none e h = unchanged lost rt h
  drop lost k rt (some i) e h = of (get_elem? rt.objects i)
    where
      of : (r : Option Registration) → IsWorse lost (finish_of r unstarted i k rt).1
      of none = unchanged lost rt h
      of (some r) = record {
        amount = one_more lost i;
        at_least = λ j. omega arith;
        is_counted =
            IsFit-same _ _ rt.objects (λ j. omega (arith, count-pop_at rt.awaiting k i j e)) h;
      }

  step :
      (lost : ℕ → ℕ) (e : Event) (rt : HookRuntime)
      → IsCounted lost rt
      → IsWorse lost (perform blank e rt)
  unfolding perform invoke listener_returns finish_async
  step lost (register_call q) rt h =
      unchanged lost _ (IsCounted-perform blank lost (register_call q) rt refl h)
  step lost (dispose_call i) rt h =
      unchanged lost _ (IsCounted-perform blank lost (dispose_call i) rt refl h)
  step lost (lifecycle_call i) rt h =
      unchanged lost _ (IsCounted-perform blank lost (lifecycle_call i) rt refl h)
  step lost (invoke_call i true) rt h =
      unchanged lost _ (IsCounted-perform blank lost (invoke_call i true) rt refl h)
  step lost (invoke_call i false) rt h = without_next lost (get_elem? rt.objects i) i rt refl h
  step lost (next_call k) rt h =
      unchanged lost _ (IsCounted-perform blank lost (next_call k) rt refl h)
  step lost (listener_end k (raised x)) rt h =
      unchanged lost _ (IsCounted-perform blank lost (listener_end k (raised x)) rt refl h)
  step lost (listener_end k escaped) rt h = escape lost k rt (get_elem? rt.listening k) refl h
  step lost (listener_end k value) rt h =
      unchanged lost _ (IsCounted-perform blank lost (listener_end k value) rt refl h)
  step lost (listener_end k awaitable) rt h =
      unchanged lost _ (IsCounted-perform blank lost (listener_end k awaitable) rt refl h)
  step lost (async_end k (failed x)) rt h =
      unchanged lost _ (IsCounted-perform blank lost (async_end k (failed x)) rt refl h)
  step lost (async_end k returned) rt h =
      unchanged lost _ (IsCounted-perform blank lost (async_end k returned) rt refl h)
  step lost (async_end k cancelled) rt h =
      unchanged lost _ (IsCounted-perform blank lost (async_end k cancelled) rt refl h)
  step lost (async_end k unstarted) rt h = drop lost k rt (get_elem? rt.awaiting k) refl h

  steps :
      (lost : ℕ → ℕ) (es : List Event) (rt : HookRuntime)
      → IsCounted lost rt
      → IsWorse lost (perform_all blank es rt)
  unfolding perform_all
  steps lost [] rt h = unchanged lost rt h
  steps lost (e ∷ es) rt h =
      let w = step lost e rt h in
      let v = steps w.amount es (perform blank e rt) w.is_counted in
      record {
        amount = v.amount;
        at_least = λ i. omega (arith, w.at_least i, v.at_least i);
        is_counted = v.is_counted;
      }

  loses :
      (lost : ℕ → ℕ) (i : ℕ) (r : Registration) (rt : HookRuntime)
      → get_elem? rt.objects i ≡ some r
      → is_waterfall r.spec.mode ≡ true
      → IsCounted lost rt
      → IsCounted (one_more lost i) (perform blank (invoke_call i false) rt)
  unfolding perform invoke
  loses lost i r rt e m h =
      subst (λ o. IsCounted (one_more lost i) (invoke_at o i false rt).1) (sym e)
        (subst (λ b. IsCounted (one_more lost i) (guarded b false i (at_object i counted rt)).1)
          (sym m) (lost_call lost rt i r e h))

  -- Once a waterfall listener has been called without a `next_`, the barrier of its registration
  -- is closed for good: whatever happens before and after, it is never open again.
  pub perform_all-drained_never :
      (before after : List Event) (i : ℕ) (r q : Registration)
      → get_elem? (perform_all blank before new_runtime).objects i ≡ some r
      → is_waterfall r.spec.mode ≡ true
      → get_elem?
          (perform_all blank after
            (perform blank (invoke_call i false) (perform_all blank before new_runtime))).objects
          i
        ≡ some q
      → q.drained ≡ false
  perform_all-drained_never before after i r q e m g =
      let start = steps nothing_lost before new_runtime new_runtime-IsCounted in
      let hit =
        loses start.amount i r (perform_all blank before new_runtime) e m start.is_counted in
      let finish = steps (one_more start.amount i) after _ hit in
      let c = finish.is_counted.each i q g in
      c.1 ∙ ground (arith, finish.at_least i, nat_beq_iff i i)
