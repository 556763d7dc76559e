-- ===== src/Hooks/Counted/Steps.antt =====
-- What each event of runtime.py does to the counters of the registrations.
use ftre.Prelude.{
  ℕ, ◌+◌, String, ◌≡◌, refl, subst, Bool, true, false, not, Option, none, some, List, ◌==◌, ℕ_key,
  arith, get_elem?, alter, pop_at, length, count, one_if, count-pop_at, get_elem?-lt, nat_beq_iff,
  if-elim,
}
use ftre.Prelude.Dict.{get}
use ftre.Hooks.{HookRuntime, Registration, is_waterfall, new_runtime}
use ftre.Hooks.Register.{
  Request, Registered, Disposal, needs_context, conflicts, register, enter_at, entries_of,
  registration, dispose, dispose_at, lifecycle_dispose, receipt_used, ended,
}
use ftre.Hooks.Calls.{
  Outcome, Ending, raised, escaped, value, awaitable, failed, returned, cancelled, unstarted,
  has_started, counted, release_call, once_over, at_object, recorded, handle_failure, guarded,
  invoke, invoke_at, next_at, next_once, leave, leave_of, leave_at, listener_returns,
  before_finally, finish_of, finish_at, finish_async,
}
use ftre.Hooks.Counted.{
  Counts, IsFit, IsFit-same, IsFit-alter, IsFit-kept, IsFit-shift, IsFit-append, Counts-counted,
  Counts-release_call,
}
use ftre.Hooks.Run.{
  Event, register_call, dispose_call, lifecycle_call, invoke_call, next_call, listener_end,
  async_end, perform,
}

-- `except Exception` does not see an exception that is none.
abbrev pub is_caught : Outcome → Bool
is_caught (raised exception) = true
is_caught escaped = false
is_caught value = true
is_caught awaitable = true

-- The calls of a registration that are in flight, and those that `lost` has beside them.
abbrev pub in_flight : (ℕ → ℕ) → HookRuntime → ℕ → ℕ
in_flight lost rt i = count i rt.listening + count i rt.awaiting + lost i

-- Each registration counts its calls in flight and the lost ones; the barrier is open at none.
abbrev pub IsCounted : (ℕ → ℕ) → HookRuntime → Type 0
IsCounted lost rt = IsFit (in_flight lost rt) rt.objects

-- The handling of a failure writes the diagnostics only.
module _ (Q : List ℕ → List ℕ → List Registration → Type 0) where
  pub quiet :
      (i : ℕ) (x : String) (rt : HookRuntime)
      → Q rt.listening rt.awaiting rt.objects
      → Q
          (handle_failure i x rt).listening
          (handle_failure i x rt).awaiting
          (handle_failure i x rt).objects
  unfolding handle_failure
  quiet i x rt h = at_record (get_elem? rt.objects i)
    where
      at_record :
          (o : Option Registration)
          → Q (recorded o x rt).listening (recorded o x rt).awaiting (recorded o x rt).objects
      at_record none = h
      at_record (some r) = h

  pub quiet_end :
      (e : Ending) (i : ℕ) (rt : HookRuntime)
      → Q rt.listening rt.awaiting rt.objects
      → Q
          (before_finally e i rt).listening
          (before_finally e i rt).awaiting
          (before_finally e i rt).objects
  quiet_end (failed x) i rt h = quiet i x rt h
  quiet_end returned i rt h = h
  quiet_end cancelled i rt h = h
  quiet_end unstarted i rt h = h

module _ (lost : ℕ → ℕ) where
  IsCounted-enter :
      (prepend : Bool) (q : Request) (entries : List ℕ) (rt : HookRuntime)
      → IsCounted lost rt
      → IsCounted lost (enter_at prepend q entries rt).1
  IsCounted-enter true q entries rt h =
      IsFit-append _ _ (registration q 0) (refl, refl) (IsFit-shift _ entries rt.objects h)
  IsCounted-enter false q entries rt h =
      IsFit-append _ _ (registration q (length entries)) (refl, refl) h

  IsCounted-register :
      (blank : String → Bool) (q : Request) (rt : HookRuntime)
      → IsCounted lost rt
      → IsCounted lost (register blank q rt).1
  unfolding register
  IsCounted-register blank q rt h =
      let P : Registered × HookRuntime → Type 0 = λ p. IsCounted lost p.1 in
      if-elim P (blank q.owner) h (
        if-elim P (not q.callable) h (
          if-elim P (needs_context q.spec.scope q.context q.all_agent_scopes) h (
            if-elim P (conflicts (get rt.specs q.spec.name) q.spec) h
              (IsCounted-enter q.prepend q (entries_of q.spec.name rt) rt h))))

  IsCounted-dispose :
      (o : Option Registration) (i : ℕ) (rt : HookRuntime)
      → IsCounted lost rt
      → IsCounted lost (dispose_at o i rt).1
  IsCounted-dispose none i rt h = h
  IsCounted-dispose (some r) i rt h =
      if-elim (λ (p : Disposal × HookRuntime). IsCounted lost p.1) r.receipt_disposed h
        (IsFit-kept _ rt.objects i receipt_used (λ q. (refl, refl)) h)

  IsCounted-next :
      (o : Option Bool) (k : ℕ) (rt : HookRuntime)
      → IsCounted lost rt
      → IsCounted lost (next_at o k rt).1
  IsCounted-next none k rt h = h
  IsCounted-next (some true) k rt h = h
  IsCounted-next (some false) k rt h = h

  -- A call that starts is counted.
  pub begun :
      (rt : HookRuntime) (i : ℕ) (r : Registration)
      → get_elem? rt.objects i ≡ some r
      → IsCounted lost rt
      → IsFit (λ j. one_if (i == j) + in_flight lost rt j) (alter rt.objects i counted)
  begun rt i r e h =
      IsFit-alter _ _ rt.objects i counted (λ j ne. ground (arith, nat_beq_iff i j))
        (λ q c.
          subst (λ k. Counts k (counted q)) (ground (arith, nat_beq_iff i i))
            (Counts-counted _ q c))
        (λ le. absurd (omega (arith, le, get_elem?-lt rt.objects i r e))) h

  -- A call that ends is released.
  released :
      (n : ℕ → ℕ) (objects : List Registration) (i : ℕ)
      → IsFit (λ j. one_if (i == j) + n j) objects
      → IsFit n (alter objects i release_call)
  released n objects i h =
      IsFit-alter _ _ objects i release_call (λ j ne. ground (arith, nat_beq_iff i j))
        (λ q c.
          Counts-release_call _ q (subst (λ k. Counts k q) (ground (arith, nat_beq_iff i i)) c))
        (λ le. omega (arith, h.fresh i le)) h

  over :
      (n : ℕ → ℕ) (objects : List Registration) (i : ℕ)
      → IsFit n objects
      → IsFit n (alter objects i once_over)
  over n objects i h = IsFit-kept n objects i once_over (λ q. (refl, refl)) h

  guarded-true :
      (b : Bool) (rt : HookRuntime) (i : ℕ)
      → IsFit (λ j. one_if (i == j) + in_flight lost rt j) rt.objects
      → IsCounted lost (guarded b true i rt).1
  guarded-true false rt i h = IsFit-same _ _ rt.objects (λ j. omega arith) h
  guarded-true true rt i h = IsFit-same _ _ rt.objects (λ j. omega arith) h

  IsCounted-invoke :
      (o : Option Registration) (i : ℕ) (rt : HookRuntime)
      → get_elem? rt.objects i ≡ o
      → IsCounted lost rt
      → IsCounted lost (invoke_at o i true rt).1
  IsCounted-invoke none i rt e h = h
  IsCounted-invoke (some r) i rt e h =
      guarded-true (is_waterfall r.spec.mode) (at_object i counted rt) i (begun rt i r e h)

  left :
      (o : Outcome) (i : ℕ) (r : Registration) (rt : HookRuntime)
      → is_caught o ≡ true
      → IsFit (λ j. one_if (i == j) + in_flight lost rt j) rt.objects
      → IsCounted lost (leave o i r rt).1
  left escaped i r rt c h = cc
  left (raised x) i r rt c h =
      quiet (λ l a os. IsFit (λ j. count j l + count j a + lost j) os) i x
        (at_object i release_call rt) (released _ rt.objects i h)
  left value i r rt c h = over _ (alter rt.objects i release_call) i (released _ rt.objects i h)
  left awaitable i r rt c h = IsFit-same _ _ rt.objects (λ j. omega arith) h

  IsCounted-leave :
      (o : Outcome) (i k : ℕ) (rt : HookRuntime) (r : Option Registration)
      → get_elem? rt.listening k ≡ some i
      → is_caught o ≡ true
      → IsCounted lost rt
      → IsCounted lost (leave_of r o i k rt).1
  IsCounted-leave o i k rt none e c h = h
  IsCounted-leave o i k rt (some r) e c h =
      left o i r (record rt { listening = pop_at rt.listening k }) c
        (IsFit-same _ _ rt.objects (λ j. omega (arith, count-pop_at rt.listening k i j e)) h)

  IsCounted-leave_at :
      (o : Outcome) (k : ℕ) (rt : HookRuntime) (at : Option ℕ)
      → get_elem? rt.listening k ≡ at
      → is_caught o ≡ true
      → IsCounted lost rt
      → IsCounted lost (leave_at at o k rt).1
  IsCounted-leave_at o k rt none e c h = h
  IsCounted-leave_at o k rt (some i) e c h = IsCounted-leave o i k rt (get_elem? rt.objects i) e c h

  IsCounted-finish :
      (e : Ending) (i k : ℕ) (rt : HookRuntime) (r : Option Registration)
      → get_elem? rt.awaiting k ≡ some i
      → has_started e ≡ true
      → IsCounted lost rt
      → IsCounted lost (finish_of r e i k rt).1
  IsCounted-finish e i k rt none g c h = h
  IsCounted-finish e i k rt (some r) g c h =
      let popped : HookRuntime = record rt { awaiting = pop_at rt.awaiting k } in
      let before : HookRuntime = before_finally e i popped in
      rw c (
        over _ (alter before.objects i release_call) i (
          released _ before.objects i (
            quiet_end (λ l a os. IsFit (λ j. one_if (i == j) + (count j l + count j a + lost j)) os)
              e i popped
              (IsFit-same _ _ rt.objects (λ j. omega (arith, count-pop_at rt.awaiting k i j g))
                h))))

  IsCounted-finish_at :
      (e : Ending) (k : ℕ) (rt : HookRuntime) (at : Option ℕ)
      → get_elem? rt.awaiting k ≡ at
      → has_started e ≡ true
      → IsCounted lost rt
      → IsCounted lost (finish_at at e k rt).1
  IsCounted-finish_at e k rt none g c h = h
  IsCounted-finish_at e k rt (some i) g c h =
      IsCounted-finish e i k rt (get_elem? rt.objects i) g c h

-- Cordis gives a waterfall listener its `next_`, a listener raises nothing but an Exception, and no
-- coroutine is cancelled before its first step.
abbrev pub is_regular : Event → Bool
is_regular (register_call q) = true
is_regular (dispose_call i) = true
is_regular (lifecycle_call i) = true
is_regular (invoke_call i has_next) = has_next
is_regular (next_call k) = true
is_regular (listener_end k o) = is_caught o
is_regular (async_end k e) = has_started e

module _ (blank : String → Bool) (lost : ℕ → ℕ) where
  pub IsCounted-perform :
      (e : Event) (rt : HookRuntime)
      → is_regular e ≡ true
      → IsCounted lost rt
      → IsCounted lost (perform blank e rt)
  unfolding perform dispose lifecycle_dispose invoke next_once listener_returns finish_async
  IsCounted-perform (register_call q) rt b h = IsCounted-register lost blank q rt h
  IsCounted-perform (dispose_call i) rt b h = IsCounted-dispose lost (get_elem? rt.objects i) i rt h
  IsCounted-perform (lifecycle_call i) rt b h =
      IsCounted-dispose lost (get_elem? (alter rt.objects i ended) i) i (at_object i ended rt)
        (IsFit-kept _ rt.objects i ended (λ q. (refl, refl)) h)
  IsCounted-perform (invoke_call i true) rt b h =
      IsCounted-invoke lost (get_elem? rt.objects i) i rt refl h
  IsCounted-perform (invoke_call i false) rt b h = cc
  IsCounted-perform (next_call k) rt b h = IsCounted-next lost (get_elem? rt.nexts k) k rt h
  IsCounted-perform (listener_end k o) rt b h =
      IsCounted-leave_at lost o k rt (get_elem? rt.listening k) refl b h
  IsCounted-perform (async_end k e) rt b h =
      IsCounted-finish_at lost e k rt (get_elem? rt.awaiting k) refl b h

abbrev pub nothing_lost : ℕ → ℕ
nothing_lost i = 0

pub new_runtime-IsCounted : IsCounted nothing_lost new_runtime
unfolding new_runtime
new_runtime-IsCounted = record { each = λ i r e. cc; fresh = λ i le. omega arith }
