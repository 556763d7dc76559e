-- ===== src/Hooks/Next.antt =====
-- `next_once` in runtime.py: a waterfall listener and the rest of its chain.
use ftre.Prelude.{
  ℕ, zero, suc, ◌+◌, ◌≤◌, String, ◌≡◌, refl, sym, subst, ◌∙◌, Bool, true, false, not, Option, none,
  some, List, [], ◌∷◌, ◌==◌, ℕ_key, Bool-cases, inl, inr, arith, get_elem?, set,
  get_elem?-append_some, if◌then◌else◌, if-elim, one_if, nat_beq_iff, alter, pop_at,
}
use ftre.Prelude.Dict.{get}
use ftre.Hooks.{HookRuntime, Registration, Raised, is_waterfall}
use ftre.Hooks.Register.{
  Request, Registered, Disposal, needs_context, conflicts, register, enter_at, entries_of, dispose,
  dispose_at, lifecycle_dispose, ended,
}
use ftre.Hooks.Calls.{
  Outcome, Ending, raised, escaped, value, awaitable, failed, returned, cancelled, unstarted,
  counted, at_object, recorded, handle_failure, guarded, invoke, invoke_at, next_at, next_once,
  leave_of, leave_at, listener_returns, finish_of, finish_at, finish_async, release_call,
}
use ftre.Hooks.Run.{
  Event, register_call, dispose_call, lifecycle_call, invoke_call, next_call, listener_end,
  async_end, perform,
}

-- The k-th `next_once` was called.
abbrev IsUsed : ℕ → HookRuntime → Type 0
IsUsed k rt = get_elem? rt.nexts k ≡ some true

get_elem?-set_used :
    (xs : List Bool) (j k : ℕ)
    → get_elem? xs k ≡ some true
    → get_elem? (set xs j true) k ≡ some true
get_elem?-set_used [] j k h = h
get_elem?-set_used (x ∷ xs) zero zero h = refl
get_elem?-set_used (x ∷ xs) zero (suc k) h = h
get_elem?-set_used (x ∷ xs) (suc j) zero h = h
get_elem?-set_used (x ∷ xs) (suc j) (suc k) h = get_elem?-set_used xs j k h

get_elem?-set :
    (xs : List Bool) (k : ℕ) (b : Bool)
    → get_elem? xs k ≡ some b
    → get_elem? (set xs k true) k ≡ some true
get_elem?-set [] k b h = cc
get_elem?-set (x ∷ xs) zero b h = refl
get_elem?-set (x ∷ xs) (suc k) b h = get_elem?-set xs k b h

module _ (k : ℕ) where
  IsUsed-register :
      (blank : String → Bool) (q : Request) (rt : HookRuntime)
      → IsUsed k rt
      → IsUsed k (register blank q rt).1
  unfolding register
  IsUsed-register blank q rt h =
      let P : Registered × HookRuntime → Type 0 = λ p. IsUsed k p.1 in
      if-elim P (blank q.owner) h (
        if-elim P (not q.callable) h (
          if-elim P (needs_context q.spec.scope q.context q.all_agent_scopes) h
            (if-elim P (conflicts (get rt.specs q.spec.name) q.spec) h (entered q.prepend))))
    where
      entered : (prepend : Bool) → IsUsed k (enter_at prepend q (entries_of q.spec.name rt) rt).1
      entered true = h
      entered false = h

  IsUsed-dispose :
      (o : Option Registration) (i : ℕ) (rt : HookRuntime)
      → IsUsed k rt
      → IsUsed k (dispose_at o i rt).1
  IsUsed-dispose none i rt h = h
  IsUsed-dispose (some r) i rt h =
      if-elim (λ (p : Disposal × HookRuntime). IsUsed k p.1) r.receipt_disposed h h

  IsUsed-guarded :
      (w has_next : Bool) (i : ℕ) (rt : HookRuntime)
      → IsUsed k rt
      → IsUsed k (guarded w has_next i rt).1
  IsUsed-guarded false has_next i rt h = h
  IsUsed-guarded true false i rt h = h
  IsUsed-guarded true true i rt h = get_elem?-append_some rt.nexts (false ∷ []) k true h

  IsUsed-invoke :
      (o : Option Registration) (i : ℕ) (has_next : Bool) (rt : HookRuntime)
      → IsUsed k rt
      → IsUsed k (invoke_at o i has_next rt).1
  IsUsed-invoke none i has_next rt h = h
  IsUsed-invoke (some r) i has_next rt h =
      IsUsed-guarded (is_waterfall r.spec.mode) has_next i (at_object i counted rt) h

  IsUsed-next :
      (o : Option Bool) (j : ℕ) (rt : HookRuntime) → IsUsed k rt → IsUsed k (next_at o j rt).1
  IsUsed-next none j rt h = h
  IsUsed-next (some true) j rt h = h
  IsUsed-next (some false) j rt h = get_elem?-set_used rt.nexts j k h

  IsUsed-failure :
      (i : ℕ) (x : String) (rt : HookRuntime) → IsUsed k rt → IsUsed k (handle_failure i x rt)
  unfolding handle_failure
  IsUsed-failure i x rt h = at_record (get_elem? rt.objects i)
    where
      at_record : (o : Option Registration) → IsUsed k (recorded o x rt)
      at_record none = h
      at_record (some r) = h

  IsUsed-leave :
      (at : Option ℕ) (o : Outcome) (j : ℕ) (rt : HookRuntime)
      → IsUsed k rt
      → IsUsed k (leave_at at o j rt).1
  IsUsed-leave none o j rt h = h
  IsUsed-leave (some i) o j rt h = of (get_elem? rt.objects i) o
    where
      of : (r : Option Registration) (o : Outcome) → IsUsed k (leave_of r o i j rt).1
      of none o = h
      of (some r) (raised x) =
          IsUsed-failure i x
            (at_object i release_call (record rt { listening = pop_at rt.listening j })) h
      of (some r) escaped = h
      of (some r) value = h
      of (some r) awaitable = h

  IsUsed-finish :
      (at : Option ℕ) (e : Ending) (j : ℕ) (rt : HookRuntime)
      → IsUsed k rt
      → IsUsed k (finish_at at e j rt).1
  IsUsed-finish none e j rt h = h
  IsUsed-finish (some i) e j rt h = of (get_elem? rt.objects i) e
    where
      of : (r : Option Registration) (e : Ending) → IsUsed k (finish_of r e i j rt).1
      of none e = h
      of (some r) (failed x) = IsUsed-failure i x (record rt { awaiting = pop_at rt.awaiting j }) h
      of (some r) returned = h
      of (some r) cancelled = h
      of (some r) unstarted = h

  IsUsed-perform :
      (blank : String → Bool) (e : Event) (rt : HookRuntime)
      → IsUsed k rt
      → IsUsed k (perform blank e rt)
  unfolding perform dispose lifecycle_dispose invoke next_once listener_returns finish_async
  IsUsed-perform blank (register_call q) rt h = IsUsed-register blank q rt h
  IsUsed-perform blank (dispose_call i) rt h = IsUsed-dispose (get_elem? rt.objects i) i rt h
  IsUsed-perform blank (lifecycle_call i) rt h =
      IsUsed-dispose (get_elem? (alter rt.objects i ended) i) i (at_object i ended rt) h
  IsUsed-perform blank (invoke_call i n) rt h = IsUsed-invoke (get_elem? rt.objects i) i n rt h
  IsUsed-perform blank (next_call j) rt h = IsUsed-next (get_elem? rt.nexts j) j rt h
  IsUsed-perform blank (listener_end j o) rt h = IsUsed-leave (get_elem? rt.listening j) o j rt h
  IsUsed-perform blank (async_end j e) rt h = IsUsed-finish (get_elem? rt.awaiting j) e j rt h

-- Whether the call raised nothing.
abbrev pub went_on : Option Raised → Bool
went_on none = true
went_on (some x) = false

-- Whether the event is a call of the k-th `next_once` that goes on along the chain.
unfoldable pub goes_on : ℕ → Event → HookRuntime → Bool
goes_on k (register_call q) rt = false
goes_on k (dispose_call i) rt = false
goes_on k (lifecycle_call i) rt = false
goes_on k (invoke_call i n) rt = false
goes_on k (next_call j) rt = if j == k then went_on (next_once k rt).0 else false
goes_on k (listener_end j o) rt = false
goes_on k (async_end j e) rt = false

module _ (blank : String → Bool) (k : ℕ) where
  -- How often that happens in a sequence of events.
  unfoldable pub chain_runs : List Event → HookRuntime → ℕ
  chain_runs [] rt = 0
  chain_runs (e ∷ es) rt = one_if (goes_on k e rt) + chain_runs es (perform blank e rt)

  refuses : (e : Event) (rt : HookRuntime) → IsUsed k rt → goes_on k e rt ≡ false
  unfolding goes_on next_once
  refuses (register_call q) rt h = refl
  refuses (dispose_call i) rt h = refl
  refuses (lifecycle_call i) rt h = refl
  refuses (invoke_call i n) rt h = refl
  refuses (next_call j) rt h = rw h (if-elim (λ (b : Bool). b ≡ false) (j == k) refl refl)
  refuses (listener_end j o) rt h = refl
  refuses (async_end j e) rt h = refl

  no_more : (es : List Event) (rt : HookRuntime) → IsUsed k rt → chain_runs es rt ≡ 0
  unfolding chain_runs
  no_more [] rt h = refl
  no_more (e ∷ es) rt h =
      let rest = no_more es (perform blank e rt) (IsUsed-perform k blank e rt h) in
      rw (refuses e rt h) (omega (arith, rest))

  IsUsed-at :
      (o : Option Bool) (rt : HookRuntime)
      → get_elem? rt.nexts k ≡ o
      → went_on (next_at o k rt).0 ≡ true
      → IsUsed k (next_at o k rt).1
  IsUsed-at none rt e h = cc
  IsUsed-at (some true) rt e h = cc
  IsUsed-at (some false) rt e h = get_elem?-set rt.nexts k false e

  uses : (e : Event) (rt : HookRuntime) → goes_on k e rt ≡ true → IsUsed k (perform blank e rt)
  unfolding goes_on perform next_once
  uses (register_call q) rt h = cc
  uses (dispose_call i) rt h = cc
  uses (lifecycle_call i) rt h = cc
  uses (invoke_call i n) rt h = cc
  uses (next_call j) rt h = elim (Bool-cases (j == k)) [
    | inl m ↦
        subst (λ i. IsUsed k (next_at (get_elem? rt.nexts i) i rt).1) (sym ((nat_beq_iff j k).0 m))
          (IsUsed-at (get_elem? rt.nexts k) rt refl (sym (rw m refl) ∙ h))
    | inr m ↦ let bad : false ≡ true = sym (rw m refl) ∙ h in cc
  ]
  uses (listener_end j o) rt h = cc
  uses (async_end j e) rt h = cc

  -- In any sequence of events, from any state, each `next_` that a waterfall listener was given
  -- runs the rest of its chain at most once, however often it is called.
  pub chain_runs-le_one : (es : List Event) (rt : HookRuntime) → chain_runs es rt ≤ 1
  unfolding chain_runs
  chain_runs-le_one [] rt = omega arith
  chain_runs-le_one (e ∷ es) rt = elim (Bool-cases (goes_on k e rt)) [
    | inl g ↦
        let none_left : chain_runs es (perform blank e rt) ≡ 0 =
          no_more es (perform blank e rt) (uses e rt g) in
        rw (g, none_left) (omega arith)
    | inr g ↦ let rest = chain_runs-le_one es (perform blank e rt) in rw g (omega (arith, rest))
  ]
