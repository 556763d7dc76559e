-- ===== src/Runtime/React/Ends.antt =====
-- The end of the loop of react_runner.py, whatever the model, the tools and the hooks do.
use ftre.Prelude.{
  ℕ, zero, suc, ◌+◌, ◌-◌, ◌*◌, ◌≤◌, ◌<◌, String, ◌≡◌, refl, ap, sym, ◌∙◌, Bool, true, false, not,
  ◌&&◌, Option, none, some, List, [], ◌∷◌, Bool-cases, inl, inr, arith, one_if, ltb, leb, if-elim,
  if-cases,
}
use ftre.Runtime.React.{
  RunState, TurnResult, LlmError, FinishedReason, completed, interrupted, error, exceed_max_iters,
  Action, exceeds, decide, decide_next, decide_empty, decide_answered, Thought, thought,
  thought_cancelled, thought_raised, Acted, acted, asked, acted_cancelled, acted_raised, Stop,
  stop_turn, continue_turn, stop_cancelled, stop_raised, Response, Next, goes_on, returns, raises,
  take_action, take_exit, thought_of, acted_of, step, proceed, loop, start,
  max_empty_response_retries,
}

-- What is left of a run: two steps of the loop for each reasoning step that may come, one for the
-- answer that is to be looked at, one for each continuation that the hooks may ask for.
abbrev pub unread : Option TurnResult → ℕ
unread none = 0
unread (some r) = 1

abbrev pub reasoning_left : ℕ → RunState → ℕ
reasoning_left n s = (n - s.iteration) + (2 - s.empty_retries) + (1 - one_if s.in_finalization)

abbrev pub left : ℕ → Option TurnResult → RunState → ℕ
left n prev s =
    reasoning_left n s
    + reasoning_left n s
    + unread prev
    + (s.max_continuations - s.continuation_count)

-- The reasoning steps so far are within the bound.
record IsWithin (n : ℕ) (s : RunState) : Type 0 where
  pub limit : s.max_iterations ≡ some n
  pub iterations : s.iteration ≤ n + s.empty_retries + one_if s.in_finalization
  pub retries : s.empty_retries ≤ 2

abbrev Shrinks : ℕ → ℕ → Next → Type 0
Shrinks n k (goes_on p t) = IsWithin n t × (left n p t < k)
Shrinks n k (returns t) = t.iteration ≤ n + 3
Shrinks n k (raises t) = t.iteration ≤ n + 3

within : (n : ℕ) (s : RunState) → IsWithin n s → s.iteration ≤ n + 3
within n s h = elim (Bool-cases s.in_finalization) [
  | inl e ↦ ground (arith, h.iterations, h.retries, e)
  | inr e ↦ ground (arith, h.iterations, h.retries, e)
]

Shrinks-thought :
    (n k : ℕ) (o : Thought) (s : RunState)
    → IsWithin n s
    → reasoning_left n s + reasoning_left n s + 1 + (s.max_continuations - s.continuation_count) < k
    → Shrinks n k (thought_of o s)
Shrinks-thought n k (thought r) s h lt = (h, lt)
Shrinks-thought n k thought_cancelled s h lt = within n s h
Shrinks-thought n k thought_raised s h lt = within n s h

Shrinks-next :
    (n : ℕ) (w : Response) (s : RunState)
    → IsWithin n s
    → Shrinks n (left n none s) (take_action w (decide_next s))
Shrinks-next n w s h = elim (Bool-cases (exceeds s.max_iterations s.iteration)) [
  | inl m ↦ rw m (within n s h)
  | inr m ↦
      let room : leb n s.iteration ≡ false = sym (ap (λ o. exceeds o s.iteration) h.limit) ∙ m in
      rw m (
        Shrinks-thought n (left n none s) w.thinking (record s { iteration = suc s.iteration })
          (record { limit = h.limit; iterations = ground (arith, room); retries = h.retries })
          (ground (arith, room)))
]

Shrinks-empty :
    (n : ℕ) (r : TurnResult) (w : Response) (s : RunState)
    → IsWithin n s
    → Shrinks n (left n (some r) s) (take_action w (decide_empty s))
Shrinks-empty n r w s h =
    let P : Action × RunState → Type 0 = λ p. Shrinks n (left n (some r) s) (take_action w p) in
    if-cases P s.in_finalization (λ m. within n s h)
      (λ m.
        if-cases P (ltb s.empty_retries max_empty_response_retries)
          (λ q.
            Shrinks-thought n (left n (some r) s) w.thinking
              (record s { iteration = suc s.iteration; empty_retries = suc s.empty_retries })
              (record {
                limit = h.limit;
                iterations = omega (arith, h.iterations);
                retries = ground (arith, q);
              })
              (ground (arith, q)))
          (λ q.
            Shrinks-thought n (left n (some r) s) w.thinking
              (record s { iteration = suc s.iteration; in_finalization = true })
              (record {
                limit = h.limit;
                iterations = ground (arith, h.iterations, m);
                retries = h.retries;
              })
              (ground (arith, m))))

Shrinks-exit :
    (n : ℕ) (r : TurnResult) (o : Stop) (reason : FinishedReason) (e code : Option String)
    (s : RunState)
    → IsWithin n s
    → Shrinks n (left n (some r) s) (take_exit o reason e code s)
Shrinks-exit n r stop_turn completed e code s h = within n s h
Shrinks-exit n r (continue_turn c) completed e code s h =
    elim (Bool-cases (not c && ltb s.continuation_count s.max_continuations)) [
      | inl m ↦ rw m (
        record { limit = h.limit; iterations = h.iterations; retries = h.retries },
        ground (arith, m),
      )
      | inr m ↦ rw m (within n s h)
    ]
Shrinks-exit n r stop_cancelled completed e code s h = within n s h
Shrinks-exit n r stop_raised completed e code s h = within n s h
Shrinks-exit n r o interrupted e code s h = within n s h
Shrinks-exit n r o error e code s h = within n s h
Shrinks-exit n r o exceed_max_iters e code s h = within n s h

Shrinks-acted :
    (n : ℕ) (r : TurnResult) (o : Acted) (s : RunState)
    → IsWithin n s
    → Shrinks n (left n (some r) s) (acted_of o s)
Shrinks-acted n r acted s h = (h, omega arith)
Shrinks-acted n r asked s h = within n s h
Shrinks-acted n r acted_cancelled s h = within n s h
Shrinks-acted n r acted_raised s h = within n s h

-- A loop that ends, within the bound on the reasoning steps.
abbrev pub IsEnd : ℕ → Option (Bool × RunState) → Type 0
IsEnd n o = (e : Bool × RunState) × (o ≡ some e) × (e.1.iteration ≤ n + 3)

next_ends :
    (n k : ℕ) (next : Next) (later : Option TurnResult → RunState → Option (Bool × RunState))
    → Shrinks n k next
    → ((p : Option TurnResult) (t : RunState) → IsWithin n t → left n p t < k → IsEnd n (later p t))
    → IsEnd n (proceed next later)
next_ends n k (goes_on p t) later g f = f p t g.0 g.1
next_ends n k (returns t) later g f = ((true, t), refl, g)
next_ends n k (raises t) later g f = ((false, t), refl, g)

module _ (blank : String → Bool) where
  Shrinks-answered :
      (n : ℕ) (e : Option LlmError) (calls : List String) (r : TurnResult) (w : Response)
      (s : RunState)
      → IsWithin n s
      → Shrinks n (left n (some r) s) (take_action w (decide_answered blank e calls r s))
  Shrinks-answered n (some e) calls r w s h = within n s h
  Shrinks-answered n none (c ∷ cs) r w s h = Shrinks-acted n r w.acting s h
  Shrinks-answered n none [] r w s h =
      if-elim (λ p. Shrinks n (left n (some r) s) (take_action w p)) (blank r.text)
        (Shrinks-empty n r w s h) (Shrinks-exit n r w.stopping completed none none s h)

  Shrinks-step :
      (n : ℕ) (w : Response) (prev : Option TurnResult) (s : RunState)
      → IsWithin n s
      → Shrinks n (left n prev s) (step blank w prev s)
  unfolding step decide
  Shrinks-step n w none s h = Shrinks-next n w s h
  Shrinks-step n w (some r) s h = Shrinks-answered n r.error r.tool_calls r w s h

  ends :
      (fuel n : ℕ) (world : ℕ → Response) (i : ℕ) (prev : Option TurnResult) (s : RunState)
      → IsWithin n s
      → left n prev s < fuel
      → IsEnd n (loop blank fuel world i prev s)
  unfolding loop
  ends zero n world i prev s h lt = absurd (omega (arith, lt))
  ends (suc fuel) n world i prev s h lt =
      next_ends n (left n prev s) (step blank (world i) prev s)
        (λ p t. loop blank fuel world (suc i) p t) (Shrinks-step n (world i) prev s h)
        (λ p t g l. ends fuel n world (suc i) p t g (omega (arith, l, lt)))

  start-IsWithin : (n : ℕ) (s : RunState) → s.max_iterations ≡ some n → IsWithin n (start s)
  unfolding start
  start-IsWithin n s e = record { limit = e; iterations = omega arith; retries = omega arith }

  -- A run with a limit of n iterations ends, whatever the model, the tools and the hooks answer:
  -- after at most 2 * (n + 3) steps of the loop, one for each continuation that is allowed, and one
  -- more; and it has come to at most n + 3 reasoning steps (`iteration` counts them; the retries of
  -- a failed request inside one reasoning step are not counted).
  pub loop-ends :
      (n : ℕ) (world : ℕ → Response) (s : RunState)
      → s.max_iterations ≡ some n
      → IsEnd n (
          loop blank
            (2 * (n + 3) + (s.max_continuations - s.continuation_count) + 1)
            world
            0
            none
            (start s))
  unfolding start
  loop-ends n world s e =
      ends (2 * (n + 3) + (s.max_continuations - s.continuation_count) + 1) n world 0 none (start s)
        (start-IsWithin n s e) (omega arith)
