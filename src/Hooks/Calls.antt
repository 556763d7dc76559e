-- ===== src/Hooks/Calls.antt =====
-- The wrapper around a listener in runtime.py: _wrap_listener, _finish_async, _release_call,
-- _guard_waterfall_next and _handle_failure. A call is cut where other code can run: when the
-- listener starts, when it returns, and when the coroutine it gave ends.
use ftre.Prelude.{
  ℕ, suc, ◌-◌, String, Bool, true, false, Option, none, some, [], ◌∷◌, ◌++◌, if◌then◌else◌, ◌==◌,
  ℕ_key, get_elem?, alter, set, pop_at, leb,
}
use ftre.Hooks.{
  HookMode, HookFailurePolicy, HookRuntime, HookDiagnostic, Registration, Raised, emit, parallel,
  serial, bail, waterfall, observe, propagate, no_next, next_twice, listener_error, is_waterfall,
}

-- How a listener returns: with an exception that `except Exception` catches, with one that it does
-- not catch, as a CancelledError is, with a value, or with a coroutine.
pub data Outcome : Type 0 where
  raised : String → Outcome
  escaped : Outcome
  value : Outcome
  awaitable : Outcome

-- How `_finish_async` ends: with an exception that it catches, with a value, cancelled while it waits,
-- or cancelled before its first step, so that it never comes to its `try`.
pub data Ending : Type 0 where
  failed : String → Ending
  returned : Ending
  cancelled : Ending
  unstarted : Ending

-- What Cordis gets from the wrapper.
pub data Answer : Type 0 where
  nothing : Answer
  the_value : Answer
  the_coroutine : Answer
  -- A CancelledError or the like.
  uncaught : Answer
  error : Raised → Answer

abbrev pub counted : Registration → Registration
counted r =
    let n : ℕ = suc r.active_calls in
    record r { active_calls = n; drained = if n == 1 then false else r.drained }

unfoldable pub release_call : Registration → Registration
release_call r =
    let n : ℕ = r.active_calls - 1 in
    if leb n 0 then record r { active_calls = 0; drained = true } else record r { active_calls = n }

abbrev pub once_over : Registration → Registration
once_over r = record r { disposed = if r.once then true else r.disposed }

abbrev pub at_object : ℕ → (Registration → Registration) → HookRuntime → HookRuntime
at_object i f rt = record rt { objects = alter rt.objects i f }

abbrev pub diagnostic : Registration → String → HookDiagnostic
diagnostic r exception = record {
  hook = r.spec.name;
  owner = r.owner;
  mode = r.spec.mode;
  scope = r.scope;
  listener_order = r.order;
  active_calls = r.active_calls;
  exception_type = exception;
}

abbrev pub recorded : Option Registration → String → HookRuntime → HookRuntime
recorded none exception rt = rt
recorded (some r) exception rt = record rt {
  diagnostics = rt.diagnostics ++ diagnostic r exception ∷ [];
}

abbrev pub failure_answer : HookFailurePolicy → String → Answer
failure_answer observe exception = nothing
failure_answer propagate exception = error (listener_error exception)

-- `_handle_failure`, with the registration as it is when the exception arrives.
unfoldable pub handle_failure : ℕ → String → HookRuntime → HookRuntime
handle_failure i exception rt = recorded (get_elem? rt.objects i) exception rt

-- The start of `invoke`. A waterfall listener without `next_` makes it raise; else the listener
-- starts, for a waterfall with a fresh `next_once`.
abbrev pub guarded : Bool → Bool → ℕ → HookRuntime → Option Raised × HookRuntime
guarded false has_next i rt = (none, record rt { listening = i ∷ rt.listening })
guarded true false i rt = (some no_next, rt)
guarded true true i rt =
    (none, record rt { listening = i ∷ rt.listening; nexts = rt.nexts ++ false ∷ [] })

abbrev pub invoke_at : Option Registration → ℕ → Bool → HookRuntime → Option Raised × HookRuntime
invoke_at none i has_next rt = (none, rt)
invoke_at (some r) i has_next rt =
    guarded (is_waterfall r.spec.mode) has_next i (at_object i counted rt)

unfoldable pub invoke : ℕ → Bool → HookRuntime → Option Raised × HookRuntime
invoke i has_next rt = invoke_at (get_elem? rt.objects i) i has_next rt

-- `next_once`, the k-th that was made: whether the chain goes on, or it raises.
abbrev pub next_at : Option Bool → ℕ → HookRuntime → Option Raised × HookRuntime
next_at none k rt = (some next_twice, rt)
next_at (some true) k rt = (some next_twice, rt)
next_at (some false) k rt = (none, record rt { nexts = set rt.nexts k true })

unfoldable pub next_once : ℕ → HookRuntime → Option Raised × HookRuntime
next_once k rt = next_at (get_elem? rt.nexts k) k rt

abbrev pub async_answer : HookMode → Answer
async_answer emit = nothing
async_answer parallel = the_coroutine
async_answer serial = the_coroutine
async_answer bail = the_coroutine
async_answer waterfall = the_coroutine

-- The rest of `invoke` once the listener has returned; `r` is its registration then.
abbrev pub leave : Outcome → ℕ → Registration → HookRuntime → Answer × HookRuntime
leave (raised exception) i r rt = (
  failure_answer r.spec.failure_policy exception,
  handle_failure i exception (at_object i release_call rt),
)
leave escaped i r rt = (uncaught, rt)
leave value i r rt = (the_value, at_object i once_over (at_object i release_call rt))
leave awaitable i r rt = (async_answer r.spec.mode, record rt { awaiting = i ∷ rt.awaiting })

abbrev pub leave_of : Option Registration → Outcome → ℕ → ℕ → HookRuntime → Answer × HookRuntime
leave_of none o i k rt = (nothing, rt)
leave_of (some r) o i k rt = leave o i r (record rt { listening = pop_at rt.listening k })

abbrev pub leave_at : Option ℕ → Outcome → ℕ → HookRuntime → Answer × HookRuntime
leave_at none o k rt = (nothing, rt)
leave_at (some i) o k rt = leave_of (get_elem? rt.objects i) o i k rt

unfoldable pub listener_returns : ℕ → Outcome → HookRuntime → Answer × HookRuntime
listener_returns k o rt = leave_at (get_elem? rt.listening k) o k rt

-- The end of `_finish_async`: a failure is handled before `finally` releases the call. A coroutine that
-- never started runs neither.
abbrev pub ended_answer : Ending → HookFailurePolicy → Answer
ended_answer (failed exception) policy = failure_answer policy exception
ended_answer returned policy = the_value
ended_answer cancelled policy = uncaught
ended_answer unstarted policy = uncaught

abbrev pub has_started : Ending → Bool
has_started (failed exception) = true
has_started returned = true
has_started cancelled = true
has_started unstarted = false

abbrev pub before_finally : Ending → ℕ → HookRuntime → HookRuntime
before_finally (failed exception) i rt = handle_failure i exception rt
before_finally returned i rt = rt
before_finally cancelled i rt = rt
before_finally unstarted i rt = rt

abbrev pub finally : ℕ → HookRuntime → HookRuntime
finally i rt = at_object i once_over (at_object i release_call rt)

abbrev pub finally_of : Ending → ℕ → HookRuntime → HookRuntime
finally_of e i rt = if has_started e then finally i (before_finally e i rt) else rt

abbrev pub finish_of : Option Registration → Ending → ℕ → ℕ → HookRuntime → Answer × HookRuntime
finish_of none e i k rt = (nothing, rt)
finish_of (some r) e i k rt = (
  ended_answer e r.spec.failure_policy,
  finally_of e i (record rt { awaiting = pop_at rt.awaiting k }),
)

abbrev pub finish_at : Option ℕ → Ending → ℕ → HookRuntime → Answer × HookRuntime
finish_at none e k rt = (nothing, rt)
finish_at (some i) e k rt = finish_of (get_elem? rt.objects i) e i k rt

unfoldable pub finish_async : ℕ → Ending → HookRuntime → Answer × HookRuntime
finish_async k e rt = finish_at (get_elem? rt.awaiting k) e k rt
