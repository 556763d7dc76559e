-- ===== src/Hooks/Tests.antt =====
-- The theorems on the hook runtime at concrete hooks.
use ftre.Prelude.{
  ℕ, String, ◌≡◌, ◌≤◌, refl, Bool, true, false, none, some, List, [], ◌∷◌, ◌==◌, ℕ_key, String_key,
  All, get_elem?, map, ◌++◌,
}
use ftre.Prelude.Dict.{get, put}
use ftre.Hooks.{
  HookRuntime, HookSpec, HookListenerSnapshot, Registration, new_runtime, or_nobody, propagate,
  global, waterfall, check_spec, snapshot, unstable_name,
}
use ftre.Hooks.Register.{Request, register, dispose, lifecycle_dispose}
use ftre.Hooks.Calls.{
  value, awaitable, escaped, returned, unstarted, invoke, next_once, listener_returns, finish_async,
  release_call,
}
use ftre.Hooks.Dispatch.{Dispatched, asks, dispatch, validate_spec, validate_payload}
use ftre.Hooks.Run.{
  Event, register_call, dispose_call, lifecycle_call, invoke_call, next_call, listener_end,
  async_end, perform, perform_all,
}
use ftre.Hooks.Counted.Stuck.{perform_all-drained_never}
use ftre.Hooks.Next.{chain_runs, chain_runs-le_one, goes_on}
use ftre.Hooks.Agreed.Run.{dispatch-Agreed}
use ftre.Hooks.Ranked.Run.{snapshot-Ranked}

abbrev run_error : HookSpec
run_error = record {
  name = "agent/run-error";
  domain = "agent";
  mode = waterfall;
  failure_policy = propagate;
  payload_type = some 1;
  result_type = none;
  default = some 7;
  scope = global;
}

checked : check_spec run_error ≡ none
unfolding check_spec
checked = refl

no_slash : check_spec (record run_error { name = "error" }) ≡ some unstable_name
unfolding check_spec
no_slash = refl

abbrev no_text : String → Bool
no_text s = s == ""

abbrev listener : String → Bool → Request
listener owner prepend = record {
  spec = run_error;
  callable = true;
  owner = owner;
  prepend = prepend;
  once = false;
  context = none;
  all_agent_scopes = false;
}

-- Two listeners, the second put first; the first is called, gives a coroutine, which ends.
abbrev setup : List Event
setup =
    register_call (listener "retry" false)
    ∷ register_call (listener "log" true)
    ∷ invoke_call 0 true
    ∷ next_call 0
    ∷ invoke_call 0 true
    ∷ listener_end 0 awaitable
    ∷ []

abbrev reached : HookRuntime
reached = perform_all no_text setup new_runtime

abbrev retry_now : Registration
retry_now = record {
  spec = run_error;
  owner = "retry";
  scope = "global";
  order = 1;
  once = false;
  active_calls = 2;
  disposed = false;
  lifecycle_disposed = false;
  drained = false;
  receipt_disposed = false;
}

retry_reached : get_elem? reached.objects 0 ≡ some retry_now
unfolding perform_all perform register invoke next_once listener_returns new_runtime get put
retry_reached = refl

abbrev retry_stuck : Registration
retry_stuck = record retry_now { active_calls = 1 }

stuck_reached :
    get_elem?
      (perform_all no_text
        (async_end 0 returned ∷ listener_end 0 value ∷ dispose_call 1 ∷ [])
        (perform no_text (invoke_call 0 false) reached)).objects
      0
    ≡ some retry_stuck
unfolding perform_all perform register dispose invoke next_once listener_returns finish_async
    release_call new_runtime get put
stuck_reached = refl

perform_all-drained_never_example : retry_stuck.drained ≡ false
perform_all-drained_never_example =
    perform_all-drained_never no_text setup
      (async_end 0 returned ∷ listener_end 0 value ∷ dispose_call 1 ∷ []) 0 retry_now retry_stuck
      retry_reached refl stuck_reached

-- A listener that is left by a CancelledError, and a coroutine that is cancelled before its first step,
-- leave their calls counted.
lost_calls :
    get_elem?
      (perform_all no_text (listener_end 0 escaped ∷ async_end 0 unstarted ∷ []) reached).objects
      0
    ≡ some retry_now
unfolding perform_all perform register invoke next_once listener_returns finish_async new_runtime
    get put
lost_calls = refl

nothing_in_flight :
    (perform_all no_text (listener_end 0 escaped ∷ async_end 0 unstarted ∷ []) reached).listening
    ≡ []
unfolding perform_all perform register invoke next_once listener_returns finish_async new_runtime
    get put
nothing_in_flight = refl

chain_runs-le_one_example : chain_runs no_text 0 (setup ++ next_call 0 ∷ []) new_runtime ≤ 1
chain_runs-le_one_example = chain_runs-le_one no_text 0 (setup ++ next_call 0 ∷ []) new_runtime

runs_once : chain_runs no_text 0 (setup ++ next_call 0 ∷ []) new_runtime ≡ 1
unfolding chain_runs goes_on perform register invoke next_once listener_returns new_runtime get put
runs_once = refl

-- Enough of `isinstance` for one class.
abbrev is_one : ℕ → ℕ → Bool
is_one v t = v == t

abbrev asked : Dispatched ℕ
asked = record { mode = waterfall; context = none; spec = run_error; payload = 1; inner = some 7 }

dispatch_asks : dispatch is_one run_error 1 none reached ≡ asks asked
unfolding perform_all perform register invoke next_once listener_returns new_runtime get put
    dispatch validate_spec validate_payload
dispatch_asks = refl

dispatch-Agreed_example :
    All
      (λ i. (r : Registration) × (get_elem? reached.objects i ≡ some r) × (r.spec ≡ run_error))
      (or_nobody (get reached.registrations "agent/run-error"))
dispatch-Agreed_example = dispatch-Agreed is_one no_text setup run_error 1 none asked dispatch_asks

abbrev log_shown : HookListenerSnapshot
log_shown = record {
  hook = "agent/run-error";
  owner = "log";
  mode = waterfall;
  scope = "global";
  listener_order = 0;
  once = false;
  active_calls = 0;
  disposed = false;
}

abbrev retry_shown : HookListenerSnapshot
retry_shown = record log_shown { owner = "retry"; listener_order = 1; active_calls = 2 }

shown : snapshot (some "agent/run-error") reached ≡ log_shown ∷ retry_shown ∷ []
unfolding perform_all perform register invoke next_once listener_returns new_runtime get put
    snapshot
shown = refl

second_shown : get_elem? (snapshot (some "agent/run-error") reached) 1 ≡ some retry_shown
second_shown = rw shown refl

snapshot-Ranked_example : retry_shown.listener_order ≡ 1
snapshot-Ranked_example =
    snapshot-Ranked no_text setup "agent/run-error" 1 retry_shown
      (refl, (refl, (refl, (refl, (refl, (refl, tt)))))) second_shown

-- Once a fiber has ended, two listeners get the same order.
same_orders :
    map HookListenerSnapshot.listener_order (
      snapshot (some "agent/run-error") (
        perform_all no_text
          (register_call (listener "a" false)
            ∷ register_call (listener "b" false)
            ∷ lifecycle_call 0
            ∷ register_call (listener "c" false)
            ∷ [])
          new_runtime))
    ≡ 1 ∷ 1 ∷ []
unfolding perform_all perform register lifecycle_dispose dispose new_runtime get put snapshot
same_orders = refl
