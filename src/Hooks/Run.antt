-- ===== src/Hooks/Run.antt =====
-- What can happen to a HookRuntime of runtime.py, in any order.
use ftre.Prelude.{ℕ, String, Bool, List, [], ◌∷◌}
use ftre.Hooks.{HookRuntime}
use ftre.Hooks.Register.{Request, register, dispose, lifecycle_dispose}
use ftre.Hooks.Calls.{Outcome, Ending, invoke, next_once, listener_returns, finish_async}

-- A call of the runtime; Cordis calling a listener, with `next_` as the last argument or without;
-- a listener calling `next_`, returning; its coroutine ending.
pub data Event : Type 0 where
  register_call : Request → Event
  dispose_call lifecycle_call : ℕ → Event
  invoke_call : ℕ → (has_next : Bool) → Event
  next_call : ℕ → Event
  listener_end : ℕ → Outcome → Event
  async_end : ℕ → Ending → Event

module _ (blank : String → Bool) where
  unfoldable pub perform : Event → HookRuntime → HookRuntime
  perform (register_call q) rt = (register blank q rt).1
  perform (dispose_call i) rt = (dispose i rt).1
  perform (lifecycle_call i) rt = (lifecycle_dispose i rt).1
  perform (invoke_call i has_next) rt = (invoke i has_next rt).1
  perform (next_call k) rt = (next_once k rt).1
  perform (listener_end k o) rt = (listener_returns k o rt).1
  perform (async_end k e) rt = (finish_async k e rt).1

  unfoldable pub perform_all : List Event → HookRuntime → HookRuntime
  perform_all [] rt = rt
  perform_all (e ∷ es) rt = perform_all es (perform e rt)
