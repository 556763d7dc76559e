-- ===== src/Hooks/Dispatch.antt =====
-- HookRuntime.dispatch and _validate_spec in runtime.py, with the checks of HookSpec in hooks.py.
-- Between the two halves Cordis calls the listeners; `isinstance` is the parameter `is_instance`.
use ftre.Prelude.{ℕ, Bool, true, false, Option, none, some, if◌then◌else◌}
use ftre.Prelude.Dict.{get}
use ftre.Hooks.{
  HookMode, HookRuntime, HookSpec, Raised, emit, parallel, serial, bail, waterfall,
  conflicting_spec, no_context, bad_payload, bad_result,
}
use ftre.Hooks.Register.{conflicts, needs_context}

-- The call of Cordis: its method, the context, the hook, the payload, the inner function.
pub record Dispatched (V : Type 0) : Type 0 where
  pub mode : HookMode
  pub context : Option ℕ
  pub spec : HookSpec
  pub payload : V
  pub inner : Option ℕ

abbrev pub inner_of : HookMode → Option ℕ → Option ℕ
inner_of emit default = none
inner_of parallel default = none
inner_of serial default = none
inner_of bail default = none
inner_of waterfall default = default

pub data Started (V : Type 0) : Type 0 where
  refused : Raised → Started V
  asks : Dispatched V → Started V

module _ {V : Type 0} (is_instance : V → ℕ → Bool) where
  abbrev pub fits : V → Option ℕ → Bool
  fits v none = true
  fits v (some t) = is_instance v t

  unfoldable pub validate_payload : HookSpec → V → Option Raised
  validate_payload s v = if fits v s.payload_type then none else some bad_payload

  unfoldable pub validate_result : HookSpec → V → Option Raised
  validate_result s v = if fits v s.result_type then none else some bad_result

  unfoldable pub validate_spec : HookSpec → V → Option ℕ → HookRuntime → Option Raised
  validate_spec s v context rt =
      if conflicts (get rt.specs s.name) s
      then some conflicting_spec
      else if needs_context s.scope context false
      then some no_context
      else validate_payload s v

  abbrev pub started : Option Raised → HookSpec → V → Option ℕ → Started V
  started (some x) s v context = refused x
  started none s v context = asks (record {
    mode = s.mode;
    context = context;
    spec = s;
    payload = v;
    inner = inner_of s.mode s.default;
  })

  -- `dispatch` up to the call of Cordis, which for EMIT answers nothing.
  unfoldable pub dispatch : HookSpec → V → Option ℕ → HookRuntime → Started V
  dispatch s v context rt = started (validate_spec s v context rt) s v context

  -- The rest of it, with the result of Cordis: what is raised, if anything.
  abbrev pub checks_result : HookMode → Bool
  checks_result emit = false
  checks_result parallel = true
  checks_result serial = true
  checks_result bail = true
  checks_result waterfall = true

  unfoldable pub dispatched : HookSpec → V → Option Raised
  dispatched s v = if checks_result s.mode then validate_result s v else none
