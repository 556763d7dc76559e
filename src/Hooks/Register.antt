-- ===== src/Hooks/Register.antt =====
-- HookRuntime.register and the disposers of its receipt in runtime.py. `not owner.strip()` is the
-- parameter `blank`; what Cordis is asked for is part of the answer.
use ftre.Prelude.{
  ℕ, suc, String, Bool, true, false, not, ◌&&◌, ◌||◌, Option, none, some, List, [], ◌∷◌, ◌++◌,
  if◌then◌else◌, ◌==◌, ℕ_key, String_key, get_elem?, alter, length,
}
use ftre.Prelude.Dict.{get, put}
use ftre.Hooks.{
  HookMode, HookFailurePolicy, HookScope, HookSpec, HookRuntime, Registration, Raised, emit,
  parallel, serial, bail, waterfall, observe, propagate, global, agent, no_owner, not_callable,
  no_context, conflicting_spec, or_nobody,
}

-- The place of a value in its enumeration.
abbrev pub mode_no : HookMode → ℕ
mode_no emit = 0
mode_no parallel = 1
mode_no serial = 2
mode_no bail = 3
mode_no waterfall = 4

abbrev pub policy_no : HookFailurePolicy → ℕ
policy_no observe = 0
policy_no propagate = 1

abbrev pub scope_no : HookScope → ℕ
scope_no global = 0
scope_no agent = 1

abbrev pub same_option : Option ℕ → Option ℕ → Bool
same_option none none = true
same_option none (some y) = false
same_option (some x) none = false
same_option (some x) (some y) = x == y

-- The equality of the dataclass, field by field.
abbrev pub same_spec : HookSpec → HookSpec → Bool
same_spec p s =
    p.name == s.name
    && p.domain == s.domain
    && mode_no p.mode == mode_no s.mode
    && policy_no p.failure_policy == policy_no s.failure_policy
    && same_option p.payload_type s.payload_type
    && same_option p.result_type s.result_type
    && same_option p.default s.default
    && scope_no p.scope == scope_no s.scope

abbrev pub conflicts : Option HookSpec → HookSpec → Bool
conflicts none s = false
conflicts (some p) s = not (same_spec p s)

-- The arguments of `register`; a context is a number.
pub record Request : Type 0 where
  pub spec : HookSpec
  pub callable : Bool
  pub owner : String
  pub prepend : Bool
  pub once : Bool
  pub context : Option ℕ
  pub all_agent_scopes : Bool

-- What Cordis is asked to install: `once` or `on`, on a context or the root, with its options.
pub record Installation : Type 0 where
  pub once : Bool
  pub context : Option ℕ
  pub hook : String
  pub prepend : Bool
  pub is_global : Bool

pub data Registered : Type 0 where
  refused : Raised → Registered
  receipt : (listener : ℕ) (listener_order : ℕ) (asks : Installation) → Registered

abbrev pub needs_context : HookScope → Option ℕ → Bool → Bool
needs_context global context all = false
needs_context agent none all = not all
needs_context agent (some c) all = false

abbrev pub is_global_scope : HookScope → Bool
is_global_scope global = true
is_global_scope agent = false

abbrev pub scope_label : Request → String
scope_label q = if q.all_agent_scopes then "global" else label q.context
  where
    label : Option ℕ → String
    label none = "global"
    label (some c) = "agent"

abbrev pub is_gone : Option Registration → Bool
is_gone none = false
is_gone (some r) = r.lifecycle_disposed

-- The entries whose fiber has not ended.
abbrev pub remaining : List Registration → List ℕ → List ℕ
remaining objects [] = []
remaining objects (i ∷ is) =
    let rest = remaining objects is in if is_gone (get_elem? objects i) then rest else i ∷ rest

-- `for entry in entries: entry.order += 1`
abbrev pub later : Registration → Registration
later r = record r { order = suc r.order }

abbrev pub shift : List ℕ → List Registration → List Registration
shift [] objects = objects
shift (i ∷ is) objects = shift is (alter objects i later)

abbrev pub registration : Request → ℕ → Registration
registration q order = record {
  spec = q.spec;
  owner = q.owner;
  scope = scope_label q;
  order = order;
  once = q.once;
  active_calls = 0;
  disposed = false;
  lifecycle_disposed = false;
  drained = true;
  receipt_disposed = false;
}

abbrev pub installation : Request → Installation
installation q = record {
  once = q.once;
  context = q.context;
  hook = q.spec.name;
  prepend = q.prepend;
  is_global = is_global_scope q.spec.scope || q.all_agent_scopes;
}

-- The registration behind the guards, over the entries that remain.
abbrev pub enter_at : Bool → Request → List ℕ → HookRuntime → Registered × HookRuntime
enter_at true q entries rt = (
  receipt (length rt.objects) 0 (installation q),
  record rt {
    specs = put rt.specs q.spec.name q.spec;
    registrations = put rt.registrations q.spec.name (length rt.objects ∷ entries);
    objects = shift entries rt.objects ++ registration q 0 ∷ [];
  },
)
enter_at false q entries rt = (
  receipt (length rt.objects) (length entries) (installation q),
  record rt {
    specs = put rt.specs q.spec.name q.spec;
    registrations = put rt.registrations q.spec.name (entries ++ length rt.objects ∷ []);
    objects = rt.objects ++ registration q (length entries) ∷ [];
  },
)

abbrev pub enter : Request → List ℕ → HookRuntime → Registered × HookRuntime
enter q entries rt = enter_at q.prepend q entries rt

abbrev pub entries_of : String → HookRuntime → List ℕ
entries_of hook rt = remaining rt.objects (or_nobody (get rt.registrations hook))

unfoldable pub register : (String → Bool) → Request → HookRuntime → Registered × HookRuntime
register blank q rt =
    if blank q.owner
    then (refused no_owner, rt)
    else if not q.callable
    then (refused not_callable, rt)
    else if needs_context q.spec.scope q.context q.all_agent_scopes
    then (refused no_context, rt)
    else if conflicts (get rt.specs q.spec.name) q.spec
    then (refused conflicting_spec, rt)
    else enter q (entries_of q.spec.name rt) rt

-- What `dispose` answers: False, the result of Cordis, or a coroutine that waits until the calls
-- in flight have ended.
pub data Disposal : Type 0 where
  already at_once waits : Disposal

abbrev pub receipt_used : Registration → Registration
receipt_used r = record r { receipt_disposed = true; disposed = true }

abbrev pub dispose_at : Option Registration → ℕ → HookRuntime → Disposal × HookRuntime
dispose_at none i rt = (already, rt)
dispose_at (some r) i rt = if r.receipt_disposed then (already, rt) else (
  (if r.active_calls == 0 then at_once else waits),
  record rt { objects = alter rt.objects i receipt_used },
)

unfoldable pub dispose : ℕ → HookRuntime → Disposal × HookRuntime
dispose i rt = dispose_at (get_elem? rt.objects i) i rt

abbrev pub ended : Registration → Registration
ended r = record r { lifecycle_disposed = true }

unfoldable pub lifecycle_dispose : ℕ → HookRuntime → Disposal × HookRuntime
lifecycle_dispose i rt = dispose i (record rt { objects = alter rt.objects i ended })
