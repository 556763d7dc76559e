-- ===== src/Hooks.antt =====
-- src/ftre/kernel/hooks/runtime.py, with the contracts of packages/ftre-agent/src/ftre_agent/hooks.py:
-- the typed hooks over Cordis. A registration object is its number in the list of all that were
-- made, so that it outlives its entry in the table. Types, defaults and contexts are numbers.
mod Register
mod Calls
mod Dispatch
mod Run
mod Counted
mod Next
mod Spec
mod Steady
mod Agreed
mod Ranked
mod Tests
use ftre.Prelude.{
  ℕ, suc, String, Bool, true, false, not, ◌&&◌, ◌||◌, Option, none, some, List, [], ◌∷◌, ◌++◌,
  if◌then◌else◌, ◌==◌, ℕ_key, String_key, get_elem?, codes, contains,
}
use ftre.Prelude.Dict.{Dict, get}

pub data HookMode : Type 0 where
  emit parallel serial bail waterfall : HookMode

pub data HookFailurePolicy : Type 0 where
  observe propagate : HookFailurePolicy

pub data HookScope : Type 0 where
  global agent : HookScope

pub record HookSpec : Type 0 where
  pub name : String
  pub domain : String
  pub mode : HookMode
  pub failure_policy : HookFailurePolicy
  pub payload_type : Option ℕ
  pub result_type : Option ℕ
  pub default : Option ℕ
  pub scope : HookScope

-- What the runtime raises; a listener's exception is the name of its class.
pub data Raised : Type 0 where
  unstable_name bad_domain other_domain no_default : Raised
  no_owner not_callable no_context conflicting_spec bad_payload bad_result : Raised
  no_next next_twice : Raised
  listener_error : String → Raised

-- `name.split("/", 1)[0]`, by code points.
abbrev pub before_slash : List ℕ → List ℕ
before_slash [] = []
before_slash (c ∷ cs) = let rest = before_slash cs in if c == 47 then [] else c ∷ rest

abbrev pub same_codes : List ℕ → List ℕ → Bool
same_codes [] [] = true
same_codes [] (d ∷ ds) = false
same_codes (c ∷ cs) [] = false
same_codes (c ∷ cs) (d ∷ ds) = c == d && same_codes cs ds

abbrev pub is_waterfall : HookMode → Bool
is_waterfall waterfall = true
is_waterfall emit = false
is_waterfall parallel = false
is_waterfall serial = false
is_waterfall bail = false

abbrev pub lacks : Option ℕ → Bool
lacks none = true
lacks (some x) = false

-- `HookSpec.__post_init__` behind the checks of the enumerations: what it raises, if anything.
unfoldable pub check_spec : HookSpec → Option Raised
check_spec s =
    if not (contains 47 (codes s.name))
    then some unstable_name
    else if s.domain == "" || contains 47 (codes s.domain)
    then some bad_domain
    else if not (same_codes (before_slash (codes s.name)) (codes s.domain))
    then some other_domain
    else if is_waterfall s.mode && lacks s.default
    then some no_default
    else none

-- One listener's registration. `receipt_disposed` is the variable of its receipt's `dispose`.
pub record Registration : Type 0 where
  pub spec : HookSpec
  pub owner : String
  pub scope : String
  pub order : ℕ
  pub once : Bool
  pub active_calls : ℕ
  pub disposed : Bool
  pub lifecycle_disposed : Bool
  pub drained : Bool
  pub receipt_disposed : Bool

pub record HookDiagnostic : Type 0 where
  pub hook : String
  pub owner : String
  pub mode : HookMode
  pub scope : String
  pub listener_order : ℕ
  pub active_calls : ℕ
  pub exception_type : String

pub record HookListenerSnapshot : Type 0 where
  pub hook : String
  pub owner : String
  pub mode : HookMode
  pub scope : String
  pub listener_order : ℕ
  pub once : Bool
  pub active_calls : ℕ
  pub disposed : Bool

-- The runtime, and the calls in flight: `listening` are those whose listener has not returned,
-- `awaiting` the coroutines `_finish_async` that have not ended, each by the registration's number;
-- `nexts` has the variable `called` of each guarded waterfall call.
pub record HookRuntime : Type 0 where
  pub specs : Dict HookSpec
  pub registrations : Dict (List ℕ)
  pub objects : List Registration
  pub diagnostics : List HookDiagnostic
  pub listening : List ℕ
  pub awaiting : List ℕ
  pub nexts : List Bool

unfoldable pub new_runtime : HookRuntime
new_runtime = record {
  specs = [];
  registrations = [];
  objects = [];
  diagnostics = [];
  listening = [];
  awaiting = [];
  nexts = [];
}

abbrev pub or_nobody : Option (List ℕ) → List ℕ
or_nobody none = []
or_nobody (some is) = is

abbrev pub snapshot_of : Registration → HookListenerSnapshot
snapshot_of r = record {
  hook = r.spec.name;
  owner = r.owner;
  mode = r.spec.mode;
  scope = r.scope;
  listener_order = r.order;
  once = r.once;
  active_calls = r.active_calls;
  disposed = r.disposed;
}

abbrev pub with_snapshot :
    Option Registration → List HookListenerSnapshot → List HookListenerSnapshot
with_snapshot none rest = rest
with_snapshot (some r) rest = snapshot_of r ∷ rest

abbrev pub snapshots : List Registration → List ℕ → List HookListenerSnapshot
snapshots objects [] = []
snapshots objects (i ∷ is) = with_snapshot (get_elem? objects i) (snapshots objects is)

abbrev pub all_listeners : Dict (List ℕ) → List ℕ
all_listeners [] = []
all_listeners ((hook, is) ∷ d) = is ++ all_listeners d

unfoldable pub snapshot : Option String → HookRuntime → List HookListenerSnapshot
snapshot none rt = snapshots rt.objects (all_listeners rt.registrations)
snapshot (some hook) rt = snapshots rt.objects (or_nobody (get rt.registrations hook))
