-- ===== src/Registry.antt =====
-- packages/ftre-agent/src/ftre_agent/registry.py: the agents' identities and the scopes of hooks.
-- `object()` is the next number, and `value.strip()` leaving nothing is the parameter `blank`.
pub mod Identity
pub mod History
pub mod Scopes
mod Tests
use Prim.Native.String.{◌++◌ as str_append}
use ftre.Prelude.{
  ℕ, suc, String, Bool, true, false, Option, none, some, List, [], ◌∷◌, ◌++◌, map, if◌then◌else◌,
  ℕ_key, contains,
}
use ftre.Prelude.Dict.{Dict, get, put, remove}

-- A carrier with its parents.
pub data Carrier : Type 0 where
  top : (key : String) (identity : ℕ) → Carrier
  under : (key : String) (identity : ℕ) (parent : Carrier) → Carrier

pub data Raised : Type 0 where
  empty_id empty_key cycle no_agent : Raised

pub data Result {ℓ} (A : Type ℓ) : Type ℓ where
  ok : A → Result A
  err : Raised → Result A

abbrev pub identities : Carrier → List ℕ
identities (top key i) = i ∷ []
identities (under key i parent) = i ∷ identities parent

-- The loop over the parents: whether an identity comes back.
abbrev pub comes_back : List ℕ → Carrier → Bool
comes_back seen (top key i) = contains i seen
comes_back seen (under key i parent) =
    let rest = comes_back (seen ++ i ∷ []) parent in if contains i seen then true else rest

pub record AgentRecord : Type 0 where
  pub agent_id : String
  pub identity : ℕ
  pub state : String

pub record Summary : Type 0 where
  pub id : String
  pub state : String

pub record Registry : Type 0 where
  pub records : Dict AgentRecord
  -- How many identities were ever made.
  pub made : ℕ

abbrev pub new_registry : Registry
new_registry = record { records = []; made = 0 }

abbrev pub summary : AgentRecord → Summary
summary r = record { id = r.agent_id; state = r.state }

module _ (blank : String → Bool) where
  unfoldable pub carrier : String → ℕ → Option Carrier → Result Carrier
  carrier key i none = if blank key then err empty_key else ok (top key i)
  carrier key i (some parent) =
      if blank key
      then err empty_key
      else if comes_back (i ∷ []) parent
      then err cycle
      else ok (under key i parent)

  abbrev pub registered : Option AgentRecord → String → String → Registry → AgentRecord × Registry
  registered none a state reg =
      let r : AgentRecord = record { agent_id = a; identity = reg.made; state = state } in
      (r, record { records = put reg.records a r; made = suc reg.made })
  registered (some r) a state reg =
      let q : AgentRecord = record r { state = state } in
      (q, record reg { records = put reg.records a q })

  abbrev ok_first : AgentRecord × Registry → Result AgentRecord × Registry
  ok_first (r, reg) = (ok r, reg)

  unfoldable pub register : String → String → Registry → Result AgentRecord × Registry
  register a state reg =
      if blank a then (err empty_id, reg) else ok_first (registered (get reg.records a) a state reg)

  abbrev pub ensured :
      Option AgentRecord → String → String → Registry → Result AgentRecord × Registry
  ensured none a state reg = register a state reg
  ensured (some r) a state reg = (ok r, reg)

  unfoldable pub ensure : String → String → Registry → Result AgentRecord × Registry
  ensure a state reg = ensured (get reg.records a) a state reg

  abbrev pub state_set :
      Option AgentRecord → String → String → Registry → Result (Unit {0}) × Registry
  state_set none a state reg = (err no_agent, reg)
  state_set (some r) a state reg =
      (ok tt, record reg { records = put reg.records a (record r { state = state }) })

  unfoldable pub set_state : String → String → Registry → Result (Unit {0}) × Registry
  set_state a state reg = state_set (get reg.records a) a state reg

  unfoldable pub dispose : String → Registry → Bool × Registry
  dispose a reg = (
    (elim (get reg.records a) [ none ↦ false | some r ↦ true ]),
    record reg { records = remove reg.records a },
  )

  unfoldable pub list : Registry → List Summary
  list reg = map (λ (p : String × AgentRecord). summary p.1) reg.records

  unfoldable pub get_agent : String → Registry → Option Summary
  get_agent a reg = elim (get reg.records a) [ none ↦ none | some r ↦ some (summary r) ]

  unfoldable pub tool_scope : String → Registry → Result String
  tool_scope a reg = elim (get reg.records a) [
    | none ↦ err no_agent
    | some r ↦ ok (str_append "agent:" a)
  ]

  abbrev pub identity_of : Option AgentRecord → Result ℕ
  identity_of none = err no_agent
  identity_of (some r) = ok r.identity

  unfoldable pub scope_identity : String → Registry → Result ℕ
  scope_identity a reg = identity_of (get reg.records a)

  -- The arguments are evaluated in the order of the call: the parent's carrier comes first.
  abbrev pub carrier_over : Result ℕ → Option Carrier → Result Carrier
  carrier_over (err x) parent = err x
  carrier_over (ok i) parent = carrier "agent" i parent

  abbrev pub carrier_under : Result ℕ → Result Carrier → Result Carrier
  carrier_under own (err x) = err x
  carrier_under own (ok parent) = carrier_over own (some parent)

  unfoldable pub scope_carrier : String → Option String → Registry → Result Carrier
  scope_carrier a none reg = carrier_over (scope_identity a reg) none
  scope_carrier a (some p) reg =
      carrier_under (scope_identity a reg) (carrier_over (scope_identity p reg) none)
