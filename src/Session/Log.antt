-- ===== src/Session/Log.antt =====
-- packages/ftre-agent/src/ftre_agent/session/log.py: the append-only log of a session's events.
-- `json.dumps` and SHA-256 are a parameter, `digest`, and so are `str` of what is no text, the
-- clock and the random message id.
pub mod Append
pub mod Load
pub mod Order
pub mod Once
use ftre.Prelude.{
  ℕ, zero, suc, ◌+◌, ◌-◌, ◌≤◌, ◌<◌, max, String, ◌≡◌, Bool, true, false, not, ◌&&◌, ◌||◌, Option,
  none, some, List, [], ◌∷◌, ◌++◌, map, ◌==◌, String_key, ℕ_key, if◌then◌else◌, ltb, length, take,
  drop, contains,
}
use ftre.Prelude.Dict.{Dict, get, put}
use ftre.Session.Value.{
  PyValue, none_value, text, dict, list, PyList, PyDict, end, entry, field, truthy, snapshot_json,
  strip_ids,
}

-- `ALL_EVENT_TYPES` of events.py; no type is ignorable there.
abbrev pub all_event_types : List String
all_event_types =
    "user/message" ∷ "assistant/message" ∷ "tool/result" ∷ "hint/message" ∷ "compact/message"
    ∷ "assistant/chunk" ∷ "tool/call-start" ∷ "tool/result-start" ∷ "approval/asked" ∷ "turn/start"
    ∷ "turn/retry" ∷ "turn/end" ∷ "session/status" ∷ []

pub record Event : Type 0 where
  pub type_ : String
  pub seq : ℕ
  pub time : ℕ
  pub message_id : Option String
  pub content : PyValue

pub data Raised : Type 0 where
  reentrant unknown_type not_json bound_otherwise not_a_dict bad_seq : Raised

pub data Result {ℓ} (A : Type ℓ) : Type ℓ where
  ok : A → Result A
  err : Raised → Result A

-- What the module takes from elsewhere.
pub record Outside : Type 0 where
  pub digest : PyValue → String
  pub str : PyValue → String
  pub str-text : (s : String) → str (text s) ≡ s
  pub user_id : String → String → String

-- A subscriber is known by a name; its exceptions are swallowed, and while it runs the log
-- refuses to be appended to or reset.
pub record Log : Type 0 where
  pub session_id : String
  pub events : List Event
  pub next_seq : ℕ
  pub subscribers : List ℕ
  pub appending : Bool
  pub user_requests : Dict String
  pub fingerprints : Dict String
  pub turn_outcomes : Dict String

unfoldable pub new_log : String → ℕ → Log
new_log sid start = record {
  session_id = sid;
  events = [];
  next_seq = start;
  subscribers = [];
  appending = false;
  user_requests = [];
  fingerprints = [];
  turn_outcomes = [];
}

abbrev pub or_empty : Option String → String
or_empty none = ""
or_empty (some s) = s

-- `value or None` on a message id.
abbrev pub some_text : Option String → Option String
some_text none = none
some_text (some s) = if s == "" then none else some s

-- events[start:start + max(1, limit)], with `from` for `after_seq + 1`.
abbrev pub page_at : List Event → ℕ → ℕ → List Event × Bool
page_at events start limit =
    let page = take (max 1 limit) (drop start events) in
    (page, ltb (start + length page) (length events))

abbrev pub tail_of : List Event → ℕ → ℕ → List Event × Bool
tail_of [] from limit = ([], false)
tail_of (e ∷ es) from limit = page_at (e ∷ es) (from - e.seq) limit

unfoldable pub tail : Log → ℕ → ℕ → List Event × Bool
tail log from limit = tail_of log.events from limit

-- `request_state`: `some true` is "completed", `some false` is "failed".
abbrev pub outcome_state : Option String → Option Bool
outcome_state none = none
outcome_state (some s) =
    if s == "completed"
    then some true
    else if s == "error" || s == "cancelled"
    then some false
    else none

unfoldable pub request_state : Log → String → Option Bool
request_state log rid = if rid == "" then none else outcome_state (get log.turn_outcomes rid)

unfoldable pub subscribe : ℕ → Log → Log
subscribe who log = record log { subscribers = log.subscribers ++ who ∷ [] }

unfoldable pub reset : ℕ → Log → Result (Unit {0}) × Log
reset start log = if log.appending then (err reentrant, log) else (
  ok tt,
  record log {
    events = [];
    next_seq = start;
    user_requests = [];
    fingerprints = [];
    turn_outcomes = [];
  },
)
