-- ===== src/Recovery.antt =====
-- packages/ftre-llm-recovery/src/ftre_llm_recovery: config.py and policy.py, the configured decision
-- after a failed call of the model. Parameters: `text.strip().lower()`, `lower`, `in` on texts,
-- `float` with the ways it may end, and `max(0.0, x)`, over a type of floats.
mod Rules
mod Tests
use ftre.Prelude.{
  String, Bool, true, false, ◌&&◌, ◌||◌, Option, none, some, List, [], ◌∷◌, if◌then◌else◌, ◌==◌,
  String_key, contains, concat, ◌>>=◌,
}
use ftre.Prelude.Dict.{Dict, get, put}
use ftre.Session.Value.{
  PyValue, PyList, PyDict, none_value, text, list, dict, nil, cons, end, entry, odd_entry, field,
}

pub record RetryRule (F : Type 0) : Type 0 where
  pub action : String
  pub delay : Option F

pub record RecoveryConfig (F : Type 0) : Type 0 where
  pub rules : Dict (RetryRule F)
  pub exclude_codes : List String

pub record LlmErrorPayload : Type 0 where
  pub error_code : Option String
  pub error_message : Option String

pub record LlmErrorDecision (F : Type 0) : Type 0 where
  pub action : String
  pub reason : String
  pub delay : Option F

-- What `float` comes to: a number, a TypeError or ValueError, another exception (OverflowError for an
-- integer that is too large).
pub data Floated (F : Type 0) : Type 0 where
  floats : F → Floated F
  refused escapes : Floated F

pub record Reader (F : Type 0) : Type 0 where
  pub clean : String → String
  pub lower : String → String
  pub is_in : (part whole : String) → Bool
  pub float : PyValue → Floated F
  pub max_zero : F → F

abbrev pub or_empty : Option String → String
or_empty none = ""
or_empty (some s) = s

abbrev pub overflow_markers : List String
overflow_markers = "overflow" ∷ "context_length" ∷ "context length" ∷ "too_long" ∷ "too long" ∷ []

module _ {F : Type 0} (r : Reader F) where
  abbrev pub floated : Floated F → Option (Option F)
  floated (floats x) = some (some (r.max_zero x))
  floated refused = some none
  floated escapes = none

  -- `_parse_delay`, which catches TypeError and ValueError; none where another exception leaves it.
  unfoldable pub parse_delay : PyValue → Option (Option F)
  parse_delay none_value = some none
  parse_delay v = floated (r.float v)

  -- `action not in {"retry", "stop"}`: none where the value has no hash, some none where it is
  -- another value.
  abbrev pub known_action : PyValue → Option (Option String)
  known_action (text s) = if s == "retry" || s == "stop" then some (some s) else some none
  known_action (list vs) = none
  known_action (dict d) = none
  known_action _ = some none

  abbrev pub ruled :
      Option String → String → PyDict → Dict (RetryRule F) → Option (Dict (RetryRule F))
  ruled none code value rules = some rules
  ruled (some action) code value rules = parse_delay (field value "delay") >>= λ delay.
      some (put rules code (record { action = action; delay = delay }))

  abbrev pub rule_of : PyValue → String → Dict (RetryRule F) → Option (Dict (RetryRule F))
  rule_of (dict d) code rules =
      known_action (field d "action") >>= λ action. ruled action code d rules
  rule_of _ code rules = some rules

  unfoldable pub parse_rules : PyDict → Dict (RetryRule F) → Option (Dict (RetryRule F))
  parse_rules end rules = some rules
  parse_rules (entry code value d) rules = rule_of value code rules >>= parse_rules d
  parse_rules (odd_entry value d) rules = parse_rules d rules

  abbrev pub rules_of : PyValue → Option (Dict (RetryRule F))
  rules_of (dict d) = parse_rules d []
  rules_of _ = some []

  abbrev pub excluded_item : PyValue → List String → List String
  excluded_item (text s) rest = if r.clean s == "" then rest else r.clean s ∷ rest
  excluded_item _ rest = rest

  unfoldable pub parse_excludes : PyList → List String
  parse_excludes nil = []
  parse_excludes (cons v vs) = excluded_item v (parse_excludes vs)

  abbrev pub excludes_of : PyValue → List String
  excludes_of (list vs) = parse_excludes vs
  excludes_of _ = []

  abbrev pub parse_root : PyDict → Option (RecoveryConfig F)
  parse_root root = rules_of (field root "rules") >>= λ rules.
      some (record { rules = rules; exclude_codes = excludes_of (field root "exclude_codes") })

  -- `none` is an exception: a TypeError of `known_action`, or what `float` lets out.
  unfoldable pub parse_config : PyValue → Option (RecoveryConfig F)
  parse_config (dict root) = parse_root root
  parse_config _ = parse_root end

  abbrev pub any_in : List String → String → Bool
  any_in [] whole = false
  any_in (m ∷ ms) whole = r.is_in m whole || any_in ms whole

  abbrev pub is_left_alone : String → String → RecoveryConfig F → Bool
  is_left_alone code message config =
      code == ""
      || (contains code config.exclude_codes
          || any_in overflow_markers (r.lower (concat code (concat " " message))))

  abbrev pub decided : Option (RetryRule F) → String → Option (LlmErrorDecision F)
  decided none code = none
  decided (some rule) code = some (record {
    action = rule.action;
    reason = concat "configured recovery for " code;
    delay = rule.delay;
  })

  unfoldable pub decide : LlmErrorPayload → RecoveryConfig F → Option (LlmErrorDecision F)
  decide p config =
      let code : String = r.clean (or_empty p.error_code) in
      if is_left_alone code (or_empty p.error_message) config
      then none
      else decided (get config.rules code) code
