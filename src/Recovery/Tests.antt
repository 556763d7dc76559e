-- ===== src/Recovery/Tests.antt =====
-- The theorems on the configured recovery at a concrete configuration.
use ftre.Prelude.{
  ℕ, String, ◌≡◌, ◌≢◌, refl, false, none, some, [], ◌∷◌, if◌then◌else◌, ◌==◌, String_key, concat,
  contains, Bool-cases, inl, inr,
}
use package.text.Mathlib.TextEquality.{eq_iff}
use ftre.Prelude.Dict.{get, put}
use ftre.Session.Value.{PyValue, entry, end, dict, text, int}
use ftre.Recovery.{
  Reader, floats, escapes, RetryRule, RecoveryConfig, LlmErrorPayload, LlmErrorDecision, decide,
  parse_config, parse_rules, parse_delay, or_empty,
}
use ftre.Recovery.Rules.{NoneIn, shown, decide-unclean, decide-cases}

-- Python's texts and floats, for the texts below.
abbrev reader : Reader ℕ
reader = record {
  clean = λ s. if s == "Timeout" then "timeout" else s;
  lower = λ s. s;
  is_in = λ part whole. part == whole;
  float = λ v. floats 2;
  max_zero = λ n. n;
}

abbrev config : RecoveryConfig ℕ
config = record {
  rules = ("timeout", record { action = "retry"; delay = some 2 }) ∷ [];
  exclude_codes = [];
}

abbrev written : PyValue
written = dict (
    entry "rules"
      (dict
        (entry "timeout" (dict (entry "action" (text "retry") (entry "delay" (int 2) end))) end))
      end)

parsed : parse_config reader written ≡ some config
unfolding parse_config parse_rules parse_delay put
parsed = refl

-- An action that has no hash is not passed over.
no_hash :
    parse_config reader
      (dict (entry "rules" (dict (entry "timeout" (dict (entry "action" (dict end) end)) end)) end))
    ≡ none
unfolding parse_config parse_rules
no_hash = refl

-- A delay that no float can hold keeps the configuration from being read.
abbrev overflowing : Reader ℕ
overflowing = record reader { float = λ v. escapes }

too_large : parse_config overflowing written ≡ none
unfolding parse_config parse_rules parse_delay
too_large = refl

abbrev timeout : LlmErrorPayload
timeout = record { error_code = some "Timeout"; error_message = none }

abbrev retried : LlmErrorDecision ℕ
retried = record { action = "retry"; reason = "configured recovery for timeout"; delay = some 2 }

retry : decide reader timeout config ≡ some retried
unfolding decide get concat
retry = refl

decide-cases_example :
    ((reader.clean (or_empty timeout.error_code) == "") ≡ false)
    × (contains (reader.clean (or_empty timeout.error_code)) config.exclude_codes ≡ false)
    × NoneIn reader
        (shown reader timeout)
        ("overflow" ∷ "context_length" ∷ "context length" ∷ "too_long" ∷ "too long" ∷ [])
    × (rule : RetryRule ℕ) × (get config.rules (reader.clean (or_empty timeout.error_code))
        ≡ some rule)
    × (retried.action ≡ rule.action)
    × (retried.delay ≡ rule.delay)
decide-cases_example = decide-cases reader timeout config retried retry

clean_twice : (s : String) → reader.clean (reader.clean s) ≡ reader.clean s
clean_twice s = elim (Bool-cases (s == "Timeout")) [ inl m ↦ rw m refl | inr m ↦ rw (m, m) refl ]

upper_is_unclean : reader.clean "Timeout" ≢ "Timeout"
upper_is_unclean e = cc ((eq_iff "timeout" "Timeout").1 e)

decide-unclean_example :
    decide reader timeout (record config {
      rules = put config.rules "Timeout" (record { action = "stop"; delay = none });
    })
    ≡ decide reader timeout config
decide-unclean_example =
    decide-unclean reader timeout config "Timeout" (record { action = "stop"; delay = none })
      clean_twice upper_is_unclean
