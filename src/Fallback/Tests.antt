-- ===== src/Fallback/Tests.antt =====
-- Failing streams with a model behind them.
use ftre.Prelude.{◌≡◌, ◌≢◌, refl, true, false, none, some, List, [], ◌∷◌, ◌++◌, ◌==◌, String_key}
use ftre.Json.{end}
use ftre.Llm.{Chunk, FinishReason, block_start, text_delta, block_end, usage, finish}
use ftre.Fallback.{
  Texts, LlmError, error_finish, raised, FallbackConfig, Attempt, exhausted, cancelled, Stream,
  Prepared, prepared, can_fallback, can_replace, stream_with_fallback,
}
use ftre.Fallback.Transparent.{
  first_part, stream_with_fallback-committed, stream_with_fallback-not_allowed,
}
use ftre.Fallback.Takeover.{
  by_finish, by_exception, stream_with_fallback-good, stream_with_fallback-failed,
}

-- Lower-case texts without an overflow marker.
abbrev plain : Texts
plain = record { lower = λ s. s; joined = λ c m. c; is_in = λ p w. p == w }

abbrev config : FallbackConfig
config = record {
  provider = "other";
  model = "small";
  errors = "rate_limit" ∷ [];
  exclude_errors = [];
}

abbrev last : Attempt
last = record { attempt = 2; max_attempts = 2; is_cancelled = false }

abbrev first : Attempt
first = record { attempt = 1; max_attempts = 2; is_cancelled = false }

abbrev failure : FinishReason
failure = record {
  kind = "error";
  failure = some (record { message = "slow down"; code = "rate_limit" });
  raw = "";
  response_metadata = end;
}

abbrev stop : FinishReason
stop = record { kind = "stop"; failure = none; raw = "stop"; response_metadata = end }

abbrev answer : List Chunk
answer = block_start 0 "text" ∷ text_delta 0 "hi" ∷ block_end 0 end ∷ []

abbrev silent : Stream
silent = record { chunks = usage none ∷ finish failure ∷ []; ending = exhausted }

abbrev broken : Stream
broken = record { chunks = block_start 0 "text" ∷ finish failure ∷ []; ending = exhausted }

abbrev other : Prepared
other = prepared (record { chunks = answer ++ finish stop ∷ []; ending = exhausted })

replaceable : can_replace plain config last failure.failure ≡ true
unfolding can_fallback
replaceable = refl

stream_with_fallback-committed_example :
    stream_with_fallback plain config last broken other ≡ first_part broken.chunks broken.ending
stream_with_fallback-committed_example =
    stream_with_fallback-committed plain config last broken other refl

stream_with_fallback-not_allowed_example :
    stream_with_fallback plain config first silent other ≡ first_part silent.chunks silent.ending
stream_with_fallback-not_allowed_example =
    stream_with_fallback-not_allowed plain config first refl silent other

stream_with_fallback-good_example :
    stream_with_fallback plain config last silent other
    ≡ record { chunks = usage none ∷ answer ++ finish stop ∷ []; ending = exhausted }
stream_with_fallback-good_example =
    stream_with_fallback-good plain config last (usage none ∷ []) failure silent ((refl, refl), tt)
      (by_finish [] refl refl replaceable) answer [] stop exhausted (refl, (refl, (refl, tt))) refl

-- A stream that fails by an exception.
abbrev limited : LlmError
limited = record { code = "rate_limit"; message = "slow down" }

abbrev raising : Stream
raising = record { chunks = usage none ∷ []; ending = raised limited }

limited_replaceable : can_fallback plain config last "rate_limit" "slow down" ≡ true
unfolding can_fallback
limited_replaceable = refl

not_cancelled : exhausted ≢ cancelled
not_cancelled = cc

stream_with_fallback-failed_example :
    stream_with_fallback plain config last raising
      (prepared (record { chunks = answer ++ finish failure ∷ []; ending = exhausted }))
    ≡ record {
      chunks = usage none ∷ answer ++ finish (error_finish limited) ∷ [];
      ending = exhausted;
    }
stream_with_fallback-failed_example =
    stream_with_fallback-failed plain config last (usage none ∷ []) (error_finish limited) raising
      ((refl, refl), tt) (by_exception limited refl refl refl limited_replaceable)
      (answer ++ finish failure ∷ []) exhausted (refl, (refl, (refl, (refl, tt)))) not_cancelled
