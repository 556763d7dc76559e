-- ===== src/Fallback.antt =====
-- packages/ftre-llm-fallback/src/ftre_llm_fallback/stream.py: a model's stream, with one other model
-- behind it. A stream is what it yields and how it ends. `str.lower`, `str.strip` and `in` on texts
-- are the parameter `Texts`; an exception stands as the LLMError that it is or is classified as.
pub mod Transparent
pub mod Takeover
mod Tests
use ftre.Prelude.{
  ℕ, String, Bool, true, false, not, ◌&&◌, ◌||◌, Option, none, some, List, [], ◌∷◌, ◌++◌,
  if◌then◌else◌, ◌==◌, ℕ_key, String_key, contains,
}
use ftre.Json.{end}
use ftre.Llm.{
  Chunk, FinishReason, LlmFailure, block_start, text_delta, reasoning_delta, tool_call_delta,
  block_end, usage, finish,
}

pub record Texts : Type 0 where
  pub lower : String → String
  -- f"{code} {message}".strip().lower()
  pub joined : String → String → String
  -- part in whole
  pub is_in : (part whole : String) → Bool

pub record LlmError : Type 0 where
  pub code : String
  pub message : String

pub data Ending : Type 0 where
  exhausted cancelled : Ending
  raised : LlmError → Ending

pub record Stream : Type 0 where
  pub chunks : List Chunk
  pub ending : Ending

pub record FallbackConfig : Type 0 where
  pub provider : String
  pub model : String
  pub errors : List String
  pub exclude_errors : List String

-- The attempt's number, how many there are, and whether the run was cancelled when its stream failed.
pub record Attempt : Type 0 where
  pub attempt : ℕ
  pub max_attempts : ℕ
  pub is_cancelled : Bool

-- What resolving the other model's name and preparing the call comes to: nothing that can be used,
-- a cancellation, or a stream.
pub data Prepared : Type 0 where
  unavailable cancelled_then : Prepared
  prepared : Stream → Prepared

abbrev pub is_nil : List String → Bool
is_nil [] = true
is_nil (x ∷ xs) = false

abbrev pub enabled : FallbackConfig → Bool
enabled config =
    not (config.provider == "") && (not (config.model == "") && not (is_nil config.errors))

abbrev pub overflow_markers : List String
overflow_markers = "overflow" ∷ "context_length" ∷ "context length" ∷ "too_long" ∷ "too long" ∷ []

abbrev pub commits_output : Chunk → Bool
commits_output (usage u) = false
commits_output (text_delta i t) = not (t == "")
commits_output (reasoning_delta i t) = not (t == "")
commits_output (tool_call_delta i cid name arguments) =
    not (cid == "") || (not (name == "") || not (arguments == ""))
commits_output (block_start i t) = true
commits_output (block_end i b) = true
commits_output (finish r) = false

-- isinstance(chunk, FinishChunk)
abbrev pub finish_of : Chunk → Option FinishReason
finish_of (finish r) = some r
finish_of _ = none

abbrev pub error_finish : LlmError → FinishReason
error_finish e = record {
  kind = "error";
  failure = some (record { message = e.message; code = e.code });
  raw = "";
  response_metadata = end;
}

-- The primary stream's end: as it is, or handed over with its error.
pub data Outcome : Type 0 where
  passed : Ending → Outcome
  handed_over : FinishReason → Outcome

module _ (texts : Texts) (config : FallbackConfig) (at : Attempt) where
  abbrev pub any_marker : List String → String → Bool
  any_marker [] value = false
  any_marker (k ∷ ks) value = texts.is_in k value || any_marker ks value

  unfoldable pub can_fallback : String → String → Bool
  can_fallback code message =
      if not (at.attempt == at.max_attempts) || (at.is_cancelled || not (enabled config))
      then false
      else if code == ""
          || (contains code config.exclude_errors
              || any_marker overflow_markers (texts.joined code message))
      then false
      else contains code config.errors

  -- `_failure_details`, put to the test.
  abbrev pub can_replace : Option LlmFailure → Bool
  can_replace none = can_fallback "" ""
  can_replace (some f) = can_fallback (texts.lower f.code) f.message

  unfoldable pub at_finish : Bool → FinishReason → List Chunk × Outcome
  at_finish committed r =
      if r.kind == "aborted"
      then (finish r ∷ [], passed exhausted)
      else if r.kind == "error"
      then (if committed || not (can_replace r.failure)
          then (finish r ∷ [], passed exhausted)
          else ([], handed_over r))
      else (finish r ∷ [], passed exhausted)

  unfoldable pub at_end : Bool → Ending → List Chunk × Outcome
  at_end committed (raised e) =
      if committed || not (can_fallback e.code e.message)
      then ([], passed (raised e))
      else ([], handed_over (error_finish e))
  at_end committed how = ([], passed how)

  abbrev pub after : Chunk → List Chunk × Outcome → List Chunk × Outcome
  after c (cs, o) = (c ∷ cs, o)

  abbrev pub primary_step :
      Option FinishReason → Bool → Chunk → List Chunk × Outcome → List Chunk × Outcome
  primary_step none committed c rest = after c rest
  primary_step (some r) committed c rest = at_finish committed r

  -- The loop over the primary stream.
  unfoldable pub read_primary : Bool → List Chunk → Ending → List Chunk × Outcome
  read_primary committed [] how = at_end committed how
  read_primary committed (c ∷ cs) how =
      let rest = read_primary (committed || commits_output c) cs how in
      primary_step (finish_of c) committed c rest

  abbrev pub ends_badly : FinishReason → Bool
  ends_badly r = r.kind == "error" || r.kind == "aborted"

  abbrev pub yielding : Chunk → Stream → Stream
  yielding c s = record s { chunks = c ∷ s.chunks }

  abbrev pub backup_step : Option FinishReason → Chunk → Stream → Stream
  backup_step none c rest = yielding c rest
  backup_step (some q) c rest =
      if ends_badly q then rest else record { chunks = finish q ∷ []; ending = exhausted }

  -- The loop over the other stream; `r` is the primary stream's error.
  unfoldable pub read_backup : FinishReason → List Chunk → Ending → Stream
  read_backup r [] cancelled = record { chunks = []; ending = cancelled }
  read_backup r [] how = record { chunks = finish r ∷ []; ending = exhausted }
  read_backup r (c ∷ cs) how = backup_step (finish_of c) c (read_backup r cs how)

  abbrev pub run_backup : FinishReason → Prepared → Stream
  run_backup r unavailable = record { chunks = finish r ∷ []; ending = exhausted }
  run_backup r cancelled_then = record { chunks = []; ending = cancelled }
  run_backup r (prepared s) = read_backup r s.chunks s.ending

  abbrev pub continued : List Chunk × Outcome → Prepared → Stream
  continued (cs, passed how) p = record { chunks = cs; ending = how }
  continued (cs, handed_over r) p = record {
    chunks = cs ++ (run_backup r p).chunks;
    ending = (run_backup r p).ending;
  }

  unfoldable pub stream_with_fallback : Stream → Prepared → Stream
  stream_with_fallback primary p = continued (read_primary false primary.chunks primary.ending) p
