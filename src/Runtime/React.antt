-- ===== src/Runtime/React.antt =====
-- packages/ftre-agent-runtime/src/ftre_agent_runtime/react_runner.py and run_state.py: the decision on
-- the next action and the loop that carries actions out, with the exit of executors/acting.py. What
-- the model, the tools and the hooks come to at a step is a parameter; `not text.strip()` is `blank`.
mod Ends
mod Tests
use ftre.Prelude.{
  ℕ, zero, suc, String, Bool, true, false, not, ◌&&◌, Option, none, some, List, [], ◌∷◌,
  if◌then◌else◌, ◌==◌, String_key, ltb, leb, concat,
}

pub data FinishedReason : Type 0 where
  completed interrupted error exceed_max_iters : FinishedReason

pub data RunStatus : Type 0 where
  idle running paused status_completed status_error cancelled : RunStatus

pub record LlmError : Type 0 where
  pub code : String
  pub message : String

-- Of a tool call its id is kept.
pub record TurnResult : Type 0 where
  pub text : String
  pub tool_calls : List String
  pub error : Option LlmError

-- The three counters at the end stand in the source's `runtime_context`.
pub record RunState : Type 0 where
  pub status : RunStatus
  pub iteration : ℕ
  pub done_reason : Option FinishedReason
  pub error : Option String
  pub error_code : Option String
  pub empty_retries : ℕ
  pub in_finalization : Bool
  pub max_iterations : Option ℕ
  pub continuation_count : ℕ
  pub max_continuations : ℕ

-- `start`, where a run begins.
unfoldable pub start : RunState → RunState
start s = record s {
  status = running;
  iteration = 0;
  done_reason = none;
  error = none;
  error_code = none;
  empty_retries = 0;
  in_finalization = false;
}

pub data Action : Type 0 where
  reasoning : (hint : Option String) (force_no_tools : Bool) → Action
  acting : List String → Action
  exit : FinishedReason → (error error_code : Option String) → Action

abbrev pub max_empty_response_retries : ℕ
max_empty_response_retries = 2

abbrev pub finalization_retry_prompt : String
finalization_retry_prompt = "请根据上面的对话，直接给出回复用户的最终内容。"

abbrev pub empty_final_response_message : String
empty_final_response_message = "模型多次重试后仍未生成可见的最终文本回复。"

abbrev pub exceeds : Option ℕ → ℕ → Bool
exceeds none iteration = false
exceeds (some n) iteration = leb n iteration

-- Cases 7 and 8 of `decide`.
abbrev pub decide_next : RunState → Action × RunState
decide_next s =
    if exceeds s.max_iterations s.iteration
    then (exit exceed_max_iters none none, s)
    else (reasoning none false, s)

-- Cases 4 to 6: the response is empty.
abbrev pub decide_empty : RunState → Action × RunState
decide_empty s =
    if s.in_finalization
    then (exit error (some empty_final_response_message) (some "empty_response"), s)
    else if ltb s.empty_retries max_empty_response_retries
    then (reasoning none false, record s { empty_retries = suc s.empty_retries })
    else (reasoning (some finalization_retry_prompt) true, record s { in_finalization = true })

abbrev pub error_text : LlmError → String
error_text e = concat "[" (concat e.code (concat "] " e.message))

-- What the executors meet: the model's answer, the tools, and the stop decision of the hooks with
-- whether the run was cancelled meanwhile. Each may also raise, the runner's own cancellation or
-- anything else.
pub data Thought : Type 0 where
  thought : TurnResult → Thought
  thought_cancelled thought_raised : Thought

pub data Acted : Type 0 where
  acted asked acted_cancelled acted_raised : Acted

pub data Stop : Type 0 where
  stop_turn : Stop
  continue_turn : (is_cancelled : Bool) → Stop
  stop_cancelled stop_raised : Stop

pub record Response : Type 0 where
  pub thinking : Thought
  pub acting : Acted
  pub stopping : Stop

-- How a step of the loop leaves it.
pub data Next : Type 0 where
  goes_on : Option TurnResult → RunState → Next
  returns : RunState → Next
  raises : RunState → Next

abbrev pub reason_to_status : FinishedReason → RunStatus
reason_to_status completed = status_completed
reason_to_status interrupted = cancelled
reason_to_status error = status_error
reason_to_status exceed_max_iters = status_completed

-- `_finalize` of the runner.
abbrev pub finalize : FinishedReason → RunState → RunState
finalize reason s = record s { done_reason = some reason; status = reason_to_status reason }

abbrev pub non_empty_or : Option String → Option String → Option String
non_empty_or none old = old
non_empty_or (some t) old = if t == "" then old else some t

-- `_finalize` of the ExitExecutor.
abbrev pub finalize_exit : FinishedReason → Option String → Option String → RunState → RunState
finalize_exit reason message code s = record s {
  done_reason = some reason;
  status = reason_to_status reason;
  error = non_empty_or message s.error;
  error_code = non_empty_or code s.error_code;
}

abbrev pub stop_decided : Stop → FinishedReason → Option String → Option String → RunState → Next
stop_decided stop_turn reason e code s = returns (finalize_exit reason e code s)
stop_decided (continue_turn is_cancelled) reason e code s =
    if not is_cancelled && ltb s.continuation_count s.max_continuations
    then goes_on none (record s { continuation_count = suc s.continuation_count })
    else returns (finalize_exit reason e code s)
stop_decided stop_cancelled reason e code s = returns (finalize interrupted s)
stop_decided stop_raised reason e code s = raises s

-- ExitExecutor.stream: only a completed reply asks the hooks.
abbrev pub take_exit : Stop → FinishedReason → Option String → Option String → RunState → Next
take_exit stop completed e code s = stop_decided stop completed e code s
take_exit stop interrupted e code s = returns (finalize_exit interrupted e code s)
take_exit stop error e code s = returns (finalize_exit error e code s)
take_exit stop exceed_max_iters e code s = returns (finalize_exit exceed_max_iters e code s)

abbrev pub thought_of : Thought → RunState → Next
thought_of (thought r) s = goes_on (some r) s
thought_of thought_cancelled s = returns (finalize interrupted s)
thought_of thought_raised s = raises s

abbrev pub acted_of : Acted → RunState → Next
acted_of acted s = goes_on none s
acted_of asked s = returns (record s { status = paused })
acted_of acted_cancelled s = returns (finalize interrupted s)
acted_of acted_raised s = raises s

abbrev pub take_action : Response → Action × RunState → Next
take_action w (reasoning hint force, s) =
    thought_of w.thinking (record s { iteration = suc s.iteration })
take_action w (acting calls, s) = acted_of w.acting s
take_action w (exit reason e code, s) = take_exit w.stopping reason e code s

abbrev pub proceed :
    Next → (Option TurnResult → RunState → Option (Bool × RunState)) → Option (Bool × RunState)
proceed (goes_on prev s) k = k prev s
proceed (returns s) k = some (true, s)
proceed (raises s) k = some (false, s)

module _ (blank : String → Bool) where
  abbrev pub decide_answered :
      Option LlmError → List String → TurnResult → RunState → Action × RunState
  decide_answered (some e) calls r s = (exit error (some (error_text e)) (some e.code), s)
  decide_answered none (c ∷ cs) r s = (acting (c ∷ cs), s)
  decide_answered none [] r s =
      if blank r.text then decide_empty s else (exit completed none none, s)

  unfoldable pub decide : RunState → Option TurnResult → Action × RunState
  decide s none = decide_next s
  decide s (some r) = decide_answered r.error r.tool_calls r s

  unfoldable pub step : Response → Option TurnResult → RunState → Next
  step w prev s = take_action w (decide s prev)

  -- `_loop`, on fuel: `none` where that runs out, else whether it returned, and the state.
  unfoldable pub loop :
      ℕ → (ℕ → Response) → ℕ → Option TurnResult → RunState → Option (Bool × RunState)
  loop zero world i prev s = none
  loop (suc fuel) world i prev s =
      proceed (step (world i) prev s) (λ p t. loop fuel world (suc i) p t)
