-- ===== src/Runtime/React/Tests.antt =====
-- The theorems on the loop of the agent at concrete answers.
use ftre.Prelude.{
  ℕ, zero, suc, String, ◌≡◌, ◌==◌, ◌+◌, ◌*◌, ◌-◌, refl, Bool, true, Option, none, some, List, [],
  ◌∷◌, String_key,
}
use ftre.Runtime.React.{
  RunState, TurnResult, Response, thought, acted, stop_turn, idle, start, loop, step, decide,
}
use ftre.Runtime.React.Ends.{IsEnd, loop-ends}

-- Enough of `not text.strip()` for the answers below.
abbrev no_text : String → Bool
no_text s = s == ""

abbrev answer : String → List String → TurnResult
answer t calls = record { text = t; tool_calls = calls; error = none }

-- A model that calls a tool, then says nothing for good.
abbrev world : ℕ → Response
world zero = record {
  thinking = thought (answer "" ("t1" ∷ []));
  acting = acted;
  stopping = stop_turn;
}
world (suc i) = record { thinking = thought (answer "" []); acting = acted; stopping = stop_turn }

abbrev fresh : RunState
fresh = record {
  status = idle;
  iteration = 9;
  done_reason = none;
  error = none;
  error_code = none;
  empty_retries = 1;
  in_finalization = true;
  max_iterations = some 2;
  continuation_count = 0;
  max_continuations = 3;
}

loop-ends_example : IsEnd 2 (loop no_text (2 * (2 + 3) + (3 - 0) + 1) world 0 none (start fresh))
loop-ends_example = loop-ends no_text 2 world fresh refl

abbrev iterations_of : Option (Bool × RunState) → ℕ
iterations_of none = 0
iterations_of (some (b, s)) = s.iteration

-- The limit of 2 is passed by the 3 reasoning steps that answer empty responses.
passes_the_limit : iterations_of (loop no_text 14 world 0 none (start fresh)) ≡ 5
unfolding loop step decide start
passes_the_limit = refl
