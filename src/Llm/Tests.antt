-- ===== src/Llm/Tests.antt =====
-- Chunk streams into the assembler.
use ftre.Prelude.{concat, true, ◌≡◌, refl, none, some, List, [], ◌∷◌}
use ftre.Prelude.Table.{lookup, assign, without, add, discard}
use ftre.Json.{end}
use ftre.Llm.{Chunk, FinishReason, block_start, text_delta, tool_call_delta, block_end, finish}
use ftre.Llm.Assembler.{Assembler, text_block, tool_call_block, feed, blocks}
use ftre.Llm.Assembler.Gathered.{Took, at_start, took}
use ftre.Llm.Assembler.Phases.{Phases}
use ftre.Llm.Assembler.Faithful.{Took-Phases}

abbrev stop : FinishReason
stop = record { kind = "stop"; failure = none; raw = "stop"; response_metadata = end }

-- Two interleaved blocks, the newest chunk first.
abbrev stream : List Chunk
stream =
    finish stop
    ∷ block_end 0 end
    ∷ block_end 1 end
    ∷ text_delta 0 "lo"
    ∷ tool_call_delta 1 "" "" "{}"
    ∷ tool_call_delta 1 "c1" "ls" ""
    ∷ block_start 1 "tool-call"
    ∷ text_delta 0 "hel"
    ∷ block_start 0 "text"
    ∷ []

abbrev after_stream : Assembler
after_stream = record {
  opened = [];
  next_index = 2;
  done = (1, tool_call_block "c1" "ls" "{}") ∷ (0, text_block "hello") ∷ [];
  used = none;
  ended = some stop;
  finished = true;
  pending = [];
}

stream_taken : Took stream after_stream
unfolding feed lookup assign without add discard concat
stream_taken =
    took _
      (took _
        (took _
          (took _ (took _ (took _ (took _ (took _ (took _ at_start refl) refl) refl) refl) refl)
            refl)
          refl)
        refl)
      refl

Took-Phases_example : Phases stream after_stream
Took-Phases_example = Took-Phases stream after_stream stream_taken

-- The blocks come out in the order of their indexes.
in_order : blocks after_stream ≡ text_block "hello" ∷ tool_call_block "c1" "ls" "{}" ∷ []
unfolding blocks
in_order = refl
