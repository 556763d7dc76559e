-- ===== src/Llm/Assembler.antt =====
-- packages/ftre-llm/src/ftre_llm/block_assembler.py: the blocks of an answer out of its chunks.
pub mod Gathered
pub mod Phases
pub mod Faithful
use ftre.Prelude.{
  ℕ, suc, String, ◌≡◌, Bool, true, false, not, ◌&&◌, Option, none, some, List, [], ◌∷◌, map,
  if◌then◌else◌, ◌==◌, String_key, ℕ_key, contains, sort_by, concat,
}
use ftre.Prelude.Table.{Table, lookup, assign, without, add, discard}
use ftre.Json.{Json, Fields, text, member_or_null, truthy}
use ftre.Llm.{
  Chunk, FinishReason, block_start, text_delta, reasoning_delta, tool_call_delta, block_end, usage,
  finish,
}

abbrev pub block_types : List String
block_types = "text" ∷ "reasoning" ∷ "tool-call" ∷ []

pub record OpenBlock : Type 0 where
  pub index : ℕ
  pub block_type : String
  pub text : String
  pub call_id : String
  pub name : String
  pub arguments : String

abbrev pub new_block : ℕ → String → OpenBlock
new_block i t = record {
  index = i;
  block_type = t;
  text = "";
  call_id = "";
  name = "";
  arguments = "";
}

-- A finished block, as the dict that is handed on.
pub data Block : Type 0 where
  text_block : String → Block
  thinking_block : String → Block
  tool_call_block : (id name arguments : String) → Block

pub record Assembler : Type 0 where
  pub opened : Table OpenBlock
  pub next_index : ℕ
  pub done : Table Block
  pub used : Option Json
  pub ended : Option FinishReason
  pub finished : Bool
  pub pending : List ℕ

abbrev pub new : Assembler
new = record {
  opened = [];
  next_index = 0;
  done = [];
  used = none;
  ended = none;
  finished = false;
  pending = [];
}

-- The reasons for an LLMError.
pub data Violation : Type 0 where
  after_finish bad_index bad_type wrong_delta not_open wrong_end unclosed no_finish : Violation

-- What was raised, if anything, and the state that is left.
abbrev pub Fed : Type 0
Fed = Option Violation × Assembler

abbrev pub wire_type : String → String
wire_type t = if t == "reasoning" then "thinking" else t

abbrev pub finalize_block : OpenBlock → Block
finalize_block b =
    if b.block_type == "text"
    then text_block b.text
    else if b.block_type == "reasoning"
    then thinking_block b.text
    else tool_call_block b.call_id b.name b.arguments

abbrev pub feed_start : ℕ → String → Assembler → Fed
feed_start i t s =
    if not (i == s.next_index)
    then (some bad_index, s)
    else if not (contains t block_types)
    then (some bad_type, s)
    else (
      none,
      record s {
        opened = assign s.opened i (new_block i t);
        pending = add s.pending i;
        next_index = suc s.next_index;
      },
    )

-- `_require_open` is the lookup that these three are given.
abbrev pub delta_into : Option OpenBlock → ℕ → String → String → Assembler → Fed
delta_into none i expected t s = (some not_open, s)
delta_into (some b) i expected t s =
    if not (b.block_type == expected)
    then (some wrong_delta, s)
    else (none, record s { opened = assign s.opened i (record b { text = concat b.text t }) })

abbrev pub if_named : String → String → String
if_named new_one old = if new_one == "" then old else new_one

abbrev pub with_call : OpenBlock → String → String → String → OpenBlock
with_call b cid name arguments = record b {
  call_id = if_named cid b.call_id;
  name = if_named name b.name;
  arguments = concat b.arguments arguments;
}

abbrev pub tool_delta_into : Option OpenBlock → ℕ → String → String → String → Assembler → Fed
tool_delta_into none i cid name arguments s = (some not_open, s)
tool_delta_into (some b) i cid name arguments s =
    if not (b.block_type == "tool-call")
    then (some wrong_delta, s)
    else (none, record s { opened = assign s.opened i (with_call b cid name arguments) })

-- The type of the block that comes over the wire, where it has one, is not the open block's.
abbrev pub is_text : Json → String → Bool
is_text (text t) s = s == t
is_text _ s = false

abbrev pub differs : Fields → String → Bool
differs block t =
    truthy (member_or_null block "type")
    && not (is_text (member_or_null block "type") (wire_type t))

abbrev pub end_block : Option OpenBlock → ℕ → Fields → Assembler → Fed
end_block none i block s = (some not_open, s)
end_block (some b) i block s = if differs block b.block_type then (some wrong_end, s) else (
  none,
  record s {
    opened = without s.opened i;
    pending = discard s.pending i;
    done = assign s.done i (finalize_block b);
  },
)

abbrev pub feed_chunk : Chunk → Assembler → Fed
feed_chunk (block_start i t) s = feed_start i t s
feed_chunk (text_delta i t) s = delta_into (lookup s.opened i) i "text" t s
feed_chunk (reasoning_delta i t) s = delta_into (lookup s.opened i) i "reasoning" t s
feed_chunk (tool_call_delta i cid name arguments) s =
    tool_delta_into (lookup s.opened i) i cid name arguments s
feed_chunk (block_end i block) s = end_block (lookup s.opened i) i block s
feed_chunk (usage u) s = (none, record s { used = u })
feed_chunk (finish reason) s = (none, record s { ended = some reason; finished = true })

unfoldable pub feed : Chunk → Assembler → Fed
feed c s = if s.finished then (some after_finish, s) else feed_chunk c s

-- `none` where it returns.
abbrev pub is_empty : List ℕ → Bool
is_empty [] = true
is_empty (i ∷ is) = false

unfoldable pub validate_stream : Assembler → Option Violation
validate_stream s =
    if not (is_empty s.pending)
    then some unclosed
    else if not s.finished
    then some no_finish
    else none

-- `blocks`, with the tool calls of a truncated answer left out.
abbrev pub is_tool_call : Block → Bool
is_tool_call (tool_call_block id name arguments) = true
is_tool_call _ = false

abbrev pub not_tool_calls : List Block → List Block
not_tool_calls [] = []
not_tool_calls (b ∷ bs) = let rest = not_tool_calls bs in if is_tool_call b then rest else b ∷ rest

abbrev pub was_cut : Option FinishReason → Bool
was_cut none = false
was_cut (some reason) = reason.kind == "max-tokens"

unfoldable pub blocks : Assembler → List Block
blocks s =
    let in_order = map (λ (p : ℕ × Block). p.1) (sort_by (λ (p : ℕ × Block). p.0) s.done) in
    if was_cut s.ended then not_tool_calls in_order else in_order
