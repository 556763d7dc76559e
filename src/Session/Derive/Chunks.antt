-- ===== src/Session/Derive/Chunks.antt =====
-- `_append_assistant_chunk`, `_ensure_running_tool_result` and `_append_tool_result_chunk` of
-- derive.py.
use ftre.Prelude.{
  String, Bool, true, false, not, ◌||◌, Option, none, some, List, [], ◌∷◌, ◌++◌, ◌==◌, String_key,
  if◌then◌else◌, concat,
}
use ftre.Prelude.Dict.{get}
use ftre.Session.Value.{PyValue, text, PyDict, end, field}
use ftre.Session.Log.{Event, or_empty}
use ftre.Session.Message.{
  Msg, TextBlock, ToolResultBlock, running, Output, plain, parts, OutputPart, text_part, data_part,
  raw_part, ContentBlock, text_block, thinking_block, tool_call_block, tool_result_block,
  find_block, change_block,
}
use ftre.Session.Derive.{Reader, str_or, FoldState, touch, save, ensure_assistant, tool_owner}

-- A block id that is a text and not empty, or one made of the message's id.
abbrev pub text_or : PyValue → String → String
text_or (text s) fallback = if s == "" then fallback else s
text_or v fallback = fallback

abbrev pub chunk_block_id : PyDict → String → String → String
chunk_block_id d kind mid =
    text_or (field d "block_id") (concat "assistant_" (concat kind (concat "_" mid)))

abbrev pub add_text : String → ContentBlock → ContentBlock
add_text delta (text_block b) = text_block (record b { text = concat b.text delta })
add_text delta (thinking_block b) = thinking_block (record b { thinking = concat b.thinking delta })
add_text delta b = b

abbrev pub new_text : String → String → String → TextBlock
new_text s id created_at = record { text = s; id = id; created_at = created_at; finished_at = none }

abbrev pub new_chunk_block : String → String → String → String → ContentBlock
new_chunk_block kind delta id created_at =
    if kind == "text"
    then text_block (new_text delta id created_at)
    else thinking_block
        (record { thinking = delta; id = id; created_at = created_at; finished_at = none })

-- The block that is found has the kind as its type, so that its class needs no further test.
abbrev pub chunk_into :
    Option ContentBlock → String → String → String → String → List ContentBlock → List ContentBlock
chunk_into (some b) kind delta id created_at bs = change_block kind id (add_text delta) bs
chunk_into none kind delta id created_at bs = bs ++ new_chunk_block kind delta id created_at ∷ []

module _ (r : Reader) where
  abbrev pub chunked : PyDict → String → String → Event → Msg × FoldState → FoldState
  chunked d kind mid e (m, s) =
      let id = chunk_block_id d kind mid in
      save mid
        (touch e (record m {
          content =
              chunk_into (find_block kind id m.content) kind (str_or r.str d "delta" "") id
                (r.iso e.time) m.content;
        }))
        s

  unfoldable pub append_assistant_chunk : Event → PyDict → FoldState → FoldState
  append_assistant_chunk e d s =
      let mid = or_empty e.message_id in
      let kind = str_or r.str d "kind" "" in
      if mid == "" || not (kind == "text" || kind == "thinking")
      then s
      else chunked d kind mid e (ensure_assistant r mid e s)

  abbrev pub running_result : String → String → Event → ToolResultBlock
  running_result cid name e = record {
    id = cid;
    name = name;
    output = parts [];
    state = running;
    metadata = end;
    created_at = r.iso e.time;
    finished_at = none;
  }

  abbrev pub with_result : Option ContentBlock → String → String → Event → Msg → Msg
  with_result (some b) cid name e m = m
  with_result none cid name e m = record m {
    content = m.content ++ tool_result_block (running_result cid name e) ∷ [];
  }

  unfoldable pub ensure_running_tool_result : String → String → Event → Msg → Msg
  ensure_running_tool_result cid name e m =
      with_result (find_block "tool_result" cid m.content) cid name e m

  abbrev pub output_id : String → String
  output_id cid = concat "tool_result_" (concat cid "_text")

  -- The last part takes the delta if it is a text; else a text with it is put behind.
  abbrev pub add_part : String → TextBlock → List OutputPart → List OutputPart
  add_part delta fresh [] = text_part fresh ∷ []
  add_part delta fresh (text_part b ∷ []) = text_part (record b { text = concat b.text delta }) ∷ []
  add_part delta fresh (data_part b ∷ []) = data_part b ∷ text_part fresh ∷ []
  add_part delta fresh (raw_part v ∷ []) = raw_part v ∷ text_part fresh ∷ []
  add_part delta fresh (p ∷ q ∷ ps) = p ∷ add_part delta fresh (q ∷ ps)

  abbrev pub output_parts : Output → String → String → List OutputPart
  output_parts (plain s) cid created_at = text_part (new_text s (output_id cid) created_at) ∷ []
  output_parts (parts ps) cid created_at = ps

  abbrev pub add_output : String → String → Event → ContentBlock → ContentBlock
  add_output delta cid e (tool_result_block b) = tool_result_block (record b {
    output = parts (
        add_part delta (new_text delta (output_id cid) (r.iso e.time))
          (output_parts b.output cid b.created_at));
  })
  add_output delta cid e b = b

  abbrev pub is_finished : ContentBlock → Bool
  is_finished (tool_result_block b) = elim b.finished_at [ none ↦ false | some t ↦ true ]
  is_finished b = false

  abbrev pub result_finished : Option ContentBlock → Bool
  result_finished none = false
  result_finished (some b) = is_finished b

  abbrev pub call_name : Option ContentBlock → String
  call_name (some (tool_call_block b)) = b.name
  call_name o = ""

  -- The result block stays also where it is finished already.
  abbrev pub streamed : String → PyDict → Event → Msg → Msg
  streamed cid d e m =
      if result_finished (find_block "tool_result" cid m.content)
      then m
      else touch e (record m {
        content =
            change_block "tool_result" cid (add_output (str_or r.str d "delta" "") cid e) m.content;
      })

  abbrev pub result_chunk_at :
      Option Msg → String → String → PyDict → Event → FoldState → Option FoldState
  result_chunk_at none mid cid d e s = none
  result_chunk_at (some m) mid cid d e s = some (
      save mid
        (streamed cid d e
          (ensure_running_tool_result cid (call_name (find_block "tool_call" cid m.content)) e m))
        s)

  abbrev pub result_chunk_owned :
      Option (Option String) → String → PyDict → Event → FoldState → Option FoldState
  result_chunk_owned none cid d e s = none
  result_chunk_owned (some none) cid d e s = some s
  result_chunk_owned (some (some mid)) cid d e s =
      result_chunk_at (get s.messages mid) mid cid d e s

  unfoldable pub append_tool_result_chunk : Event → PyDict → FoldState → Option FoldState
  append_tool_result_chunk e d s =
      let cid = str_or r.str d "tool_call_id" "" in
      if cid == "" then some s else result_chunk_owned (tool_owner cid s) cid d e s
