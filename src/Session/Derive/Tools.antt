-- ===== src/Session/Derive/Tools.antt =====
-- `_apply_event` of derive.py, the events of a tool call.
use ftre.Prelude.{String, Option, none, some, [], ◌∷◌, ◌++◌, ◌==◌, String_key, if◌then◌else◌, ◌>>=◌}
use ftre.Prelude.Dict.{get, put}
use ftre.Session.Value.{list, dict, nil, PyDict, end}
use ftre.Session.Log.{Event, some_text}
use ftre.Session.Message.{
  Msg, ToolCallState, ToolResultState, ContentBlock, tool_call_block, tool_result_block, parts,
  find_block, change_block, remove_block,
}
use ftre.Session.Derive.{Reader, str_or, FoldState, touch, save, ensure_assistant, tool_owner}
use ftre.Session.Derive.Content.{to_output_blocks}
use ftre.Session.Derive.Chunks.{ensure_running_tool_result}
use ftre.Session.Derive.Messages.{field_or}

module _ (r : Reader) where
  abbrev pub called :
      Option ContentBlock → String → String → Event → PyDict → Msg × FoldState → Option FoldState
  called (some b) cid mid e d (m, s) = some s
  called none cid mid e d (m, s) = do
    arguments ← r.as_dict (field_or d "arguments" (dict end))
    let changed : Msg = touch e (record m {
      content =
          m.content
          ++ tool_call_block (record {
            id = cid;
            name = str_or r.str d "name" "";
            arguments = arguments;
            state = ToolCallState.pending;
            created_at = r.iso e.time;
            finished_at = none;
          })
            ∷ [];
    })
    some (record (save mid changed s) { tool_calls = put s.tool_calls cid m.id })

  abbrev pub call_in : String → String → Event → PyDict → Msg × FoldState → Option FoldState
  call_in cid mid e d (m, s) = called (find_block "tool_call" cid m.content) cid mid e d (m, s)

  abbrev pub call_for : Option String → Event → PyDict → FoldState → Option FoldState
  call_for none e d s = some s
  call_for (some mid) e d s =
      call_in (str_or r.str d "tool_call_id" "") mid e d (ensure_assistant r mid e s)

  unfoldable pub apply_call_start : Event → PyDict → FoldState → Option FoldState
  apply_call_start e d s = call_for (some_text e.message_id) e d s

  -- What is done to the message that owns a call, if one does.
  abbrev pub at_message : Option Msg → String → (Msg → Option Msg) → FoldState → Option FoldState
  at_message none mid f s = none
  at_message (some m) mid f s = f m >>= λ n. some (save mid n s)

  abbrev pub at_owner : Option (Option String) → (Msg → Option Msg) → FoldState → Option FoldState
  at_owner none f s = none
  at_owner (some none) f s = some s
  at_owner (some (some mid)) f s = at_message (get s.messages mid) mid f s

  unfoldable pub apply_result_start : Event → PyDict → FoldState → Option FoldState
  apply_result_start e d s =
      let cid = str_or r.str d "tool_call_id" "" in
      if cid == ""
      then some s
      else at_owner (tool_owner cid s)
          (λ m. some (touch e (ensure_running_tool_result r cid (str_or r.str d "name" "") e m))) s

  abbrev pub result_state : String → ToolResultState
  result_state s =
      if s == "error"
      then ToolResultState.error
      else if s == "interrupted"
      then ToolResultState.interrupted
      else if s == "denied"
      then ToolResultState.denied
      else if s == "running"
      then ToolResultState.running
      else ToolResultState.success

  abbrev pub finish_call : Event → ContentBlock → ContentBlock
  finish_call e (tool_call_block b) =
      tool_call_block
        (record b { state = ToolCallState.finished; finished_at = some (r.iso e.time) })
  finish_call e b = b

  unfoldable pub with_tool_result : String → Event → PyDict → Msg → Option Msg
  with_tool_result cid e d m = do
    values ← r.as_list (field_or d "output" (list nil))
    output ← to_output_blocks r values
    metadata ← r.as_dict (field_or d "metadata" (dict end))
    let result : ContentBlock = tool_result_block (record {
      id = cid;
      name = str_or r.str d "name" "";
      output = parts output;
      state = result_state (str_or r.str d "state" "success");
      metadata = metadata;
      created_at = r.iso e.time;
      finished_at = some (r.iso e.time);
    })
    some (
        touch e (record m {
          content =
              change_block "tool_call" cid (finish_call e)
                (remove_block "tool_result" cid m.content ++ result ∷ []);
        }))

  unfoldable pub apply_tool_result : Event → PyDict → FoldState → Option FoldState
  apply_tool_result e d s =
      let cid = str_or r.str d "tool_call_id" "" in
      at_owner (tool_owner cid s) (with_tool_result cid e d) s
