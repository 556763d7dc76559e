-- ===== src/Session/Derive/Apply.antt =====
-- `_apply_event` and `derive_messages` of derive.py.
use ftre.Prelude.{
  String, Bool, ◌||◌, Option, none, some, List, [], ◌∷◌, ◌==◌, String_key, if◌then◌else◌, ◌>>=◌,
  traverse,
}
use ftre.Prelude.Dict.{get}
use ftre.Session.Value.{PyValue, none_value, dict, PyDict, end, entry, field, truthy}
use ftre.Session.Log.{Event, some_text}
use ftre.Session.Message.{Msg, TokenUsage, MsgToken}
use ftre.Session.Derive.{Reader, str_or, FoldState, new_state, touch, save, is_assistant}
use ftre.Session.Derive.Chunks.{append_assistant_chunk, append_tool_result_chunk}
use ftre.Session.Derive.Messages.{
  apply_user_message, apply_assistant_message, apply_hint_message, count_of, apply_compact_message,
}
use ftre.Session.Derive.Tools.{apply_call_start, apply_result_start, apply_tool_result}

module _ (r : Reader) where
  unfoldable pub apply_chunk : Event → PyDict → FoldState → Option FoldState
  apply_chunk e d s =
      let kind = str_or r.str d "kind" "" in
      if kind == "text" || kind == "thinking"
      then some (append_assistant_chunk r e d s)
      else if kind == "tool_result_text"
      then append_tool_result_chunk r e d s
      else some s

  abbrev pub reason_of : PyDict → String
  reason_of d =
      let reason =
        let v = field d "reason" in
        if truthy v then r.str v else str_or r.str d "outcome" "completed" in
      if reason == "crashed"
      then "interrupted"
      else if reason == "cancelled" || reason == "paused"
      then "completed"
      else reason

  abbrev pub error_of : PyValue → Option PyDict → Option PyDict
  error_of (dict (entry k v d)) old = some (entry k v d)
  error_of (dict (PyDict.odd_entry v d)) old = some (PyDict.odd_entry v d)
  error_of v old = old

  abbrev pub with_usage : Option MsgToken → TokenUsage → MsgToken
  with_usage none u = record { usage = u; last_call_usage = u }
  with_usage (some t) u = record t { usage = u }

  abbrev pub usage_in : PyDict → PyValue → Option MsgToken → Option (Option MsgToken)
  usage_in d none_value old = some old
  usage_in d total old = do
    prompt ← count_of r d "prompt_tokens"
    completion ← count_of r d "completion_tokens"
    sum ← count_of r d "total_tokens"
    some (
        some (
          with_usage old (record {
            prompt_tokens = prompt;
            completion_tokens = completion;
            total_tokens = sum;
          })))

  abbrev pub usage_of : PyValue → Option MsgToken → Option (Option MsgToken)
  usage_of (dict d) old = usage_in d (field d "total_tokens") old
  usage_of v old = some old

  abbrev pub or_now : Option String → String → Option String
  or_now (some t) now = some t
  or_now none now = some now

  unfoldable pub ended : Event → PyDict → Msg → Option Msg
  ended e d m = do
    token ← usage_of (field d "usage") m.token
    some (
        touch e (record m {
          finished_at = or_now m.finished_at (r.iso e.time);
          finished_reason = some (reason_of d);
          error = error_of (field d "error") m.error;
          token = token;
        }))

  abbrev pub end_at : Option Msg → String → Event → PyDict → FoldState → Option FoldState
  end_at none mid e d s = some s
  end_at (some m) mid e d s =
      if is_assistant m then (ended e d m >>= λ n. some (save mid n s)) else some s

  abbrev pub end_for : Option String → Event → PyDict → FoldState → Option FoldState
  end_for none e d s = some s
  end_for (some mid) e d s = end_at (get s.messages mid) mid e d s

  unfoldable pub apply_turn_end : Event → PyDict → FoldState → Option FoldState
  apply_turn_end e d s = end_for (some_text e.message_id) e d s

  -- event.get("data") or {}; none is a value that is truthy and no dict.
  abbrev pub data_of : PyValue → Option PyDict
  data_of v = if truthy v then (elim v [ dict d ↦ some d | other ↦ none ]) else some end

  abbrev pub apply_dict : Event → PyDict → FoldState → Option FoldState
  apply_dict e d s =
      if e.type_ == "user/message"
      then apply_user_message r e d s
      else if e.type_ == "assistant/message"
      then apply_assistant_message r e d s
      else if e.type_ == "hint/message"
      then apply_hint_message r e d s
      else if e.type_ == "compact/message"
      then apply_compact_message r e d s
      else if e.type_ == "tool/call-start"
      then apply_call_start r e d s
      else if e.type_ == "tool/result-start"
      then apply_result_start r e d s
      else if e.type_ == "tool/result"
      then apply_tool_result r e d s
      else if e.type_ == "assistant/chunk"
      then apply_chunk e d s
      else if e.type_ == "turn/end"
      then apply_turn_end e d s
      else some s

  -- `turn/end` reads its data only where it names an assistant's message.
  abbrev pub odd_end_at : Option Msg → FoldState → Option FoldState
  odd_end_at none s = some s
  odd_end_at (some m) s = if is_assistant m then none else some s

  abbrev pub odd_end : Option String → FoldState → Option FoldState
  odd_end none s = some s
  odd_end (some mid) s = odd_end_at (get s.messages mid) s

  -- An event without a message id is passed over before its data is read.
  abbrev pub odd_addressed : Option String → FoldState → Option FoldState
  odd_addressed none s = some s
  odd_addressed (some mid) s = none

  abbrev pub always_reads : String → Bool
  always_reads type_ =
      type_ == "user/message"
      || (type_ == "assistant/message"
          || (type_ == "compact/message"
              || (type_ == "tool/result-start"
                  || (type_ == "tool/result" || type_ == "assistant/chunk"))))

  -- An event whose data is truthy and no dict: where it calls `data.get` it raises, and where it
  -- does not, nothing changes.
  abbrev pub apply_odd : Event → FoldState → Option FoldState
  apply_odd e s =
      if always_reads e.type_
      then none
      else if e.type_ == "hint/message" || e.type_ == "tool/call-start"
      then odd_addressed (some_text e.message_id) s
      else if e.type_ == "turn/end"
      then odd_end (some_text e.message_id) s
      else some s

  abbrev pub apply_read : Event → Option PyDict → FoldState → Option FoldState
  apply_read e none s = apply_odd e s
  apply_read e (some d) s = apply_dict e d s

  unfoldable pub apply_event : Event → FoldState → Option FoldState
  apply_event e s = apply_read e (data_of e.content) s

  -- The fold, and the messages in the order of their first appearance.
  unfoldable pub fold_events : List Event → FoldState → Option FoldState
  fold_events [] s = some s
  fold_events (e ∷ es) s = apply_event e s >>= fold_events es

  abbrev pub collect : FoldState → Option (List Msg)
  collect s = traverse (get s.messages) s.order

  unfoldable pub derive_messages : List Event → Option (List Msg)
  unfolding fold_events
  derive_messages es = fold_events es new_state >>= collect
