-- ===== src/Session/Derive/Messages.antt =====
-- `_apply_event` of derive.py, the events that bring a whole message.
use ftre.Prelude.{
  ℕ, ◌-◌, String, true, Option, none, some, List, [], ◌∷◌, ◌++◌, ◌==◌, String_key, if◌then◌else◌,
  ◌>>=◌, concat,
}
use ftre.Session.Value.{
  PyValue, bool, int, text, list, dict, PyList, nil, cons, PyDict, end, entry, field, truthy,
}
use ftre.Session.Log.{Event, or_empty, some_text}
use ftre.Session.Message.{
  Msg, MsgName, default, compact, compact_fast, Role, user, assistant, ContentBlock, text_block,
  hint_block,
}
use ftre.Session.Derive.{
  Reader, str_or, FoldState, touch, insert, save, ensure_assistant, seal_previous_assistant,
}
use ftre.Session.Derive.Content.{normalize_user_content, optional_text, or_else}
use ftre.Session.Derive.Chunks.{new_text}

-- A field that is missing or false reads as the second value.
abbrev pub field_or : PyDict → String → PyValue → PyValue
field_or d key v = or_else (field d key) v

-- data.get(key, default), where the key is absent.
abbrev pub get_default : PyDict → String → PyValue → PyValue
get_default end key v = v
get_default (entry j w d) key v = if j == key then w else get_default d key v
get_default (PyDict.odd_entry w d) key v = get_default d key v

abbrev pub blank_msg : MsgName → Role → String → String → ℕ → List ContentBlock → PyDict → Msg
blank_msg name role id created_at seq content metadata = record {
  name = name;
  content = content;
  role = role;
  id = id;
  metadata = metadata;
  created_at = created_at;
  seq = seq;
  token = none;
  finished_at = none;
  finished_reason = none;
  error = none;
}

module _ (r : Reader) where
  -- str(message_id or f"user_{seq}")
  abbrev pub user_message_id : Option String → Event → String
  user_message_id (some mid) e = mid
  user_message_id none e = concat "user_" (r.digits e.seq)

  unfoldable pub apply_user_message : Event → PyDict → FoldState → Option FoldState
  apply_user_message e d s = do
    closed ← seal_previous_assistant r e s
    content ←
        normalize_user_content r (field_or d "content" (list nil))
          (user_message_id (some_text e.message_id) e) (r.iso e.time)
    metadata ← r.as_dict (field_or d "metadata" (dict end))
    some (
        insert
          (blank_msg default user (user_message_id (some_text e.message_id) e) (r.iso e.time) e.seq
            content metadata)
          closed)

  -- The id of the envelope prevails.
  abbrev pub with_id : Option String → Msg → Msg
  with_id none m = m
  with_id (some mid) m = record m { id = mid }

  unfoldable pub apply_assistant_message : Event → PyDict → FoldState → Option FoldState
  apply_assistant_message e d s = do
    m ← r.validate_msg (field_or d "message" (dict end))
    some (insert (touch e (with_id (some_text e.message_id) m)) s)

  -- What pydantic takes for `str | list`.
  abbrev pub hint_value : PyValue → Option PyValue
  hint_value (text s) = some (text s)
  hint_value (list xs) = some (list xs)
  hint_value v = none

  abbrev pub hinted : Event → PyDict → Msg × FoldState → String → Option FoldState
  hinted e d (m, s) mid = do
    hint ← hint_value (field d "hint")
    source ← optional_text (field d "source")
    some (
        save mid
          (touch e (record m {
            content =
                m.content
                ++ hint_block (record {
                  hint = hint;
                  source = source;
                  id = concat "hint_" (r.digits e.seq);
                  created_at = r.iso e.time;
                  finished_at = some (r.iso e.time);
                })
                  ∷ [];
          }))
          s)

  abbrev pub hint_for : Option String → Event → PyDict → FoldState → Option FoldState
  hint_for none e d s = some s
  hint_for (some mid) e d s = hinted e d (ensure_assistant r mid e s) mid

  unfoldable pub apply_hint_message : Event → PyDict → FoldState → Option FoldState
  apply_hint_message e d s = hint_for (some_text e.message_id) e d s

  -- int(data.get(key) or 0)
  abbrev pub count_of : PyDict → String → Option ℕ
  count_of d key = let v = field d key in if truthy v then r.int v else some 0

  abbrev pub list_from : List PyValue → PyList
  list_from [] = nil
  list_from (v ∷ vs) = cons v (list_from vs)

  abbrev pub texts_of : List PyValue → List PyValue
  texts_of [] = []
  texts_of (v ∷ vs) = let rest = texts_of vs in if truthy v then text (r.str v) ∷ rest else rest

  abbrev pub ids_entry : List PyValue → PyDict
  ids_entry [] = end
  ids_entry (v ∷ vs) = entry "tool_result_ids" (list (list_from (v ∷ vs))) end

  abbrev pub fast_text : ℕ → ℕ → ℕ → String
  fast_text results before after = concat "已快速压缩：" (
      concat (r.digits results) (
        concat " 个较早的工具输出已被裁剪，其原始内容不再可见（约节省 "
          (concat (r.digits (before - after)) " tokens）。后续如需相关信息请重新获取。")))

  abbrev pub compact_block : Event → String → ContentBlock
  compact_block e s =
      text_block (new_text s (concat "compact_" (or_empty e.message_id)) (r.iso e.time))

  abbrev pub fast_message : Event → PyDict → Option Msg
  fast_message e d = do
    results ← count_of d "tool_results"
    before ← count_of d "tokens_before"
    after ← count_of d "tokens_after"
    ids ← r.as_list (field_or d "tool_result_ids" (list nil))
    some
        (record (blank_msg compact_fast assistant (or_empty e.message_id) (r.iso e.time) e.seq
          (compact_block e (fast_text results before after) ∷ [])
          (entry "context_compact"
            (dict (
              entry "mode" (text "fast") (
                entry "tool_results" (int results) (
                  entry "tokens_before" (int before)
                    (entry "tokens_after" (int after) (ids_entry (texts_of ids)))))))
            end)) { finished_at = some (r.iso e.time); finished_reason = some "completed" })

  abbrev pub summary_message : Event → PyDict → Msg
  summary_message e d =
      blank_msg compact user (or_empty e.message_id) (r.iso e.time) e.seq
        (compact_block e (str_or r.str d "summary_text" "") ∷ [])
        (entry "hide" (bool true) (
          entry "context_compact"
            (dict (
              entry "through_message_id" (get_default d "through_message_id" (text "")) (
                entry "trigger" (get_default d "trigger" (text "auto")) (
                  entry "tokens_before" (get_default d "tokens_before" (int 0))
                    (entry "tokens_after" (get_default d "tokens_after" (int 0)) end)))))
            end))

  unfoldable pub apply_compact_message : Event → PyDict → FoldState → Option FoldState
  apply_compact_message e d s = do
    closed ← seal_previous_assistant r e s
    m ←
        (if str_or r.str d "mode" "summary" == "fast"
          then fast_message e d
          else some (summary_message e d))
    some (insert m closed)
