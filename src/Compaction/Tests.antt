-- ===== src/Compaction/Tests.antt =====
-- The theorems on the view of a compacted context at concrete messages.
use ftre.Prelude.{ℕ, String, ◌≡◌, refl, Option, none, some, List, [], ◌∷◌}
use ftre.Session.Value.{PyValue, PyDict, end, entry, dict, int, text}
use ftre.Session.Message.{
  Msg, MsgName, default, compact, compact_fast, Role, user, assistant, ToolResultBlock, plain,
  tool_result_block, success, ContentBlock,
}
use ftre.Compaction.View.{
  build_context_view, build_context_view-plain, trim_ids, trim_ids_from, eligible, result_ids,
}

-- Enough of Python's str and int for the values below.
abbrev str : PyValue → String
str (text s) = s
str _ = "?"

abbrev to_int : PyValue → Option ℕ
to_int (int n) = some n
to_int _ = none

abbrev stamp : ToolResultBlock → String × String
stamp b = ("new", "now")

abbrev tool : String → ContentBlock
tool id = tool_result_block (record {
  id = id;
  name = "read";
  output = plain "long";
  state = success;
  metadata = end;
  created_at = "now";
  finished_at = none;
})

abbrev message : String → MsgName → Role → PyDict → List ContentBlock → Msg
message id name role metadata content = record {
  name = name;
  content = content;
  role = role;
  id = id;
  metadata = metadata;
  created_at = "now";
  seq = 0;
  token = none;
  finished_at = none;
  finished_reason = none;
  error = none;
}

abbrev old : Msg
old = message "m1" default user end []

abbrev seen : Msg
seen = message "m2" default assistant end (tool "t1" ∷ [])

abbrev recent : Msg
recent = message "m3" default assistant end (tool "t2" ∷ [])

abbrev summary : Msg
summary =
    message "m4" compact user
      (entry "context_compact" (dict (entry "through_message_id" (text "m2") end)) end) []

abbrev fast : Msg
fast =
    message "m5" compact_fast user
      (entry "context_compact" (dict (entry "tool_results" (int 2) end)) end) []

build_context_view-plain_example :
    build_context_view str to_int stamp (old ∷ seen ∷ []) ≡ old ∷ seen ∷ []
build_context_view-plain_example =
    build_context_view-plain str to_int stamp (old ∷ seen ∷ []) (refl, (refl, tt))
      (refl, (refl, tt))

both_trimmed :
    trim_ids str to_int stamp (old ∷ seen ∷ recent ∷ summary ∷ fast ∷ []) ≡ "t1" ∷ "t2" ∷ []
unfolding trim_ids trim_ids_from eligible result_ids
both_trimmed = refl
