-- ===== src/Session/Derive.antt =====
-- packages/ftre-agent/src/ftre_agent/session/derive.py: the messages of a session out of its events.
-- Python's built-ins and the validation of pydantic are the parameter `Reader`. What raises is `none`.
pub mod Content
pub mod Chunks
pub mod Messages
pub mod Tools
pub mod Apply
pub mod Order
pub mod Whole
mod Tests
use ftre.Prelude.{
  ℕ, String, ◌≡◌, Bool, true, false, Option, none, some, List, [], ◌∷◌, ◌++◌, map, max, ◌==◌,
  String_key, if◌then◌else◌, ◌>>=◌, traverse,
}
use ftre.Prelude.Dict.{Dict, get, put}
use ftre.Session.Value.{PyValue, none_value, text, dict, PyDict, field, truthy}
use ftre.Session.Log.{Event}
use ftre.Session.Message.{
  Msg, MsgName, default, Role, user, assistant, system, TextBlock, DataBlock, ContentBlock,
  text_block, thinking_block, data_block, hint_block, tool_call_block, tool_result_block,
  extension_block, find_block,
}

pub record Reader : Type 0 where
  -- `datetime.fromtimestamp(ms / 1000).isoformat()`, and a number in a text
  pub iso : ℕ → String
  pub digits : ℕ → String
  -- str, int, dict, list and json.dumps; the middle three may raise
  pub str : PyValue → String
  pub int : PyValue → Option ℕ
  pub as_dict : PyValue → Option PyDict
  pub as_list : PyValue → Option (List PyValue)
  pub dumps : PyValue → String
  pub strip : String → String
  -- `model_validate` of the three classes
  pub validate_msg : PyValue → Option Msg
  pub validate_text : PyValue → Option TextBlock
  pub validate_data : PyValue → Option DataBlock

-- str(data.get(key) or default)
abbrev pub str_or : (PyValue → String) → PyDict → String → String → String
str_or str d key fallback = let v = field d key in if truthy v then str v else fallback

pub record FoldState : Type 0 where
  pub messages : Dict Msg
  pub order : List String
  pub tool_calls : Dict String

abbrev pub new_state : FoldState
new_state = record { messages = []; order = []; tool_calls = [] }

abbrev pub touch : Event → Msg → Msg
touch e m = record m { seq = max m.seq e.seq }

-- The calls of a message, filed under their ids.
unfoldable pub file_calls : List ContentBlock → String → Dict String → Dict String
file_calls [] mid calls = calls
file_calls (tool_call_block b ∷ bs) mid calls = file_calls bs mid (put calls b.id mid)
file_calls (b ∷ bs) mid calls = file_calls bs mid calls

abbrev pub order_with : Option Msg → String → List String → List String
order_with none mid order = order ++ mid ∷ []
order_with (some old) mid order = order

unfoldable pub insert : Msg → FoldState → FoldState
unfolding file_calls
insert m s = record {
  messages = put s.messages m.id m;
  order = order_with (get s.messages m.id) m.id s.order;
  tool_calls = file_calls m.content m.id s.tool_calls;
}

-- A message that was changed in place.
abbrev pub save : String → Msg → FoldState → FoldState
save mid m s = record s { messages = put s.messages mid m }

module _ (r : Reader) where
  abbrev pub empty_assistant : String → Event → Msg
  empty_assistant mid e = record {
    name = default;
    content = [];
    role = assistant;
    id = mid;
    metadata = PyDict.end;
    created_at = r.iso e.time;
    seq = e.seq;
    token = none;
    finished_at = none;
    finished_reason = none;
    error = none;
  }

  abbrev pub ensured : Option Msg → String → Event → FoldState → Msg × FoldState
  ensured none mid e s = (empty_assistant mid e, insert (empty_assistant mid e) s)
  ensured (some m) mid e s = (touch e m, save mid (touch e m) s)

  -- `ensure_assistant`, the message and the state that holds it.
  unfoldable pub ensure_assistant : String → Event → FoldState → Msg × FoldState
  ensure_assistant mid e s = ensured (get s.messages mid) mid e s

  -- The loop of `seal_previous_assistant`, over the ids from the newest on.
  abbrev pub sealed : Option String → Event → Msg → Msg
  sealed (some done) e m = m
  sealed none e m =
      touch e (record m { finished_at = some (r.iso e.time); finished_reason = some "completed" })

  abbrev pub seal_at : Role → String → Event → Msg → FoldState → Option FoldState → Option FoldState
  seal_at assistant mid e m s rest = some (save mid (sealed m.finished_at e m) s)
  seal_at user mid e m s rest = some s
  seal_at system mid e m s rest = rest

  abbrev pub seal_found :
      Option Msg → String → Event → FoldState → Option FoldState → Option FoldState
  seal_found none mid e s rest = none
  seal_found (some m) mid e s rest = seal_at m.role mid e m s rest

  unfoldable pub seal_in : List String → Event → FoldState → Option FoldState
  seal_in [] e s = some s
  seal_in (mid ∷ ids) e s = seal_found (get s.messages mid) mid e s (seal_in ids e s)

abbrev pub reversed : List String → List String
reversed [] = []
reversed (x ∷ xs) = reversed xs ++ x ∷ []

module _ (r : Reader) where
  unfoldable pub seal_previous_assistant : Event → FoldState → Option FoldState
  unfolding seal_in
  seal_previous_assistant e s = seal_in r (reversed s.order) e s

-- `_tool_owner`: the index, and then the messages from the newest on.
abbrev pub has_call : String → Msg → Bool
has_call cid m = elim (find_block "tool_call" cid m.content) [ none ↦ false | some b ↦ true ]

abbrev pub is_assistant : Msg → Bool
is_assistant m = elim m.role [ user ↦ false | assistant ↦ true | system ↦ false ]

abbrev pub owner_found :
    Option Msg → String → String → Option (Option String) → Option (Option String)
owner_found none mid cid rest = none
owner_found (some m) mid cid rest =
    if is_assistant m then (if has_call cid m then some (some mid) else rest) else rest

unfoldable pub owner_in : List String → String → Dict Msg → Option (Option String)
owner_in [] cid messages = some none
owner_in (mid ∷ ids) cid messages =
    owner_found (get messages mid) mid cid (owner_in ids cid messages)

abbrev pub owner_filed : Option String → String → FoldState → Option (Option String)
owner_filed (some mid) cid s = some (some mid)
owner_filed none cid s = owner_in (reversed s.order) cid s.messages

unfoldable pub tool_owner : String → FoldState → Option (Option String)
unfolding owner_in
tool_owner cid s = owner_filed (get s.tool_calls cid) cid s
