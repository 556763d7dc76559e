-- ===== src/Session/Derive/Tests.antt =====
-- Events of a short session, and the messages that derive.py makes of them.
use ftre.Prelude.{
  ℕ, String, ◌≡◌, ◌≢◌, refl, Option, none, some, List, [], ◌∷◌, ◌++◌, String_key, map, concat,
}
use ftre.Prelude.Dict.{get, put}
use ftre.Prelude.Dict.Keys.{values}
use ftre.Session.Value.{PyValue, text, int, list, dict, PyDict, end, entry}
use ftre.Session.Log.{Event}
use ftre.Session.Message.{Msg, default, user, assistant, text_block}
use ftre.Session.Derive.{Reader, FoldState, new_state, insert, seal_previous_assistant}
use ftre.Session.Derive.Content.{normalize_user_content, items}
use ftre.Session.Derive.Messages.{apply_user_message, apply_assistant_message}
use ftre.Session.Derive.Apply.{apply_event, apply_turn_end, ended, fold_events, derive_messages}
use ftre.Session.Derive.Order.{Indexed}
use ftre.Session.Derive.Order.Fold.{derive_messages-Indexed}
use ftre.Session.Derive.Whole.{IsChunk, IsWhole, fold_events-whole}

abbrev str : PyValue → String
str (text s) = s
str v = ""

abbrev dict_of : PyValue → Option PyDict
dict_of (dict d) = some d
dict_of v = none

abbrev int_of : PyValue → Option ℕ
int_of (int n) = some n
int_of v = none

abbrev list_of : PyValue → Option (List PyValue)
list_of (list xs) = some (items xs)
list_of v = none

abbrev answer : Msg
answer = record {
  name = default;
  content =
      text_block (record { text = "hello"; id = "b"; created_at = "t"; finished_at = none }) ∷ [];
  role = assistant;
  id = "m1";
  metadata = end;
  created_at = "t";
  seq = 0;
  token = none;
  finished_at = none;
  finished_reason = none;
  error = none;
}

-- Any message validates as the answer.
abbrev reader : Reader
reader = record {
  iso = λ ms. "t";
  digits = λ n. "n";
  str = str;
  int = int_of;
  as_dict = dict_of;
  as_list = list_of;
  dumps = str;
  strip = λ s. s;
  validate_msg = λ v. some answer;
  validate_text = λ v. none;
  validate_data = λ v. none;
}

abbrev event : String → ℕ → Option String → PyDict → Event
event type_ seq mid d = record {
  type_ = type_;
  seq = seq;
  time = seq;
  message_id = mid;
  content = dict d;
}

abbrev asked : Event
asked = event "user/message" 0 (some "u1") (entry "content" (text "hi") end)

abbrev piece : String → PyDict
piece s = entry "kind" (text "text") (entry "delta" (text s) end)

abbrev whole : Event
whole = event "assistant/message" 3 (some "m1") (entry "message" (dict end) end)

abbrev ending : Event
ending = event "turn/end" 4 (some "m1") (entry "outcome" (text "completed") end)

abbrev chunks : List (Event × PyDict)
chunks =
    (event "assistant/chunk" 1 (some "m1") (piece "hel"), piece "hel")
    ∷ (event "assistant/chunk" 2 (some "m1") (piece "lo"), piece "lo")
    ∷ []

piece-IsChunk :
    (s : String) (n : ℕ)
    → IsChunk reader "m1" (event "assistant/chunk" n (some "m1") (piece s)) (piece s)
piece-IsChunk s n = record { typed = refl; addressed = refl; content = refl; kind = refl }

whole-IsWhole : IsWhole "m1" whole
whole-IsWhole = record { typed = refl; addressed = refl }

m1_named : let m : String = "m1" in m ≢ ""
m1_named = cc

fold_events-whole_example :
    fold_events reader (map (λ (p : Event × PyDict). p.0) chunks ++ whole ∷ ending ∷ []) new_state
    ≡ fold_events reader (whole ∷ ending ∷ []) new_state
fold_events-whole_example =
    fold_events-whole reader "m1" m1_named whole whole-IsWhole chunks (ending ∷ []) new_state
      (piece-IsChunk "hel" 1, (piece-IsChunk "lo" 2, tt))

-- Data that is a text: an event that does not read it changes nothing, one that reads it raises.
abbrev odd : String → Event
odd type_ = record (event type_ 5 (some "m1") end) { content = text "x" }

passes_over : apply_event reader (odd "turn/start") new_state ≡ some new_state
unfolding apply_event
passes_over = refl

reads_it : apply_event reader (odd "assistant/message") new_state ≡ none
unfolding apply_event
reads_it = refl

abbrev asked_message : Msg
asked_message = record {
  name = default;
  content =
      text_block (record { text = "hi"; id = "u1:block:n"; created_at = "t"; finished_at = none })
      ∷ [];
  role = user;
  id = "u1";
  metadata = end;
  created_at = "t";
  seq = 0;
  token = none;
  finished_at = none;
  finished_reason = none;
  error = none;
}

abbrev final : FoldState
final = record {
  messages =
      ("u1", asked_message)
      ∷ (
        "m1",
        record answer { seq = 4; finished_at = some "t"; finished_reason = some "completed" },
      )
      ∷ [];
  order = "u1" ∷ "m1" ∷ [];
  tool_calls = [];
}

folded : fold_events reader (asked ∷ whole ∷ ending ∷ []) new_state ≡ some final
unfolding fold_events apply_event apply_assistant_message apply_turn_end ended insert get put
    seal_previous_assistant normalize_user_content concat apply_user_message
folded = refl

derive_messages-Indexed_example :
    (derive_messages reader (asked ∷ whole ∷ ending ∷ []) ≡ some (values final.messages))
    × Indexed final
derive_messages-Indexed_example =
    derive_messages-Indexed reader (asked ∷ whole ∷ ending ∷ []) final folded
