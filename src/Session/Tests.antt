-- ===== src/Session/Tests.antt =====
-- The theorems on the session log, applied to concrete logs.
use ftre.Prelude.{
  String, ◌≡◌, ◌≢◌, refl, false, none, some, [], ◌∷◌, ◌==◌, String_key, if◌then◌else◌, ltb, length,
  take, max,
}
use ftre.Prelude.Dict.{get, put}
use ftre.Session.Value.{
  PyValue, text, list, dict, int, object, nil, cons, end, entry, snapshot_json, IsPure, strip_ids,
}
use ftre.Session.Value.Pure.{snapshot_json-IsPure}
use ftre.Session.Log.{Event, Outside, Log, tail, ok, err, bound_otherwise}
use ftre.Session.Log.Append.{append, append_user_message, request_fingerprint, str_field}
use ftre.Session.Log.Order.{IsConsecutive, append-IsConsecutive, tail_is_later, later}
use ftre.Session.Log.Once.{append_user_message-twice}

-- A digest that tells texts apart, and `str` of texts alone.
abbrev word : PyValue → String
word (text s) = s
word _ = ""

abbrev first_word : PyValue → String
first_word (list (cons (dict (entry k v d)) xs)) = word v
first_word _ = ""

abbrev outside : Outside
outside = record { digest = first_word; str = word; str-text = λ s. refl; user_id = λ sid rid. rid }

abbrev says : String → String → PyValue
says key s = list (cons (dict (entry "text" (text s) (entry "id" (text key) end))) nil)

abbrev empty : Log
empty = record {
  session_id = "s1";
  events = [];
  next_seq = 5;
  subscribers = 1 ∷ [];
  appending = false;
  user_requests = [];
  fingerprints = [];
  turn_outcomes = [];
}

abbrev hello : Event
hello = record {
  type_ = "user/message";
  seq = 5;
  time = 10;
  message_id = some "r";
  content = dict (
      entry "content" (says "b1" "hi")
        (entry "metadata" (dict end) (entry "request_id" (text "r") end)));
}

abbrev after_hello : Log
after_hello = record empty {
  events = hello ∷ [];
  next_seq = 6;
  user_requests = ("r", "r") ∷ [];
  fingerprints = ("r", "hi") ∷ [];
}

empty-IsConsecutive : IsConsecutive 5 empty
empty-IsConsecutive = record { numbered = tt; next = refl }

append-IsConsecutive_example :
    IsConsecutive 5 (append outside "user/message" hello.content (some "r") 10 empty).1
append-IsConsecutive_example =
    append-IsConsecutive outside 5 "user/message" hello.content (some "r") 10 empty
      empty-IsConsecutive

after_hello-IsConsecutive : IsConsecutive 5 after_hello
after_hello-IsConsecutive = record { numbered = (refl, tt); next = refl }

tail_is_later_example : tail after_hello 5 10 ≡ (
  take (max 1 10) (later 5 after_hello.events),
  ltb (max 1 10) (length (later 5 after_hello.events)),
)
tail_is_later_example = tail_is_later 5 5 10 after_hello after_hello-IsConsecutive

snapshot_json-IsPure_example : (says "b1" "hi" ≡ says "b1" "hi") × IsPure (says "b1" "hi")
unfolding snapshot_json
snapshot_json-IsPure_example = snapshot_json-IsPure (says "b1" "hi") (says "b1" "hi") refl

-- An object of a foreign class inside is refused.
refused : snapshot_json (list (cons (int 1) (cons (object "Path") nil))) ≡ none
unfolding snapshot_json
refused = refl

r_is_named : let r : String = "r" in r ≢ ""
r_is_named = cc

append_user_message-twice_example :
    append_user_message outside "r" (says "b2" "bye") end none "f2" 11 after_hello ≡ (
      if request_fingerprint outside (says "b1" "hi")
        == request_fingerprint outside (says "b2" "bye")
      then (ok none, after_hello, [])
      else (err bound_otherwise, after_hello, []))
unfolding append_user_message get snapshot_json str_field put request_fingerprint strip_ids
append_user_message-twice_example =
    append_user_message-twice outside "r" (says "b1" "hi") end r_is_named (says "b2" "bye") end none
      none "f1" "f2" 10 11 empty after_hello hello (1 ∷ []) refl
