-- ===== src/Session/Log/Append.antt =====
-- `append`, `append_user_message` and `_reindex` of log.py.
use ftre.Prelude.{
  ℕ, ◌+◌, String, Bool, true, false, not, ◌&&◌, ◌||◌, Option, none, some, List, [], ◌∷◌, ◌++◌, ◌==◌,
  String_key, ℕ_key, if◌then◌else◌, contains,
}
use ftre.Prelude.Dict.{get, put}
use ftre.Session.Value.{
  PyValue, text, dict, PyDict, end, entry, field, truthy, snapshot_json, strip_ids,
}
use ftre.Session.Log.{
  Event, Result, ok, err, reentrant, unknown_type, not_json, bound_otherwise, not_a_dict, Outside,
  Log, all_event_types, or_empty, some_text,
}

abbrev pub as_dict : PyValue → Option PyDict
as_dict (dict d) = some d
as_dict _ = none

module _ (out : Outside) where
  unfoldable pub request_fingerprint : PyValue → String
  request_fingerprint content = out.digest (strip_ids content)

  -- `str(payload.get(key) or "")`
  unfoldable pub str_field : PyDict → String → String
  str_field d key = let v = field d key in if truthy v then out.str v else ""

  abbrev pub same_or_absent : Option String → String → Bool
  same_or_absent none fp = true
  same_or_absent (some old) fp = old == fp

  -- `_check_user_request`: `true` where it returns.
  unfoldable pub check_user_request : Log → String → PyValue → Bool
  check_user_request log rid content =
      same_or_absent (get log.fingerprints rid) (request_fingerprint content)

  abbrev pub index_user : Event → PyDict → Log → Log
  index_user e d log =
      let rid = str_field d "request_id" in
      if rid == "" then log else record log {
        user_requests = put log.user_requests rid (or_empty e.message_id);
        fingerprints = put log.fingerprints rid (request_fingerprint (field d "content"));
      }

  abbrev pub index_turn : PyDict → Log → Log
  index_turn d log =
      let rid = str_field d "request_id" in
      if rid == ""
      then log
      else record log { turn_outcomes = put log.turn_outcomes rid (str_field d "outcome") }

  -- The two index updates, the same in `append` and in `_reindex`; what has no `get` raises.
  abbrev pub reindex_dict : Event → Option PyDict → Log → Result (Unit {0}) × Log
  reindex_dict e none log = (err not_a_dict, log)
  reindex_dict e (some d) log =
      (ok tt, if e.type_ == "user/message" then index_user e d log else index_turn d log)

  unfoldable pub reindex : Event → Log → Result (Unit {0}) × Log
  reindex e log =
      if e.type_ == "user/message" || e.type_ == "turn/end"
      then reindex_dict e (as_dict e.content) log
      else (ok tt, log)

  abbrev pub appended : Event → Log → Log
  appended e log = record log { events = log.events ++ e ∷ []; next_seq = log.next_seq + 1 }

  -- Who is told, and in which order, comes back beside the result: all subscribers, once the
  -- indexes are written.
  abbrev pub Appended : Type 0
  Appended = Result Event × Log × List ℕ

  abbrev pub told : Event → Result (Unit {0}) × Log → Appended
  told e (ok u, log) = (ok e, log, log.subscribers)
  told e (err x, log) = (err x, log, [])

  unfoldable pub publish : Event → Log → Appended
  unfolding reindex
  publish e log = told e (reindex e (appended e log))

  -- The check that comes before the log is touched.
  abbrev pub admissible : String → PyValue → Log → Result (Unit {0})
  admissible type_ (dict d) log =
      let rid = str_field d "request_id" in
      if type_ == "user/message"
        && (not (rid == "") && not (check_user_request log rid (field d "content")))
      then err bound_otherwise
      else ok tt
  admissible type_ _ log = if type_ == "user/message" then err not_a_dict else ok tt

  abbrev pub publish_if : Result (Unit {0}) → Event → Log → Appended
  publish_if (err x) e log = (err x, log, [])
  publish_if (ok u) e log = publish e log

  abbrev pub append_payload : String → ℕ → Option String → Option PyValue → Log → Appended
  append_payload type_ now mid none log = (err not_json, log, [])
  append_payload type_ now mid (some payload) log =
      publish_if (admissible type_ payload log)
        (record {
          type_ = type_;
          seq = log.next_seq;
          time = now;
          message_id = some_text mid;
          content = payload;
        })
        log

  unfoldable pub append : String → PyValue → Option String → ℕ → Log → Appended
  unfolding publish check_user_request
  append type_ payload mid now log =
      if log.appending
      then (err reentrant, log, [])
      else if not (contains type_ all_event_types)
      then (err unknown_type, log, [])
      else append_payload type_ now mid (snapshot_json payload) log

  abbrev pub user_data : PyValue → PyDict → String → PyValue
  user_data content metadata rid = dict (
      entry "content" content
        (entry "metadata" (dict metadata) (entry "request_id" (text rid) end)))

  -- The id that the message gets if the caller gives none; `fresh` is the random one.
  abbrev pub message_id_of : Option String → String → String → String → String
  message_id_of none sid rid fresh = if rid == "" then fresh else out.user_id sid rid
  message_id_of (some mid) sid rid fresh = mid

  abbrev pub is_known : String → Log → Bool
  is_known rid log =
      not (rid == "") && (elim (get log.user_requests rid) [ none ↦ false | some m ↦ true ])

  abbrev pub as_some : Appended → Result (Option Event) × Log × List ℕ
  as_some (ok e, log, who) = (ok (some e), log, who)
  as_some (err x, log, who) = (err x, log, who)

  unfoldable pub append_user_message :
      String
      → PyValue
      → PyDict
      → Option String
      → String
      → ℕ
      → Log
      → Result (Option Event) × Log × List ℕ
  unfolding append
  append_user_message rid content metadata mid fresh now log =
      if is_known rid log
      then (if same_or_absent (get log.fingerprints rid) (request_fingerprint content)
          then (ok none, log, [])
          else (err bound_otherwise, log, []))
      else as_some (
          append "user/message" (user_data content metadata rid)
            (some (message_id_of mid log.session_id rid fresh)) now log)
