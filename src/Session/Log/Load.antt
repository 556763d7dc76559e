-- ===== src/Session/Log/Load.antt =====
-- `load` of log.py, which rebuilds the log from a persisted list of events.
use ftre.Prelude.{
  ℕ, suc, String, Option, none, some, List, [], ◌∷◌, ◌++◌, ◌==◌, ℕ_key, String_key, if◌then◌else◌,
  Bool, false, contains, length, not,
}
use ftre.Session.Value.{PyValue, snapshot_json}
use ftre.Session.Log.{
  Event, Result, ok, err, unknown_type, not_json, bad_seq, Outside, Log, all_event_types,
}
use ftre.Session.Log.Append.{reindex}

-- An event's dict as it was persisted.
pub record RawEvent : Type 0 where
  pub type_ : String
  pub seq : Option ℕ
  pub time : ℕ
  pub message_id : Option String
  pub content : PyValue

abbrev pub raw : Event → RawEvent
raw e = record {
  type_ = e.type_;
  seq = some e.seq;
  time = e.time;
  message_id = e.message_id;
  content = e.content;
}

abbrev pub has_seq : Option ℕ → ℕ → Bool
has_seq none n = false
has_seq (some m) n = m == n

abbrev pub cleared : Log → Log
cleared log = record log {
  events = [];
  next_seq = 0;
  user_requests = [];
  fingerprints = [];
  turn_outcomes = [];
}

module _ (out : Outside) where
  abbrev pub restore : RawEvent → ℕ → Option PyValue → Log → Result (Unit {0}) × Log
  restore e index none log = (err not_json, log)
  restore e index (some content) log =
      let restored : Event = record {
        type_ = e.type_;
        seq = index;
        time = e.time;
        message_id = e.message_id;
        content = content;
      } in
      reindex out restored (record log { events = log.events ++ restored ∷ [] })

  -- One round of the loop; no type is ignorable.
  unfoldable pub load_one : RawEvent → ℕ → Log → Result (Unit {0}) × Log
  load_one e index log =
      if not (contains e.type_ all_event_types)
      then (err unknown_type, log)
      else if not (has_seq e.seq index)
      then (err bad_seq, log)
      else restore e index (snapshot_json e.content) log

  abbrev go_on : (Log → Result (Unit {0}) × Log) → Result (Unit {0}) × Log → Result (Unit {0}) × Log
  go_on next (ok u, log) = next log
  go_on next (err x, log) = (err x, log)

  unfoldable pub load_from : List RawEvent → ℕ → Log → Result (Unit {0}) × Log
  load_from [] index log = (ok tt, log)
  load_from (e ∷ es) index log = go_on (load_from es (suc index)) (load_one e index log)

  abbrev count_events : Result (Unit {0}) × Log → Result (Unit {0}) × Log
  count_events (ok u, log) = (ok tt, record log { next_seq = length log.events })
  count_events (err x, log) = (err x, log)

  unfoldable pub load : List RawEvent → Log → Result (Unit {0}) × Log
  unfolding load_from
  load es log = count_events (load_from es 0 (cleared log))
