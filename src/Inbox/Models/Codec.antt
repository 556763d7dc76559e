-- ===== src/Inbox/Models/Codec.antt =====
-- `to_json` and `from_json` of packages/ftre-inbox/src/ftre_inbox/models.py. Messages are written
-- and read by pydantic, which is a parameter.
use ftre.Prelude.{
  String, Bool, false, ◌||◌, Option, none, some, List, [], map, ◌==◌, String_key, ℕ_key,
  if◌then◌else◌, traverse, ◌>>=◌,
}
use ftre.Json.{
  Json, null, bool, num, text, arr, obj, Fields, end, field, items_of, list_of, member, member_or,
  member_or_null, truthy, Builtins,
}
use ftre.Inbox.Models.{
  Source, user, plugin, system, Target, next_turn, next_step, QueueItem, Inbox, validate,
}

-- `message.model_dump(mode="json")` and `Msg.model_validate`; `none` is a ValidationError. What is
-- dumped need not be read back as it was: blocks in the output of a tool's result come back as dicts.
pub record MsgCodec (M : Type 0) : Type 0 where
  pub dump : M → Json
  pub read : Json → Option M

abbrev pub target_text : Target → String
target_text next_turn = "next-turn"
target_text next_step = "next-step"

unfoldable pub source_text : Source → String
source_text user = "user"
source_text plugin = "plugin"
source_text system = "system"

unfoldable pub history_json : Option String → Json
history_json none = null
history_json (some id) = text id

abbrev pub target_of : Json → Option Target
target_of (text s) =
    if s == "next-turn" then some next_turn else if s == "next-step" then some next_step else none
target_of _ = none

unfoldable pub source_of : Json → Option Source
source_of (text s) =
    if s == "user"
    then some user
    else if s == "plugin"
    then some plugin
    else if s == "system"
    then some system
    else none
source_of _ = none

abbrev pub array_of : Json → Option (List Json)
array_of (arr xs) = some (list_of xs)
array_of _ = none

-- `value.get("schema_version") in {1, 2, 3}`; True equals 1.
abbrev pub known_schema : Json → Bool
known_schema (num n) = n == 1 || (n == 2 || n == 3)
known_schema (bool b) = b
known_schema _ = false

-- `str(v or default)`
unfoldable pub str_or : Builtins → Json → String → String
str_or py v default = if truthy v then py.str v else default

-- `str(v) if v else None`
unfoldable pub str_if : Builtins → Json → Option String
str_if py v = if truthy v then some (py.str v) else none

module _ {M : Type 0} (py : Builtins) (codec : MsgCodec M) where
  unfoldable pub item_to_json : Target → QueueItem M → Json
  item_to_json target q = obj (
      field "request_id" (text q.request_id) (
        field "sequence" (num q.sequence) (
          field "session_id" (text q.session_id) (
            field "channel_id" (text q.channel_id) (
              field "content" (text q.content) (
                field "attachments" (arr (items_of (map obj q.attachments))) (
                  field "source" (text (source_text q.source)) (
                    field "history_message_id" (history_json q.history_message_id) (
                      field "messages" (arr (items_of (map codec.dump q.messages))) (
                        field "agent_id" (text q.agent_id)
                          (field "target" (text (target_text target)) end)))))))))))

  unfoldable pub item_of_fields : Fields → Option (QueueItem M × Target)
  item_of_fields fs = do
    target ← target_of (member_or_null fs "target")
    source ← source_of (member_or fs "source" (text "user"))
    raw_messages ← elim (member fs "messages") [ none ↦ none | some v ↦ array_of v ]
    request_id ← member fs "request_id"
    raw_sequence ← member fs "sequence"
    sequence ← py.int raw_sequence
    session_id ← member fs "session_id"
    raw_attachments ← py.iter (member_or fs "attachments" (arr (items_of [])))
    attachments ← traverse py.dict raw_attachments
    messages ← traverse codec.read raw_messages
    some (
      record {
        request_id = py.str request_id;
        sequence = sequence;
        session_id = py.str session_id;
        channel_id = py.str (member_or fs "channel_id" (text ""));
        content = py.str (member_or fs "content" (text ""));
        attachments = attachments;
        source = source;
        history_message_id = str_if py (member_or_null fs "history_message_id");
        messages = messages;
        agent_id = str_or py (member_or_null fs "agent_id") "default";
      },
      target,
    )

  -- `QueueItem.from_json`; `.get` of what is no dict raises.
  unfoldable pub item_from_json : Json → Option (QueueItem M × Target)
  unfolding item_of_fields
  item_from_json (obj fs) = item_of_fields fs
  item_from_json _ = none

  unfoldable pub inbox_to_json : Inbox M → Json
  unfolding item_to_json
  inbox_to_json s = obj (
      field "schema_version" (num 3) (
        field "session_id" (text s.session_id) (
          field "revision" (num s.revision) (
            field "next_sequence" (num s.next_sequence) (
              field "next_turn" (arr (items_of (map (item_to_json next_turn) s.turns)))
                (field "next_step" (arr (items_of (map (item_to_json next_step) s.steps))) end))))))

  abbrev pub keep_target : Target → QueueItem M × Target → Option (QueueItem M)
  keep_target next_turn (q, next_turn) = some q
  keep_target next_step (q, next_step) = some q
  keep_target _ (q, _) = none

  -- One pass of the two loops of `_MutableInbox.from_json`.
  unfoldable pub queued_item : Target → Json → Option (QueueItem M)
  unfolding item_from_json
  queued_item target raw = do read ← item_from_json raw; keep_target target read

  abbrev pub checked : Inbox M → Option (Inbox M)
  checked s = if validate s then some s else none

  unfoldable pub inbox_of_fields : Fields → Option (Inbox M)
  unfolding queued_item
  inbox_of_fields fs = do
    session_id ←
        (if known_schema (member_or_null fs "schema_version") then member fs "session_id" else none)
    revision ← py.int (member_or fs "revision" (num 0))
    next_sequence ← py.int (member_or fs "next_sequence" (num 1))
    raw_turns ← py.iter (member_or fs "next_turn" (arr (items_of [])))
    turns ← traverse (queued_item next_turn) raw_turns
    raw_steps ← py.iter (member_or fs "next_step" (arr (items_of [])))
    steps ← traverse (queued_item next_step) raw_steps
    checked (record {
      session_id = py.str session_id;
      revision = revision;
      next_sequence = next_sequence;
      turns = turns;
      steps = steps;
    })

  -- `_MutableInbox.from_json`
  unfoldable pub inbox_from_json : Json → Option (Inbox M)
  unfolding inbox_of_fields
  inbox_from_json (obj fs) = inbox_of_fields fs
  inbox_from_json _ = none
