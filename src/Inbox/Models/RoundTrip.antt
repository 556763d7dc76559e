-- ===== src/Inbox/Models/RoundTrip.antt =====
-- The JSON form of an inbox, written by `to_json` of models.py and read by `from_json`.
use ftre.Prelude.{
  String, ◌≡◌, ◌≢◌, refl, ap, true, Option, none, some, List, map, String_key, ℕ_key, All, All-of,
  All-map, traverse, traverse-map, ne_==,
}
use ftre.Json.{text, obj, Fields, list_of-items_of, Builtins, truthy}
use ftre.Inbox.Models.{
  Target, Source, next_turn, next_step, user, plugin, system, QueueItem, Inbox, validate,
}
use ftre.Inbox.Models.Codec.{
  MsgCodec, item_to_json, queued_item, inbox_to_json, inbox_from_json, history_json, source_of,
  source_text, str_if, str_or,
}

-- An item whose texts `from_json` does not replace by a default, and each of whose messages is read
-- back from what was dumped of it.
pub record IsReadable {M : Type 0} (codec : MsgCodec M) (q : QueueItem M) : Type 0 where
  pub messages : All (λ m. codec.read (codec.dump m) ≡ some m) q.messages
  pub history : q.history_message_id ≢ some ""
  pub agent : q.agent_id ≢ ""

source_of-source_text : (s : Source) → source_of (text (source_text s)) ≡ some s
unfolding source_of source_text
source_of-source_text user = refl
source_of-source_text plugin = refl
source_of-source_text system = refl

traverse-dict : (py : Builtins) (fs : List Fields) → traverse py.dict (map obj fs) ≡ some fs
traverse-dict py fs =
    traverse-map py.dict obj fs (All-of (λ x. py.dict (obj x) ≡ some x) py.dict-obj fs)

truthy-text : (s : String) → s ≢ "" → truthy (text s) ≡ true
truthy-text s h = rw (ne_== s "" h)

str_if-history : (py : Builtins) (o : Option String) → o ≢ some "" → str_if py (history_json o) ≡ o
unfolding str_if history_json
str_if-history py none h = refl
str_if-history py (some id) h = rw (truthy-text id (λ e. h (ap some e))) (rw py.str-text)

str_or-text : (py : Builtins) (s d : String) → s ≢ "" → str_or py (text s) d ≡ s
unfolding str_or
str_or-text py s d h = rw (truthy-text s h) (rw py.str-text)

module _ {M : Type 0} (py : Builtins) (codec : MsgCodec M) where
  -- An item that is written under a target is read back under it.
  pub queued_item-item_to_json :
      (t : Target) (q : QueueItem M)
      → IsReadable codec q
      → queued_item py codec t (item_to_json py codec t q) ≡ some q
  unfolding queued_item item_to_json
  queued_item-item_to_json next_turn q h = simp (
    source_of-source_text,
    py.int-num,
    py.iter-arr,
    list_of-items_of,
    traverse-dict,
    traverse-map codec.read codec.dump q.messages h.messages,
    py.str-text,
    str_if-history py q.history_message_id h.history,
    str_or-text py q.agent_id "default" h.agent,
  )
  queued_item-item_to_json _ q h = simp (
    source_of-source_text,
    py.int-num,
    py.iter-arr,
    list_of-items_of,
    traverse-dict,
    traverse-map codec.read codec.dump q.messages h.messages,
    py.str-text,
    str_if-history py q.history_message_id h.history,
    str_or-text py q.agent_id "default" h.agent,
  )

  traverse-queued_item :
      (t : Target) (qs : List (QueueItem M))
      → All (IsReadable codec) qs
      → traverse (queued_item py codec t) (map (item_to_json py codec t) qs) ≡ some qs
  traverse-queued_item t qs h = traverse-map (queued_item py codec t) (item_to_json py codec t) qs (
      All-map (IsReadable codec) (λ q. queued_item py codec t (item_to_json py codec t q) ≡ some q)
        (queued_item-item_to_json t) qs h)

  -- A valid inbox is read back exactly as it was written, where its items have a history id and an
  -- agent id that are not empty texts (a missing history id is well), and where each of their
  -- messages is read back by `Msg.model_validate` from what `model_dump` made of it.
  pub inbox_from_json-inbox_to_json :
      (s : Inbox M)
      → All (IsReadable codec) s.turns
      → All (IsReadable codec) s.steps
      → validate s ≡ true
      → inbox_from_json py codec (inbox_to_json py codec s) ≡ some s
  unfolding validate
  inbox_from_json-inbox_to_json s ht hs v =
      unfold inbox_from_json inbox_to_json in
      simp (
        py.int-num,
        py.iter-arr,
        list_of-items_of,
        py.str-text,
        traverse-queued_item next_turn s.turns ht,
        traverse-queued_item next_step s.steps hs,
        v,
      )
