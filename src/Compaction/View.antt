-- ===== src/Compaction/View.antt =====
-- packages/ftre-compaction/src/ftre_compaction/context.py: the messages that a model is shown. The
-- deep copy leaves no trace here. Parameters: `str` and `int` of Python, where `int` gives 0 for a
-- negative number and `none` where it raises, and the id and time of a new text block, random in the
-- source, by the tool result that it stands in.
use ftre.Prelude.{
  ℕ, String, Bool, true, false, Option, none, some, List, [], ◌∷◌, ◌++◌, map, if◌then◌else◌,
  String_key, contains, take, ◌≡◌, refl, ap, ap₂, ◌∙◌, All,
}
use ftre.Compaction.Anchor.{is_anchor, last_anchor, behind, others, no_anchor}
use ftre.Session.Value.{PyValue, PyList, PyDict, end, list, nil, cons, dict, field, truthy}
use ftre.Session.Message.{
  Msg, MsgName, default, compact, compact_fast, TextBlock, ToolResultBlock, ContentBlock,
  text_block, thinking_block, data_block, hint_block, tool_call_block, tool_result_block,
  extension_block, parts, text_part,
}

abbrev pub trimmed_placeholder : String
trimmed_placeholder = "[已压缩裁剪：原始工具输出不再可见]"

abbrev pub mapping_of : PyValue → PyDict
mapping_of (dict d) = d
mapping_of _ = end

abbrev pub compact_metadata : Msg → PyDict
compact_metadata m = mapping_of (field m.metadata "context_compact")

abbrev pub is_fast : MsgName → Bool
is_fast default = false
is_fast compact = false
is_fast compact_fast = true

-- The ids of the tool results of a content that are not in a set.
unfoldable pub result_ids : List String → List ContentBlock → List String
result_ids trim [] = []
result_ids trim (tool_result_block b ∷ bs) =
    let rest = result_ids trim bs in if contains b.id trim then rest else b.id ∷ rest
result_ids trim (b ∷ bs) = result_ids trim bs

unfoldable pub eligible : List String → List Msg → List String
eligible trim [] = []
eligible trim (m ∷ ms) = result_ids trim m.content ++ eligible trim ms

module _ (str : PyValue → String) (int : PyValue → Option ℕ)
    (stamp : ToolResultBlock → String × String) where
  abbrev pub int_or_zero : Option ℕ → ℕ
  int_or_zero none = 0
  int_or_zero (some n) = n

  -- `_nonnegative_int`
  abbrev pub nonnegative_int : PyValue → ℕ
  nonnegative_int v = int_or_zero (if truthy v then int v else some 0)

  abbrev pub texts : PyList → List String
  texts nil = []
  texts (cons v vs) = let rest = texts vs in if truthy v then str v ∷ rest else rest

  -- The loop over the markers of a fast compaction: the ids that they add to the set.
  abbrev pub marked : PyValue → PyDict → List Msg → List String → List String
  marked (list (cons v vs)) meta before trim = trim ++ texts (cons v vs)
  marked _ meta before trim =
      trim ++ take (nonnegative_int (field meta "tool_results")) (eligible trim before)

  unfoldable pub trim_ids_from : List Msg → List Msg → List String → List String
  trim_ids_from before [] trim = trim
  trim_ids_from before (m ∷ ms) trim =
      let meta : PyDict = compact_metadata m in
      trim_ids_from (before ++ m ∷ []) ms
        (if is_fast m.name then marked (field meta "tool_result_ids") meta before trim else trim)

  unfoldable pub trim_ids : List Msg → List String
  trim_ids ms = trim_ids_from [] ms []

  abbrev pub through_id : Msg → String
  through_id c =
      let v = field (compact_metadata c) "through_message_id" in if truthy v then str v else ""

  abbrev pub past_cut : Option (List Msg) → Msg → List Msg → List Msg
  past_cut none c after = c ∷ after
  past_cut (some rest) c after = c ∷ others c.id rest

  abbrev pub cut : Option (Msg × List Msg) → List Msg → List Msg
  cut none ms = ms
  cut (some (c, after)) ms = past_cut (behind (through_id c) ms) c after

  abbrev pub placeholder : ToolResultBlock → TextBlock
  placeholder b = record {
    text = trimmed_placeholder;
    id = (stamp b).0;
    created_at = (stamp b).1;
    finished_at = none;
  }

  abbrev pub trim_block : List String → ContentBlock → ContentBlock
  trim_block trim (tool_result_block b) =
      if contains b.id trim
      then tool_result_block (record b { output = parts (text_part (placeholder b) ∷ []) })
      else tool_result_block b
  trim_block trim b = b

  abbrev pub trim_message : List String → Msg → Msg
  trim_message trim m = record m { content = map (trim_block trim) m.content }

  unfoldable pub build_context_view : List Msg → List Msg
  build_context_view ms = map (trim_message (trim_ids ms)) (cut (last_anchor ms) ms)

  no_marks :
      (before ms : List Msg) (trim : List String)
      → All (λ (m : Msg). is_fast m.name ≡ false) ms
      → trim_ids_from before ms trim ≡ trim
  unfolding trim_ids_from
  no_marks before [] trim h = refl
  no_marks before (m ∷ ms) trim h = rw h.0 (no_marks (before ++ m ∷ []) ms trim h.1)

  trim_block-nothing : (b : ContentBlock) → trim_block [] b ≡ b
  trim_block-nothing (text_block b) = refl
  trim_block-nothing (thinking_block b) = refl
  trim_block-nothing (data_block b) = refl
  trim_block-nothing (hint_block b) = refl
  trim_block-nothing (tool_call_block b) = refl
  trim_block-nothing (tool_result_block b) = refl
  trim_block-nothing (extension_block b) = refl

  trim_blocks-nothing : (bs : List ContentBlock) → map (trim_block []) bs ≡ bs
  trim_blocks-nothing [] = refl
  trim_blocks-nothing (b ∷ bs) =
      ap₂ (λ c cs. c ∷ cs) (trim_block-nothing b) (trim_blocks-nothing bs)

  trim_messages-nothing : (ms : List Msg) → map (trim_message []) ms ≡ ms
  trim_messages-nothing [] = refl
  trim_messages-nothing (m ∷ ms) =
      ap₂ (λ n ns. n ∷ ns) (ap (λ bs. record m { content = bs }) (trim_blocks-nothing m.content))
        (trim_messages-nothing ms)

  -- Where nothing was compacted, the model is shown the messages as they are.
  pub build_context_view-plain :
      (ms : List Msg)
      → All (λ m. is_anchor m ≡ false) ms
      → All (λ (m : Msg). is_fast m.name ≡ false) ms
      → build_context_view ms ≡ ms
  unfolding build_context_view trim_ids
  build_context_view-plain ms a f =
      rw (no_anchor ms a)
        (ap (λ t. map (trim_message t) ms) (no_marks [] ms [] f) ∙ trim_messages-nothing ms)
