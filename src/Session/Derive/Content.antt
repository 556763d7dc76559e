-- ===== src/Session/Derive/Content.antt =====
-- `_normalize_user_content` and `_to_output_blocks` of derive.py.
use ftre.Prelude.{
  ℕ, suc, String, Bool, true, false, Option, none, some, List, [], ◌∷◌, ◌==◌, String_key,
  if◌then◌else◌, ◌>>=◌, traverse, concat,
}
use ftre.Session.Value.{
  PyValue, none_value, text, list, dict, PyList, nil, cons, PyDict, end, entry, field, truthy,
}
use ftre.Session.Message.{
  DataBlock, ContentBlock, text_block, data_block, OutputPart, text_part, data_part, raw_part,
}
use ftre.Session.Derive.{Reader, str_or}

-- What pydantic takes for `str | None`.
abbrev pub optional_text : PyValue → Option (Option String)
optional_text none_value = some none
optional_text (text s) = some (some s)
optional_text _ = none

-- a or b
abbrev pub or_else : PyValue → PyValue → PyValue
or_else a b = if truthy a then a else b

-- a, unless it is None
abbrev pub unless_none : PyValue → PyValue → PyValue
unless_none none_value b = b
unless_none a b = a

-- value in (None, "")
abbrev pub is_blank : PyValue → Bool
is_blank none_value = true
is_blank (text s) = s == ""
is_blank _ = false

abbrev pub items : PyList → List PyValue
items nil = []
items (cons x xs) = x ∷ items xs

module _ (r : Reader) where
  -- Dicts and lists as JSON, all else by `str`.
  abbrev pub shown : PyValue → String
  shown (list xs) = r.dumps (list xs)
  shown (dict d) = r.dumps (dict d)
  shown v = r.str v

  abbrev pub label_of : String → String
  label_of part_type = concat "[" (concat part_type "]")

  abbrev pub fallback_value : PyDict → PyValue
  fallback_value part =
      unless_none (unless_none (field part "text") (field part "data"))
        (or_else (field part "path") (field part "url"))

  abbrev pub fallback_text : PyDict → String → String
  fallback_text part part_type =
      if is_blank (fallback_value part)
      then label_of part_type
      else r.strip (concat (label_of part_type) (concat " " (shown (fallback_value part))))

  module _ (part : PyDict) (part_type block_id created_at : String) where
    abbrev pub text_of_part : String → Option ContentBlock
    text_of_part s = do
      finished ← optional_text (field part "finished_at")
      some (
          text_block
            (record { text = s; id = block_id; created_at = created_at; finished_at = finished }))

    -- The copy takes `finished_at` from the part, where the validated block has it from.
    abbrev pub data_or_fallback : Option DataBlock → Option ContentBlock
    data_or_fallback (some b) =
        some (data_block (record b { id = block_id; created_at = created_at }))
    data_or_fallback none = text_of_part (fallback_text part part_type)

    unfoldable pub block_of_part : Option ContentBlock
    block_of_part =
        if part_type == "text"
        then text_of_part (
            let v = or_else (field part "text") (field part "data") in
            if truthy v then r.str v else "")
        else if part_type == "data"
        then data_or_fallback (r.validate_data (dict part))
        else text_of_part (fallback_text part part_type)

  abbrev pub part_of : PyValue → PyDict
  part_of (dict d) = d
  part_of v = entry "type" (text "text") (entry "text" (text (r.str v)) end)

  unfoldable pub normalize_part : PyValue → ℕ → String → String → Option ContentBlock
  unfolding block_of_part
  normalize_part raw index mid time_iso =
      let part = part_of raw in
      block_of_part part (str_or r.str part "type" "text")
        (str_or r.str part "id" (concat mid (concat ":block:" (r.digits index))))
        (str_or r.str part "created_at" time_iso)

  unfoldable pub normalize_parts : List PyValue → ℕ → String → String → Option (List ContentBlock)
  unfolding normalize_part
  normalize_parts [] index mid time_iso = some []
  normalize_parts (raw ∷ rest) index mid time_iso =
      let others = normalize_parts rest (suc index) mid time_iso in
      normalize_part raw index mid time_iso >>= λ b. others >>= λ bs. some (b ∷ bs)

  unfoldable pub normalize_user_content : PyValue → String → String → Option (List ContentBlock)
  unfolding normalize_parts
  normalize_user_content (text s) mid time_iso =
      normalize_parts (dict (entry "type" (text "text") (entry "text" (text s) end)) ∷ []) 0 mid
        time_iso
  normalize_user_content (list xs) mid time_iso = normalize_parts (items xs) 0 mid time_iso
  normalize_user_content _ mid time_iso = some []

  -- part.get("type", "text") == name
  abbrev pub type_is : PyValue → String → Bool
  type_is none_value s = false
  type_is (text t) s = t == s
  type_is _ s = false

  abbrev pub type_or_text : PyDict → PyValue
  type_or_text end = text "text"
  type_or_text (entry j v d) = if j == "type" then v else type_or_text d
  type_or_text (PyDict.odd_entry v d) = type_or_text d

  unfoldable pub output_part : PyValue → Option OutputPart
  output_part (dict d) =
      if type_is (type_or_text d) "text"
      then (do b ← r.validate_text (dict d); some (text_part b))
      else if type_is (type_or_text d) "data"
      then (do b ← r.validate_data (dict d); some (data_part b))
      else some (raw_part (dict d))
  output_part v = some (raw_part v)

  unfoldable pub to_output_blocks : List PyValue → Option (List OutputPart)
  unfolding output_part
  to_output_blocks vs = traverse output_part vs
