-- ===== src/Llm/Assembler/Gathered.antt =====
-- What a stream says about one block index, read off the chunks alone. The newest chunk is first.
use ftre.Prelude.{
  concat, concat-nil, ℕ, String, ◌≡◌, ap₂, refl, Option, Bool-cases, inl, inr, none, List, [], ◌∷◌,
  if◌then◌else◌, ◌==◌, ℕ_key, String_key,
}
use ftre.Json.{Json, Fields}
use ftre.Llm.{
  FinishReason, Chunk, block_start, text_delta, reasoning_delta, tool_call_delta, block_end, usage,
  finish,
}
use ftre.Llm.Assembler.{Assembler, OpenBlock, new, if_named, feed, with_call}

-- What one chunk adds to the texts at index `i`.
abbrev pub text_at : ℕ → Chunk → String
text_at i (text_delta j t) = if j == i then t else ""
text_at i (reasoning_delta j t) = if j == i then t else ""
text_at i _ = ""

abbrev pub arguments_at : ℕ → Chunk → String
arguments_at i (tool_call_delta j cid name arguments) = if j == i then arguments else ""
arguments_at i _ = ""

abbrev pub id_at : ℕ → Chunk → String
id_at i (tool_call_delta j cid name arguments) = if j == i then cid else ""
id_at i _ = ""

abbrev pub name_at : ℕ → Chunk → String
name_at i (tool_call_delta j cid name arguments) = if j == i then name else ""
name_at i _ = ""

-- All the texts for the index, joined in the order of the stream.
abbrev pub joined : (Chunk → String) → List Chunk → String
joined f [] = ""
joined f (c ∷ past) = concat (joined f past) (f c)

-- The last one that is not empty.
abbrev pub latest : (Chunk → String) → List Chunk → String
latest f [] = ""
latest f (c ∷ past) = if_named (f c) (latest f past)

-- The type under which the index was started.
abbrev pub started_at : ℕ → Chunk → String
started_at i (block_start j t) = if j == i then t else ""
started_at i _ = ""

unfoldable pub gathered : ℕ → List Chunk → OpenBlock
gathered i past = record {
  index = i;
  block_type = latest (started_at i) past;
  text = joined (text_at i) past;
  call_id = latest (id_at i) past;
  name = latest (name_at i) past;
  arguments = joined (arguments_at i) past;
}

-- The states that the assembler reaches, and the chunks it took on the way.
pub data Took : List Chunk → Assembler → Type 0 where
  at_start : Took [] new
  took :
      {past : List Chunk} {s t : Assembler} (c : Chunk)
      → Took past s
      → feed c s ≡ (none, t)
      → Took (c ∷ past) t

rejoined :
    (b : OpenBlock) {x a : String}
    → x ≡ b.text
    → a ≡ b.arguments
    → record b { text = x; arguments = a } ≡ b
rejoined b e f = ap₂ (λ x a. record b { text = x; arguments = a }) e f

-- One chunk more, read as a change of what was gathered.
module _ (i j : ℕ) (past : List Chunk) where
  pub gathered-text_delta :
      (t : String)
      → gathered i (text_delta j t ∷ past) ≡ (
          if j == i
          then record (gathered i past) { text = concat (gathered i past).text t }
          else gathered i past)
  unfolding gathered
  gathered-text_delta t = elim (Bool-cases (j == i)) [
    | inl e ↦ rw e (
        rejoined (record (gathered i past) { text = concat (gathered i past).text t }) refl
          (concat-nil _))
    | inr e ↦ rw e (rejoined (gathered i past) (concat-nil _) (concat-nil _))
  ]

  pub gathered-reasoning_delta :
      (t : String)
      → gathered i (reasoning_delta j t ∷ past) ≡ (
          if j == i
          then record (gathered i past) { text = concat (gathered i past).text t }
          else gathered i past)
  unfolding gathered
  gathered-reasoning_delta t = elim (Bool-cases (j == i)) [
    | inl e ↦ rw e (
        rejoined (record (gathered i past) { text = concat (gathered i past).text t }) refl
          (concat-nil _))
    | inr e ↦ rw e (rejoined (gathered i past) (concat-nil _) (concat-nil _))
  ]

  pub gathered-tool_call_delta :
      (cid name arguments : String)
      → gathered i (tool_call_delta j cid name arguments ∷ past)
        ≡ (if j == i then with_call (gathered i past) cid name arguments else gathered i past)
  unfolding gathered
  gathered-tool_call_delta cid name arguments = elim (Bool-cases (j == i)) [
    | inl e ↦ rw e (rejoined (with_call (gathered i past) cid name arguments) (concat-nil _) refl)
    | inr e ↦ rw e (rejoined (gathered i past) (concat-nil _) (concat-nil _))
  ]

  pub gathered-block_start :
      (t : String)
      → gathered i (block_start j t ∷ past) ≡ (
          if j == i
          then record (gathered i past) { block_type = if_named t (gathered i past).block_type }
          else gathered i past)
  unfolding gathered
  gathered-block_start t = elim (Bool-cases (j == i)) [
    | inl e ↦ rw e (
        rejoined (record (gathered i past) { block_type = if_named t (gathered i past).block_type })
          (concat-nil _) (concat-nil _))
    | inr e ↦ rw e (rejoined (gathered i past) (concat-nil _) (concat-nil _))
  ]

  pub gathered-block_end :
      (block : Fields) → gathered i (block_end j block ∷ past) ≡ gathered i past
  unfolding gathered
  gathered-block_end block = rejoined (gathered i past) (concat-nil _) (concat-nil _)

pub gathered-usage :
    (i : ℕ) (u : Option Json) (past : List Chunk) → gathered i (usage u ∷ past) ≡ gathered i past
unfolding gathered
gathered-usage i u past = rejoined (gathered i past) (concat-nil _) (concat-nil _)

pub gathered-finish :
    (i : ℕ) (r : FinishReason) (past : List Chunk) → gathered i (finish r ∷ past) ≡ gathered i past
unfolding gathered
gathered-finish i r past = rejoined (gathered i past) (concat-nil _) (concat-nil _)
