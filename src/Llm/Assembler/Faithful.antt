-- ===== src/Llm/Assembler/Faithful.antt =====
-- The assembler of block_assembler.py over whole streams.
use ftre.Prelude.{
  concat, ℕ, String, ◌≡◌, refl, subst, Option, none, some, List, ◌∷◌, if◌then◌else◌, ◌==◌, ℕ_key,
  String_key, arith, Bool-cases, inl, inr, contains, ==_eq,
}
use ftre.Prelude.Table.{lookup, has}
use ftre.Json.{Fields}
use ftre.Llm.{
  Chunk, block_start, text_delta, reasoning_delta, tool_call_delta, block_end, usage, finish,
}
use ftre.Llm.Assembler.{
  Assembler, OpenBlock, Fed, feed_start, delta_into, tool_delta_into, end_block, feed_chunk, feed,
  differs, block_types, with_call,
}
use ftre.Llm.Assembler.Gathered.{
  gathered, gathered-text_delta, gathered-reasoning_delta, gathered-tool_call_delta, gathered-usage,
  gathered-finish, Took, at_start, took,
}
use ftre.Llm.Assembler.Phases.{
  Phases, unstarted, Phase-same, Phase-written, Phase-ended, Phase-begun,
}

-- Where nothing is raised, the state agrees with the stream.
abbrev Agrees : List Chunk → Fed → Type 0
Agrees past (none, t) = Phases past t
Agrees past (some v, t) = Unit

module _ (past : List Chunk) (s : Assembler) (ph : Phases past s) where
  Agrees-feed_start : (j : ℕ) (t : String) → Agrees (block_start j t ∷ past) (feed_start j t s)
  Agrees-feed_start j t = elim (Bool-cases (j == s.next_index)) [
    | inl e ↦ simp e (elim (Bool-cases (contains t block_types)) [
      | inl f ↦ simp f (λ i. Phase-begun past t s j (==_eq j s.next_index e) i (ph i))
      | inr f ↦ simp f tt
    ])
    | inr e ↦ simp e tt
  ]

  Agrees-delta_into :
      (c : Chunk) (o : Option OpenBlock) (j : ℕ) (expected t : String)
      → lookup s.opened j ≡ o
      → ((i : ℕ)
          → gathered i (c ∷ past) ≡ (
              if j == i
              then record (gathered i past) { text = concat (gathered i past).text t }
              else gathered i past))
      → Agrees (c ∷ past) (delta_into o j expected t s)
  Agrees-delta_into c none j expected t e g = tt
  Agrees-delta_into c (some b) j expected t e g = elim (Bool-cases (b.block_type == expected)) [
    | inl f ↦
        simp f
          (λ i. Phase-written past c s j b (λ b. record b { text = concat b.text t }) g e i (ph i))
    | inr f ↦ simp f tt
  ]

  Agrees-tool_delta_into :
      (o : Option OpenBlock) (j : ℕ) (cid name arguments : String)
      → lookup s.opened j ≡ o
      → Agrees
          (tool_call_delta j cid name arguments ∷ past)
          (tool_delta_into o j cid name arguments s)
  Agrees-tool_delta_into none j cid name arguments e = tt
  Agrees-tool_delta_into (some b) j cid name arguments e =
      elim (Bool-cases (b.block_type == "tool-call")) [
        | inl f ↦ simp f (λ i.
            Phase-written past (tool_call_delta j cid name arguments) s j b
              (λ b. with_call b cid name arguments)
              (λ k. gathered-tool_call_delta k j past cid name arguments) e i (ph i))
        | inr f ↦ simp f tt
      ]

  Agrees-end_block :
      (o : Option OpenBlock) (j : ℕ) (block : Fields)
      → lookup s.opened j ≡ o
      → Agrees (block_end j block ∷ past) (end_block o j block s)
  Agrees-end_block none j block e = tt
  Agrees-end_block (some b) j block e = elim (Bool-cases (differs block b.block_type)) [
    | inl f ↦ rw f tt
    | inr f ↦ rw f (λ i. Phase-ended past block s j b e i (ph i))
  ]

  Agrees-feed_chunk : (c : Chunk) → Agrees (c ∷ past) (feed_chunk c s)
  Agrees-feed_chunk (block_start j t) = Agrees-feed_start j t
  Agrees-feed_chunk (text_delta j t) =
      Agrees-delta_into (text_delta j t) (lookup s.opened j) j "text" t refl
        (λ i. gathered-text_delta i j past t)
  Agrees-feed_chunk (reasoning_delta j t) =
      Agrees-delta_into (reasoning_delta j t) (lookup s.opened j) j "reasoning" t refl
        (λ i. gathered-reasoning_delta i j past t)
  Agrees-feed_chunk (tool_call_delta j cid name arguments) =
      Agrees-tool_delta_into (lookup s.opened j) j cid name arguments refl
  Agrees-feed_chunk (block_end j block) = Agrees-end_block (lookup s.opened j) j block refl
  Agrees-feed_chunk (usage u) = λ i.
      Phase-same past _ s _ i (gathered-usage i u past) refl refl refl (omega arith) (λ h. h) (ph i)
  Agrees-feed_chunk (finish r) = λ i.
      Phase-same past _ s _ i (gathered-finish i r past) refl refl refl (omega arith) (λ h. h)
        (ph i)

  Agrees-feed : (c : Chunk) → Agrees (c ∷ past) (feed c s)
  unfolding feed
  Agrees-feed c = elim (Bool-cases s.finished) [
    | inl e ↦ simp e tt
    | inr e ↦ simp e (Agrees-feed_chunk c)
  ]

-- After any stream that was taken, each index is either not started, open with exactly the texts,
-- arguments, call id, name and type that its block start and its deltas gave it, or closed as the
-- block made of these, whatever block its `block_end` carried.
pub Took-Phases : (past : List Chunk) (s : Assembler) → Took past s → Phases past s
unfolding lookup has gathered
Took-Phases past s at_start = λ i. unstarted (omega arith) refl refl refl refl
Took-Phases past s (took {past = before} {s = s0} c h e) =
    subst (Agrees past) e (Agrees-feed before s0 (Took-Phases before s0 h) c)
