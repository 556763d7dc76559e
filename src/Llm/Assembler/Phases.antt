-- ===== src/Llm/Assembler/Phases.antt =====
-- The phases of a block index in the assembler of block_assembler.py, and the steps between them.
use ftre.Prelude.{
  ℕ, suc, ◌≤◌, ◌<◌, String, ◌≡◌, refl, ap, sym, ◌∙◌, true, false, none, some, List, ◌∷◌,
  if◌then◌else◌, ◌==◌, ℕ_key, String_key, arith, Bool-cases, inl, inr, ==_eq, ==_ne,
}
use mathlib.Core.Option.{some-injective}
use ftre.Prelude.Table.{
  lookup, assign, without, has, add, discard, lookup-assign, lookup-without, has-add, has-discard,
}
use ftre.Llm.{Chunk, block_start, block_end}
use ftre.Json.{Fields}
use ftre.Llm.Assembler.{Assembler, OpenBlock, new_block, finalize_block, if_named}
use ftre.Llm.Assembler.Gathered.{gathered, gathered-block_start, gathered-block_end}

-- An index is not started, open, or closed, and the state holds what was said about it.
pub data Phase (past : List Chunk) (s : Assembler) (i : ℕ) : Type 0 where
  unstarted :
      s.next_index ≤ i
      → lookup s.opened i ≡ none
      → lookup s.done i ≡ none
      → has s.pending i ≡ false
      → gathered i past ≡ new_block i ""
      → Phase past s i
  open_now :
      i < s.next_index
      → lookup s.opened i ≡ some (gathered i past)
      → lookup s.done i ≡ none
      → has s.pending i ≡ true
      → Phase past s i
  closed :
      i < s.next_index
      → lookup s.opened i ≡ none
      → lookup s.done i ≡ some (finalize_block (gathered i past))
      → has s.pending i ≡ false
      → Phase past s i

abbrev pub Phases : List Chunk → Assembler → Type 0
Phases past s = (i : ℕ) → Phase past s i

-- A step that says and changes nothing about an index, and starts only an earlier one.
pub Phase-same :
    (past past2 : List Chunk) (s t : Assembler) (i : ℕ)
    → gathered i past2 ≡ gathered i past
    → lookup t.opened i ≡ lookup s.opened i
    → lookup t.done i ≡ lookup s.done i
    → has t.pending i ≡ has s.pending i
    → s.next_index ≤ t.next_index
    → (s.next_index ≤ i → t.next_index ≤ i)
    → Phase past s i
    → Phase past2 t i
Phase-same past past2 s t i g o d p le up (unstarted n oe de pe ge) =
    unstarted (up n) (o ∙ oe) (d ∙ de) (p ∙ pe) (g ∙ ge)
Phase-same past past2 s t i g o d p le up (open_now n oe de pe) =
    open_now (omega (arith, le, n)) (o ∙ oe ∙ ap some (sym g)) (d ∙ de) (p ∙ pe)
Phase-same past past2 s t i g o d p le up (closed n oe de pe) =
    closed (omega (arith, le, n)) (o ∙ oe) (d ∙ de ∙ ap (λ b. some (finalize_block b)) (sym g))
      (p ∙ pe)

-- The block at `j` is open and is changed as the chunk says.
module _ (past : List Chunk) (c : Chunk) (s : Assembler) (j : ℕ) (b : OpenBlock) where
  pub Phase-written :
      (f : OpenBlock → OpenBlock)
      → ((i : ℕ)
          → gathered i (c ∷ past) ≡ (if j == i then f (gathered i past) else gathered i past))
      → lookup s.opened j ≡ some b
      → (i : ℕ) → Phase past s i
      → Phase (c ∷ past) (record s { opened = assign s.opened j (f b) }) i
  Phase-written f g e i ph = elim (Bool-cases (j == i)) [
    | inl m ↦
        changed f (g i ∙ rw m) (ap (λ k. lookup s.opened k) (sym (==_eq j i m)) ∙ e)
          (rw (lookup-assign, m)) ph
    | inr m ↦
        Phase-same past (c ∷ past) s _ i (g i ∙ rw m) (lookup-assign j i (f b) s.opened ∙ rw m) refl
          refl (omega arith) (λ h. h) ph
  ]
    where
      changed :
          (f : OpenBlock → OpenBlock)
          → gathered i (c ∷ past) ≡ f (gathered i past)
          → lookup s.opened i ≡ some b
          → lookup (assign s.opened j (f b)) i ≡ some (f b)
          → Phase past s i
          → Phase (c ∷ past) (record s { opened = assign s.opened j (f b) }) i
      changed f g e w (unstarted n oe de pe ge) = cc
      changed f g e w (open_now n oe de pe) =
          open_now n (w ∙ ap (λ x. some (f x)) (some-injective _ _ (sym e ∙ oe)) ∙ ap some (sym g))
            de pe
      changed f g e w (closed n oe de pe) = cc

-- The block at `j` is open and is finished.
module _ (past : List Chunk) (block : Fields) (s : Assembler) (j : ℕ) (b : OpenBlock) where
  abbrev pub ended_at : Assembler
  ended_at = record s {
    opened = without s.opened j;
    pending = discard s.pending j;
    done = assign s.done j (finalize_block b);
  }

  pub Phase-ended :
      lookup s.opened j ≡ some b
      → (i : ℕ) → Phase past s i
      → Phase (block_end j block ∷ past) ended_at i
  Phase-ended e i ph = elim (Bool-cases (j == i)) [
    | inl m ↦
        changed (gathered-block_end i j past block)
          (ap (λ k. lookup s.opened k) (sym (==_eq j i m)) ∙ e) (lookup-without j i s.opened ∙ rw m)
          (lookup-assign j i (finalize_block b) s.done ∙ rw m) (has-discard j i s.pending ∙ rw m) ph
    | inr m ↦
        Phase-same past (block_end j block ∷ past) s _ i (gathered-block_end i j past block)
          (lookup-without j i s.opened ∙ rw m) (lookup-assign j i (finalize_block b) s.done ∙ rw m)
          (has-discard j i s.pending ∙ rw m) (omega arith) (λ h. h) ph
  ]
    where
      changed :
          gathered i (block_end j block ∷ past) ≡ gathered i past
          → lookup s.opened i ≡ some b
          → lookup (without s.opened j) i ≡ none
          → lookup (assign s.done j (finalize_block b)) i ≡ some (finalize_block b)
          → has (discard s.pending j) i ≡ false
          → Phase past s i
          → Phase (block_end j block ∷ past) ended_at i
      changed g e o d p (unstarted n oe de pe ge) = cc
      changed g e o d p (open_now n oe de pe) =
          closed n o
            (d ∙ ap (λ x. some (finalize_block x)) (some-injective _ _ (sym e ∙ oe) ∙ sym g)) p
      changed g e o d p (closed n oe de pe) = cc

-- The block at the next index is opened.
module _ (past : List Chunk) (block_type : String) (s : Assembler) (j : ℕ) where
  abbrev pub begun_at : Assembler
  begun_at = record s {
    opened = assign s.opened j (new_block j block_type);
    pending = add s.pending j;
    next_index = suc s.next_index;
  }

  if_named_blank : if_named block_type "" ≡ block_type
  if_named_blank = elim (Bool-cases (block_type == "")) [
    | inl e ↦ rw e (sym (==_eq block_type "" e))
    | inr e ↦ rw e
  ]

  begun_block :
      {i : ℕ} {g : OpenBlock}
      → j ≡ i
      → g ≡ new_block i ""
      → new_block j block_type ≡ record g { block_type = if_named block_type g.block_type }
  begun_block {i} {g} q e =
      ap (λ k. new_block k block_type) q
      ∙ sym (
          ap (λ (b : OpenBlock). record b { block_type = if_named block_type b.block_type }) e
          ∙ ap (λ t. new_block i t) if_named_blank)

  pub Phase-begun :
      j ≡ s.next_index
      → (i : ℕ) → Phase past s i
      → Phase (block_start j block_type ∷ past) begun_at i
  Phase-begun e i ph = elim (Bool-cases (j == i)) [
    | inl m ↦
        changed (==_eq j i m) (gathered-block_start i j past block_type ∙ rw m)
          (lookup-assign j i (new_block j block_type) s.opened ∙ rw m)
          (has-add j i s.pending ∙ rw m) ph
    | inr m ↦
        Phase-same past (block_start j block_type ∷ past) s _ i
          (gathered-block_start i j past block_type ∙ rw m)
          (lookup-assign j i (new_block j block_type) s.opened ∙ rw m) refl
          (has-add j i s.pending ∙ rw m) (omega arith) (λ h. omega (arith, h, e, ==_ne j i m)) ph
  ]
    where
      changed :
          j ≡ i
          → gathered i (block_start j block_type ∷ past) ≡ record (gathered i past) {
            block_type = if_named block_type (gathered i past).block_type;
          }
          → lookup (assign s.opened j (new_block j block_type)) i ≡ some (new_block j block_type)
          → has (add s.pending j) i ≡ true
          → Phase past s i
          → Phase (block_start j block_type ∷ past) begun_at i
      changed q g o p (unstarted n oe de pe ge) =
          open_now (omega (arith, q, e)) (o ∙ ap some (begun_block q ge ∙ sym g)) de p
      changed q g o p (open_now n oe de pe) = absurd (omega (arith, q, e, n))
      changed q g o p (closed n oe de pe) = absurd (omega (arith, q, e, n))
