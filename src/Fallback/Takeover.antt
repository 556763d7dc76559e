-- ===== src/Fallback/Takeover.antt =====
-- Streams of stream.py for which the other model takes over.
use ftre.Prelude.{
  ◌≡◌, ◌≢◌, refl, ap, ◌∙◌, Bool, true, false, ◌||◌, Option, none, some, List, [], ◌∷◌, ◌++◌, ◌==◌,
  ℕ_key, String_key, All,
}
use ftre.Llm.{Chunk, FinishReason, finish}
use ftre.Fallback.{
  Texts, LlmError, Stream, can_fallback, at_end, error_finish, FallbackConfig, Attempt, Ending,
  exhausted, cancelled, raised, prepared, handed_over, commits_output, finish_of, can_replace,
  at_finish, read_primary, read_backup, backup_step, ends_badly, stream_with_fallback,
}

-- Usage and empty deltas: nothing that changed the answer, and no finish.
abbrev pub IsQuiet : List Chunk → Type 0
IsQuiet cs = All (λ c. (finish_of c ≡ none) × (commits_output c ≡ false)) cs

abbrev pub IsUnfinished : List Chunk → Type 0
IsUnfinished cs = All (λ c. finish_of c ≡ none) cs

-- A stream with its failed finishes left out.
abbrev pub kept : Option FinishReason → Chunk → List Chunk → List Chunk
kept none c rest = c ∷ rest
kept (some q) c rest = rest

abbrev pub output_of : List Chunk → List Chunk
output_of [] = []
output_of (c ∷ cs) = kept (finish_of c) c (output_of cs)

abbrev pub fails_at : Option FinishReason → Bool
fails_at none = true
fails_at (some q) = q.kind == "error" || q.kind == "aborted"

module _ (texts : Texts) (config : FallbackConfig) (at : Attempt) where
  read_quiet :
      (us cs : List Chunk) (r : FinishReason) (how : Ending)
      → IsQuiet us
      → r.kind ≡ "error"
      → can_replace texts config at r.failure ≡ true
      → read_primary texts config at false (us ++ finish r ∷ cs) how ≡ (us, handed_over r)
  unfolding read_primary at_finish
  read_quiet [] cs r how q k can = rw (k, can) refl
  read_quiet (u ∷ us) cs r how q k can = rw (q.0.0, q.0.1, read_quiet us cs r how q.1 k can) refl

  read_raised :
      (us : List Chunk) (e : LlmError)
      → IsQuiet us
      → can_fallback texts config at e.code e.message ≡ true
      → read_primary texts config at false us (raised e) ≡ (us, handed_over (error_finish e))
  unfolding read_primary at_end
  read_raised [] e q can = rw can refl
  read_raised (u ∷ us) e q can = rw (q.0.0, q.0.1, read_raised us e q.1 can) refl

  -- A stream that yields `us` and then fails with an error that may be replaced, which the finish
  -- `r` stands for: by that finish, whatever comes after it, or by an exception.
  pub data Fails (us : List Chunk) (r : FinishReason) (primary : Stream) : Type 0 where
    by_finish :
        (cs : List Chunk)
        → primary.chunks ≡ us ++ finish r ∷ cs
        → r.kind ≡ "error"
        → can_replace texts config at r.failure ≡ true
        → Fails us r primary
    by_exception :
        (e : LlmError)
        → primary.chunks ≡ us
        → primary.ending ≡ raised e
        → error_finish e ≡ r
        → can_fallback texts config at e.code e.message ≡ true
        → Fails us r primary

  read-Fails :
      (us : List Chunk) (r : FinishReason) (primary : Stream)
      → IsQuiet us
      → Fails us r primary
      → read_primary texts config at false primary.chunks primary.ending ≡ (us, handed_over r)
  read-Fails us r primary q (by_finish cs c k can) =
      ap (λ (x : List Chunk). read_primary texts config at false x primary.ending) c
      ∙ read_quiet us cs r primary.ending q k can
  read-Fails us r primary q (by_exception e c how same can) =
      ap (λ (x : List Chunk). read_primary texts config at false x primary.ending) c
      ∙ (ap (read_primary texts config at false us) how
          ∙ (read_raised us e q can ∙ ap (λ (x : FinishReason). (us, handed_over x)) same))

  read_good :
      (r q : FinishReason) (bs cs : List Chunk) (how : Ending)
      → IsUnfinished bs
      → ends_badly texts config at q ≡ false
      → read_backup texts config at r (bs ++ finish q ∷ cs) how
        ≡ record { chunks = bs ++ finish q ∷ []; ending = exhausted }
  unfolding read_backup
  read_good r q [] cs how h g = rw g refl
  read_good r q (b ∷ bs) cs how h g = rw (h.0, read_good r q bs cs how h.1 g) refl

  backup_step-fails_at :
      (o : Option FinishReason) (c : Chunk) (rest : List Chunk) (r : FinishReason)
      → fails_at o ≡ true
      → backup_step texts config at o c
          (record { chunks = rest ++ finish r ∷ []; ending = exhausted })
        ≡ record { chunks = kept o c rest ++ finish r ∷ []; ending = exhausted }
  backup_step-fails_at none c rest r h = refl
  backup_step-fails_at (some q) c rest r h = rw h refl

  read_failed :
      (r : FinishReason) (bs : List Chunk) (how : Ending)
      → All (λ b. fails_at (finish_of b) ≡ true) bs
      → how ≢ cancelled
      → read_backup texts config at r bs how
        ≡ record { chunks = output_of bs ++ finish r ∷ []; ending = exhausted }
  unfolding read_backup
  read_failed r [] exhausted h n = refl
  read_failed r [] (raised e) h n = refl
  read_failed r [] cancelled h n = absurd (n refl)
  read_failed r (b ∷ bs) how h n =
      rw (read_failed r bs how h.1 n) (backup_step-fails_at (finish_of b) b (output_of bs) r h.0)

  module _ (us : List Chunk) (r : FinishReason) (primary : Stream) (quiet : IsQuiet us)
      (fails : Fails us r primary) where
    -- Where the primary stream fails before it changed the answer, by an error finish or by an
    -- exception, with an error that may be replaced, and the other stream comes to a finish that is
    -- no failure, the caller sees the other stream up to that finish, after what the primary stream
    -- yielded, and never the error.
    pub stream_with_fallback-good :
        (bs ds : List Chunk) (q : FinishReason) (end : Ending)
        → IsUnfinished bs
        → ends_badly texts config at q ≡ false
        → stream_with_fallback texts config at primary
            (prepared (record { chunks = bs ++ finish q ∷ ds; ending = end }))
          ≡ record { chunks = us ++ (bs ++ finish q ∷ []); ending = exhausted }
    unfolding stream_with_fallback
    stream_with_fallback-good bs ds q end h g =
        rw (read-Fails us r primary quiet fails, read_good r q bs ds end h g) refl

    -- Where the primary stream fails before it changed the answer, by an error finish or by an
    -- exception, with an error that may be replaced, and the other stream only fails and is not
    -- cancelled, the caller sees what the other one yielded without its failed finishes, and then the
    -- primary stream's error.
    pub stream_with_fallback-failed :
        (bs : List Chunk) (end : Ending)
        → All (λ b. fails_at (finish_of b) ≡ true) bs
        → end ≢ cancelled
        → stream_with_fallback texts config at primary
            (prepared (record { chunks = bs; ending = end }))
          ≡ record { chunks = us ++ (output_of bs ++ finish r ∷ []); ending = exhausted }
    unfolding stream_with_fallback
    stream_with_fallback-failed bs end h n =
        rw (read-Fails us r primary quiet fails, read_failed r bs end h n) refl
