-- ===== src/Fallback/Transparent.antt =====
-- Streams of stream.py for which the other model is not asked.
use ftre.Prelude.{
  String, ◌≡◌, refl, sym, ◌∙◌, Bool, true, false, not, ◌||◌, Option, none, some, List, [], ◌∷◌,
  ◌==◌, ℕ_key, String_key, Bool-cases, inl, inr, arith,
}
use ftre.Llm.{Chunk, FinishReason, LlmFailure, finish}
use ftre.Fallback.{
  Texts, FallbackConfig, Attempt, Ending, exhausted, cancelled, raised, Stream, Prepared, Outcome,
  passed, enabled, commits_output, finish_of, can_fallback, can_replace, at_finish, at_end,
  primary_step, read_primary, stream_with_fallback,
}

-- A stream up to its first finish, which ends it.
abbrev pub upto : Option FinishReason → Chunk → Stream → Stream
upto none c s = record s { chunks = c ∷ s.chunks }
upto (some r) c s = record { chunks = finish r ∷ []; ending = exhausted }

abbrev pub first_part : List Chunk → Ending → Stream
first_part [] how = record { chunks = []; ending = how }
first_part (c ∷ cs) how = upto (finish_of c) c (first_part cs how)

-- Whether something before the first finish changed the answer.
abbrev pub commits_before : Option FinishReason → Chunk → Bool → Bool
commits_before none c rest = commits_output c || rest
commits_before (some r) c rest = false

abbrev pub any_commits : List Chunk → Bool
any_commits [] = false
any_commits (c ∷ cs) = commits_before (finish_of c) c (any_commits cs)

abbrev pub as_outcome : Stream → List Chunk × Outcome
as_outcome s = (s.chunks, passed s.ending)

module _ (texts : Texts) (config : FallbackConfig) (at : Attempt) where
  at_finish-committed :
      (r : FinishReason) → at_finish texts config at true r ≡ (finish r ∷ [], passed exhausted)
  unfolding at_finish
  at_finish-committed r = ground arith

  at_end-committed : (how : Ending) → at_end texts config at true how ≡ ([], passed how)
  unfolding at_end
  at_end-committed exhausted = refl
  at_end-committed cancelled = refl
  at_end-committed (raised e) = refl

  primary_step-upto :
      (o : Option FinishReason) (committed : Bool) (c : Chunk) (s : Stream)
      (rest : List Chunk × Outcome)
      → ((r : FinishReason)
          → at_finish texts config at committed r ≡ (finish r ∷ [], passed exhausted))
      → rest ≡ as_outcome s
      → primary_step texts config at o committed c rest ≡ as_outcome (upto o c s)
  primary_step-upto none committed c s rest f e = rw e
  primary_step-upto (some r) committed c s rest f e = f r

  read_committed :
      (cs : List Chunk) (how : Ending)
      → read_primary texts config at true cs how ≡ as_outcome (first_part cs how)
  unfolding read_primary
  read_committed [] how = at_end-committed how
  read_committed (c ∷ cs) how =
      primary_step-upto (finish_of c) true c (first_part cs how) _ at_finish-committed
        (read_committed cs how)

  read_committing :
      (o : Option FinishReason) (c : Chunk) (cs : List Chunk) (how : Ending)
      → (any_commits cs ≡ true
          → read_primary texts config at false cs how ≡ as_outcome (first_part cs how))
      → commits_before o c (any_commits cs) ≡ true
      → primary_step texts config at o false c
          (read_primary texts config at (commits_output c) cs how)
        ≡ as_outcome (upto o c (first_part cs how))
  read_committing none c cs how later h = elim (Bool-cases (commits_output c)) [
    | inl e ↦ rw (e, read_committed cs how) refl
    | inr e ↦ rw (e, later (sym (rw e refl) ∙ h)) refl
  ]
  read_committing (some r) c cs how later h = cc

  read_any_commits :
      (cs : List Chunk) (how : Ending)
      → any_commits cs ≡ true
      → read_primary texts config at false cs how ≡ as_outcome (first_part cs how)
  unfolding read_primary
  read_any_commits [] how h = cc
  read_any_commits (c ∷ cs) how h =
      read_committing (finish_of c) c cs how (read_any_commits cs how) h

  -- Once the primary stream changed the answer, before its first finish, it is passed on as it is,
  -- up to that finish, whatever its error and whatever the other model would say.
  pub stream_with_fallback-committed :
      (primary : Stream) (p : Prepared)
      → any_commits primary.chunks ≡ true
      → stream_with_fallback texts config at primary p ≡ first_part primary.chunks primary.ending
  unfolding stream_with_fallback
  stream_with_fallback-committed primary p h =
      rw (read_any_commits primary.chunks primary.ending h) refl

  -- The attempt is not the last one, or it is cancelled, or no other model is set up.
  abbrev pub not_allowed : Bool
  not_allowed = not (at.attempt == at.max_attempts) || (at.is_cancelled || not (enabled config))

  module _ (closed : not_allowed ≡ true) where
    never : (code message : String) → can_fallback texts config at code message ≡ false
    unfolding can_fallback
    never code message = rw closed refl

    never_replaced : (o : Option LlmFailure) → can_replace texts config at o ≡ false
    never_replaced none = never "" ""
    never_replaced (some f) = never (texts.lower f.code) f.message

    at_finish-not_allowed :
        (committed : Bool) (r : FinishReason)
        → at_finish texts config at committed r ≡ (finish r ∷ [], passed exhausted)
    unfolding at_finish
    at_finish-not_allowed committed r =
        let no : can_replace texts config at r.failure ≡ false = never_replaced r.failure in
        rw no (ground arith)

    at_end-not_allowed :
        (committed : Bool) (how : Ending) → at_end texts config at committed how ≡ ([], passed how)
    unfolding at_end
    at_end-not_allowed committed exhausted = refl
    at_end-not_allowed committed cancelled = refl
    at_end-not_allowed committed (raised e) = rw (never e.code e.message) (ground arith)

    read_not_allowed :
        (cs : List Chunk) (how : Ending) (committed : Bool)
        → read_primary texts config at committed cs how ≡ as_outcome (first_part cs how)
    unfolding read_primary
    read_not_allowed [] how committed = at_end-not_allowed committed how
    read_not_allowed (c ∷ cs) how committed =
        primary_step-upto (finish_of c) committed c (first_part cs how) _
          (at_finish-not_allowed committed)
          (read_not_allowed cs how (committed || commits_output c))

    -- Before the last attempt, in a cancelled one, or with no other model set up, the primary stream
    -- is passed on as it is, up to its first finish.
    pub stream_with_fallback-not_allowed :
        (primary : Stream) (p : Prepared)
        → stream_with_fallback texts config at primary p ≡ first_part primary.chunks primary.ending
    unfolding stream_with_fallback
    stream_with_fallback-not_allowed primary p =
        rw (read_not_allowed primary.chunks primary.ending false) refl
