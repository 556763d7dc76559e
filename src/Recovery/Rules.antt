-- ===== src/Recovery/Rules.antt =====
-- Which rules of config.py and policy.py are applied.
use ftre.Prelude.{
  String, ◌≡◌, ◌≢◌, refl, ap, sym, ◌∙◌, Bool, false, Option, none, some, if◌then◌else◌, ◌==◌,
  String_key, List, [], ◌∷◌, All, arith, contains, concat, Bool-cases, inl, inr, ne_==,
}
use mathlib.Core.Option.{some-injective}
use ftre.Prelude.Dict.{get, put, get-put}
use ftre.Recovery.{
  Reader, RetryRule, RecoveryConfig, LlmErrorPayload, LlmErrorDecision, is_left_alone, decided,
  or_empty, decide, any_in, overflow_markers,
}

module _ {F : Type 0} (r : Reader F) where
  -- Where cleaning a cleaned code changes nothing: a rule whose key is not clean, so one with an
  -- upper-case letter, is never applied; it makes no difference to any decision.
  pub decide-unclean :
      (p : LlmErrorPayload) (config : RecoveryConfig F) (key : String) (rule : RetryRule F)
      → ((s : String) → r.clean (r.clean s) ≡ r.clean s)
      → r.clean key ≢ key
      → decide r p (record config { rules = put config.rules key rule }) ≡ decide r p config
  unfolding decide
  decide-unclean p config key rule twice n =
      let code : String = r.clean (or_empty p.error_code) in
      let other : (key == code) ≡ false =
        ne_== key code (λ e. n (ap r.clean e ∙ (twice (or_empty p.error_code) ∙ sym e))) in
      let same : get (put config.rules key rule) code ≡ get config.rules code =
        get-put key code rule config.rules ∙ rw other refl in
      ap
        (λ o.
          if is_left_alone r code (or_empty p.error_message) config then none else decided r o code)
        same

  ruled_by :
      (config : RecoveryConfig F) (code : String) (o : Option (RetryRule F))
      (d : LlmErrorDecision F)
      → get config.rules code ≡ o
      → decided r o code ≡ some d
      → (rule : RetryRule F) × (get config.rules code ≡ some rule)
        × (d.action ≡ rule.action)
        × (d.delay ≡ rule.delay)
  ruled_by config code none d g e = cc
  ruled_by config code (some rule) d g e =
      let same = some-injective _ _ e in
      (rule, g, sym (ap LlmErrorDecision.action same), sym (ap LlmErrorDecision.delay same))

  -- None of the words occurs in the text.
  abbrev pub NoneIn : String → List String → Type 0
  NoneIn whole words = All (λ word. r.is_in word whole ≡ false) words

  -- The cleaned code and the message, in which words are looked for.
  abbrev pub shown : LlmErrorPayload → String
  shown p =
      r.lower (concat (r.clean (or_empty p.error_code)) (concat " " (or_empty p.error_message)))

  NoneIn-any_in :
      (whole : String) (words : List String) → any_in r words whole ≡ false → NoneIn whole words
  NoneIn-any_in whole [] h = tt
  NoneIn-any_in whole (w ∷ ws) h = (ground arith, NoneIn-any_in whole ws (ground arith))

  -- A decision is only made on an error whose cleaned code is not empty and not one of the excluded
  -- codes, and where none of the words overflow, context_length, context length, too_long and too
  -- long occurs in the lower-case text of code and message; and its action and delay are those of
  -- the rule under the cleaned code.
  pub decide-cases :
      (p : LlmErrorPayload) (config : RecoveryConfig F) (d : LlmErrorDecision F)
      → decide r p config ≡ some d
      → ((r.clean (or_empty p.error_code) == "") ≡ false)
        × (contains (r.clean (or_empty p.error_code)) config.exclude_codes ≡ false)
        × NoneIn
            (shown p)
            ("overflow" ∷ "context_length" ∷ "context length" ∷ "too_long" ∷ "too long" ∷ [])
        × (rule : RetryRule F) × (get config.rules (r.clean (or_empty p.error_code)) ≡ some rule)
        × (d.action ≡ rule.action)
        × (d.delay ≡ rule.delay)
  unfolding decide
  decide-cases p config d e =
      let code : String = r.clean (or_empty p.error_code) in
      let left : Bool = is_left_alone r code (or_empty p.error_message) config in
      elim (Bool-cases left) [
        | inl m ↦
            let bad : none ≡ some d =
              ap (λ b. if b then none else decided r (get config.rules code) code) (sym m) ∙ e in
            cc
        | inr m ↦
            let q =
              ruled_by config code (get config.rules code) d refl (
                ap (λ b. if b then none else decided r (get config.rules code) code) (sym m) ∙ e) in
            (
              ground (arith, m),
              ground (arith, m),
              NoneIn-any_in (shown p) overflow_markers (ground (arith, m)),
              q.0,
              q.1,
              q.2,
              q.3,
            )
      ]
