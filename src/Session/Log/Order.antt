-- ===== src/Session/Log/Order.antt =====
-- The sequence numbers of a log, and the pages that `tail` of log.py cuts by them.
use ftre.Prelude.{
  ℕ, zero, suc, ◌+◌, ◌-◌, ◌≤◌, ◌<◌, max, String, ◌≡◌, refl, sym, subst, min, ◌∙◌, Option, none,
  some, List, [], ◌∷◌, ◌++◌, String_key, ℕ_key, if◌then◌else◌, ltb, leb, length, length-append,
  take, drop, arith, Bool-cases, inl, inr, contains,
}
use ftre.Session.Value.{PyValue, snapshot_json}
use ftre.Session.Log.{Event, Result, ok, err, Outside, Log, tail, tail_of, page_at, all_event_types}
use ftre.Session.Log.Append.{reindex, told, publish, append, admissible, publish_if, append_payload}

-- The numbers run from `n` without a gap.
abbrev pub SeqFrom : ℕ → List Event → Type 0
SeqFrom n [] = Unit
SeqFrom n (e ∷ es) = (e.seq ≡ n) × SeqFrom (suc n) es

SeqFrom-append_last :
    (n : ℕ) (es : List Event) (e : Event)
    → SeqFrom n es
    → e.seq ≡ n + length es
    → SeqFrom n (es ++ e ∷ [])
SeqFrom-append_last n [] e h p = (omega arith, tt)
SeqFrom-append_last n (d ∷ es) e (q, h) p = (q, SeqFrom-append_last (suc n) es e h (omega arith))

-- The events of a log that began at `first`.
pub record IsConsecutive (first : ℕ) (log : Log) : Type 0 where
  pub numbered : SeqFrom first log.events
  pub next : log.next_seq ≡ first + length log.events

module _ (out : Outside) where
  -- The indexes hold no events.
  events-reindex : (e : Event) (log : Log) → (reindex out e log).1.events ≡ log.events
  unfolding reindex
  events-reindex e log = ground arith

  next_seq-reindex : (e : Event) (log : Log) → (reindex out e log).1.next_seq ≡ log.next_seq
  unfolding reindex
  next_seq-reindex e log = ground arith

  told-log : (e : Event) (r : Result (Unit {0}) × Log) → (told out e r).1 ≡ r.1
  told-log e (ok u, log) = refl
  told-log e (err x, log) = refl

  publish-IsConsecutive :
      (first : ℕ) (e : Event) (log : Log)
      → e.seq ≡ log.next_seq
      → IsConsecutive first log
      → IsConsecutive first (publish out e log).1
  unfolding publish
  publish-IsConsecutive first e log p h = rw told-log (record {
    numbered = rw events-reindex (SeqFrom-append_last first log.events e h.numbered (p ∙ h.next));
    next =
        rw (events-reindex, next_seq-reindex)
          (omega (arith, h.next, length-append log.events (e ∷ [])));
  })

  publish_if-IsConsecutive :
      (first : ℕ) (r : Result (Unit {0})) (e : Event) (log : Log)
      → e.seq ≡ log.next_seq
      → IsConsecutive first log
      → IsConsecutive first (publish_if out r e log).1
  publish_if-IsConsecutive first (ok u) e log p h = publish-IsConsecutive first e log p h
  publish_if-IsConsecutive first (err x) e log p h = h

  append_payload-IsConsecutive :
      (first : ℕ) (type_ : String) (now : ℕ) (mid : Option String) (o : Option PyValue) (log : Log)
      → IsConsecutive first log
      → IsConsecutive first (append_payload out type_ now mid o log).1
  append_payload-IsConsecutive first type_ now mid none log h = h
  append_payload-IsConsecutive first type_ now mid (some payload) log h =
      publish_if-IsConsecutive first (admissible out type_ payload log) _ log refl h

  -- Whatever an append answers, the events stay numbered without a gap from where the log began,
  -- and the next number is the one after them.
  pub append-IsConsecutive :
      (first : ℕ) (type_ : String) (payload : PyValue) (mid : Option String) (now : ℕ) (log : Log)
      → IsConsecutive first log
      → IsConsecutive first (append out type_ payload mid now log).1
  unfolding append
  append-IsConsecutive first type_ payload mid now log h = elim (Bool-cases log.appending) [
    | inl e ↦ simp e h
    | inr e ↦ simp e (elim (Bool-cases (contains type_ all_event_types)) [
      | inl f ↦
          rw f (append_payload-IsConsecutive first type_ now mid (snapshot_json payload) log h)
      | inr f ↦ rw f h
    ])
  ]

-- The events whose number is at least `from`.
abbrev pub later : ℕ → List Event → List Event
later from [] = []
later from (e ∷ es) = if leb from e.seq then e ∷ later from es else later from es

later_all : (from n : ℕ) (es : List Event) → from ≤ n → SeqFrom n es → later from es ≡ es
later_all from n [] le h = refl
later_all from n (e ∷ es) le h = ground (arith, later_all from (suc n) es, h.0, h.1)

drop_none : (n : ℕ) → drop {A = Event} n [] ≡ []
drop_none zero = refl
drop_none (suc n) = refl

drop_is_later : (from n : ℕ) (es : List Event) → SeqFrom n es → drop (from - n) es ≡ later from es
drop_is_later from n [] h = drop_none (from - n)
drop_is_later from n (e ∷ es) h = elim (Bool-cases (leb from n)) [
  | inl le ↦
      let start : from - n ≡ 0 = ground arith in
      rw start (sym (later_all from n (e ∷ es) (ground arith) h))
  | inr gt ↦
      let step : from - n ≡ suc (from - suc n) = ground arith in
      rw step (rw (h.0, gt) (drop_is_later from (suc n) es h.1))
]

take_none : (n : ℕ) → take {A = Event} n [] ≡ []
take_none zero = refl
take_none (suc n) = refl

length-drop : (n : ℕ) (es : List Event) → length (drop n es) ≡ length es - n
length-drop zero es = omega arith
length-drop (suc n) [] = omega arith
length-drop (suc n) (e ∷ es) = omega (arith, length-drop n es)

length-take : (n : ℕ) (es : List Event) → length (take n es) ≡ min n (length es)
length-take zero es = omega arith
length-take (suc n) [] = omega arith
length-take (suc n) (e ∷ es) = omega (arith, length-take n es)

-- There is more behind the page exactly if the rest is longer than the page may be.
more_test :
    (start size : ℕ) (es : List Event)
    → 0 < size
    → ltb (start + length (take size (drop start es))) (length es)
      ≡ ltb size (length (drop start es))
more_test start size es pos = ground (arith, length-take size (drop start es), length-drop start es)

page_is_later :
    (start limit : ℕ) (es rest : List Event)
    → drop start es ≡ rest
    → page_at es start limit ≡ (take (max 1 limit) rest, ltb (max 1 limit) (length rest))
page_is_later start limit es rest e = rw (more_test start (max 1 limit) es (omega arith), e)

tail_of_is_later :
    (first from limit : ℕ) (es : List Event)
    → SeqFrom first es
    → tail_of es from limit
      ≡ (take (max 1 limit) (later from es), ltb (max 1 limit) (length (later from es)))
tail_of_is_later first from limit [] h = rw take_none (ground arith)
tail_of_is_later first from limit (e ∷ es) h =
    page_is_later (from - e.seq) limit (e ∷ es) (later from (e ∷ es))
      (drop_is_later from e.seq (e ∷ es) (refl, subst (λ n. SeqFrom (suc n) es) (sym h.0) h.1))

-- With `from` one above the last number that a reader has, `tail` is the first part of the later
-- events, at least one and at most `limit` of them, and says whether more follow.
pub tail_is_later :
    (first from limit : ℕ) (log : Log)
    → IsConsecutive first log
    → tail log from limit ≡ (
      take (max 1 limit) (later from log.events),
      ltb (max 1 limit) (length (later from log.events)),
    )
unfolding tail
tail_is_later first from limit log h = tail_of_is_later first from limit log.events h.numbered
