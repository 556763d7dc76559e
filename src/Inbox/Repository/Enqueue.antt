-- ===== src/Inbox/Repository/Enqueue.antt =====
-- Appending to either queue of repository.py.
use ftre.Prelude.{
  ℕ, ◌+◌, ◌≤◌, ◌<◌, max, ◌≡◌, refl, ap, List, [], ◌∷◌, ◌++◌, map-append, arith, Key, ◌==◌,
  String_key, ℕ_key, All, count, count-append, Bool-cases, inl, inr, ==_eq,
}
use ftre.Prelude.Order.Sorted.{All-append, Ascending-append_last}
use ftre.Inbox.Models.{next_turn, next_step, Target, QueueItem, Inbox, ids, sequences}
use ftre.Inbox.Repository.{numbered, enqueue}
use ftre.Inbox.Repository.Invariant.{IsValid}

All-lt_mono : (xs : List ℕ) (a b : ℕ) → a ≤ b → All (λ n. n < a) xs → All (λ n. n < b) xs
All-lt_mono [] a b le h = tt
All-lt_mono (x ∷ xs) a b le h = (omega arith, All-lt_mono xs a b le h.1)

All-le_of_lt : (xs : List ℕ) (a : ℕ) → All (λ n. n < a) xs → All (λ n. n ≤ a) xs
All-le_of_lt [] a h = tt
All-le_of_lt (x ∷ xs) a h = (omega arith, All-le_of_lt xs a h.1)

-- A number below which all of a list stands does not occur in it.
count-zero_of_below : (xs : List ℕ) (n : ℕ) → All (λ m. m < n) xs → count n xs ≡ 0
count-zero_of_below [] n h = refl
count-zero_of_below (x ∷ xs) n h = ground (arith, count-zero_of_below xs n h.1)

-- A value that neither list has may join the first.
once_append :
    {A : Type 0} ⦃e : Key A⦄ (x : A) (xs ys : List A)
    → ((a : A) → count a xs + count a ys ≤ 1)
    → count x xs ≡ 0
    → count x ys ≡ 0
    → (a : A) → count a (xs ++ x ∷ []) + count a ys ≤ 1
once_append {A} x xs ys h p q a = rw count-append (elim (Bool-cases (x == a)) [
  | inl e ↦
      ground (
        arith,
        e,
        ap (λ (t : A). count t xs) (==_eq x a e),
        ap (λ (t : A). count t ys) (==_eq x a e),
      )
  | inr e ↦ ground (arith, e, h a)
])

max_suc : (n : ℕ) → max n (n + 1) ≡ n + 1
max_suc n = omega arith

module _ {M : Type 0} where
  abbrev stamped : Inbox M → QueueItem M → QueueItem M
  stamped s q = record q { sequence = s.next_sequence }

  numbered-eq-stamped :
      (s : Inbox M) (q : QueueItem M) → q.sequence ≡ 0 → numbered s q ≡ stamped s q
  numbered-eq-stamped s q h = ground arith

  -- An item that is not queued, and asks for the next sequence, may join either queue.
  pub enqueue-IsValid :
      (t : Target) (q : QueueItem M) (s : Inbox M)
      → IsValid s
      → q.sequence ≡ 0
      → count q.request_id (ids s.turns) ≡ 0
      → count q.request_id (ids s.steps) ≡ 0
      → IsValid (enqueue t q s)
  unfolding enqueue
  enqueue-IsValid next_turn q s v z a b = rw (numbered-eq-stamped s q z) (record {
    ids_once =
        λ x. rw map-append (once_append q.request_id (ids s.turns) (ids s.steps) v.ids_once a b x);
    sequences_once = λ n. rw map-append (
        once_append s.next_sequence (sequences s.turns) (sequences s.steps) v.sequences_once
          (count-zero_of_below (sequences s.turns) s.next_sequence v.turns_below)
          (count-zero_of_below (sequences s.steps) s.next_sequence v.steps_below) n);
    turns_ascend = rw map-append (
        Ascending-append_last (sequences s.turns) s.next_sequence v.turns_ascend
          (All-le_of_lt (sequences s.turns) s.next_sequence v.turns_below));
    steps_ascend = v.steps_ascend;
    turns_below =
        rw (max_suc, map-append)
          (All-append _ (sequences s.turns) (s.next_sequence ∷ [])
            (All-lt_mono (sequences s.turns) s.next_sequence (s.next_sequence + 1) (omega arith)
              v.turns_below)
            (omega arith));
    steps_below = rw max_suc (
        All-lt_mono (sequences s.steps) s.next_sequence (s.next_sequence + 1) (omega arith)
          v.steps_below);
  })
  enqueue-IsValid next_step q s v z a b = rw (numbered-eq-stamped s q z) (record {
    ids_once = λ x. rw map-append (
        omega (
          arith,
          once_append q.request_id (ids s.steps) (ids s.turns) (λ y. omega (arith, v.ids_once y)) b
              a x,
        ));
    sequences_once = λ n. rw map-append (
        omega (
          arith,
          once_append s.next_sequence (sequences s.steps) (sequences s.turns)
              (λ m. omega (arith, v.sequences_once m))
              (count-zero_of_below (sequences s.steps) s.next_sequence v.steps_below)
              (count-zero_of_below (sequences s.turns) s.next_sequence v.turns_below) n,
        ));
    turns_ascend = v.turns_ascend;
    steps_ascend = rw map-append (
        Ascending-append_last (sequences s.steps) s.next_sequence v.steps_ascend
          (All-le_of_lt (sequences s.steps) s.next_sequence v.steps_below));
    turns_below = rw max_suc (
        All-lt_mono (sequences s.turns) s.next_sequence (s.next_sequence + 1) (omega arith)
          v.turns_below);
    steps_below =
        rw (max_suc, map-append)
          (All-append _ (sequences s.steps) (s.next_sequence ∷ [])
            (All-lt_mono (sequences s.steps) s.next_sequence (s.next_sequence + 1) (omega arith)
              v.steps_below)
            (omega arith));
  })

  -- Item `q` stands at the end of its queue, under the sequence that was next; the other queue is as
  -- it was, and the numbers of the inbox went up by one.
  abbrev pub HasJoined : Target → QueueItem M → Inbox M → Inbox M → Type 0
  HasJoined next_turn q s after =
      (after.turns ≡ s.turns ++ record q { sequence = s.next_sequence } ∷ [])
      × (after.steps ≡ s.steps)
      × (after.next_sequence ≡ s.next_sequence + 1)
      × (after.revision ≡ s.revision + 1)
  HasJoined next_step q s after =
      (after.steps ≡ s.steps ++ record q { sequence = s.next_sequence } ∷ [])
      × (after.turns ≡ s.turns)
      × (after.next_sequence ≡ s.next_sequence + 1)
      × (after.revision ≡ s.revision + 1)

  pub enqueue-HasJoined :
      (t : Target) (q : QueueItem M) (s : Inbox M)
      → q.sequence ≡ 0
      → HasJoined t q s (enqueue t q s)
  unfolding enqueue
  enqueue-HasJoined next_turn q s z =
      rw (numbered-eq-stamped s q z) (refl, refl, max_suc s.next_sequence, refl)
  enqueue-HasJoined next_step q s z =
      rw (numbered-eq-stamped s q z) (refl, refl, max_suc s.next_sequence, refl)
