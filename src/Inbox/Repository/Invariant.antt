-- ===== src/Inbox/Repository/Invariant.antt =====
-- The well-formedness that `validate` of models.py tests, and its preservation by the steps of
-- the repository's methods.
use ftre.Prelude.{
  ℕ, ◌+◌, ◌≤◌, ◌<◌, String, ◌≡◌, refl, true, List, [], ◌∷◌, ◌++◌, map, map-append, arith, Key,
  String_key, ℕ_key, All, count, count-append, all_distinct, all_distinct_of_count, sort_by,
}
use ftre.Prelude.Order.Sorted.{
  Ascending, All-pop_at, Ascending-pop_at, sort_by_of_Ascending, map-pop_at, count-pop_at-le,
}
use ftre.Inbox.Models.{
  next_turn, next_step, QueueItem, Inbox, ids, sequences, same_numbers, validate, new_inbox,
}
use ftre.Inbox.Repository.{Location, pop, bump}

module _ {M : Type 0} where
  -- Every request and every sequence is queued once, each queue is in order of sequence, and
  -- the next sequence is above all that are in use.
  pub record IsValid (s : Inbox M) : Type 0 where
    pub ids_once : (x : String) → count x (ids s.turns) + count x (ids s.steps) ≤ 1
    pub sequences_once : (n : ℕ) → count n (sequences s.turns) + count n (sequences s.steps) ≤ 1
    pub turns_ascend : Ascending (sequences s.turns)
    pub steps_ascend : Ascending (sequences s.steps)
    pub turns_below : All (λ n. n < s.next_sequence) (sequences s.turns)
    pub steps_below : All (λ n. n < s.next_sequence) (sequences s.steps)

same_numbers_refl : (xs : List ℕ) → same_numbers xs xs ≡ true
same_numbers_refl [] = refl
same_numbers_refl (x ∷ xs) = ground (arith, same_numbers_refl xs)

in_order_of_Ascending : (xs : List ℕ) → Ascending xs → same_numbers xs (sort_by (λ n. n) xs) ≡ true
in_order_of_Ascending xs h = rw (sort_by_of_Ascending xs h) (same_numbers_refl xs)

module _ {M : Type 0} where
  distinct_of_once :
      {A : Type 0} ⦃e : Key A⦄ (f : QueueItem M → A) (s : Inbox M)
      → ((x : A) → count x (map f s.turns) + count x (map f s.steps) ≤ 1)
      → all_distinct (map f (s.turns ++ s.steps)) ≡ true
  distinct_of_once f s h = rw map-append (
      all_distinct_of_count (map f s.turns ++ map f s.steps)
        (λ x. omega (arith, count-append x (map f s.turns) (map f s.steps), h x)))

  -- `validate` accepts every well-formed inbox.
  pub validate_of_IsValid : (s : Inbox M) → IsValid s → validate s ≡ true
  unfolding validate
  validate_of_IsValid s v = rw (
    distinct_of_once (λ (q : QueueItem M). q.request_id) s v.ids_once,
    distinct_of_once (λ (q : QueueItem M). q.sequence) s v.sequences_once,
    in_order_of_Ascending (sequences s.turns) v.turns_ascend,
    in_order_of_Ascending (sequences s.steps) v.steps_ascend,
  )

  pub new_inbox-IsValid : (sid : String) → IsValid (new_inbox {M = M} sid)
  new_inbox-IsValid sid = record {
    ids_once = λ x. omega arith;
    sequences_once = λ n. omega arith;
    turns_ascend = tt;
    steps_ascend = tt;
    turns_below = tt;
    steps_below = tt;
  }

  pub bump-IsValid : {s : Inbox M} → IsValid s → IsValid (bump s)
  bump-IsValid v = record {
    ids_once = v.ids_once;
    sequences_once = v.sequences_once;
    turns_ascend = v.turns_ascend;
    steps_ascend = v.steps_ascend;
    turns_below = v.turns_below;
    steps_below = v.steps_below;
  }

  -- Popping an item that stands in a queue.
  pub pop-IsValid : (s : Inbox M) (l : Location) → IsValid s → IsValid (pop s l)
  pop-IsValid s (next_turn, i) v = record {
    ids_once = λ x.
        rw (map-pop_at (λ (q : QueueItem M). q.request_id) s.turns i)
          (omega (arith, v.ids_once x, count-pop_at-le x (ids s.turns) i));
    sequences_once = λ n.
        rw (map-pop_at (λ (q : QueueItem M). q.sequence) s.turns i)
          (omega (arith, v.sequences_once n, count-pop_at-le n (sequences s.turns) i));
    turns_ascend = rw map-pop_at (Ascending-pop_at (sequences s.turns) i v.turns_ascend);
    steps_ascend = v.steps_ascend;
    turns_below = rw map-pop_at (All-pop_at _ (sequences s.turns) i v.turns_below);
    steps_below = v.steps_below;
  }
  pop-IsValid s (next_step, i) v = record {
    ids_once = λ x.
        rw (map-pop_at (λ (q : QueueItem M). q.request_id) s.steps i)
          (omega (arith, v.ids_once x, count-pop_at-le x (ids s.steps) i));
    sequences_once = λ n.
        rw (map-pop_at (λ (q : QueueItem M). q.sequence) s.steps i)
          (omega (arith, v.sequences_once n, count-pop_at-le n (sequences s.steps) i));
    turns_ascend = v.turns_ascend;
    steps_ascend = rw map-pop_at (Ascending-pop_at (sequences s.steps) i v.steps_ascend);
    turns_below = v.turns_below;
    steps_below = rw map-pop_at (All-pop_at _ (sequences s.steps) i v.steps_below);
  }
