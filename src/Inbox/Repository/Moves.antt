-- ===== src/Inbox/Repository/Moves.antt =====
-- Editing an item in place and promoting one to the next step, for repository.py.
use ftre.Prelude.{
  ℕ, ◌+◌, ◌<◌, ◌≡◌, ap, some, List, [], ◌∷◌, ◌++◌, map, map-append, arith, Key, zero, suc, ◌==◌,
  String_key, ℕ_key, count, one_if, count-append, pop_at, get_elem?, sort_by, set, String,
}
use ftre.Prelude.Order.Sorted.{
  All-append, All-pop_at, All-get, All-sort_by, Ascending-pop_at, Ascending-sort_by, map-pop_at,
  map-set, map-sort_by, count-sort_by, count-pop_at,
}
use mathlib.Core.Option
use ftre.Inbox.Models.{next_turn, next_step, Target, QueueItem, Inbox, ids, sequences}
use ftre.Inbox.Repository.{queue_of, set_queue, promoted}
use ftre.Inbox.Repository.Invariant.{IsValid}

map-get {ℓ κ} :
    {A : Type ℓ} {B : Type κ} (f : A → B) (xs : List A) (i : ℕ) {x : A}
    → get_elem? xs i ≡ some x
    → get_elem? (map f xs) i ≡ some (f x)
map-get f [] i h = cc
map-get f (y ∷ ys) zero h = ap (Option.map f) h
map-get f (y ∷ ys) (suc i) h = map-get f ys i h

module _ {M : Type 0} where
  abbrev request : QueueItem M → String
  request q = q.request_id

  abbrev number : QueueItem M → ℕ
  number q = q.sequence

  -- A new value with the old request and sequence may replace an item.
  pub set-IsValid :
      (t : Target) (s : Inbox M) (i : ℕ) {q : QueueItem M} (q' : QueueItem M)
      → get_elem? (queue_of t s) i ≡ some q
      → q'.request_id ≡ q.request_id
      → q'.sequence ≡ q.sequence
      → IsValid s
      → IsValid (set_queue t (set (queue_of t s) i q') s)
  set-IsValid next_turn s i q' at e f v =
      let same_ids : ids (set s.turns i q') ≡ ids s.turns = map-set request s.turns i q' at e in
      let same_numbers : sequences (set s.turns i q') ≡ sequences s.turns =
        map-set number s.turns i q' at f in
      record {
        ids_once = λ x. rw same_ids (v.ids_once x);
        sequences_once = λ n. rw same_numbers (v.sequences_once n);
        turns_ascend = rw same_numbers v.turns_ascend;
        steps_ascend = v.steps_ascend;
        turns_below = rw same_numbers v.turns_below;
        steps_below = v.steps_below;
      }
  set-IsValid next_step s i q' at e f v =
      let same_ids : ids (set s.steps i q') ≡ ids s.steps = map-set request s.steps i q' at e in
      let same_numbers : sequences (set s.steps i q') ≡ sequences s.steps =
        map-set number s.steps i q' at f in
      record {
        ids_once = λ x. rw same_ids (v.ids_once x);
        sequences_once = λ n. rw same_numbers (v.sequences_once n);
        turns_ascend = v.turns_ascend;
        steps_ascend = rw same_numbers v.steps_ascend;
        turns_below = v.turns_below;
        steps_below = rw same_numbers v.steps_below;
      }

  -- What one field counts over both queues, an item moved from one to the other.
  moved_count :
      {A : Type 0} ⦃e : Key A⦄ (f : QueueItem M → A) (a : A) (s : Inbox M) (i : ℕ) {q : QueueItem M}
      (q' : QueueItem M)
      → get_elem? s.turns i ≡ some q
      → f q' ≡ f q
      → count a (map f (pop_at s.turns i))
          + count a (map f (sort_by (λ (p : QueueItem M). p.sequence) (s.steps ++ q' ∷ [])))
        ≡ count a (map f s.turns) + count a (map f s.steps)
  moved_count {A} f a s i q' at same =
      rw (count-sort_by (λ (p : QueueItem M). p.sequence) f a (s.steps ++ q' ∷ [])) (
        rw map-append (
          omega (
            arith,
            count-append a (map f s.steps) (f q' ∷ []),
            count-pop_at f a s.turns i at,
            ap (λ (t : A). one_if (t == a)) same,
          )))

  -- Moving an item of the next turn to its place in the next step.
  pub promoted-IsValid :
      (s : Inbox M) (i : ℕ) {q : QueueItem M} (q' : QueueItem M)
      → get_elem? s.turns i ≡ some q
      → q'.request_id ≡ q.request_id
      → q'.sequence ≡ q.sequence
      → IsValid s
      → IsValid (promoted i q' s)
  unfolding promoted
  promoted-IsValid s i {q} q' at e f v =
      let below : q'.sequence < s.next_sequence = rw f (
        All-get (λ n. n < s.next_sequence) (sequences s.turns) i (map-get number s.turns i at)
          v.turns_below) in
      record {
        ids_once = λ x. rw (moved_count request x s i q' at e) (v.ids_once x);
        sequences_once = λ n. rw (moved_count number n s i q' at f) (v.sequences_once n);
        turns_ascend = rw map-pop_at (Ascending-pop_at (sequences s.turns) i v.turns_ascend);
        steps_ascend = rw map-sort_by (Ascending-sort_by (sequences (s.steps ++ q' ∷ [])));
        turns_below = rw map-pop_at (All-pop_at _ (sequences s.turns) i v.turns_below);
        steps_below =
            rw (map-sort_by, map-append)
              (All-sort_by _ (sequences s.steps ++ q'.sequence ∷ [])
                (All-append _ (sequences s.steps) (q'.sequence ∷ []) v.steps_below (below, tt)));
      }
