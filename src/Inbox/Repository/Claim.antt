-- ===== src/Inbox/Repository/Claim.antt =====
-- What popping several places by descending index leaves, for `claim` of repository.py.
pub mod Located
pub mod Conserves
use ftre.Prelude.{
  ℕ, zero, suc, ◌+◌, ◌≤◌, ◌<◌, String, ◌≡◌, ◌≢◌, refl, ap, sym, ◌∙◌, Bool, true, false, Option,
  none, some, List, [], ◌∷◌, arith, ◌==◌, String_key, ℕ_key, leb, if◌then◌else◌, All, count, one_if,
  get_elem?, pop_at, get_elem?-pop_at_lt, insert_desc, sort_desc, Bool-cases, inl, inr, contains,
  traverse, Option-cases, ==_refl,
}
use ftre.Prelude.Order.Sorted.{count-pop_at}
use ftre.Inbox.Models.{Target, next_turn, next_step, QueueItem, Inbox, ids}
use ftre.Inbox.Repository.{
  Location, find, queue_of, set_queue, item_at, cons_some, pop, items_at, pop_all, by_index,
}
use ftre.Inbox.Repository.Find.{find-item_at}

-- A place that popping `l` leaves where it is.
abbrev After : Location → Location → Type 0
After l m = (m.1 ≤ l.1) × (m ≢ l)

abbrev Descending : List Location → Type 0
Descending [] = Unit
Descending (l ∷ ls) = All (After l) ls × Descending ls

abbrev pub AllDistinct : List Location → Type 0
AllDistinct [] = Unit
AllDistinct (l ∷ ls) = All (λ m. m ≢ l) ls × AllDistinct ls

All-insert_desc :
    (P : Location → Type 0) (x : Location) (ys : List Location)
    → P x
    → All P ys
    → All P (insert_desc (λ (l : Location). l.1) x ys)
All-insert_desc P x [] p h = (p, tt)
All-insert_desc P x (y ∷ ys) p h = elim (Bool-cases (leb y.1 x.1)) [
  | inl e ↦ rw e (p, h)
  | inr e ↦ rw e (h.0, All-insert_desc P x ys p h.1)
]

All-by_index : (P : Location → Type 0) (ls : List Location) → All P ls → All P (by_index ls)
All-by_index P [] h = tt
All-by_index P (l ∷ ls) h = All-insert_desc P l (by_index ls) h.0 (All-by_index P ls h.1)

After-trans :
    (x y : Location) (zs : List Location)
    → y.1 ≤ x.1
    → All (After y) zs
    → All (λ m. m ≢ x) zs
    → All (After x) zs
After-trans x y [] le h d = tt
After-trans x y (z ∷ zs) le h d = ((omega arith, d.0), After-trans x y zs le h.1 d.1)

Descending-insert_desc :
    (x : Location) (ys : List Location)
    → All (λ m. m ≢ x) ys
    → Descending ys
    → Descending (insert_desc (λ (l : Location). l.1) x ys)
Descending-insert_desc x [] d h = (tt, tt)
Descending-insert_desc x (y ∷ ys) d h = elim (Bool-cases (leb y.1 x.1)) [
  | inl e ↦
      let le : y.1 ≤ x.1 = ground arith in rw e (((le, d.0), After-trans x y ys le h.0 d.1), h)
  | inr e ↦ rw e (
    All-insert_desc (After y) x ys (ground arith, λ p. d.0 (sym p)) h.0,
    Descending-insert_desc x ys d.1 h.1,
  )
]

Descending-by_index : (ls : List Location) → AllDistinct ls → Descending (by_index ls)
Descending-by_index [] d = tt
Descending-by_index (l ∷ ls) d =
    Descending-insert_desc l (by_index ls) (All-by_index (λ m. m ≢ l) ls d.0)
      (Descending-by_index ls d.1)

lt_of_ne : (t : Target) (i j : ℕ) → j ≤ i → ◌≢◌ {A = Location} (t, j) (t, i) → j < i
lt_of_ne t i j le ne = let different : j ≢ i = λ e. ne (ap (λ (k : ℕ). (t, k)) e) in omega arith

module _ {M : Type 0} where
  -- How many queued items ask for a request.
  abbrev pub total : String → Inbox M → ℕ
  total x s = count x (ids s.turns) + count x (ids s.steps)

  abbrev pub IsPresent : Inbox M → Location → Type 0
  IsPresent s l = (q : QueueItem M) × (item_at s l ≡ some q)

  item_at-pop : (s : Inbox M) (l m : Location) → After l m → item_at (pop s l) m ≡ item_at s m
  item_at-pop s (next_turn, i) (next_turn, j) (le, ne) =
      get_elem?-pop_at_lt s.turns i j (lt_of_ne next_turn i j le ne)
  item_at-pop s (next_turn, i) (next_step, j) h = refl
  item_at-pop s (next_step, i) (next_turn, j) h = refl
  item_at-pop s (next_step, i) (next_step, j) (le, ne) =
      get_elem?-pop_at_lt s.steps i j (lt_of_ne next_step i j le ne)

  total-pop :
      (x : String) (s : Inbox M) (l : Location) {q : QueueItem M}
      → item_at s l ≡ some q
      → one_if (q.request_id == x) + total x (pop s l) ≡ total x s
  total-pop x s (next_turn, i) at =
      omega (arith, count-pop_at (λ (q : QueueItem M). q.request_id) x s.turns i at)
  total-pop x s (next_step, i) at =
      omega (arith, count-pop_at (λ (q : QueueItem M). q.request_id) x s.steps i at)

  items_at-pop :
      (s : Inbox M) (l : Location) (ms : List Location)
      → All (After l) ms
      → items_at (pop s l) ms ≡ items_at s ms
  unfolding items_at
  items_at-pop s l [] h = refl
  items_at-pop s l (m ∷ ms) h = rw (item_at-pop s l m h.0, items_at-pop s l ms h.1)

  IsPresent-pop :
      (s : Inbox M) (l : Location) (ms : List Location)
      → All (After l) ms
      → All (IsPresent s) ms
      → All (IsPresent (pop s l)) ms
  IsPresent-pop s l [] h p = tt
  IsPresent-pop s l (m ∷ ms) h ((q, at), p) =
      ((q, item_at-pop s l m h.0 ∙ at), IsPresent-pop s l ms h.1 p)

  -- What is popped, by descending index, is what the places held.
  total-pop_all :
      (x : String) (ls : List Location) (s : Inbox M)
      → Descending ls
      → All (IsPresent s) ls
      → count x (ids (items_at s ls)) + total x (pop_all s ls).1 ≡ total x s
  unfolding pop_all items_at
  total-pop_all x [] s d p = omega arith
  total-pop_all x (l ∷ ls) s d ((q, at), p) =
      let rest : count x (ids (items_at s ls)) + total x (pop_all (pop s l) ls).1
          ≡ total x (pop s l) =
        rw (items_at-pop s l ls d.0) at
          (total-pop_all x ls (pop s l) d.1 (IsPresent-pop s l ls d.0 p)) in
      rw at (omega (arith, total-pop x s l at, rest))

  pop_all-succeeds :
      (ls : List Location) (s : Inbox M)
      → Descending ls
      → All (IsPresent s) ls
      → (pop_all s ls).0 ≡ true
  unfolding pop_all
  pop_all-succeeds [] s d p = refl
  pop_all-succeeds (l ∷ ls) s d ((q, at), p) =
      rw at (pop_all-succeeds ls (pop s l) d.1 (IsPresent-pop s l ls d.0 p))

  -- Distinct places that hold items are popped without an IndexError.
  pub pop_all-by_index :
      (ls : List Location) (s : Inbox M)
      → AllDistinct ls
      → All (IsPresent s) ls
      → (pop_all s (by_index ls)).0 ≡ true
  pop_all-by_index ls s d p =
      pop_all-succeeds (by_index ls) s (Descending-by_index ls d) (All-by_index (IsPresent s) ls p)

  -- What one place adds to what a list of places holds.
  weight : String → Option (QueueItem M) → ℕ
  weight x none = 0
  weight x (some q) = one_if (q.request_id == x)

  count-cons_some :
      (x : String) (o : Option (QueueItem M)) (qs : List (QueueItem M))
      → count x (ids (cons_some o qs)) ≡ weight x o + count x (ids qs)
  unfolding weight
  count-cons_some x none qs = omega arith
  count-cons_some x (some q) qs = refl

  count-insert_desc :
      (x : String) (s : Inbox M) (l : Location) (ls : List Location)
      → count x (ids (items_at s (insert_desc (λ (m : Location). m.1) l ls)))
        ≡ weight x (item_at s l) + count x (ids (items_at s ls))
  unfolding items_at
  count-insert_desc x s l [] = count-cons_some x (item_at s l) []
  count-insert_desc x s l (m ∷ ms) = elim (Bool-cases (leb m.1 l.1)) [
    | inl e ↦ rw e (count-cons_some x (item_at s l) (items_at s (m ∷ ms)))
    | inr e ↦ rw e (
        omega (
          arith,
          count-cons_some x (item_at s m) (items_at s (insert_desc (λ (m : Location). m.1) l ms)),
          count-cons_some x (item_at s m) (items_at s ms),
          count-insert_desc x s l ms,
        ))
  ]

  count-by_index :
      (x : String) (s : Inbox M) (ls : List Location)
      → count x (ids (items_at s (by_index ls))) ≡ count x (ids (items_at s ls))
  unfolding items_at
  count-by_index x s [] = refl
  count-by_index x s (l ∷ ls) = omega (
    arith,
    count-insert_desc x s l (by_index ls),
    count-by_index x s ls,
    count-cons_some x (item_at s l) (items_at s ls),
  )

  -- Popping distinct places that hold items takes from the queues what they held.
  pub total-pop_all-by_index :
      (x : String) (ls : List Location) (s : Inbox M)
      → AllDistinct ls
      → All (IsPresent s) ls
      → count x (ids (items_at s ls)) + total x (pop_all s (by_index ls)).1 ≡ total x s
  total-pop_all-by_index x ls s d p = omega (
    arith,
    count-by_index x s ls,
    total-pop_all x (by_index ls) s (Descending-by_index ls d) (All-by_index (IsPresent s) ls p),
  )
