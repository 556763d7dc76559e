-- ===== src/Inbox/Repository/Find.antt =====
-- What `_find` of repository.py finds.
use ftre.Prelude.{
  ℕ, ◌+◌, ◌<◌, String, ◌≡◌, refl, none, some, List, [], ◌∷◌, arith, ◌==◌, String_key, ℕ_key, count,
  get_elem?, Bool-cases, Option-cases, inl, inr, ==_eq,
}
use ftre.Inbox.Models.{QueueItem, Inbox, ids}
use ftre.Inbox.Repository.{Location, index_of, find, item_at}

module _ {M : Type 0} where
  index_of-get :
      (qs : List (QueueItem M)) (rid : String) (i : ℕ)
      → index_of qs rid ≡ some i
      → (q : QueueItem M) × (get_elem? qs i ≡ some q) × (q.request_id ≡ rid)
  unfolding index_of
  index_of-get [] rid i h = cc
  index_of-get (q ∷ qs) rid i h = elim (Bool-cases (q.request_id == rid)) [
    | inl e ↦ (q, ground (arith, e), ==_eq q.request_id rid e)
    | inr e ↦ elim (Option-cases (index_of qs rid)) [
      | inl n ↦ absurd (ground (arith, e, n))
      | inr (j, p) ↦
          let (r, at, same) = index_of-get qs rid j p in (r, ground (arith, e, p, at), same)
    ]
  ]

  -- The place that is found holds the request.
  pub find-item_at :
      (s : Inbox M) (rid : String) (l : Location)
      → find s rid ≡ some l
      → (q : QueueItem M) × (item_at s l ≡ some q) × (q.request_id ≡ rid)
  unfolding find
  find-item_at s rid (t, i) h = elim (Option-cases (index_of s.turns rid)) [
    | inl n ↦ elim (Option-cases (index_of s.steps rid)) [
      | inl m ↦ absurd (ground (arith, n, m))
      | inr (j, p) ↦
          let (q, at, same) = index_of-get s.steps rid j p in (q, ground (arith, n, p, at), same)
    ]
    | inr (j, p) ↦
        let (q, at, same) = index_of-get s.turns rid j p in (q, ground (arith, p, at), same)
  ]

  index_of-none :
      (qs : List (QueueItem M)) (rid : String) → index_of qs rid ≡ none → count rid (ids qs) ≡ 0
  unfolding index_of
  index_of-none [] rid h = refl
  index_of-none (q ∷ qs) rid h = ground (arith, index_of-none qs rid)

  index_of-some :
      (qs : List (QueueItem M)) (rid : String) (i : ℕ)
      → index_of qs rid ≡ some i
      → 0 < count rid (ids qs)
  unfolding index_of
  index_of-some [] rid i h = cc
  index_of-some (q ∷ qs) rid i h = elim (Bool-cases (q.request_id == rid)) [
    | inl e ↦ ground (arith, e)
    | inr e ↦ elim (Option-cases (index_of qs rid)) [
      | inl n ↦ absurd (ground (arith, e, n))
      | inr (j, p) ↦ ground (arith, e, p, index_of-some qs rid j p)
    ]
  ]

  -- Nothing is found exactly when no queued item has the request.
  pub find-none :
      (s : Inbox M) (rid : String)
      → find s rid ≡ none
      → (count rid (ids s.turns) ≡ 0) × (count rid (ids s.steps) ≡ 0)
  unfolding find
  find-none s rid h = ground (arith, index_of-none s.turns rid, index_of-none s.steps rid)

  pub find-some :
      (s : Inbox M) (rid : String) (l : Location)
      → find s rid ≡ some l
      → 0 < count rid (ids s.turns) + count rid (ids s.steps)
  unfolding find
  find-some s rid l h = elim (Option-cases (index_of s.turns rid)) [
    | inl n ↦ elim (Option-cases (index_of s.steps rid)) [
      | inl m ↦ absurd (ground (arith, n, m))
      | inr (j, p) ↦ omega (arith, index_of-some s.steps rid j p)
    ]
    | inr (j, p) ↦ omega (arith, index_of-some s.turns rid j p)
  ]
