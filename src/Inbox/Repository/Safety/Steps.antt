-- ===== src/Inbox/Repository/Safety/Steps.antt =====
-- The methods of repository.py, one by one, from a safe repository.
use ftre.Prelude.{
  String, ◌≡◌, inl, inr, refl, true, Option, none, some, List, [], ◌∷◌, set, String_key, ℕ_key,
  all_distinct, Bool-cases, Option-cases, leb, traverse,
}
use ftre.Json.{Fields, Builtins}
use ftre.Inbox.Models.{Target, next_turn, next_step, user, QueueItem, Inbox}
use ftre.Inbox.Models.Codec.{MsgCodec}
use ftre.Inbox.Repository.{
  Repo, Config, Location, find, queue_of, item_at, pop, bump, state_of, touch, enqueue, promoted,
  pop_all, items_at, by_index, edited, set_queue, refuses, seen_by, pending_count,
}
use ftre.Inbox.Repository.Methods.{
  admit_at, edit_item, promote_item, admit, claim, remove, edit, promote,
}
use ftre.Inbox.Repository.Invariant.{IsValid, bump-IsValid, pop-IsValid}
use ftre.Inbox.Repository.Find.{find-none}
use ftre.Inbox.Repository.Enqueue.{enqueue-IsValid}
use ftre.Inbox.Repository.Moves.{set-IsValid, promoted-IsValid}
use ftre.Inbox.Repository.Claim.Located.{pop_all-found}
use ftre.Inbox.Repository.Safety.{IsSafe, touch-IsSafe, commit-IsSafe, save-IsSafe}

module _ {M : Type 0} where
  pub pop_all-IsValid : (ls : List Location) (s : Inbox M) → IsValid s → IsValid (pop_all s ls).1
  unfolding pop_all
  pop_all-IsValid [] s v = v
  pop_all-IsValid (l ∷ ls) s v = elim (Option-cases (item_at s l)) [
    | inl n ↦ rw n v
    | inr (q, p) ↦ rw p (pop_all-IsValid ls (pop s l) (pop-IsValid s l v))
  ]

module _ {M : Type 0} (py : Builtins) (codec : MsgCodec M) where
  admit_at-IsSafe :
      (cfg : Config) (q : QueueItem M) (t : Target) (r : Repo M)
      → q.sequence ≡ 0
      → find (state_of r q.session_id) q.request_id ≡ none
      → IsSafe py codec r
      → IsSafe py codec (admit_at py codec cfg q t none r).1
  admit_at-IsSafe cfg q t r z absent h =
      elim (Bool-cases (seen_by cfg.request_seen q.session_id q.request_id)) [
        | inl e ↦ rw e (touch-IsSafe py codec r q.session_id h)
        | inr e ↦
            rw e (elim (Bool-cases (leb cfg.capacity (pending_count (state_of r q.session_id)))) [
              | inl f ↦ rw f (touch-IsSafe py codec r q.session_id h)
              | inr f ↦ rw f (
                  let s' = enqueue t q (state_of r q.session_id) in
                  let (a, b) = find-none (state_of r q.session_id) q.request_id absent in
                  save-IsSafe py codec (true, pending_count s') s' (touch q.session_id r)
                    (enqueue-IsValid t q (state_of r q.session_id) (h.valid q.session_id) z a b)
                    (touch-IsSafe py codec r q.session_id h))
            ])
      ]

  -- A new item that asks for the next sequence, as the service's all do, is admitted safely, and
  -- so are the refusals.
  pub admit-IsSafe :
      (cfg : Config) (q : QueueItem M) (t : Target) (r : Repo M)
      → q.sequence ≡ 0
      → IsSafe py codec r
      → IsSafe py codec (admit py codec cfg q t r).1
  unfolding admit
  admit-IsSafe cfg q t r z h = elim (Bool-cases (refuses cfg.session_exists q.session_id)) [
    | inl e ↦ rw e h
    | inr e ↦ rw e (elim (Option-cases (find (state_of r q.session_id) q.request_id)) [
      | inl n ↦ rw n (admit_at-IsSafe cfg q t r z n h)
      | inr (l, p) ↦ rw p (touch-IsSafe py codec r q.session_id h)
    ])
  ]

  -- Claiming any requests, present or not, none of them named twice.
  pub claim-IsSafe :
      (sid : String) (rids : List String) (r : Repo M)
      → all_distinct rids ≡ true
      → IsSafe py codec r
      → IsSafe py codec (claim py codec sid rids r).1
  unfolding claim
  claim-IsSafe sid [] r d h = h
  claim-IsSafe sid (rid ∷ rids) r d h =
      elim (Option-cases (traverse (find (state_of r sid)) (rid ∷ rids))) [
        | inl n ↦ rw n (touch-IsSafe py codec r sid h)
        | inr (ls, p) ↦
            rw (p, pop_all-found (state_of r sid) (rid ∷ rids) ls p d)
              (save-IsSafe py codec (items_at (state_of r sid) ls)
                (bump (pop_all (state_of r sid) (by_index ls)).1) (touch sid r)
                (bump-IsValid (pop_all-IsValid (by_index ls) (state_of r sid) (h.valid sid)))
                (touch-IsSafe py codec r sid h))
      ]

  pub remove-IsSafe :
      (sid rid : String) (r : Repo M)
      → IsSafe py codec r
      → IsSafe py codec (remove py codec sid rid r).1
  unfolding remove
  remove-IsSafe sid rid r h = elim (Option-cases (find (state_of r sid) rid)) [
    | inl n ↦ rw n (touch-IsSafe py codec r sid h)
    | inr (l, p) ↦ rw p (
        commit-IsSafe py codec (item_at (state_of r sid) l) (bump (pop (state_of r sid) l))
          (touch sid r) (bump-IsValid (pop-IsValid (state_of r sid) l (h.valid sid)))
          (touch-IsSafe py codec r sid h))
  ]

  edit_item-IsSafe :
      (content : String) (attachments : List Fields) (s : Inbox M) (l : Location)
      (o : Option (QueueItem M)) (r : Repo M)
      → item_at s l ≡ o
      → IsValid s
      → IsSafe py codec r
      → IsSafe py codec (edit_item py codec content attachments s l o r).1
  edit_item-IsSafe content attachments s l none r at v h = h
  edit_item-IsSafe content attachments s (t, i) (some q) r at v h =
      let q' = edited content attachments q in
      commit-IsSafe py codec (some q') (bump (set_queue t (set (queue_of t s) i q') s)) r
        (bump-IsValid (set-IsValid t s i q' at refl refl v)) h

  pub edit-IsSafe :
      (sid rid content : String) (attachments : List Fields) (r : Repo M)
      → IsSafe py codec r
      → IsSafe py codec (edit py codec sid rid content attachments r).1
  unfolding edit
  edit-IsSafe sid rid content attachments r h = elim (Option-cases (find (state_of r sid) rid)) [
    | inl n ↦ rw n (touch-IsSafe py codec r sid h)
    | inr (l, p) ↦ rw p (
        edit_item-IsSafe content attachments (state_of r sid) l (item_at (state_of r sid) l)
          (touch sid r) refl (h.valid sid) (touch-IsSafe py codec r sid h))
  ]

  promote_item-IsSafe :
      (s : Inbox M) (l : Location) (o : Option (QueueItem M)) (r : Repo M)
      → item_at s l ≡ o
      → IsValid s
      → IsSafe py codec r
      → IsSafe py codec (promote_item py codec s l o r).1
  promote_item-IsSafe s (t, i) none r at v h = h
  promote_item-IsSafe s (next_step, i) (some q) r at v h = h
  promote_item-IsSafe s (next_turn, i) (some q) r at v h =
      let q' = record q { source = user } in
      save-IsSafe py codec (some q') (promoted i q' s) r (promoted-IsValid s i q' at refl refl v) h

  pub promote-IsSafe :
      (sid rid : String) (r : Repo M)
      → IsSafe py codec r
      → IsSafe py codec (promote py codec sid rid r).1
  unfolding promote
  promote-IsSafe sid rid r h = elim (Option-cases (find (state_of r sid) rid)) [
    | inl n ↦ rw n (touch-IsSafe py codec r sid h)
    | inr (l, p) ↦ rw p (
        promote_item-IsSafe (state_of r sid) l (item_at (state_of r sid) l) (touch sid r) refl
          (h.valid sid) (touch-IsSafe py codec r sid h))
  ]
