-- ===== src/Inbox/Repository/Claim/Conserves.antt =====
-- `claim` of repository.py and the requests that are counted before and after it.
use ftre.Prelude.{
  ◌+◌, ◌<◌, String, ◌≡◌, refl, ap, ◌∙◌, true, List, [], ◌∷◌, arith, String_key, ℕ_key, All, count,
  inl, inr, all_distinct, Option-cases, ==_refl,
}
use ftre.Json.{Builtins}
use ftre.Inbox.Models.{next_turn, next_step, QueueItem, Inbox, ids}
use ftre.Inbox.Models.Codec.{MsgCodec}
use ftre.Inbox.Repository.{
  Repo, ok, Location, item_at, pop, items_at, pop_all, by_index, bump, state_of, touch, legal_path,
}
use ftre.Inbox.Repository.Methods.{claim, save}
use ftre.Inbox.Repository.Claim.{total, total-pop_all-by_index}
use ftre.Inbox.Repository.Claim.Located.{
  traverse-find, traverse-Located, items_at-Located, AllDistinct-Located, pop_all-found,
}
use ftre.Inbox.Repository.Safety.{IsSafe, save-ok}
use ftre.Inbox.Repository.Safety.Steps.{pop_all-IsValid}
use ftre.Inbox.Repository.Invariant.{bump-IsValid}

module _ {M : Type 0} where
  session_id-pop : (s : Inbox M) (l : Location) → (pop s l).session_id ≡ s.session_id
  session_id-pop s (next_turn, i) = refl
  session_id-pop s (next_step, i) = refl

  session_id-pop_all :
      (ls : List Location) (s : Inbox M) → (pop_all s ls).1.session_id ≡ s.session_id
  unfolding pop_all
  session_id-pop_all [] s = refl
  session_id-pop_all (l ∷ ls) s = elim (Option-cases (item_at s l)) [
    | inl n ↦ rw n refl
    | inr (q, p) ↦ rw p (session_id-pop_all ls (pop s l) ∙ session_id-pop s l)
  ]

module _ {M : Type 0} (py : Builtins) (codec : MsgCodec M) (r : Repo M) where
  -- What a claim of pending requests returns and leaves.
  abbrev pub Claims : String → List String → List (QueueItem M) → Type 0
  Claims sid rids claimed =
      ((claim py codec sid rids r).0 ≡ ok claimed)
      × (ids claimed ≡ rids)
      × ((x : String)
          → total x (state_of (claim py codec sid rids r).1 sid) + count x rids
            ≡ total x (state_of r sid))

module _ {M : Type 0} (py : Builtins) (codec : MsgCodec M) (r : Repo M)
    (safe : IsSafe py codec r) where
  -- In a safe repository, whose disk takes writes, distinct requests that are all pending in a session
  -- which may have a file are handed out in the order of the call, and are gone from the queues, from
  -- which nothing else is gone.
  pub claim_pending :
      (sid : String) (rids : List String)
      → legal_path sid ≡ true
      → all_distinct rids ≡ true
      → All (λ x. 0 < total x (state_of r sid)) rids
      → (claimed : List (QueueItem M)) × Claims py codec r sid rids claimed
  unfolding claim
  claim_pending sid [] legal d p = ([], (refl, refl, λ x. omega arith))
  claim_pending sid (rid ∷ rids) legal d p =
      let s = state_of r sid in
      let (ls, found) = traverse-find s (rid ∷ rids) p in
      let located = traverse-Located s (rid ∷ rids) ls found in
      let (present, named) = items_at-Located s (rid ∷ rids) ls located in
      let s' = bump (pop_all s (by_index ls)).1 in
      let same : s'.session_id ≡ sid = session_id-pop_all (by_index ls) s ∙ safe.keyed sid in
      let (stored, reads) =
        save-ok py codec (items_at s ls) s' (touch sid r)
          (bump-IsValid (pop_all-IsValid (by_index ls) s (safe.valid sid))) (rw same legal)
          safe.writable in
      let now : state_of (save py codec (items_at s ls) s' (touch sid r)).1 sid ≡ s' =
        reads sid ∙ rw (same, ==_refl sid) in
      (
        items_at s ls,
        rw (found, pop_all-found s (rid ∷ rids) ls found d)
            (
              stored,
              named,
              λ x. rw now (
                  omega (
                    arith,
                    total-pop_all-by_index x ls s (AllDistinct-Located s (rid ∷ rids) ls located d)
                        present,
                    ap (count x) named,
                  )),
            ),
      )
