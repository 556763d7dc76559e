-- ===== src/Inbox/Repository/Admission.antt =====
-- The branches of `admit` of repository.py, and claims that name missing requests.
use ftre.Prelude.{
  ℕ, ◌+◌, ◌≤◌, ◌<◌, String, ◌≡◌, refl, ap, sym, subst, ◌∙◌, Bool, true, false, none, List, [], ◌∷◌,
  arith, ◌==◌, String_key, ℕ_key, leb, contains, contains-count_pos, length-append, all_distinct,
  traverse, Bool-cases, Option-cases, inl, inr, ==_refl, ==_eq, All, traverse-cons,
}
use ftre.Json.{Builtins}
use ftre.Inbox.Models.{Target, next_turn, next_step, QueueItem, Inbox}
use ftre.Inbox.Models.Codec.{MsgCodec}
use ftre.Inbox.Repository.{
  Repo, Config, Result, ok, err, Raised, illegal_session, store, find, state_of, touch, legal_path,
  pending_count, enqueue, refuses, seen_by, numbered,
}
use ftre.Inbox.Repository.Methods.{admit, claim, save}
use ftre.Inbox.Repository.Find.{find-none, find-some}
use ftre.Inbox.Repository.Invariant.{IsValid}
use ftre.Inbox.Repository.Enqueue.{enqueue-IsValid, enqueue-HasJoined, HasJoined}
use ftre.Inbox.Repository.Claim.{total}
use ftre.Inbox.Repository.Claim.Conserves.{claim_pending}
use ftre.Inbox.Repository.Safety.{IsSafe, save-ok, save-illegal, state_of-touch, state_of-put}

le→leb : (a b : ℕ) → a ≤ b → leb a b ≡ true
le→leb a b h = ground arith

lt→leb_false : (a b : ℕ) → b < a → leb a b ≡ false
lt→leb_false a b h = ground arith

module _ {M : Type 0} where
  find-none_of_total : (s : Inbox M) (x : String) → total x s ≡ 0 → find s x ≡ none
  find-none_of_total s x h = elim (Option-cases (find s x)) [
    | inl n ↦ n
    | inr (l, p) ↦ absurd (omega (arith, find-some s x l p))
  ]

  traverse-none :
      (s : Inbox M) (x : String) (rids : List String)
      → contains x rids ≡ true
      → total x s ≡ 0
      → traverse (find s) rids ≡ none
  traverse-none s x [] c h = cc
  traverse-none s x (y ∷ rids) c h = elim (Option-cases (traverse (find s) (y ∷ rids))) [
    | inl n ↦ n
    | inr (ls, p) ↦
        let (l, ms, a, b, e) = traverse-cons (find s) y rids p in
        elim (Bool-cases (y == x)) [
          | inl f ↦
              absurd
                (omega (arith, find-some s y l a, ap (λ (z : String). total z s) (==_eq y x f)))
          | inr f ↦ cc (traverse-none s x rids (ground arith) h)
        ]
  ]

module _ {M : Type 0} (py : Builtins) (codec : MsgCodec M) (r : Repo M) where
  -- A claim that names a request which is not pending takes nothing.
  pub claim_missing :
      (sid x : String) (rids : List String)
      → contains x rids ≡ true
      → total x (state_of r sid) ≡ 0
      → claim py codec sid rids r ≡ (ok [], touch sid r)
  unfolding claim
  claim_missing sid x [] c h = cc
  claim_missing sid x (y ∷ rids) c h = rw (traverse-none (state_of r sid) x (y ∷ rids) c h)

  module _ (cfg : Config) (q : QueueItem M) (t : Target)
      (open_session : refuses cfg.session_exists q.session_id ≡ false) where
    abbrev before : Inbox M
    before = state_of r q.session_id

    -- A request that is pending in a session that exists is answered as not new, with a place, and
    -- no inbox and no file changes.
    pub admit_again :
        0 < total q.request_id before
        → (n : ℕ) × (admit py codec cfg q t r ≡ (ok (false, n), touch q.session_id r))
    unfolding admit
    admit_again h = elim (Option-cases (find before q.request_id)) [
      | inl n ↦ absurd (omega (arith, find-none before q.request_id n))
      | inr (l, p) ↦ (l.1 + 1, rw (open_session, p))
    ]

    module _ (absent : total q.request_id before ≡ 0) where
      -- One that the session's log has seen is accepted and not queued.
      pub admit_seen :
          seen_by cfg.request_seen q.session_id q.request_id ≡ true
          → admit py codec cfg q t r ≡ (ok (false, 0), touch q.session_id r)
      unfolding admit
      admit_seen seen = rw (open_session, find-none_of_total before q.request_id absent, seen)

      module _ (unseen : seen_by cfg.request_seen q.session_id q.request_id ≡ false) where
        module _ (valid : IsValid before) (keyed : before.session_id ≡ q.session_id)
            (unnumbered : q.sequence ≡ 0) (room : pending_count before < cfg.capacity) where
          enqueued : IsValid (enqueue t q before)
          enqueued = enqueue-IsValid t q before valid unnumbered (omega arith) (omega arith)

          same_session : (enqueue t q before).session_id ≡ q.session_id
          unfolding enqueue
          same_session = elim t as (λ u. (enqueue u q before).session_id ≡ q.session_id) [
            | next_turn ↦ keyed
            | next_step ↦ keyed
          ]

          admit_is_save :
              admit py codec cfg q t r
              ≡ save py codec
                  (true, pending_count (enqueue t q before))
                  (enqueue t q before)
                  (touch q.session_id r)
          unfolding admit
          admit_is_save =
              rw (open_session, find-none_of_total before q.request_id absent, unseen)
                (rw (lt→leb_false cfg.capacity (pending_count before) room))

          pending_count-enqueue : pending_count (enqueue t q before) ≡ pending_count before + 1
          unfolding enqueue
          pending_count-enqueue =
              elim t as (λ u. pending_count (enqueue u q before) ≡ pending_count before + 1) [
                | next_turn ↦ omega (arith, length-append before.turns (numbered before q ∷ []))
                | next_step ↦ omega (arith, length-append before.steps (numbered before q ∷ []))
              ]

          -- A request that is neither pending nor seen and asks for the next sequence, of a session
          -- that exists and may have a file, where the session's inbox is well-formed and has room and
          -- the disk takes writes: it joins the end of the queue it is for, with all that it holds,
          -- under the sequence that was next; the other queue is as it was, next sequence and revision
          -- went up by one, the reply counts what is pending, and no other session changes.
          pub admit_new_lem :
              legal_path q.session_id ≡ true
              → r.disk_fails ≡ false
              → ((admit py codec cfg q t r).0 ≡ ok (true, pending_count before + 1))
                × HasJoined t q before (state_of (admit py codec cfg q t r).1 q.session_id)
                × ((j : String)
                    → (q.session_id == j) ≡ false
                    → state_of (admit py codec cfg q t r).1 j ≡ state_of r j)
          admit_new_lem legal writable =
              let (answer, reads) =
                save-ok py codec (true, pending_count (enqueue t q before)) (enqueue t q before)
                  (touch q.session_id r) enqueued (rw same_session legal) writable in
              let counted : ◌≡◌ {A = Result (Bool × ℕ)}
                  (ok (true, pending_count (enqueue t q before)))
                  (ok (true, pending_count before + 1)) =
                ap (λ (n : ℕ). (let o : Result (Bool × ℕ) = ok (true, n) in o))
                  pending_count-enqueue in
              rw admit_is_save (
                answer ∙ counted,
                subst (HasJoined t q before)
                    (sym (reads q.session_id ∙ rw (same_session, ==_refl q.session_id)))
                    (enqueue-HasJoined t q before unnumbered),
                λ j other. reads j ∙ (rw (same_session, other) (state_of-touch r q.session_id j)),
              )

          abbrev admitted : Result (Bool × ℕ) × Repo M
          admitted = admit py codec cfg q t r

          abbrev reply : Bool × ℕ
          reply = (true, pending_count (enqueue t q before))

          unwritten :
              (e : Raised)
              → save py codec reply (enqueue t q before) (touch q.session_id r)
                ≡ (err e, store (enqueue t q before) (touch q.session_id r))
              → (admitted.0 ≡ err e)
                × HasJoined t q before (state_of admitted.1 q.session_id)
                × (admitted.1.disk ≡ r.disk)
          unwritten e raised =
              rw (admit_is_save, raised)
                (
                  refl,
                  subst (HasJoined t q before)
                      (sym (
                        state_of-put (touch q.session_id r) (enqueue t q before).session_id
                          q.session_id (enqueue t q before)
                        ∙ rw (same_session, ==_refl q.session_id)))
                      (enqueue-HasJoined t q before unnumbered),
                  refl,
                )

          -- The same request of a session whose name cannot be a directory: the method raises, and the
          -- request stays in memory all the same, at the end of the queue it is for, with all that it
          -- holds; nothing is written to the disk.
          pub admit_illegal :
              legal_path q.session_id ≡ false
              → ((admit py codec cfg q t r).0 ≡ err illegal_session)
                × HasJoined t q before (state_of (admit py codec cfg q t r).1 q.session_id)
                × ((admit py codec cfg q t r).1.disk ≡ r.disk)
          admit_illegal illegal = unwritten illegal_session (
              save-illegal py codec reply (enqueue t q before) (touch q.session_id r) enqueued
                (rw same_session illegal))

module _ {M : Type 0} (py : Builtins) (codec : MsgCodec M) (r : Repo M)
    (safe : IsSafe py codec r) where
  -- What has been claimed is not handed out again: in a safe repository, whose disk takes writes, after a claim of distinct pending requests, a
  -- second claim that names any of them answers an empty tuple and takes nothing, whatever else it
  -- names: no inbox and no file changes.
  pub claim_again :
      (sid x : String) (rids others : List String)
      → legal_path sid ≡ true
      → all_distinct rids ≡ true
      → All (λ y. 0 < total y (state_of r sid)) rids
      → contains x rids ≡ true
      → contains x others ≡ true
      → ((claim py codec sid others (claim py codec sid rids r).1).0 ≡ ok [])
        × ((j : String)
            → state_of (claim py codec sid others (claim py codec sid rids r).1).1 j
              ≡ state_of (claim py codec sid rids r).1 j)
        × ((claim py codec sid others (claim py codec sid rids r).1).1.disk
            ≡ (claim py codec sid rids r).1.disk)
  claim_again sid x rids others legal d p c o =
      let (claimed, (answer, named, left)) = claim_pending py codec r safe sid rids legal d p in
      let gone : total x (state_of (claim py codec sid rids r).1 sid) ≡ 0 =
        omega (arith, left x, contains-count_pos x rids c, (safe.valid sid).ids_once x) in
      rw (claim_missing py codec (claim py codec sid rids r).1 sid x others o gone)
        (refl, state_of-touch (claim py codec sid rids r).1 sid, refl)
