-- ===== src/Inbox/Repository/Safety.antt =====
-- What holds of the repository between two method calls: every inbox is well-formed, stands under
-- its own session, and is on disk as it is in memory, and the disk takes writes.
pub mod Steps
use ftre.Prelude.{
  ℕ, zero, suc, String, ◌≡◌, ◌⊎◌, inl, inr, refl, Bool, true, false, Option, none, some, List, [],
  ◌∷◌, arith, set, ◌==◌, String_key, ℕ_key, if◌then◌else◌, Bool-cases, Option-cases, ==_eq, ap, leb,
  traverse, sym, ◌∙◌,
}
use ftre.Prelude.Dict.{Dict, get, put, get-put}
use ftre.Json.{Json, Fields, Builtins}
use ftre.Inbox.Models.{Target, next_turn, next_step, user, QueueItem, Inbox, new_inbox, validate}
use ftre.Inbox.Models.Codec.{MsgCodec, inbox_to_json}
use ftre.Inbox.Repository.{
  illegal_session, disk_error, File, Repo, Config, Result, ok, err, Location, legal_path, find,
  queue_of, item_at, pop, bump, state_of, store, touch, enqueue, promoted, pop_all, items_at,
  by_index, edited, set_queue, refuses, seen_by, pending_count,
}
use ftre.Inbox.Repository.Methods.{
  admit_at, atomic_write, edit_item, promote_item, commit, save, admit, claim, remove, edit,
  promote,
}
use ftre.Inbox.Repository.Invariant.{
  IsValid, validate_of_IsValid, new_inbox-IsValid, bump-IsValid, pop-IsValid,
}
use ftre.Inbox.Repository.Find.{find-none, find-item_at}
use ftre.Inbox.Repository.Enqueue.{enqueue-IsValid}
use ftre.Inbox.Repository.Moves.{set-IsValid, promoted-IsValid}

module _ {M : Type 0} where
  pub state_of-put :
      (r : Repo M) (sid j : String) (s : Inbox M)
      → state_of (record r { states = put r.states sid s }) j
        ≡ (if sid == j then s else state_of r j)
  unfolding state_of
  state_of-put r sid j s = rw get-put (elim (Bool-cases (sid == j)) [ inl e ↦ rw e | inr e ↦ rw e ])

  -- A `setdefault` changes no reading.
  pub state_of-touch : (r : Repo M) (sid j : String) → state_of (touch sid r) j ≡ state_of r j
  state_of-touch r sid j =
      rw state_of-put
        (elim (Bool-cases (sid == j)) [ inl e ↦ rw (e, ==_eq sid j e) | inr e ↦ rw e ])

  pub state_of-disk :
      (r : Repo M) (d : Dict File) (j : String) → state_of (record r { disk = d }) j ≡ state_of r j
  unfolding state_of
  state_of-disk r d j = refl

module _ {M : Type 0} (py : Builtins) (codec : MsgCodec M) where
  -- A session that was never written reads as a new inbox.
  abbrev pub OnDisk : Repo M → String → Type 0
  OnDisk r sid =
      (get r.disk sid ≡ some (some (inbox_to_json py codec (state_of r sid))))
      ⊎ ((get r.disk sid ≡ none) × (state_of r sid ≡ new_inbox sid))

  pub record IsSafe (r : Repo M) : Type 0 where
    pub valid : (sid : String) → IsValid (state_of r sid)
    pub keyed : (sid : String) → (state_of r sid).session_id ≡ sid
    pub durable : (sid : String) → legal_path sid ≡ true → OnDisk r sid
    pub writable : r.disk_fails ≡ false

  pub touch-IsSafe : (r : Repo M) (sid : String) → IsSafe r → IsSafe (touch sid r)
  touch-IsSafe r sid h = record {
    valid = λ j. rw state_of-touch (h.valid j);
    keyed = λ j. rw state_of-touch (h.keyed j);
    durable = λ j l. rw state_of-touch (h.durable j l);
    writable = h.writable;
  }

  stored-IsSafe :
      (s : Inbox M) (r : Repo M) (j : String)
      → IsValid s
      → IsSafe r
      → IsValid (state_of (store s r) j) × ((state_of (store s r) j).session_id ≡ j)
  stored-IsSafe s r j v h =
      rw (state_of-put r s.session_id j s) (elim (Bool-cases (s.session_id == j)) [
        | inl e ↦ rw e (v, ==_eq s.session_id j e)
        | inr e ↦ rw e (h.valid j, h.keyed j)
      ])

  abbrev written : Inbox M → Repo M → Repo M
  written s r = record (store s r) {
    disk = put r.disk s.session_id (some (inbox_to_json py codec s));
  }

  OnDisk-written : (s : Inbox M) (r : Repo M) (j : String) → OnDisk r j → OnDisk (written s r) j
  OnDisk-written s r j h =
      rw (state_of-disk (store s r) (put r.disk s.session_id (some (inbox_to_json py codec s))) j) (
        rw (get-put, state_of-put r s.session_id j s)
          (elim (Bool-cases (s.session_id == j)) [ inl e ↦ rw e (inl refl) | inr e ↦ rw e h ]))

  written-IsSafe : (s : Inbox M) (r : Repo M) → IsValid s → IsSafe r → IsSafe (written s r)
  written-IsSafe s r v h = record {
    valid = λ j. rw (state_of-disk (store s r) (written s r).disk j) (stored-IsSafe s r j v h).0;
    keyed = λ j. rw (state_of-disk (store s r) (written s r).disk j) (stored-IsSafe s r j v h).1;
    durable = λ j l. OnDisk-written s r j (h.durable j l);
    writable = h.writable;
  }

  -- An inbox under an illegal name is in memory alone.
  unwritten-IsSafe :
      (s : Inbox M) (r : Repo M)
      → legal_path s.session_id ≡ false
      → IsValid s
      → IsSafe r
      → IsSafe (store s r)
  unwritten-IsSafe s r illegal v h = record {
    valid = λ j. (stored-IsSafe s r j v h).0;
    keyed = λ j. (stored-IsSafe s r j v h).1;
    durable = λ j l. rw (state_of-put r s.session_id j s) (elim (Bool-cases (s.session_id == j)) [
      | inl e ↦ absurd (cc (ap legal_path (==_eq s.session_id j e)))
      | inr e ↦ rw e (h.durable j l)
    ]);
    writable = h.writable;
  }

  -- What `commit` does with a legal name, by whether the disk takes the write.
  commit-writes {ℓ} :
      {A : Type ℓ} (a : A) (s : Inbox M) (r : Repo M)
      → legal_path s.session_id ≡ true
      → r.disk_fails ≡ false
      → commit py codec a s r
        ≡ (ok a, record r { disk = put r.disk s.session_id (some (inbox_to_json py codec s)) })
  unfolding commit
  commit-writes a s r l w = rw l (ap (λ (b : Bool). atomic_write py codec b a s r) w)

  commit-refused {ℓ} :
      {A : Type ℓ} (a : A) (s : Inbox M) (r : Repo M)
      → legal_path s.session_id ≡ true
      → r.disk_fails ≡ true
      → commit py codec a s r ≡ (err disk_error, r)
  unfolding commit
  commit-refused a s r l w = rw l (ap (λ (b : Bool). atomic_write py codec b a s r) w)

  -- Writing a well-formed inbox.
  pub commit-IsSafe {ℓ} :
      {A : Type ℓ} (a : A) (s : Inbox M) (r : Repo M)
      → IsValid s
      → IsSafe r
      → IsSafe (commit py codec a s (store s r)).1
  unfolding commit
  commit-IsSafe a s r v h = elim (Bool-cases (legal_path s.session_id)) [
    | inl e ↦ rw (commit-writes a s (store s r) e h.writable) (written-IsSafe s r v h)
    | inr e ↦ rw e (unwritten-IsSafe s r e v h)
  ]

  pub save-IsSafe {ℓ} :
      {A : Type ℓ} (a : A) (s : Inbox M) (r : Repo M)
      → IsValid s
      → IsSafe r
      → IsSafe (save py codec a s r).1
  unfolding save
  save-IsSafe a s r v h = rw (validate_of_IsValid s v) (commit-IsSafe a s r v h)

  -- A well-formed inbox with a legal name is stored, and nothing is raised.
  pub save-ok {ℓ} :
      {A : Type ℓ} (a : A) (s : Inbox M) (r : Repo M)
      → IsValid s
      → legal_path s.session_id ≡ true
      → r.disk_fails ≡ false
      → ((save py codec a s r).0 ≡ ok a)
        × ((j : String)
            → state_of (save py codec a s r).1 j ≡ (if s.session_id == j then s else state_of r j))
  unfolding save
  save-ok a s r v l w =
      rw (validate_of_IsValid s v, commit-writes a s (store s r) l w)
        (refl, λ j. state_of-disk (store s r) _ j ∙ state_of-put r s.session_id j s)

  -- Under an illegal name it is stored all the same, and the write raises.
  pub save-illegal {ℓ} :
      {A : Type ℓ} (a : A) (s : Inbox M) (r : Repo M)
      → IsValid s
      → legal_path s.session_id ≡ false
      → save py codec a s r ≡ (err illegal_session, store s r)
  unfolding save commit
  save-illegal a s r v l = rw (validate_of_IsValid s v, l)

  -- Where the disk refuses the write it is stored all the same, and the write raises.
  pub save-refused {ℓ} :
      {A : Type ℓ} (a : A) (s : Inbox M) (r : Repo M)
      → IsValid s
      → legal_path s.session_id ≡ true
      → r.disk_fails ≡ true
      → save py codec a s r ≡ (err disk_error, store s r)
  unfolding save
  save-refused a s r v l w = rw (validate_of_IsValid s v) (commit-refused a s (store s r) l w)
