-- ===== src/Inbox/Repository/History.antt =====
-- Sequences of calls of the repository's methods (repository.py), in the order in which the
-- session locks let them run.
use ftre.Prelude.{
  String, ◌≡◌, all_distinct, refl, Bool, true, false, List, [], ◌∷◌, ◌==◌, String_key,
  if◌then◌else◌, Bool-cases, inl, inr, ==_eq, All, ap,
}
use ftre.Prelude.Dict.{get, get-remove, remove as drop_key}
use ftre.Json.{Fields, Builtins}
use ftre.Inbox.Models.{Target, QueueItem, new_inbox}
use ftre.Inbox.Models.Codec.{MsgCodec}
use ftre.Inbox.Repository.{Repo, ok, Config, state_of, legal_path}
use ftre.Inbox.Repository.Methods.{admit, claim, remove, edit, promote, delete_session, unlinked}
use ftre.Inbox.Repository.Invariant.{IsValid, new_inbox-IsValid}
use ftre.Inbox.Repository.Safety.{IsSafe, OnDisk, state_of-disk}
use ftre.Inbox.Repository.Safety.Steps.{
  admit-IsSafe, claim-IsSafe, remove-IsSafe, edit-IsSafe, promote-IsSafe,
}

pub data Call (M : Type 0) : Type 0 where
  admit_call : QueueItem M → Target → Call M
  claim_call : String → List String → Call M
  remove_call : String → String → Call M
  edit_call : String → String → String → List Fields → Call M
  promote_call : String → String → Call M
  delete_call : String → Call M
  -- Between two calls the disk begins or ceases to refuse writes.
  disk_turns : Bool → Call M

-- The service numbers no item itself, a claim names no request twice, and the disk takes writes.
abbrev pub IsRegular : {M : Type 0} → Call M → Type 0
IsRegular (admit_call q t) = q.sequence ≡ 0
IsRegular (claim_call sid rids) = all_distinct rids ≡ true
IsRegular (disk_turns fails) = fails ≡ false
IsRegular _ = Unit

module _ {M : Type 0} where
  abbrev pub empty_repo : Repo M
  empty_repo = record { states = []; disk = []; corrupt = []; disk_fails = false }

  state_of-drop :
      (r : Repo M) (sid j : String)
      → state_of (record r { states = drop_key r.states sid }) j
        ≡ (if sid == j then new_inbox j else state_of r j)
  unfolding state_of
  state_of-drop r sid j =
      rw get-remove (elim (Bool-cases (sid == j)) [ inl e ↦ rw e | inr e ↦ rw e ])

module _ {M : Type 0} (py : Builtins) (codec : MsgCodec M) where
  unfoldable pub perform : Config → Call M → Repo M → Repo M
  perform cfg (admit_call q t) r = (admit py codec cfg q t r).1
  perform cfg (claim_call sid rids) r = (claim py codec sid rids r).1
  perform cfg (remove_call sid rid) r = (remove py codec sid rid r).1
  perform cfg (edit_call sid rid content attachments) r =
      (edit py codec sid rid content attachments r).1
  perform cfg (promote_call sid rid) r = (promote py codec sid rid r).1
  perform cfg (disk_turns fails) r = record r { disk_fails = fails }
  perform cfg (delete_call sid) r = (delete_session py codec sid r).1

  unfoldable pub perform_all : Config → List (Call M) → Repo M → Repo M
  unfolding perform
  perform_all cfg [] r = r
  perform_all cfg (c ∷ cs) r = perform_all cfg cs (perform cfg c r)

  pub empty_repo-IsSafe : IsSafe py codec empty_repo
  unfolding state_of get
  empty_repo-IsSafe = record {
    valid = new_inbox-IsValid;
    keyed = λ sid. refl;
    durable = λ sid l. inr (refl, refl);
    writable = refl;
  }

  module _ (sid : String) (r : Repo M) (h : IsSafe py codec r) where
    dropped : Repo M
    dropped = record r { states = drop_key r.states sid }

    IsValid-dropped :
        (j : String) → IsValid (state_of dropped j) × ((state_of dropped j).session_id ≡ j)
    unfolding dropped
    IsValid-dropped j = rw (state_of-drop r sid j) (elim (Bool-cases (sid == j)) [
      | inl e ↦ rw e (new_inbox-IsValid j, refl)
      | inr e ↦ rw e (h.valid j, h.keyed j)
    ])

    OnDisk-deleted :
        (j : String)
        → OnDisk py codec r j
        → OnDisk py codec (record dropped { disk = drop_key r.disk sid }) j
    unfolding dropped
    OnDisk-deleted j d = rw (state_of-disk dropped (drop_key r.disk sid) j) (
        rw (get-remove, state_of-drop r sid j)
          (elim (Bool-cases (sid == j)) [ inl e ↦ rw e (inr (refl, refl)) | inr e ↦ rw e d ]))

    -- A session that cannot be on disk is dropped from memory alone.
    OnDisk-dropped :
        (j : String) → legal_path sid ≡ false → legal_path j ≡ true → OnDisk py codec dropped j
    unfolding dropped
    OnDisk-dropped j illegal legal = rw (state_of-drop r sid j) (elim (Bool-cases (sid == j)) [
      | inl e ↦ absurd (cc (ap legal_path (==_eq sid j e)))
      | inr e ↦ rw e (h.durable j legal)
    ])

    delete_session-legal :
        legal_path sid ≡ true
        → delete_session py codec sid r ≡ (ok tt, record dropped { disk = drop_key r.disk sid })
    unfolding delete_session dropped
    delete_session-legal l =
        rw l (ap (λ (b : Bool). unlinked py codec b (get r.disk sid) sid dropped) h.writable)

    delete_session-IsSafe : IsSafe py codec (delete_session py codec sid r).1
    unfolding delete_session dropped
    delete_session-IsSafe = elim (Bool-cases (legal_path sid)) [
      | inl e ↦ rw (delete_session-legal e) (record {
        valid = λ j. rw (state_of-disk dropped (drop_key r.disk sid) j) (IsValid-dropped j).0;
        keyed = λ j. rw (state_of-disk dropped (drop_key r.disk sid) j) (IsValid-dropped j).1;
        durable = λ j l. OnDisk-deleted j (h.durable j l);
        writable = h.writable;
      })
      | inr e ↦ rw e (record {
        valid = λ j. (IsValid-dropped j).0;
        keyed = λ j. (IsValid-dropped j).1;
        durable = λ j l. OnDisk-dropped j e l;
        writable = h.writable;
      })
    ]

  disk_turns-IsSafe :
      (fails : Bool) (r : Repo M)
      → fails ≡ false
      → IsSafe py codec r
      → IsSafe py codec (record r { disk_fails = fails })
  unfolding state_of
  disk_turns-IsSafe fails r u h = record {
    valid = h.valid;
    keyed = h.keyed;
    durable = h.durable;
    writable = u;
  }

  perform-IsSafe :
      (cfg : Config) (c : Call M) (r : Repo M)
      → IsRegular c
      → IsSafe py codec r
      → IsSafe py codec (perform cfg c r)
  unfolding perform
  perform-IsSafe cfg (admit_call q t) r u h = admit-IsSafe py codec cfg q t r u h
  perform-IsSafe cfg (claim_call sid rids) r u h = claim-IsSafe py codec sid rids r u h
  perform-IsSafe cfg (remove_call sid rid) r u h = remove-IsSafe py codec sid rid r h
  perform-IsSafe cfg (edit_call sid rid content attachments) r u h =
      edit-IsSafe py codec sid rid content attachments r h
  perform-IsSafe cfg (promote_call sid rid) r u h = promote-IsSafe py codec sid rid r h
  perform-IsSafe cfg (disk_turns fails) r u h = disk_turns-IsSafe fails r u h
  perform-IsSafe cfg (delete_call sid) r u h = delete_session-IsSafe sid r h

  -- After any calls, in any order and whatever they raise, provided that the admitted items ask for
  -- the next sequence, that no claim names a request twice, and that the disk never refuses a write,
  -- the repository is safe where it was safe before: every inbox is well-formed, stands under its own
  -- session, and is on disk as it is in memory where its session may have a file.
  pub perform_all-IsSafe :
      (cfg : Config) (cs : List (Call M)) (r : Repo M)
      → All IsRegular cs
      → IsSafe py codec r
      → IsSafe py codec (perform_all cfg cs r)
  unfolding perform_all
  perform_all-IsSafe cfg [] r u h = h
  perform_all-IsSafe cfg (c ∷ cs) r u h =
      perform_all-IsSafe cfg cs (perform cfg c r) u.1 (perform-IsSafe cfg c r u.0 h)
