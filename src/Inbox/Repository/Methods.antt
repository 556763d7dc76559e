-- ===== src/Inbox/Repository/Methods.antt =====
-- The methods of packages/ftre-inbox/src/ftre_inbox/repository.py.
use ftre.Prelude.{
  ℕ, ◌+◌, String, Bool, true, false, Option, none, some, List, [], ◌∷◌, if◌then◌else◌, leb, set,
  traverse,
}
use ftre.Prelude.Dict.{get, put, remove as drop_key}
use ftre.Json.{Fields, Builtins}
use ftre.Inbox.Models.{
  user, Target, next_turn, next_step, QueueItem, Inbox, InboxSnapshot, snapshot_of, validate,
}
use ftre.Inbox.Models.Codec.{MsgCodec, inbox_to_json}
use ftre.Inbox.Repository.{
  Result, ok, err, session_missing, inbox_full, invalid_inbox, illegal_session, index_error,
  disk_error, File, Config, Repo, Exec, Location, legal_path, find, queue_of, set_queue, item_at,
  pop, bump, state_of, store, touch, pending_count, enqueue, refuses, seen_by, items_at, pop_all,
  by_index, edited, promoted,
}

module _ {M : Type 0} (py : Builtins) (codec : MsgCodec M) where
  -- `_atomic_write`, which leaves the old file where it raises.
  abbrev pub atomic_write {ℓ} : {A : Type ℓ} → Bool → A → Inbox M → Repo M → Result A × Repo M
  atomic_write true a s r = (err disk_error, r)
  atomic_write false a s r =
      (ok a, record r { disk = put r.disk s.session_id (some (inbox_to_json py codec s)) })

  -- `_commit`, which writes the whole inbox, or raises by `path_for` or by the write.
  unfoldable pub commit {ℓ} : {A : Type ℓ} → A → Inbox M → Repo M → Result A × Repo M
  commit a s r =
      if legal_path s.session_id then atomic_write r.disk_fails a s r else (err illegal_session, r)

  -- `validate`, then `_commit`; the mutated inbox stays in the table also where they raise.
  unfoldable pub save {ℓ} : {A : Type ℓ} → A → Inbox M → Repo M → Result A × Repo M
  unfolding commit
  save a s r = if validate s then commit a s (store s r) else (err invalid_inbox, store s r)

  abbrev pub admit_new : Config → QueueItem M → Target → Inbox M → Exec M (Bool × ℕ)
  admit_new cfg q t s r =
      if seen_by cfg.request_seen q.session_id q.request_id
      then (ok (false, 0), r)
      else if leb cfg.capacity (pending_count s)
      then (err inbox_full, r)
      else (let s' = enqueue t q s in save (true, pending_count s') s' r)

  abbrev pub admit_at : Config → QueueItem M → Target → Option Location → Exec M (Bool × ℕ)
  admit_at cfg q t none r = admit_new cfg q t (state_of r q.session_id) (touch q.session_id r)
  admit_at cfg q t (some l) r = (ok (false, l.1 + 1), touch q.session_id r)

  unfoldable pub admit : Config → QueueItem M → Target → Exec M (Bool × ℕ)
  admit cfg q t r =
      if refuses cfg.session_exists q.session_id
      then (err session_missing, r)
      else admit_at cfg q t (find (state_of r q.session_id) q.request_id) r

  -- An IndexError of a pop, as a request that is named twice may cause it, leaves the inbox changed
  -- in memory alone.
  abbrev pub claim_popped : List (QueueItem M) → Bool × Inbox M → Exec M (List (QueueItem M))
  claim_popped claimed p r =
      if p.0 then save claimed (bump p.1) r else (err index_error, store p.1 r)

  abbrev pub claim_at : String → Option (List Location) → Exec M (List (QueueItem M))
  claim_at sid none r = (ok [], touch sid r)
  claim_at sid (some ls) r =
      let s = state_of r sid in claim_popped (items_at s ls) (pop_all s (by_index ls)) (touch sid r)

  unfoldable pub claim : String → List String → Exec M (List (QueueItem M))
  claim sid [] r = (ok [], r)
  claim sid (rid ∷ rids) r = claim_at sid (traverse (find (state_of r sid)) (rid ∷ rids)) r

  abbrev pub remove_at : String → Option Location → Exec M (Option (QueueItem M))
  remove_at sid none r = (ok none, touch sid r)
  remove_at sid (some l) r =
      let s = state_of r sid in
      let s' = bump (pop s l) in commit (item_at s l) s' (store s' (touch sid r))

  unfoldable pub remove : String → String → Exec M (Option (QueueItem M))
  remove sid rid r = remove_at sid (find (state_of r sid) rid) r

  abbrev pub edit_item :
      String
      → List Fields
      → Inbox M
      → Location
      → Option (QueueItem M)
      → Exec M (Option (QueueItem M))
  edit_item content attachments s l none r = (ok none, r)
  edit_item content attachments s (t, i) (some q) r =
      let q' = edited content attachments q in
      let s' = bump (set_queue t (set (queue_of t s) i q') s) in commit (some q') s' (store s' r)

  abbrev pub edit_at :
      String → String → List Fields → Option Location → Exec M (Option (QueueItem M))
  edit_at sid content attachments none r = (ok none, touch sid r)
  edit_at sid content attachments (some l) r =
      let s = state_of r sid in edit_item content attachments s l (item_at s l) (touch sid r)

  unfoldable pub edit : String → String → String → List Fields → Exec M (Option (QueueItem M))
  edit sid rid content attachments r = edit_at sid content attachments (find (state_of r sid) rid) r

  abbrev pub promote_item :
      Inbox M → Location → Option (QueueItem M) → Exec M (Option (QueueItem M))
  promote_item s l none r = (ok none, r)
  promote_item s (next_step, i) (some q) r = (ok (some q), r)
  promote_item s (next_turn, i) (some q) r =
      let q' = record q { source = user } in save (some q') (promoted i q' s) r

  abbrev pub promote_at : String → Option Location → Exec M (Option (QueueItem M))
  promote_at sid none r = (ok none, touch sid r)
  promote_at sid (some l) r = let s = state_of r sid in promote_item s l (item_at s l) (touch sid r)

  unfoldable pub promote : String → String → Exec M (Option (QueueItem M))
  promote sid rid r = promote_at sid (find (state_of r sid) rid) r

  -- `path.unlink()` where the file is there.
  abbrev pub unlinked : Bool → Option File → String → Exec M (Unit {0})
  unlinked true (some f) sid r = (err disk_error, r)
  unlinked true none sid r = (ok tt, r)
  unlinked false o sid r = (ok tt, record r { disk = drop_key r.disk sid })

  unfoldable pub delete_session : String → Exec M (Unit {0})
  delete_session sid r =
      let r' = record r { states = drop_key r.states sid } in
      if legal_path sid
      then unlinked r.disk_fails (get r.disk sid) sid r'
      else (err illegal_session, r')

  unfoldable pub snapshot : Config → String → Repo M → InboxSnapshot M × Repo M
  unfolding snapshot_of
  snapshot cfg sid r = (snapshot_of (state_of r sid) cfg.capacity, touch sid r)
