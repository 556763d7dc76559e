-- ===== src/Inbox/Repository.antt =====
-- packages/ftre-inbox/src/ftre_inbox/repository.py: the persisted queues, one per session. A
-- method runs under its session's lock, so it is one step. The disk maps a session's directory to
-- what its inbox.json holds.
pub mod Methods
pub mod Invariant
pub mod Find
pub mod Enqueue
pub mod Moves
pub mod Safety
pub mod History
pub mod Claim
pub mod Admission
use ftre.Prelude.{
  ℕ, zero, suc, ◌+◌, max, String, Bool, true, false, not, ◌&&◌, ◌||◌, Option, none, some, List, [],
  ◌∷◌, ◌++◌, map, ◌==◌, String_key, ℕ_key, if◌then◌else◌, leb, length, get_elem?, set, pop_at,
  codes, sort_by, sort_desc, traverse, ◌>>=◌ as bind,
}
use mathlib.Core.Option
use ftre.Prelude.Dict
use ftre.Prelude.Dict.{Dict, get, put, remove as drop_key}
use ftre.Json.{Json, Fields, Builtins}
use ftre.Inbox.Models.{
  Source, user, Target, next_turn, next_step, QueueItem, Inbox, InboxSnapshot, new_inbox,
  snapshot_of, validate,
}
use ftre.Inbox.Models.Codec.{MsgCodec, inbox_to_json}

-- The exceptions that a method raises.
pub data Raised : Type 0 where
  session_missing inbox_full invalid_inbox illegal_session index_error disk_error : Raised

pub data Result {ℓ} (A : Type ℓ) : Type ℓ where
  ok : A → Result A
  err : Raised → Result A

-- What the constructor is given: the capacity and the two callbacks.
pub record Config : Type 0 where
  pub capacity : ℕ
  pub session_exists : Option (String → Bool)
  pub request_seen : Option (String → String → Bool)

-- What a file holds; `none` is text that `json.loads` refuses.
abbrev pub File : Type 0
File = Option Json

pub record Repo (M : Type 0) : Type 0 where
  pub states : Dict (Inbox M)
  pub disk : Dict File
  pub corrupt : List (String × File)
  -- Whether the disk refuses writes for now, by an OSError or another exception.
  pub disk_fails : Bool

abbrev has_separator : List ℕ → Bool
has_separator [] = false
has_separator (c ∷ cs) = (c == b'/' || (c == 0x5c || c == b':')) || has_separator cs

abbrev has_dots : List ℕ → Bool
has_dots (c ∷ d ∷ cs) = (c == b'.' && d == b'.') || has_dots (d ∷ cs)
has_dots _ = false

-- `true` where `path_for` returns a path, `false` where it raises ValueError.
unfoldable pub legal_path : String → Bool
legal_path sid = not (sid == "" || (has_separator (codes sid) || has_dots (codes sid)))

abbrev pub Location : Type 0
Location = Target × ℕ

-- A method that raises keeps what it wrote before.
abbrev pub Exec : Type 0 → Type 0 → Type 0
Exec M A = Repo M → Result A × Repo M

abbrev pub refuses : Option (String → Bool) → String → Bool
refuses none sid = false
refuses (some exists) sid = not (exists sid)

abbrev pub seen_by : Option (String → String → Bool) → String → String → Bool
seen_by none sid rid = false
seen_by (some seen) sid rid = seen sid rid

abbrev pub by_index : List Location → List Location
by_index = sort_desc (λ (l : Location). l.1)

module _ {M : Type 0} where
  unfoldable pub index_of : List (QueueItem M) → String → Option ℕ
  index_of [] rid = none
  index_of (q ∷ qs) rid = if q.request_id == rid then some 0 else Option.map suc (index_of qs rid)

  -- `_find`: the queue and the place in it.
  unfoldable pub find : Inbox M → String → Option Location
  unfolding index_of
  find s rid = elim (index_of s.turns rid) [
    | some i ↦ some (next_turn, i)
    | none ↦ Option.map (λ i. (next_step, i)) (index_of s.steps rid)
  ]

  abbrev pub queue_of : Target → Inbox M → List (QueueItem M)
  queue_of next_turn s = s.turns
  queue_of next_step s = s.steps

  abbrev pub set_queue : Target → List (QueueItem M) → Inbox M → Inbox M
  set_queue next_turn qs s = record s { turns = qs }
  set_queue next_step qs s = record s { steps = qs }

  -- `items[index]`
  abbrev pub item_at : Inbox M → Location → Option (QueueItem M)
  item_at s (t, i) = get_elem? (queue_of t s) i

  -- `items.pop(index)`
  abbrev pub pop : Inbox M → Location → Inbox M
  pop s (t, i) = set_queue t (pop_at (queue_of t s) i) s

  abbrev pub bump : Inbox M → Inbox M
  bump s = record s { revision = s.revision + 1 }

  abbrev pub or_new : String → Option (Inbox M) → Inbox M
  or_new sid none = new_inbox sid
  or_new sid (some s) = s

  -- `_state`, a `setdefault` on the table.
  unfoldable pub state_of : Repo M → String → Inbox M
  state_of r sid = or_new sid (get r.states sid)

  -- The inbox is mutated in place: the table holds the new value from here on.
  abbrev pub store : Inbox M → Repo M → Repo M
  store s r = record r { states = put r.states s.session_id s }

  abbrev pub touch : String → Repo M → Repo M
  touch sid r = record r { states = put r.states sid (state_of r sid) }

  abbrev pub pending_count : Inbox M → ℕ
  pending_count s = length s.turns + length s.steps

  -- What `admit` appends: a sequence that is not positive is replaced.
  abbrev pub numbered : Inbox M → QueueItem M → QueueItem M
  numbered s q = if q.sequence == 0 then record q { sequence = s.next_sequence } else q

  unfoldable pub enqueue : Target → QueueItem M → Inbox M → Inbox M
  enqueue t q s =
      let queued = numbered s q in
      bump (
        set_queue t (queue_of t s ++ queued ∷ [])
          (record s { next_sequence = max s.next_sequence (queued.sequence + 1) }))

  abbrev pub cons_some : Option (QueueItem M) → List (QueueItem M) → List (QueueItem M)
  cons_some none qs = qs
  cons_some (some q) qs = q ∷ qs

  unfoldable pub items_at : Inbox M → List Location → List (QueueItem M)
  items_at s [] = []
  items_at s (l ∷ ls) = cons_some (item_at s l) (items_at s ls)

  -- `items.pop(index)` with what comes after it; out of range it raises an IndexError.
  abbrev pub popped : Option (QueueItem M) → Inbox M → Bool × Inbox M → Bool × Inbox M
  popped none s rest = (false, s)
  popped (some q) s rest = rest

  -- The pops of `claim`, and whether all of them were in range: the first that is not ends them, and
  -- what was popped before it is gone.
  unfoldable pub pop_all : Inbox M → List Location → Bool × Inbox M
  pop_all s [] = (true, s)
  pop_all s (l ∷ ls) = popped (item_at s l) s (pop_all (pop s l) ls)

  abbrev pub edited : String → List Fields → QueueItem M → QueueItem M
  edited content attachments q = record q {
    content = content;
    attachments = attachments;
    messages = [];
  }

  -- Only an item of the next-turn queue is moved.
  unfoldable pub promoted : ℕ → QueueItem M → Inbox M → Inbox M
  promoted i q s = bump (record s {
    turns = pop_at s.turns i;
    steps = sort_by (λ (p : QueueItem M). p.sequence) (s.steps ++ q ∷ []);
  })
