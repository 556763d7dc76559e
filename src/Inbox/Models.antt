-- ===== src/Inbox/Models.antt =====
-- packages/ftre-inbox/src/ftre_inbox/models.py: queued items, the mutable inbox of a session, its
-- snapshot and its validation. The message type of the agent package is a parameter.
pub mod Codec
pub mod RoundTrip
use ftre.Prelude.{
  ℕ, String, Bool, true, false, not, ◌&&◌, ◌||◌, Option, none, some, List, [], ◌∷◌, ◌++◌, map, ◌==◌,
  String_key, ℕ_key, all_distinct, sort_by,
}
use ftre.Json.{Fields}

pub data Source : Type 0 where
  user plugin system : Source

pub data Target : Type 0 where
  next_turn next_step : Target

pub record QueueItem (M : Type 0) : Type 0 where
  pub request_id : String
  pub sequence : ℕ
  pub session_id : String
  pub channel_id : String
  pub content : String
  pub attachments : List Fields
  pub source : Source
  pub history_message_id : Option String
  pub messages : List M
  pub agent_id : String

pub record Inbox (M : Type 0) : Type 0 where
  pub session_id : String
  pub revision : ℕ
  pub next_sequence : ℕ
  pub turns : List (QueueItem M)
  pub steps : List (QueueItem M)

pub record InboxSnapshot (M : Type 0) : Type 0 where
  pub session_id : String
  pub revision : ℕ
  pub next_sequence : ℕ
  pub turns : List (QueueItem M)
  pub steps : List (QueueItem M)
  pub capacity : ℕ

abbrev is_nil {ℓ} : {A : Type ℓ} → List A → Bool
is_nil [] = true
is_nil (x ∷ xs) = false

-- Lists of numbers compared by `!=`.
abbrev pub same_numbers : List ℕ → List ℕ → Bool
same_numbers [] [] = true
same_numbers (x ∷ xs) (y ∷ ys) = x == y && same_numbers xs ys
same_numbers _ _ = false

module _ {M : Type 0} where
  -- `_MutableInbox(session_id=...)`
  abbrev pub new_inbox : String → Inbox M
  new_inbox sid = record {
    session_id = sid;
    revision = 0;
    next_sequence = 1;
    turns = [];
    steps = [];
  }

  abbrev pub ids : List (QueueItem M) → List String
  ids = map (λ (q : QueueItem M). q.request_id)

  abbrev pub sequences : List (QueueItem M) → List ℕ
  sequences = map (λ (q : QueueItem M). q.sequence)

  unfoldable pub snapshot_of : Inbox M → ℕ → InboxSnapshot M
  snapshot_of s capacity = record {
    session_id = s.session_id;
    revision = s.revision;
    next_sequence = s.next_sequence;
    turns = s.turns;
    steps = s.steps;
    capacity = capacity;
  }

  unfoldable pub pending : InboxSnapshot M → List (QueueItem M)
  pending s = sort_by (λ (q : QueueItem M). q.sequence) (s.turns ++ s.steps)

  unfoldable pub has_pending : InboxSnapshot M → Bool
  has_pending s = not (is_nil s.turns) || not (is_nil s.steps)

  abbrev in_order : List (QueueItem M) → Bool
  in_order qs = same_numbers (sequences qs) (sort_by (λ n. n) (sequences qs))

  -- `true` where `validate` returns, `false` where it raises ValueError.
  unfoldable pub validate : Inbox M → Bool
  validate s =
      all_distinct (ids (s.turns ++ s.steps))
      && (all_distinct (sequences (s.turns ++ s.steps)) && (in_order s.turns && in_order s.steps))
