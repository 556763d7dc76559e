-- ===== src/Session/Derive/Order.antt =====
-- The table of messages and the list of their ids in derive.py.
pub mod Steps
pub mod Fold
use ftre.Prelude.{
  ℕ, String, ◌≡◌, refl, ap, sym, subst, ◌∙◌, Bool, true, false, not, ◌||◌, Option, none, some, List,
  [], ◌∷◌, ◌++◌, ◌==◌, String_key, if◌then◌else◌, ◌>>=◌, Bool-cases, Option-cases, inl, inr,
  traverse, All, ◌≢◌,
}
use ftre.Prelude.Dict.{Dict, get, put}
use ftre.Prelude.Dict.Keys.{
  Apart, Apart-append_last, keys, values, keys-put_new, keys-put_old, absent, traverse-get,
  AllEntries, AllEntries-put, AllEntries-get,
}
use ftre.Session.Value.{PyValue, PyDict, end, list, nil, dict, field}
use ftre.Session.Log.{Event, some_text, or_empty}
use ftre.Session.Message.{Msg, ContentBlock, find_block, Role, user, assistant, system}
use ftre.Session.Derive.{
  Reader, str_or, FoldState, new_state, touch, insert, order_with, save, ensured, ensure_assistant,
  sealed, seal_at, seal_found, seal_in, seal_previous_assistant, reversed, tool_owner, is_assistant,
}
use ftre.Session.Derive.Content.{normalize_user_content}
use ftre.Session.Derive.Chunks.{
  chunked, append_assistant_chunk, streamed, with_result, ensure_running_tool_result,
  result_chunk_at, result_chunk_owned, append_tool_result_chunk, result_finished,
}
use ftre.Session.Derive.Messages.{
  field_or, apply_user_message, apply_assistant_message, hinted, hint_for, apply_hint_message,
  apply_compact_message,
}
use ftre.Session.Derive.Tools.{
  called, call_in, call_for, apply_call_start, at_message, at_owner, apply_result_start,
  with_tool_result, apply_tool_result,
}
use ftre.Session.Derive.Apply.{
  apply_chunk, ended, end_at, end_for, apply_turn_end, apply_dict, apply_read, apply_event,
  fold_events, collect, data_of, derive_messages,
}

-- The table holds each message under its id, and the list has its keys in order, each once.
pub record IsIndexed (messages : Dict Msg) (order : List String) : Type 0 where
  pub keyed : AllEntries (λ mid (m : Msg). m.id ≡ mid) messages
  pub listed : keys messages ≡ order
  pub apart : Apart order

abbrev pub Indexed : FoldState → Type 0
Indexed s = IsIndexed s.messages s.order

abbrev pub Keeps : Option FoldState → Type 0
Keeps none = Unit
Keeps (some s) = Indexed s

-- A step that may raise, before one that keeps the index.
pub Keeps->>= {ℓ} :
    {A : Type ℓ} (o : Option A) (f : A → Option FoldState)
    → ((a : A) → Keeps (f a))
    → Keeps (o >>= f)
Keeps->>= none f h = tt
Keeps->>= (some a) f h = h a

pub Keeps->>=_kept :
    (o : Option FoldState) (f : FoldState → Option FoldState)
    → Keeps o
    → ((s : FoldState) → Indexed s → Keeps (f s))
    → Keeps (o >>= f)
Keeps->>=_kept none f k h = tt
Keeps->>=_kept (some s) f k h = h s k

module _ (messages : Dict Msg) (order : List String) (h : IsIndexed messages order) where
  IsIndexed-new :
      (m : Msg) → get messages m.id ≡ none → IsIndexed (put messages m.id m) (order ++ m.id ∷ [])
  IsIndexed-new m e = record {
    keyed = AllEntries-put (λ mid (m : Msg). m.id ≡ mid) messages m.id m h.keyed refl;
    listed = keys-put_new messages m.id m e ∙ ap (λ (t : List String). t ++ m.id ∷ []) h.listed;
    apart =
        Apart-append_last order m.id h.apart
          (subst (λ (t : List String). All (λ y. y ≢ m.id) t) h.listed (absent messages m.id e));
  }

  IsIndexed-old :
      (mid : String) (m old : Msg)
      → get messages mid ≡ some old
      → m.id ≡ mid
      → IsIndexed (put messages mid m) order
  IsIndexed-old mid m old e same = record {
    keyed = AllEntries-put (λ mid (m : Msg). m.id ≡ mid) messages mid m h.keyed same;
    listed = keys-put_old messages mid m old e ∙ h.listed;
    apart = h.apart;
  }

  pub id_of_found : (mid : String) (m : Msg) → get messages mid ≡ some m → m.id ≡ mid
  id_of_found mid m e = AllEntries-get (λ mid (m : Msg). m.id ≡ mid) messages mid m e h.keyed

  IsIndexed-order_with :
      (m : Msg) (o : Option Msg)
      → get messages m.id ≡ o
      → IsIndexed (put messages m.id m) (order_with o m.id order)
  IsIndexed-order_with m none e = IsIndexed-new m e
  IsIndexed-order_with m (some old) e = IsIndexed-old m.id m old e refl

pub insert-Indexed : (m : Msg) (s : FoldState) → Indexed s → Indexed (insert m s)
unfolding insert
insert-Indexed m s h = IsIndexed-order_with s.messages s.order h m (get s.messages m.id) refl

-- What `ensure_assistant` answers: the message is in the state, under its id.
pub record IsHeld (mid : String) (m : Msg) (s : FoldState) : Type 0 where
  pub kept : Indexed s
  pub there : (old : Msg) × (get s.messages mid ≡ some old)
  pub named : m.id ≡ mid

pub save-Indexed :
    (mid : String) (m : Msg) (s : FoldState) → IsHeld mid m s → Indexed (save mid m s)
save-Indexed mid m s h = IsIndexed-old s.messages s.order h.kept mid m h.there.0 h.there.1 h.named
