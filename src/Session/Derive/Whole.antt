-- ===== src/Session/Derive/Whole.antt =====
-- `assistant/chunk` events of derive.py directly in front of the `assistant/message` that carries the whole.
use ftre.Prelude.{
  String, ◌≡◌, ◌≢◌, refl, ap, sym, subst, ◌∙◌, true, ◌||◌, Option, none, some, List, [], ◌∷◌, ◌++◌,
  ◌==◌, String_key, ◌>>=◌, All, map, ==_refl, ne_==,
}
use ftre.Prelude.Dict.{get, put, get-put, put-put}
use ftre.Session.Value.{dict, PyDict, end}
use ftre.Session.Log.{Event, some_text, or_empty}
use ftre.Session.Message.{Msg}
use ftre.Session.Derive.{
  Reader, str_or, FoldState, touch, insert, order_with, file_calls, save, empty_assistant, ensured,
  ensure_assistant,
}
use ftre.Session.Derive.Chunks.{chunked, append_assistant_chunk}
use ftre.Session.Derive.Messages.{apply_assistant_message, with_id}
use ftre.Session.Derive.Apply.{
  apply_chunk, apply_odd, apply_dict, apply_event, apply_read, fold_events, data_of,
}

-- The event adds a piece of text or of thinking to the message.
pub record IsChunk (r : Reader) (mid : String) (e : Event) (d : PyDict) : Type 0 where
  pub typed : e.type_ ≡ "assistant/chunk"
  pub addressed : e.message_id ≡ some mid
  pub content : e.content ≡ dict d
  pub kind : (str_or r.str d "kind" "" == "text" || str_or r.str d "kind" "" == "thinking") ≡ true

-- The event carries the whole message.
pub record IsWhole (mid : String) (e : Event) : Type 0 where
  pub typed : e.type_ ≡ "assistant/message"
  pub addressed : e.message_id ≡ some mid

insert_over :
    (m : Msg) (s t : FoldState)
    → t.tool_calls ≡ s.tool_calls
    → put t.messages m.id m ≡ put s.messages m.id m
    → order_with (get t.messages m.id) m.id t.order ≡ order_with (get s.messages m.id) m.id s.order
    → insert m t ≡ insert m s
unfolding insert
insert_over m s t c p o = rw (c, p, o) refl

-- What an insertion covers: a change of the message that is there, and an empty message.
insert-save :
    (m x old : Msg) (s : FoldState)
    → get s.messages m.id ≡ some old
    → insert m (save m.id x s) ≡ insert m s
insert-save m x old s g =
    insert_over m s (save m.id x s) refl (put-put m.id x m s.messages)
      (rw (get-put, ==_refl m.id, g) refl)

insert-insert :
    (m n : Msg) (s : FoldState)
    → n.content ≡ []
    → n.id ≡ m.id
    → get s.messages m.id ≡ none
    → insert m (insert n s) ≡ insert m s
unfolding insert file_calls
insert-insert m n s c i g =
    insert_over m s (insert n s) (rw c refl)
      (subst (λ k. put (put s.messages k n) m.id m ≡ put s.messages m.id m) (sym i)
        (put-put m.id n m s.messages))
      (subst
        (λ k.
          order_with (get (put s.messages k n) m.id) m.id (order_with (get s.messages k) k s.order)
          ≡ order_with (get s.messages m.id) m.id s.order)
        (sym i) (rw (get-put, ==_refl m.id, g) refl))

module _ (r : Reader) where
  -- The message that the chunk makes or changes stands under its id.
  stored :
      (m x : Msg) (c : Event) (o : Option Msg) (s : FoldState)
      → get s.messages m.id ≡ o
      → insert m (save m.id x (ensured r o m.id c s).1) ≡ insert m s
  unfolding insert
  stored m x c none s g =
      insert-save m x (empty_assistant r m.id c) (insert (empty_assistant r m.id c) s)
        (get-put m.id m.id (empty_assistant r m.id c) s.messages ∙ rw (==_refl m.id))
      ∙ insert-insert m (empty_assistant r m.id c) s refl refl g
  stored m x c (some old) s g =
      insert-save m x (touch c old) (save m.id (touch c old) s)
        (get-put m.id m.id (touch c old) s.messages ∙ rw (==_refl m.id))
      ∙ insert-save m (touch c old) old s g

  insert-chunked :
      (m : Msg) (mid kind : String) (c : Event) (d : PyDict) (s : FoldState)
      → m.id ≡ mid
      → insert m (chunked r d kind mid c (ensure_assistant r mid c s)) ≡ insert m s
  unfolding ensure_assistant
  insert-chunked m mid kind c d s i =
      subst (λ k. insert m (chunked r d kind k c (ensured r (get s.messages k) k c s)) ≡ insert m s)
        i (stored m _ c (get s.messages m.id) s refl)

  data_of-dict : (d : PyDict) → data_of r (dict d) ≡ some d
  data_of-dict end = refl
  data_of-dict (PyDict.entry k v d) = refl
  data_of-dict (PyDict.odd_entry v d) = refl

  apply_dict-chunk :
      (c : Event) (d : PyDict) (s : FoldState)
      → c.type_ ≡ "assistant/chunk"
      → apply_dict r c d s ≡ apply_chunk r c d s
  apply_dict-chunk c d s t = simp t

  apply_dict-whole :
      (f : Event) (d : PyDict) (s : FoldState)
      → f.type_ ≡ "assistant/message"
      → apply_dict r f d s ≡ apply_assistant_message r f d s
  apply_dict-whole f d s t = simp t

  module _ (mid : String) (named : mid ≢ "") where
    is_chunked :
        (c : Event) (d : PyDict) (s : FoldState)
        → IsChunk r mid c d
        → append_assistant_chunk r c d s
          ≡ chunked r d (str_or r.str d "kind" "") mid c (ensure_assistant r mid c s)
    unfolding append_assistant_chunk
    is_chunked c d s h =
        let a : or_empty c.message_id ≡ mid = ap or_empty h.addressed in
        simp (a, h.kind, ne_== mid "" named)

    apply_event-chunk :
        (c : Event) (d : PyDict) (s : FoldState)
        → IsChunk r mid c d
        → apply_event r c s ≡ some (append_assistant_chunk r c d s)
    unfolding apply_event apply_chunk
    apply_event-chunk c d s h =
        let content : data_of r c.content ≡ some d = ap (data_of r) h.content ∙ data_of-dict d in
        rw content (apply_dict-chunk c d s h.typed ∙ rw h.kind refl)

    module _ (f : Event) (whole : IsWhole mid f) where
      addressed : some_text f.message_id ≡ some mid
      addressed = ap some_text whole.addressed ∙ rw (ne_== mid "" named)

      covers :
          (o : Option Msg) (s t : FoldState)
          → ((m : Msg) → m.id ≡ mid → insert m t ≡ insert m s)
          → (o >>= λ m. some (insert (touch f (with_id r (some_text f.message_id) m)) t))
            ≡ (o >>= λ m. some (insert (touch f (with_id r (some_text f.message_id) m)) s))
      covers none s t h = refl
      covers (some m) s t h = ap some (
          h (touch f (with_id r (some_text f.message_id) m))
            (ap (λ o. (with_id r o m).id) addressed))

      odd : (s : FoldState) → apply_odd r f s ≡ none
      odd s = simp whole.typed

      apply_whole-chunk :
          (c : Event) (d : PyDict) (s : FoldState)
          → IsChunk r mid c d
          → apply_event r f (append_assistant_chunk r c d s) ≡ apply_event r f s
      unfolding apply_event apply_assistant_message
      apply_whole-chunk c d s h = read (data_of r f.content)
        where
          read :
              (o : Option PyDict)
              → apply_read r f o (append_assistant_chunk r c d s) ≡ apply_read r f o s
          read none = odd (append_assistant_chunk r c d s) ∙ sym (odd s)
          read (some p) =
              apply_dict-whole f p (append_assistant_chunk r c d s) whole.typed
              ∙ (covers (r.validate_msg _) s (append_assistant_chunk r c d s)
                    (λ m i. ap (insert m) (is_chunked c d s h) ∙ insert-chunked m mid _ c d s i)
                  ∙ sym (apply_dict-whole f p s whole.typed))

      -- The pieces of an answer leave no trace once its whole message has come: where text and
      -- thinking chunks of a message, whose id is not empty, stand directly in front of the event
      -- that carries it whole, with no other event between them, the events fold to the same state
      -- as without them.
      pub fold_events-whole :
          (cs : List (Event × PyDict)) (es : List Event) (s : FoldState)
          → All (λ (p : Event × PyDict). IsChunk r mid p.0 p.1) cs
          → fold_events r (map (λ (p : Event × PyDict). p.0) cs ++ f ∷ es) s
            ≡ fold_events r (f ∷ es) s
      unfolding fold_events
      fold_events-whole [] es s h = refl
      fold_events-whole ((c, d) ∷ cs) es s h = rw (apply_event-chunk c d s h.0) (
          fold_events-whole cs es (append_assistant_chunk r c d s) h.1
          ∙ ap (λ o. o >>= fold_events r es) (apply_whole-chunk c d s h.0))
