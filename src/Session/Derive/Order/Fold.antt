-- ===== src/Session/Derive/Order/Fold.antt =====
-- Events of derive.py on the owner of a call, and any sequence of events.
use ftre.Prelude.{
  String, ◌≡◌, refl, sym, subst, ◌∙◌, Bool, true, false, not, ◌||◌, Option, none, some, List, [],
  ◌∷◌, ◌==◌, String_key, if◌then◌else◌, ◌>>=◌, Bool-cases, inl, inr, traverse,
}
use ftre.Prelude.Dict.{get}
use ftre.Prelude.Dict.Keys.{Apart, values, traverse-get}
use ftre.Session.Value.{PyDict, field}
use ftre.Session.Log.{Event, some_text, or_empty}
use ftre.Session.Message.{Msg, ContentBlock, find_block}
use ftre.Session.Derive.{Reader, str_or, FoldState, new_state, save, tool_owner, is_assistant}
use ftre.Session.Derive.Content.{to_output_blocks}
use ftre.Session.Derive.Chunks.{
  chunked, append_assistant_chunk, streamed, with_result, ensure_running_tool_result,
  result_chunk_at, result_chunk_owned, append_tool_result_chunk, result_finished, call_name,
}
use ftre.Session.Derive.Messages.{apply_user_message, apply_assistant_message, apply_hint_message}
use ftre.Session.Derive.Tools.{
  apply_call_start, at_message, at_owner, apply_result_start, with_tool_result, apply_tool_result,
}
use ftre.Session.Derive.Apply.{
  apply_chunk, ended, end_at, end_for, apply_turn_end, apply_dict, apply_read, apply_event,
  fold_events, collect, derive_messages, data_of, apply_odd, odd_end, odd_end_at, odd_addressed,
  usage_of,
}
use ftre.Session.Derive.Order.{Indexed, Keeps, Keeps->>=_kept, IsHeld, save-Indexed}
use ftre.Session.Derive.Order.Steps.{
  held, IsHeld-again, user-Keeps, assistant-Keeps, compact-Keeps, ensure-IsHeld, hint-Keeps,
  call-Keeps,
}

abbrev KeepsId : Msg → Option Msg → Type 0
KeepsId m none = Unit
KeepsId m (some n) = n.id ≡ m.id

KeepsId->>= {ℓ} :
    {A : Type ℓ} (m : Msg) (o : Option A) (f : A → Option Msg)
    → ((a : A) → KeepsId m (f a))
    → KeepsId m (o >>= f)
KeepsId->>= m none f h = tt
KeepsId->>= m (some a) f h = h a

changed-Keeps :
    (mid : String) (m : Msg) (o : Option Msg) (s : FoldState)
    → get s.messages mid ≡ some m
    → Indexed s
    → KeepsId m o
    → Keeps (o >>= λ n. some (save mid n s))
changed-Keeps mid m none s g h k = tt
changed-Keeps mid m (some n) s g h k = save-Indexed mid n s (held mid m n s g h k)

module _ (r : Reader) (e : Event) where
  at_message-Keeps :
      (o : Option Msg) (mid : String) (f : Msg → Option Msg) (s : FoldState)
      → get s.messages mid ≡ o
      → Indexed s
      → ((m : Msg) → KeepsId m (f m))
      → Keeps (at_message r o mid f s)
  at_message-Keeps none mid f s g h k = tt
  at_message-Keeps (some m) mid f s g h k = changed-Keeps mid m (f m) s g h (k m)

  at_owner-Keeps :
      (o : Option (Option String)) (f : Msg → Option Msg) (s : FoldState)
      → Indexed s
      → ((m : Msg) → KeepsId m (f m))
      → Keeps (at_owner r o f s)
  at_owner-Keeps none f s h k = tt
  at_owner-Keeps (some none) f s h k = h
  at_owner-Keeps (some (some mid)) f s h k = at_message-Keeps (get s.messages mid) mid f s refl h k

  ensure_running-id :
      (cid name : String) (m : Msg) → (ensure_running_tool_result r cid name e m).id ≡ m.id
  unfolding ensure_running_tool_result
  ensure_running-id cid name m = kept (find_block "tool_result" cid m.content)
    where
      kept : (o : Option ContentBlock) → (with_result r o cid name e m).id ≡ m.id
      kept none = refl
      kept (some b) = refl

  streamed-id : (cid : String) (d : PyDict) (m : Msg) → (streamed r cid d e m).id ≡ m.id
  streamed-id cid d m =
      elim (Bool-cases (result_finished r (find_block "tool_result" cid m.content))) [
        | inl f ↦ simp f refl
        | inr f ↦ simp f refl
      ]

  result_start-Keeps : (d : PyDict) (s : FoldState) → Indexed s → Keeps (apply_result_start r e d s)
  unfolding apply_result_start
  result_start-Keeps d s h = elim (Bool-cases (str_or r.str d "tool_call_id" "" == "")) [
    | inl f ↦ rw f h
    | inr f ↦ rw f (at_owner-Keeps (tool_owner _ s) _ s h (λ m. ensure_running-id _ _ m))
  ]

  with_tool_result-KeepsId :
      (cid : String) (d : PyDict) (m : Msg) → KeepsId m (with_tool_result r cid e d m)
  unfolding with_tool_result
  with_tool_result-KeepsId cid d m = KeepsId->>= m (r.as_list _) _ (λ values.
      KeepsId->>= m (to_output_blocks r values) _
        (λ output. KeepsId->>= m (r.as_dict _) _ (λ metadata. refl)))

  tool_result-Keeps : (d : PyDict) (s : FoldState) → Indexed s → Keeps (apply_tool_result r e d s)
  unfolding apply_tool_result
  tool_result-Keeps d s h =
      at_owner-Keeps (tool_owner _ s) _ s h (λ m. with_tool_result-KeepsId _ d m)

  ended-KeepsId : (d : PyDict) (m : Msg) → KeepsId m (ended r e d m)
  unfolding ended
  ended-KeepsId d m = KeepsId->>= m (usage_of r (field d "usage") m.token) _ (λ token. refl)

  end_at-Keeps :
      (o : Option Msg) (mid : String) (d : PyDict) (s : FoldState)
      → get s.messages mid ≡ o
      → Indexed s
      → Keeps (end_at r o mid e d s)
  end_at-Keeps none mid d s g h = h
  end_at-Keeps (some m) mid d s g h = elim (Bool-cases (is_assistant m)) [
    | inl f ↦ rw f (changed-Keeps mid m (ended r e d m) s g h (ended-KeepsId d m))
    | inr f ↦ rw f h
  ]

  end-Keeps :
      (o : Option String) (d : PyDict) (s : FoldState) → Indexed s → Keeps (end_for r o e d s)
  end-Keeps none d s h = h
  end-Keeps (some mid) d s h = end_at-Keeps (get s.messages mid) mid d s refl h

  chunked-Indexed :
      (d : PyDict) (kind mid : String) (p : Msg × FoldState)
      → IsHeld mid p.0 p.1
      → Indexed (chunked r d kind mid e p)
  chunked-Indexed d kind mid (m, s) h = save-Indexed mid _ s (IsHeld-again mid m _ s h refl)

  assistant_chunk-Indexed :
      (d : PyDict) (s : FoldState) → Indexed s → Indexed (append_assistant_chunk r e d s)
  unfolding append_assistant_chunk
  assistant_chunk-Indexed d s h =
      elim (Bool-cases (
        or_empty e.message_id == ""
        || not (str_or r.str d "kind" "" == "text" || str_or r.str d "kind" "" == "thinking"))) [
          | inl f ↦ rw f h
          | inr f ↦ rw f (
              chunked-Indexed d (str_or r.str d "kind" "") (or_empty e.message_id) _
                (ensure-IsHeld r e (or_empty e.message_id) s h))
        ]

  result_chunk_at-Keeps :
      (o : Option Msg) (mid cid : String) (d : PyDict) (s : FoldState)
      → get s.messages mid ≡ o
      → Indexed s
      → Keeps (result_chunk_at r o mid cid d e s)
  result_chunk_at-Keeps none mid cid d s g h = tt
  result_chunk_at-Keeps (some m) mid cid d s g h = save-Indexed mid _ s (
      held mid m _ s g h (
        streamed-id cid d (
          ensure_running_tool_result r cid (call_name r (find_block "tool_call" cid m.content)) e m)
        ∙ ensure_running-id cid _ m))

  result_chunk_owned-Keeps :
      (o : Option (Option String)) (cid : String) (d : PyDict) (s : FoldState)
      → Indexed s
      → Keeps (result_chunk_owned r o cid d e s)
  result_chunk_owned-Keeps none cid d s h = tt
  result_chunk_owned-Keeps (some none) cid d s h = h
  result_chunk_owned-Keeps (some (some mid)) cid d s h =
      result_chunk_at-Keeps (get s.messages mid) mid cid d s refl h

  result_chunk-Keeps :
      (d : PyDict) (s : FoldState) → Indexed s → Keeps (append_tool_result_chunk r e d s)
  unfolding append_tool_result_chunk
  result_chunk-Keeps d s h = elim (Bool-cases (str_or r.str d "tool_call_id" "" == "")) [
    | inl f ↦ rw f h
    | inr f ↦ rw f (result_chunk_owned-Keeps (tool_owner _ s) _ d s h)
  ]

  -- `Keeps`, in a form that shows what it is about.
  data Kept : Option FoldState → Type 0 where
    raised : Kept none
    kept : {s : FoldState} → Indexed s → Kept (some s)

  kept_of : (o : Option FoldState) → Keeps o → Kept o
  kept_of none h = raised
  kept_of (some s) h = kept h

  of_kept : {o : Option FoldState} → Kept o → Keeps o
  of_kept raised = tt
  of_kept (kept h) = h

  Kept-if : (b : Bool) {o p : Option FoldState} → Kept o → Kept p → Kept (if b then o else p)
  Kept-if true h k = h
  Kept-if false h k = k

  chunk-Keeps : (d : PyDict) (s : FoldState) → Indexed s → Keeps (apply_chunk r e d s)
  unfolding apply_chunk
  chunk-Keeps d s h = of_kept (
      Kept-if _ (kept (assistant_chunk-Indexed d s h))
        (Kept-if _ (kept_of _ (result_chunk-Keeps d s h)) (kept h)))

  apply_dict-Keeps : (d : PyDict) (s : FoldState) → Indexed s → Keeps (apply_dict r e d s)
  unfolding apply_hint_message apply_call_start apply_turn_end
  apply_dict-Keeps d s h = of_kept (
      Kept-if _ (kept_of (apply_user_message r e d s) (user-Keeps r e d s h)) (
        Kept-if _ (kept_of (apply_assistant_message r e d s) (assistant-Keeps r e d s h)) (
          Kept-if _ (kept_of _ (hint-Keeps r e (some_text e.message_id) d s h)) (
            Kept-if _ (kept_of _ (compact-Keeps r e d s h)) (
              Kept-if _ (kept_of _ (call-Keeps r e (some_text e.message_id) d s h)) (
                Kept-if _ (kept_of _ (result_start-Keeps d s h)) (
                  Kept-if _ (kept_of _ (tool_result-Keeps d s h)) (
                    Kept-if _ (kept_of _ (chunk-Keeps d s h)) (
                      Kept-if _ (kept_of _ (end-Keeps (some_text e.message_id) d s h))
                        (kept h))))))))))

  odd_addressed-Kept : (o : Option String) (s : FoldState) → Indexed s → Kept (odd_addressed r o s)
  odd_addressed-Kept none s h = kept h
  odd_addressed-Kept (some mid) s h = kept_of none tt

  odd_end-Kept : (o : Option String) (s : FoldState) → Indexed s → Kept (odd_end r o s)
  odd_end-Kept none s h = kept h
  odd_end-Kept (some mid) s h = at (get s.messages mid)
    where
      at : (o : Option Msg) → Kept (odd_end_at r o s)
      at none = kept h
      at (some m) = Kept-if _ (kept_of none tt) (kept h)

  odd-Keeps : (s : FoldState) → Indexed s → Keeps (apply_odd r e s)
  odd-Keeps s h = of_kept (
      Kept-if _ (kept_of none tt) (
        Kept-if _ (odd_addressed-Kept (some_text e.message_id) s h)
          (Kept-if _ (odd_end-Kept (some_text e.message_id) s h) (kept h))))

  apply_event-Keeps : (s : FoldState) → Indexed s → Keeps (apply_event r e s)
  unfolding apply_event
  apply_event-Keeps s h = read (data_of r e.content)
    where
      read : (o : Option PyDict) → Keeps (apply_read r e o s)
      read none = odd-Keeps s h
      read (some d) = apply_dict-Keeps d s h

module _ (r : Reader) where
  fold_events-Keeps : (es : List Event) (s : FoldState) → Indexed s → Keeps (fold_events r es s)
  unfolding fold_events
  fold_events-Keeps [] s h = h
  fold_events-Keeps (e ∷ es) s h =
      Keeps->>=_kept (apply_event r e s) (fold_events r es) (apply_event-Keeps r e s h)
        (λ t k. fold_events-Keeps es t k)

  new_state-Indexed : Indexed new_state
  new_state-Indexed = record { keyed = tt; listed = refl; apart = tt }

  collected : (s : FoldState) → Indexed s → collect r s ≡ some (values s.messages)
  collected s h =
      subst (λ ks. traverse (get s.messages) ks ≡ some (values s.messages)) h.listed
        (traverse-get s.messages (subst Apart (sym h.listed) h.apart))

  -- Where folding the events raises nothing, the messages that are derived are those of the table
  -- in the order in which they first appeared, each once, under its own id.
  pub derive_messages-Indexed :
      (es : List Event) (s : FoldState)
      → fold_events r es new_state ≡ some s
      → (derive_messages r es ≡ some (values s.messages)) × Indexed s
  unfolding derive_messages
  derive_messages-Indexed es s e =
      let h : Indexed s = subst Keeps e (fold_events-Keeps es new_state new_state-Indexed) in
      (rw e (collected s h), h)
