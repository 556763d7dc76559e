-- ===== src/Session/Derive/Order/Steps.antt =====
-- The events of derive.py, one by one, on a table whose list of ids is right.
use ftre.Prelude.{
  String, ◌≡◌, refl, ◌∙◌, Option, none, some, List, [], ◌∷◌, ◌==◌, String_key, if◌then◌else◌,
  ==_refl,
}
use ftre.Prelude.Dict.{get, get-put}
use ftre.Session.Value.{PyDict, field}
use ftre.Session.Log.{Event}
use ftre.Session.Message.{Msg, ContentBlock, find_block, Role, user, assistant, system}
use ftre.Session.Derive.{
  Reader, str_or, FoldState, touch, insert, empty_assistant, ensured, ensure_assistant, sealed,
  seal_at, seal_found, seal_in, seal_previous_assistant, reversed,
}
use ftre.Session.Derive.Content.{normalize_user_content, optional_text}
use ftre.Session.Derive.Messages.{
  apply_user_message, apply_assistant_message, hinted, hint_for, hint_value, apply_compact_message,
  fast_message, summary_message,
}
use ftre.Session.Derive.Tools.{called, call_for}
use ftre.Session.Derive.Order.{
  Indexed, Keeps, Keeps->>=, Keeps->>=_kept, insert-Indexed, IsHeld, save-Indexed, id_of_found,
}

-- A message of the table that is changed, its id kept.
pub held :
    (mid : String) (m n : Msg) (s : FoldState)
    → get s.messages mid ≡ some m
    → Indexed s
    → n.id ≡ m.id
    → IsHeld mid n s
held mid m n s e h same = record {
  kept = h;
  there = (m, e);
  named = same ∙ id_of_found s.messages s.order h mid m e;
}

-- The same one, changed again.
pub IsHeld-again :
    (mid : String) (m n : Msg) (s : FoldState) → IsHeld mid m s → n.id ≡ m.id → IsHeld mid n s
IsHeld-again mid m n s h same = record { kept = h.kept; there = h.there; named = same ∙ h.named }

module _ (r : Reader) (e : Event) where
  ensured-IsHeld :
      (mid : String) (o : Option Msg) (s : FoldState)
      → get s.messages mid ≡ o
      → Indexed s
      → IsHeld mid (ensured r o mid e s).0 (ensured r o mid e s).1
  unfolding insert
  ensured-IsHeld mid none s g h = record {
    kept = insert-Indexed _ s h;
    there = (
      empty_assistant r mid e,
      get-put mid mid (empty_assistant r mid e) s.messages ∙ rw (==_refl mid),
    );
    named = refl;
  }
  ensured-IsHeld mid (some m) s g h = record {
    kept = save-Indexed mid (touch e m) s (held mid m (touch e m) s g h refl);
    there = (touch e m, get-put mid mid (touch e m) s.messages ∙ rw (==_refl mid));
    named = id_of_found s.messages s.order h mid m g;
  }

  sealed-id : (o : Option String) (m : Msg) → (sealed r o e m).id ≡ m.id
  sealed-id none m = refl
  sealed-id (some t) m = refl

  seal_at-Keeps :
      (role : Role) (mid : String) (m : Msg) (s : FoldState) (rest : Option FoldState)
      → get s.messages mid ≡ some m
      → Indexed s
      → Keeps rest
      → Keeps (seal_at r role mid e m s rest)
  seal_at-Keeps assistant mid m s rest g h k =
      save-Indexed mid _ s (held mid m _ s g h (sealed-id m.finished_at m))
  seal_at-Keeps user mid m s rest g h k = h
  seal_at-Keeps system mid m s rest g h k = k

  seal_found-Keeps :
      (o : Option Msg) (mid : String) (s : FoldState) (rest : Option FoldState)
      → get s.messages mid ≡ o
      → Indexed s
      → Keeps rest
      → Keeps (seal_found r o mid e s rest)
  seal_found-Keeps none mid s rest g h k = tt
  seal_found-Keeps (some m) mid s rest g h k = seal_at-Keeps m.role mid m s rest g h k

  seal_in-Keeps : (ids : List String) (s : FoldState) → Indexed s → Keeps (seal_in r ids e s)
  unfolding seal_in
  seal_in-Keeps [] s h = h
  seal_in-Keeps (mid ∷ ids) s h =
      seal_found-Keeps (get s.messages mid) mid s (seal_in r ids e s) refl h (seal_in-Keeps ids s h)

  seal-Keeps : (s : FoldState) → Indexed s → Keeps (seal_previous_assistant r e s)
  unfolding seal_previous_assistant
  seal-Keeps s h = seal_in-Keeps (reversed s.order) s h

  pub user-Keeps : (d : PyDict) (s : FoldState) → Indexed s → Keeps (apply_user_message r e d s)
  unfolding apply_user_message
  user-Keeps d s h = Keeps->>=_kept (seal_previous_assistant r e s) _ (seal-Keeps s h) (λ closed k.
      Keeps->>= (normalize_user_content r _ _ _) _
        (λ content. Keeps->>= (r.as_dict _) _ (λ metadata. insert-Indexed _ closed k)))

  pub assistant-Keeps :
      (d : PyDict) (s : FoldState) → Indexed s → Keeps (apply_assistant_message r e d s)
  unfolding apply_assistant_message
  assistant-Keeps d s h = Keeps->>= (r.validate_msg _) _ (λ m. insert-Indexed _ s h)

  pub compact-Keeps :
      (d : PyDict) (s : FoldState) → Indexed s → Keeps (apply_compact_message r e d s)
  unfolding apply_compact_message
  compact-Keeps d s h =
      Keeps->>=_kept (seal_previous_assistant r e s) _ (seal-Keeps s h) (λ closed k.
        Keeps->>=
          (if str_or r.str d "mode" "summary" == "fast"
            then fast_message r e d
            else some (summary_message r e d))
          _ (λ m. insert-Indexed m closed k))

  pub ensure-IsHeld :
      (mid : String) (s : FoldState)
      → Indexed s
      → IsHeld mid (ensure_assistant r mid e s).0 (ensure_assistant r mid e s).1
  unfolding ensure_assistant
  ensure-IsHeld mid s h = ensured-IsHeld mid (get s.messages mid) s refl h

  hinted-Keeps :
      (d : PyDict) (p : Msg × FoldState) (mid : String)
      → IsHeld mid p.0 p.1
      → Keeps (hinted r e d p mid)
  hinted-Keeps d (m, s) mid h = Keeps->>= (hint_value r (field d "hint")) _ (λ hint.
      Keeps->>= (optional_text (field d "source")) _
        (λ source. save-Indexed mid _ s (IsHeld-again mid m _ s h refl)))

  pub hint-Keeps :
      (o : Option String) (d : PyDict) (s : FoldState) → Indexed s → Keeps (hint_for r o e d s)
  hint-Keeps none d s h = h
  hint-Keeps (some mid) d s h =
      hinted-Keeps d (ensure_assistant r mid e s) mid (ensure-IsHeld mid s h)

  called-Keeps :
      (o : Option ContentBlock) (cid mid : String) (d : PyDict) (m : Msg) (s : FoldState)
      → IsHeld mid m s
      → Keeps (called r o cid mid e d (m, s))
  called-Keeps (some b) cid mid d m s h = h.kept
  called-Keeps none cid mid d m s h =
      Keeps->>= (r.as_dict _) _ (λ arguments. save-Indexed mid _ s (IsHeld-again mid m _ s h refl))

  pub call-Keeps :
      (o : Option String) (d : PyDict) (s : FoldState) → Indexed s → Keeps (call_for r o e d s)
  call-Keeps none d s h = h
  call-Keeps (some mid) d s h =
      called-Keeps (find_block "tool_call" _ (ensure_assistant r mid e s).0.content) _ mid d
        (ensure_assistant r mid e s).0 (ensure_assistant r mid e s).1 (ensure-IsHeld mid s h)
