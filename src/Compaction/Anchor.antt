-- ===== src/Compaction/Anchor.antt =====
-- packages/ftre-compaction/src/ftre_compaction/context.py: the search for the newest summary and for
-- the message that it goes through.
use ftre.Prelude.{
  String, Bool, true, false, ◌&&◌, Option, none, some, List, [], ◌∷◌, ◌++◌, if◌then◌else◌, ◌==◌,
  String_key, ◌≡◌, ◌≢◌, refl, ap, ap₂, ◌∙◌, All, Bool-cases, inl, inr, ne_==, ==_refl,
}
use ftre.Session.Message.{
  Msg, MsgName, default, compact, compact_fast, Role, user, assistant, system,
}

abbrev pub is_summary : MsgName → Bool
is_summary default = false
is_summary compact = true
is_summary compact_fast = false

abbrev pub is_user : Role → Bool
is_user user = true
is_user assistant = false
is_user system = false

-- The message that stands for a compacted past.
abbrev pub is_anchor : Msg → Bool
is_anchor m = is_user m.role && is_summary m.name

-- The last anchor, with what stands behind it.
abbrev pub anchor_here : Option (Msg × List Msg) → Msg → List Msg → Option (Msg × List Msg)
anchor_here (some later) m ms = some later
anchor_here none m ms = if is_anchor m then some (m, ms) else none

unfoldable pub last_anchor : List Msg → Option (Msg × List Msg)
last_anchor [] = none
last_anchor (m ∷ ms) = anchor_here (last_anchor ms) m ms

-- What stands behind the first message with an id.
unfoldable pub behind : String → List Msg → Option (List Msg)
behind id [] = none
behind id (m ∷ ms) = if m.id == id then some ms else behind id ms

-- The messages whose id is another.
unfoldable pub others : String → List Msg → List Msg
others id [] = []
others id (m ∷ ms) = let rest = others id ms in if m.id == id then rest else m ∷ rest

pub no_anchor : (ms : List Msg) → All (λ m. is_anchor m ≡ false) ms → last_anchor ms ≡ none
unfolding last_anchor
no_anchor [] h = refl
no_anchor (m ∷ ms) h = rw (no_anchor ms h.1, h.0) refl

pub anchor_found :
    (before : List Msg) (c : Msg) (after : List Msg)
    → is_anchor c ≡ true
    → All (λ m. is_anchor m ≡ false) after
    → last_anchor (before ++ c ∷ after) ≡ some (c, after)
unfolding last_anchor
anchor_found [] c after i a = rw (no_anchor after a, i) refl
anchor_found (m ∷ before) c after i a = rw (anchor_found before c after i a) refl

pub behind-append :
    (id : String) (before : List Msg) (t : Msg) (after : List Msg)
    → t.id ≡ id
    → All (λ (m : Msg). m.id ≢ id) before
    → behind id (before ++ t ∷ after) ≡ some after
unfolding behind
behind-append id [] t after e n = rw e (rw (==_refl id) refl)
behind-append id (m ∷ before) t after e n =
    rw (ne_== m.id id n.0) (behind-append id before t after e n.1)

pub others-all : (id : String) (ms : List Msg) → All (λ (m : Msg). m.id ≢ id) ms → others id ms ≡ ms
unfolding others
others-all id [] n = refl
others-all id (m ∷ ms) n = rw (ne_== m.id id n.0) (ap (λ ns. m ∷ ns) (others-all id ms n.1))

pub others-append :
    (id : String) (xs ys : List Msg) → others id (xs ++ ys) ≡ others id xs ++ others id ys
unfolding others
others-append id [] ys = refl
others-append id (m ∷ xs) ys = elim (Bool-cases (m.id == id)) [
  | inl e ↦ rw e (others-append id xs ys)
  | inr e ↦ rw e (ap (λ ns. m ∷ ns) (others-append id xs ys))
]

pub rest_kept :
    (between : List Msg) (c : Msg) (after : List Msg)
    → All (λ (m : Msg). m.id ≢ c.id) between
    → All (λ (m : Msg). m.id ≢ c.id) after
    → others c.id (between ++ c ∷ after) ≡ between ++ after
unfolding others
rest_kept between c after b n =
    others-append c.id between (c ∷ after)
    ∙ ap₂ (λ xs ys. xs ++ ys) (others-all c.id between b)
        (rw (==_refl c.id) (others-all c.id after n))
