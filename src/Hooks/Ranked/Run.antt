-- ===== src/Hooks/Ranked/Run.antt =====
-- The order numbers of runtime.py over events among which no fiber ends.
use ftre.Prelude.{
  ℕ, zero, suc, ◌+◌, String, ◌≡◌, ◌≢◌, refl, ap, sym, subst, ◌∙◌, Bool, true, false, Option, none,
  some, List, [], ◌∷◌, ◌==◌, ℕ_key, String_key, Bool-cases, inl, inr, arith, get_elem?, alter,
  length, if◌then◌else◌, ==_ne, All, All-map, map, get_elem?-of_map,
}
use mathlib.Core.Option.{some-injective}
use ftre.Prelude.Order.Sorted.{All-append}
use ftre.Prelude.Dict.{Dict, get, get-put}
use ftre.Hooks.{
  HookRuntime, HookSpec, HookListenerSnapshot, Registration, new_runtime, or_nobody, snapshot,
  snapshots, snapshot_of, with_snapshot,
}
use ftre.Hooks.Register.{Request, conflicts, entries_of, registration}
use ftre.Hooks.Run.{
  Event, register_call, dispose_call, lifecycle_call, invoke_call, next_call, listener_end,
  async_end, perform, perform_all,
}
use ftre.Hooks.Steady.{
  Standing, standing, Board, board, later_standing, shift_standings, board-perform,
}
use ftre.Hooks.Agreed.{IsBound, IsAgreed, listed_or}
use ftre.Hooks.Agreed.Run.{
  entered, entered_list, entered_board, board-enter, entered_found, IsAgreed-entered,
  register-cases, new_runtime-IsAgreed,
}
use ftre.Hooks.Ranked.{
  Ranked, Ranked-shift, Ranked-shift_other, Ranked-append, Ranked-append_last, remaining-all,
}

abbrev IsAlive : Standing → Type 0
IsAlive s = s.gone ≡ false

-- The registrations of each hook are numbered by their places.
record IsRanked (b : Board) : Type 0 where
  pub agreed : IsAgreed b
  pub ranked :
      (hook : String) (is : List ℕ) → get b.registrations hook ≡ some is → Ranked b.standings 0 is
  pub alive : All IsAlive b.standings

-- Registrations under different names are different.
other_names :
    (specs : Dict HookSpec) (ss : List Standing) (h k : String) (is js : List ℕ)
    → k ≢ h
    → All (IsBound specs ss h) is
    → All (IsBound specs ss k) js
    → All (λ i. All (λ j. i ≢ j) js) is
other_names specs ss h k is js n a b =
    All-map _ _
      (λ i x.
        All-map _ _
          (λ j y p.
            let same : x.entry ≡ y.entry =
              some-injective _ _ (sym x.found ∙ (ap (get_elem? ss) p ∙ y.found)) in
            n (sym y.named ∙ (ap (λ (s : Standing). s.spec.name) (sym same) ∙ x.named)))
          js b)
      is a

All-later : (ss : List Standing) (i : ℕ) → All IsAlive ss → All IsAlive (alter ss i later_standing)
All-later [] i h = tt
All-later (s ∷ ss) zero h = h
All-later (s ∷ ss) (suc i) h = (h.0, All-later ss i h.1)

All-shift :
    (is : List ℕ) (ss : List Standing) → All IsAlive ss → All IsAlive (shift_standings is ss)
All-shift [] ss h = h
All-shift (i ∷ is) ss h = All-shift is (alter ss i later_standing) (All-later ss i h)

All-entered :
    (prepend : Bool) (q : Request) (entries : List ℕ) (ss : List Standing)
    → All IsAlive ss
    → All IsAlive (entered prepend q entries ss)
All-entered true q entries ss h =
    All-append IsAlive (shift_standings entries ss) _ (All-shift entries ss h) (refl, tt)
All-entered false q entries ss h = All-append IsAlive ss _ h (refl, tt)

Ranked-or :
    (ss : List Standing) (o : Option (List ℕ))
    → ((is : List ℕ) → o ≡ some is → Ranked ss 0 is)
    → Ranked ss 0 (or_nobody o)
Ranked-or ss none h = tt
Ranked-or ss (some is) h = h is refl

-- The hook that gets the new registration.
Ranked-own :
    (prepend : Bool) (q : Request) (entries : List ℕ) (rt : HookRuntime)
    → Ranked (map standing rt.objects) 0 entries
    → Ranked
        (entered prepend q entries (map standing rt.objects))
        0
        (entered_list prepend (length rt.objects) entries)
Ranked-own true q entries rt h = (
  (standing (registration q 0), entered_found true q entries rt, refl),
  Ranked-append (shift_standings entries (map standing rt.objects)) _ 1 entries
      (Ranked-shift entries (map standing rt.objects) 0 h),
)
Ranked-own false q entries rt h =
    Ranked-append_last _ 0 entries (length rt.objects) (standing (registration q (length entries)))
      (entered_found false q entries rt) (omega arith)
      (Ranked-append (map standing rt.objects) _ 0 entries h)

Ranked-others :
    (prepend : Bool) (q : Request) (entries : List ℕ) (ss : List Standing) (is : List ℕ)
    → All (λ i. All (λ j. i ≢ j) entries) is
    → Ranked ss 0 is
    → Ranked (entered prepend q entries ss) 0 is
Ranked-others true q entries ss is a h =
    Ranked-append (shift_standings entries ss) _ 0 is (Ranked-shift_other entries ss 0 is a h)
Ranked-others false q entries ss is a h = Ranked-append ss _ 0 is h

IsRanked-entered :
    (prepend : Bool) (q : Request) (rt : HookRuntime)
    → conflicts (get rt.specs q.spec.name) q.spec ≡ false
    → IsRanked (board rt)
    → IsRanked (entered_board prepend q (entries_of q.spec.name rt) rt)
IsRanked-entered prepend q rt c h =
    let name : String = q.spec.name in
    let ss : List Standing = map standing rt.objects in
    let old : List ℕ = or_nobody (get rt.registrations name) in
    let all : entries_of name rt ≡ old = remaining-all rt.objects old h.alive in
    record {
      agreed = IsAgreed-entered prepend q rt c h.agreed;
      ranked = λ hook is e.
          subst (λ entries. Ranked (entered prepend q entries ss) 0 is) (sym all)
            (elim (Bool-cases (name == hook)) [
              | inl m ↦
                  subst (Ranked (entered prepend q old ss) 0) (own hook is e all m)
                    (Ranked-own prepend q old rt (Ranked-or ss _ (λ js g. h.ranked name js g)))
              | inr m ↦
                  Ranked-others prepend q old ss is
                    (other_names rt.specs ss hook name is old (==_ne name hook m)
                      (h.agreed.listed hook is (others hook is e m))
                      (listed_or (get rt.registrations name) (λ js g. h.agreed.listed name js g)))
                    (h.ranked hook is (others hook is e m))
            ]);
      alive = All-entered prepend q (entries_of name rt) ss h.alive;
    }
  where
    read_back :
        (hook : String)
        → get (entered_board prepend q (entries_of q.spec.name rt) rt).registrations hook ≡ (
            if q.spec.name == hook
            then some (entered_list prepend (length rt.objects) (entries_of q.spec.name rt))
            else get rt.registrations hook)
    read_back hook = get-put q.spec.name hook _ rt.registrations

    own :
        (hook : String) (is : List ℕ)
        → get (entered_board prepend q (entries_of q.spec.name rt) rt).registrations hook ≡ some is
        → entries_of q.spec.name rt ≡ or_nobody (get rt.registrations q.spec.name)
        → (q.spec.name == hook) ≡ true
        → entered_list prepend (length rt.objects) (or_nobody (get rt.registrations q.spec.name))
          ≡ is
    own hook is e all m =
        ap (entered_list prepend (length rt.objects)) (sym all)
        ∙ some-injective _ _ (sym (read_back hook ∙ rw m refl) ∙ e)

    others :
        (hook : String) (is : List ℕ)
        → get (entered_board prepend q (entries_of q.spec.name rt) rt).registrations hook ≡ some is
        → (q.spec.name == hook) ≡ false
        → get rt.registrations hook ≡ some is
    others hook is e m = sym (read_back hook ∙ rw m refl) ∙ e

-- No fiber ends.
abbrev pub spares_fibers : Event → Bool
spares_fibers (register_call q) = true
spares_fibers (dispose_call i) = true
spares_fibers (lifecycle_call i) = false
spares_fibers (invoke_call i has_next) = true
spares_fibers (next_call k) = true
spares_fibers (listener_end k o) = true
spares_fibers (async_end k e) = true

module _ (blank : String → Bool) where
  IsRanked-perform :
      (e : Event) (rt : HookRuntime)
      → spares_fibers e ≡ true
      → IsRanked (board rt)
      → IsRanked (board (perform blank e rt))
  unfolding perform
  IsRanked-perform (register_call q) rt s h =
      register-cases blank (λ t. IsRanked (board t)) q rt h
        (λ c.
          subst IsRanked (sym (board-enter q.prepend q (entries_of q.spec.name rt) rt))
            (IsRanked-entered q.prepend q rt c h))
  IsRanked-perform (lifecycle_call i) rt s h = cc
  IsRanked-perform (dispose_call i) rt s h =
      subst IsRanked (sym (board-perform blank (dispose_call i) rt refl)) h
  IsRanked-perform (invoke_call i n) rt s h =
      subst IsRanked (sym (board-perform blank (invoke_call i n) rt refl)) h
  IsRanked-perform (next_call k) rt s h =
      subst IsRanked (sym (board-perform blank (next_call k) rt refl)) h
  IsRanked-perform (listener_end k o) rt s h =
      subst IsRanked (sym (board-perform blank (listener_end k o) rt refl)) h
  IsRanked-perform (async_end k e) rt s h =
      subst IsRanked (sym (board-perform blank (async_end k e) rt refl)) h

  perform_all-IsRanked :
      (es : List Event) (rt : HookRuntime)
      → All (λ e. spares_fibers e ≡ true) es
      → IsRanked (board rt)
      → IsRanked (board (perform_all blank es rt))
  unfolding perform_all
  perform_all-IsRanked [] rt s h = h
  perform_all-IsRanked (e ∷ es) rt s h =
      perform_all-IsRanked es (perform blank e rt) s.1 (IsRanked-perform e rt s.0 h)

  new_runtime-IsRanked : IsRanked (board new_runtime)
  unfolding new_runtime get
  new_runtime-IsRanked = record {
    agreed = new_runtime-IsAgreed blank;
    ranked = λ hook is e. cc;
    alive = tt;
  }

  ordered :
      (objects : List Registration) (is : List ℕ) (n k : ℕ) (s : HookListenerSnapshot)
      → Ranked (map standing objects) n is
      → get_elem? (snapshots objects is) k ≡ some s
      → s.listener_order ≡ n + k
  ordered objects [] n k s h e = cc
  ordered objects (i ∷ is) n k s h e =
      let o = get_elem?-of_map standing objects i h.0.0 h.0.1 in
      let first : o.0.order ≡ n = ap Standing.order (sym o.2) ∙ h.0.2 in
      let shown : get_elem? (snapshot_of o.0 ∷ snapshots objects is) k ≡ some s =
        sym (ap (λ r. get_elem? (with_snapshot r (snapshots objects is)) k) o.1) ∙ e in
      at o.0 k first (λ j g. ordered objects is (suc n) j s h.1 g) shown
    where
      at :
          (r : Registration) (k : ℕ)
          → r.order ≡ n
          → ((j : ℕ) → get_elem? (snapshots objects is) j ≡ some s → s.listener_order ≡ suc n + j)
          → get_elem? (snapshot_of r ∷ snapshots objects is) k ≡ some s
          → s.listener_order ≡ n + k
      at r zero first later e =
          omega (arith, first, ap HookListenerSnapshot.listener_order (some-injective _ _ e))
      at r (suc k) first later e = omega (arith, later k e)

  -- Whatever happened to a runtime, as long as no fiber has ended: the k-th listener that a
  -- snapshot of a hook lists has the order k, listeners that were put first included.
  pub snapshot-Ranked :
      (es : List Event) (hook : String) (k : ℕ) (s : HookListenerSnapshot)
      → All (λ e. spares_fibers e ≡ true) es
      → get_elem? (snapshot (some hook) (perform_all blank es new_runtime)) k ≡ some s
      → s.listener_order ≡ k
  unfolding snapshot
  snapshot-Ranked es hook k s sp e =
      let rt : HookRuntime = perform_all blank es new_runtime in
      let h : IsRanked (board rt) = perform_all-IsRanked es new_runtime sp new_runtime-IsRanked in
      let rows : List ℕ = or_nobody (get rt.registrations hook) in
      ordered rt.objects rows 0 k s
        (Ranked-or (map standing rt.objects) _ (λ is g. h.ranked hook is g)) e
      ∙ omega arith
