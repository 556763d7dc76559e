-- ===== src/Hooks/Agreed/Run.antt =====
-- The contracts of runtime.py over any sequence of events, and what a dispatch meets.
use ftre.Prelude.{
  ℕ, String, ◌≡◌, refl, ap, sym, subst, ◌∙◌, Bool, true, false, not, Option, some, List, [], ◌∷◌,
  ◌++◌, ℕ_key, String_key, Bool-cases, inl, inr, get_elem?, alter, length, if◌then◌else◌, if-elim,
  ==_refl, All, All-map, map, map-append, length-map, length-alter, get_elem?-append_last,
  get_elem?-of_map,
}
use ftre.Prelude.Order.Sorted.{All-append}
use ftre.Prelude.Dict.{Dict, get, put, get-put}
use ftre.Hooks.{HookRuntime, HookSpec, Registration, conflicting_spec, new_runtime, or_nobody}
use ftre.Hooks.Register.{
  refused as refused_registration, Request, Registered, needs_context, conflicts, register,
  enter_at, entries_of, registration, shift,
}
use ftre.Hooks.Dispatch.{Dispatched, refused, asks, dispatch, validate_spec}
use ftre.Hooks.Run.{
  Event, register_call, dispose_call, lifecycle_call, invoke_call, next_call, listener_end,
  async_end, perform, perform_all,
}
use ftre.Hooks.Steady.{
  Standing, standing, Board, board, later_standing, gone_standing, shift_standings, map-shift,
  board-perform, board-lifecycle,
}
use ftre.Hooks.Agreed.{
  IsBound, IsAgreed, IsExtended, IsExtended-alter, IsExtended-trans, IsExtended-shift,
  IsExtended-append, IsBound-extended, IsBound-put, All-remaining, listed_or, IsAgreed-put,
  no_conflict,
}

-- The standings behind a registration.
abbrev pub entered : Bool → Request → List ℕ → List Standing → List Standing
entered true q entries ss = shift_standings entries ss ++ standing (registration q 0) ∷ []
entered false q entries ss = ss ++ standing (registration q (length entries)) ∷ []

abbrev pub entered_list : Bool → ℕ → List ℕ → List ℕ
entered_list true i entries = i ∷ entries
entered_list false i entries = entries ++ i ∷ []

abbrev pub entered_board : Bool → Request → List ℕ → HookRuntime → Board
entered_board prepend q entries rt = record {
  specs = put rt.specs q.spec.name q.spec;
  registrations =
      put rt.registrations q.spec.name (entered_list prepend (length rt.objects) entries);
  standings = entered prepend q entries (map standing rt.objects);
}

pub board-enter :
    (prepend : Bool) (q : Request) (entries : List ℕ) (rt : HookRuntime)
    → board (enter_at prepend q entries rt).1 ≡ entered_board prepend q entries rt
board-enter true q entries rt =
    ap
      (λ ss. record {
        specs = put rt.specs q.spec.name q.spec;
        registrations = put rt.registrations q.spec.name (length rt.objects ∷ entries);
        standings = ss;
      })
      (map-append standing (shift entries rt.objects) _
        ∙ ap (λ ss. ss ++ standing (registration q 0) ∷ []) (map-shift entries rt.objects))
board-enter false q entries rt =
    ap
      (λ ss. record {
        specs = put rt.specs q.spec.name q.spec;
        registrations = put rt.registrations q.spec.name (entries ++ length rt.objects ∷ []);
        standings = ss;
      })
      (map-append standing rt.objects _)

length-shift_standings :
    (is : List ℕ) (ss : List Standing) → length (shift_standings is ss) ≡ length ss
length-shift_standings [] ss = refl
length-shift_standings (i ∷ is) ss =
    length-shift_standings is (alter ss i later_standing) ∙ length-alter ss i later_standing

-- The new registration is found at its number.
pub entered_last :
    (ss : List Standing) (n : ℕ) (s : Standing)
    → length ss ≡ n
    → get_elem? (ss ++ s ∷ []) n ≡ some s
entered_last ss n s e =
    subst (λ k. get_elem? (ss ++ s ∷ []) k ≡ some s) e (get_elem?-append_last ss s)

pub entered_found :
    (prepend : Bool) (q : Request) (entries : List ℕ) (rt : HookRuntime)
    → get_elem? (entered prepend q entries (map standing rt.objects)) (length rt.objects)
      ≡ some (standing (registration q (if prepend then 0 else length entries)))
entered_found true q entries rt =
    entered_last _ (length rt.objects) _
      (length-shift_standings entries (map standing rt.objects) ∙ length-map rt.objects standing)
entered_found false q entries rt =
    entered_last _ (length rt.objects) _ (length-map rt.objects standing)

IsExtended-entered :
    (prepend : Bool) (q : Request) (entries : List ℕ) (ss : List Standing)
    → IsExtended ss (entered prepend q entries ss)
IsExtended-entered true q entries ss =
    IsExtended-trans ss (shift_standings entries ss) _ (IsExtended-shift entries ss)
      (IsExtended-append (shift_standings entries ss) _)
IsExtended-entered false q entries ss = IsExtended-append ss _

All-entered_list :
    (P : ℕ → Type 0) (prepend : Bool) (i : ℕ) (is : List ℕ)
    → P i
    → All P is
    → All P (entered_list prepend i is)
All-entered_list P true i is p h = (p, h)
All-entered_list P false i is p h = All-append P is (i ∷ []) h (p, tt)

get-put_same {ℓ} : {V : Type ℓ} (k : String) (v : V) (d : Dict V) → get (put d k v) k ≡ some v
get-put_same k v d = get-put k k v d ∙ rw (==_refl k)

pub IsAgreed-entered :
    (prepend : Bool) (q : Request) (rt : HookRuntime)
    → conflicts (get rt.specs q.spec.name) q.spec ≡ false
    → IsAgreed (board rt)
    → IsAgreed (entered_board prepend q (entries_of q.spec.name rt) rt)
IsAgreed-entered prepend q rt c h =
    let ss : List Standing = map standing rt.objects in
    let entries : List ℕ = entries_of q.spec.name rt in
    let ts : List Standing = entered prepend q entries ss in
    let x : IsExtended ss ts = IsExtended-entered prepend q entries ss in
    IsAgreed-put (board rt) q.spec (entered_list prepend (length rt.objects) entries) ts c x
      (All-entered_list (IsBound (put rt.specs q.spec.name q.spec) ts q.spec.name) prepend
        (length rt.objects) entries
        (record {
          entry = standing (registration q (if prepend then 0 else length entries));
          found = entered_found prepend q entries rt;
          agrees = get-put_same q.spec.name q.spec rt.specs;
          named = refl;
        })
        (All-map _ _
          (λ i k.
            IsBound-extended (put rt.specs q.spec.name q.spec) ss ts q.spec.name i x
              (IsBound-put rt.specs ss q.spec q.spec.name i c k))
          entries
          (All-remaining (IsBound rt.specs ss q.spec.name) rt.objects
            (or_nobody (get rt.registrations q.spec.name))
            (listed_or (get rt.registrations q.spec.name) (λ is e. h.listed q.spec.name is e)))))
      h

IsAgreed-lifecycle :
    (i : ℕ) (b : Board)
    → IsAgreed b
    → IsAgreed (record b { standings = alter b.standings i gone_standing })
IsAgreed-lifecycle i b h = record {
  listed = λ hook is e.
      All-map _ _
        (λ j k.
          IsBound-extended b.specs b.standings _ hook j
            (IsExtended-alter b.standings i gone_standing (λ s. refl)) k)
        is (h.listed hook is e);
}

module _ (blank : String → Bool) where
  -- What every registration, every end of a fiber and nothing else keeps.
  pub register-cases :
      (P : HookRuntime → Type 0) (q : Request) (rt : HookRuntime)
      → P rt
      → (conflicts (get rt.specs q.spec.name) q.spec ≡ false
          → P (enter_at q.prepend q (entries_of q.spec.name rt) rt).1)
      → P (register blank q rt).1
  unfolding register
  register-cases P q rt h k =
      let Q : Registered × HookRuntime → Type 0 = λ p. P p.1 in
      if-elim Q (blank q.owner) h (
        if-elim Q (not q.callable) h (
          if-elim Q (needs_context q.spec.scope q.context q.all_agent_scopes) h
            (elim (Bool-cases (conflicts (get rt.specs q.spec.name) q.spec)) [
              | inl m ↦
                  subst
                    (λ b. Q (
                      if b
                      then (refused_registration conflicting_spec, rt)
                      else enter_at q.prepend q (entries_of q.spec.name rt) rt))
                    (sym m) h
              | inr m ↦
                  subst
                    (λ b. Q (
                      if b
                      then (refused_registration conflicting_spec, rt)
                      else enter_at q.prepend q (entries_of q.spec.name rt) rt))
                    (sym m) (k m)
            ])))

  IsAgreed-perform :
      (e : Event) (rt : HookRuntime) → IsAgreed (board rt) → IsAgreed (board (perform blank e rt))
  unfolding perform
  IsAgreed-perform (register_call q) rt h =
      register-cases (λ s. IsAgreed (board s)) q rt h
        (λ c.
          subst IsAgreed (sym (board-enter q.prepend q (entries_of q.spec.name rt) rt))
            (IsAgreed-entered q.prepend q rt c h))
  IsAgreed-perform (lifecycle_call i) rt h =
      subst IsAgreed (sym (board-lifecycle i rt)) (IsAgreed-lifecycle i (board rt) h)
  IsAgreed-perform (dispose_call i) rt h =
      subst IsAgreed (sym (board-perform blank (dispose_call i) rt refl)) h
  IsAgreed-perform (invoke_call i n) rt h =
      subst IsAgreed (sym (board-perform blank (invoke_call i n) rt refl)) h
  IsAgreed-perform (next_call k) rt h =
      subst IsAgreed (sym (board-perform blank (next_call k) rt refl)) h
  IsAgreed-perform (listener_end k o) rt h =
      subst IsAgreed (sym (board-perform blank (listener_end k o) rt refl)) h
  IsAgreed-perform (async_end k e) rt h =
      subst IsAgreed (sym (board-perform blank (async_end k e) rt refl)) h

  pub perform_all-IsAgreed :
      (es : List Event) (rt : HookRuntime)
      → IsAgreed (board rt)
      → IsAgreed (board (perform_all blank es rt))
  unfolding perform_all
  perform_all-IsAgreed [] rt h = h
  perform_all-IsAgreed (e ∷ es) rt h =
      perform_all-IsAgreed es (perform blank e rt) (IsAgreed-perform e rt h)

  pub new_runtime-IsAgreed : IsAgreed (board new_runtime)
  unfolding new_runtime get
  new_runtime-IsAgreed = record { listed = λ hook is e. cc }

module _ {V : Type 0} (is_instance : V → ℕ → Bool) where
  -- What is dispatched is no conflict.
  asks-conflicts :
      (s : HookSpec) (v : V) (context : Option ℕ) (rt : HookRuntime) (d : Dispatched V)
      → dispatch is_instance s v context rt ≡ asks d
      → conflicts (get rt.specs s.name) s ≡ false
  unfolding dispatch validate_spec
  asks-conflicts s v context rt d e = elim (Bool-cases (conflicts (get rt.specs s.name) s)) [
    | inl m ↦ let bad : refused conflicting_spec ≡ asks d = sym (rw m refl) ∙ e in cc
    | inr m ↦ m
  ]

  -- Whatever happened to a runtime: where a dispatch comes to the call of Cordis, every listener
  -- that is registered under the hook's name was registered with this very contract.
  pub dispatch-Agreed :
      (blank : String → Bool) (es : List Event) (s : HookSpec) (v : V) (context : Option ℕ)
      (d : Dispatched V)
      → dispatch is_instance s v context (perform_all blank es new_runtime) ≡ asks d
      → All
          (λ i.
            (r : Registration) × (get_elem? (perform_all blank es new_runtime).objects i ≡ some r)
            × (r.spec ≡ s))
          (or_nobody (get (perform_all blank es new_runtime).registrations s.name))
  dispatch-Agreed blank es s v context d e =
      let rt : HookRuntime = perform_all blank es new_runtime in
      let h : IsAgreed (board rt) =
        perform_all-IsAgreed blank es new_runtime (new_runtime-IsAgreed blank) in
      listed_or (get rt.registrations s.name) (λ is g.
        All-map _ _
          (λ i b.
            let o = get_elem?-of_map standing rt.objects i b.entry b.found in
            (
              o.0,
              o.1,
              sym (ap Standing.spec o.2)
                  ∙ no_conflict (get rt.specs s.name) s b.entry.spec b.agrees
                      (asks-conflicts s v context rt d e),
            ))
          is (h.listed s.name is g))
