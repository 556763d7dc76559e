-- ===== src/Hooks/Agreed.antt =====
-- The contracts under which listeners are registered in runtime.py.
pub mod Run
use ftre.Prelude.{
  ℕ, suc, String, ◌≡◌, ◌≢◌, refl, ap, sym, subst, ◌∙◌, Bool, true, false, not, Option, none, some,
  List, [], ◌∷◌, ◌++◌, ◌==◌, ℕ_key, String_key, Bool-cases, Option-cases, inl, inr, arith,
  get_elem?, alter, length, if◌then◌else◌, if-elim, ==_eq, ==_ne, ==_refl, All, All-map, map,
  map-append, length-map, get_elem?-alter, length-alter, get_elem?-alter_other,
  get_elem?-append_last, get_elem?-append_some, get_elem?-of_map, nat_beq_iff,
}
use mathlib.Core.Option.{some-injective}
use ftre.Prelude.Dict.{Dict, get, put, get-put}
use ftre.Hooks.{
  HookRuntime, HookSpec, Registration, Raised, conflicting_spec, new_runtime, or_nobody,
}
use ftre.Hooks.Spec.{same_spec-eq}
use ftre.Hooks.Register.{
  refused as refused_registration, Request, Registered, needs_context, conflicts, same_spec,
  register, enter_at, entries_of, remaining, is_gone, registration, shift,
}
use ftre.Hooks.Dispatch.{
  Dispatched, Started, refused, asks, dispatch, started, validate_spec, validate_payload,
}
use ftre.Hooks.Run.{
  Event, register_call, dispose_call, lifecycle_call, invoke_call, next_call, listener_end,
  async_end, perform, perform_all,
}
use ftre.Hooks.Steady.{
  Standing, standing, Board, board, later_standing, gone_standing, shift_standings, map-shift,
  is_steady, board-perform, board-lifecycle,
}

-- A number stands for a registration under the contract of its hook.
pub record IsBound (specs : Dict HookSpec) (ss : List Standing) (hook : String) (i : ℕ)
    : Type 0 where
  pub entry : Standing
  pub found : get_elem? ss i ≡ some entry
  pub agrees : get specs hook ≡ some entry.spec
  pub named : entry.spec.name ≡ hook

pub record IsAgreed (b : Board) : Type 0 where
  pub listed :
      (hook : String) (is : List ℕ)
      → get b.registrations hook ≡ some is
      → All (IsBound b.specs b.standings hook) is

-- No registration is lost and none changes its contract.
pub record IsExtended (ss ts : List Standing) : Type 0 where
  pub still :
      (i : ℕ) (s : Standing)
      → get_elem? ss i ≡ some s
      → (t : Standing) × (get_elem? ts i ≡ some t) × (t.spec ≡ s.spec)

pub IsExtended-refl : (ss : List Standing) → IsExtended ss ss
IsExtended-refl ss = record { still = λ i s e. (s, e, refl) }

pub IsExtended-trans :
    (ss ts us : List Standing) → IsExtended ss ts → IsExtended ts us → IsExtended ss us
IsExtended-trans ss ts us h k = record {
  still = λ i s e. let a = h.still i s e in let b = k.still i a.0 a.1 in (b.0, b.1, b.2 ∙ a.2);
}

pub IsExtended-alter :
    (ss : List Standing) (i : ℕ) (f : Standing → Standing)
    → ((s : Standing) → (f s).spec ≡ s.spec)
    → IsExtended ss (alter ss i f)
IsExtended-alter ss i f same = record {
  still = λ j s e. elim (Bool-cases (i == j)) [
    | inl m ↦
        let p : i ≡ j = (nat_beq_iff i j).0 m in
        (
          f s,
          subst (λ k. get_elem? (alter ss i f) k ≡ some (f s)) p
              (get_elem?-alter ss i f s (subst (λ k. get_elem? ss k ≡ some s) (sym p) e)),
          same s,
        )
    | inr m ↦ (s, get_elem?-alter_other ss i j f (λ p. cc ((nat_beq_iff i j).1 p)) ∙ e, refl)
  ];
}

pub IsExtended-shift : (is : List ℕ) (ss : List Standing) → IsExtended ss (shift_standings is ss)
IsExtended-shift [] ss = IsExtended-refl ss
IsExtended-shift (i ∷ is) ss =
    IsExtended-trans ss (alter ss i later_standing) _
      (IsExtended-alter ss i later_standing (λ s. refl))
      (IsExtended-shift is (alter ss i later_standing))

pub IsExtended-append : (ss ts : List Standing) → IsExtended ss (ss ++ ts)
IsExtended-append ss ts = record { still = λ i s e. (s, get_elem?-append_some ss ts i s e, refl) }

pub IsBound-extended :
    (specs : Dict HookSpec) (ss ts : List Standing) (hook : String) (i : ℕ)
    → IsExtended ss ts
    → IsBound specs ss hook i
    → IsBound specs ts hook i
IsBound-extended specs ss ts hook i h b =
    let t = h.still i b.entry b.found in
    record {
      entry = t.0;
      found = t.1;
      agrees = b.agrees ∙ ap some (sym t.2);
      named = ap HookSpec.name t.2 ∙ b.named;
    }

-- What was registered before under the name is the same contract.
pub no_conflict :
    (o : Option HookSpec) (s p : HookSpec) → o ≡ some p → conflicts o s ≡ false → p ≡ s
no_conflict none s p e h = cc
no_conflict (some r) s p e h = elim (Bool-cases (same_spec r s)) [
  | inl m ↦ sym (some-injective _ _ e) ∙ same_spec-eq r s m
  | inr m ↦ let bad : true ≡ false = sym (rw m refl) ∙ h in cc
]

pub IsBound-put :
    (specs : Dict HookSpec) (ss : List Standing) (s : HookSpec) (hook : String) (i : ℕ)
    → conflicts (get specs s.name) s ≡ false
    → IsBound specs ss hook i
    → IsBound (put specs s.name s) ss hook i
IsBound-put specs ss s hook i c b = record {
  entry = b.entry;
  found = b.found;
  agrees = get-put s.name hook s specs ∙ elim (Bool-cases (s.name == hook)) [
    | inl m ↦
        let here : get specs s.name ≡ some b.entry.spec =
          ap (get specs) (==_eq s.name hook m) ∙ b.agrees in
        rw m (ap some (sym (no_conflict (get specs s.name) s b.entry.spec here c)))
    | inr m ↦ rw m b.agrees
  ];
  named = b.named;
}

pub All-remaining {ℓ} :
    (P : ℕ → Type ℓ) (objects : List Registration) (is : List ℕ)
    → All P is
    → All P (remaining objects is)
All-remaining P objects [] h = tt
All-remaining P objects (i ∷ is) h =
    if-elim (All P) (is_gone (get_elem? objects i)) (All-remaining P objects is h.1)
      (h.0, All-remaining P objects is h.1)

pub listed_or :
    (o : Option (List ℕ)) {P : ℕ → Type 0}
    → ((is : List ℕ) → o ≡ some is → All P is)
    → All P (or_nobody o)
listed_or none h = tt
listed_or (some is) h = h is refl

pub IsAgreed-put :
    (b : Board) (s : HookSpec) (is : List ℕ) (ts : List Standing)
    → conflicts (get b.specs s.name) s ≡ false
    → IsExtended b.standings ts
    → All (IsBound (put b.specs s.name s) ts s.name) is
    → IsAgreed b
    → IsAgreed (record {
      specs = put b.specs s.name s;
      registrations = put b.registrations s.name is;
      standings = ts;
    })
IsAgreed-put b s is ts c x a h = record {
  listed = λ hook js e.
      let found : (if s.name == hook then some is else get b.registrations hook) ≡ some js =
        sym (get-put s.name hook is b.registrations) ∙ e in
      elim (Bool-cases (s.name == hook)) [
        | inl m ↦
            let same : is ≡ js = some-injective _ _ (sym (rw m refl) ∙ found) in
            subst (λ k. All (IsBound (put b.specs s.name s) ts k) js) (==_eq s.name hook m)
              (subst (All (IsBound (put b.specs s.name s) ts s.name)) same a)
        | inr m ↦
            All-map _ _
              (λ i k.
                IsBound-extended (put b.specs s.name s) b.standings ts hook i x
                  (IsBound-put b.specs b.standings s hook i c k))
              js (h.listed hook js (sym (rw m refl) ∙ found))
      ];
}
