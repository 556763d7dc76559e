-- ===== src/Registry/History.antt =====
-- Sequences of calls of the registry of registry.py.
use ftre.Prelude.{
  ℕ, ◌<◌, ◌≤◌, suc, String, ◌≡◌, ◌≢◌, refl, sym, subst, ◌∙◌, Bool, false, Option, none, some, List,
  [], ◌∷◌, ◌==◌, String_key, arith, Bool-cases, inl, inr, ==_ne,
}
use ftre.Prelude.Dict.{get, put, remove, get-remove}
use ftre.Registry.{
  AgentRecord, Registry, register, registered, ensure, ensured, set_state, state_set, dispose,
}
use ftre.Registry.Identity.{IsUnique, IsUnique-put, IsUnique-registered, read}

pub data Call : Type 0 where
  register_call ensure_call state_call : (agent state : String) → Call
  dispose_call : (agent : String) → Call

-- An identity that was made and that no agent has any more.
pub record IsDead (x : ℕ) (reg : Registry) : Type 0 where
  pub made_before : x < reg.made
  pub gone : (b : String) (q : AgentRecord) → get reg.records b ≡ some q → q.identity ≢ x

-- After a removal only old records are found.
still_there :
    (a b : String) (q : AgentRecord) (reg : Registry)
    → get (remove reg.records a) b ≡ some q
    → (a == b) ≡ false × get reg.records b ≡ some q
still_there a b q reg e = elim (Bool-cases (a == b)) [
  | inl m ↦ let lost : get (remove reg.records a) b ≡ none = get-remove a b reg.records ∙ rw m in cc
  | inr m ↦ (m, sym (get-remove a b reg.records ∙ rw m) ∙ e)
]

IsUnique-remove :
    (a : String) (reg : Registry)
    → IsUnique reg
    → IsUnique (record reg { records = remove reg.records a })
IsUnique-remove a reg u = record {
  own = λ b q e. u.own b q (still_there a b q reg e).1;
  past = λ b q e. u.past b q (still_there a b q reg e).1;
  single = λ b c q p e f. u.single b c q p (still_there a b q reg e).1 (still_there a c p reg f).1;
}

IsDead-put :
    (x made : ℕ) (a : String) (r : AgentRecord) (reg : Registry)
    → IsDead x reg
    → reg.made ≤ made
    → r.identity ≢ x
    → IsDead x (record { records = put reg.records a r; made = made })
IsDead-put x made a r reg h le ne = record {
  made_before = omega (arith, h.made_before, le);
  gone = λ b q e. elim (read reg.records a r b q e) [
    | inl (m, w) ↦ subst (λ (y : AgentRecord). y.identity ≢ x) (sym w) ne
    | inr k ↦ h.gone b q k
  ];
}

module _ (blank : String → Bool) where
  unfoldable pub perform : Call → Registry → Registry
  unfolding register ensure set_state dispose
  perform (register_call a state) reg = (register blank a state reg).1
  perform (ensure_call a state) reg = (ensure blank a state reg).1
  perform (state_call a state) reg = (set_state blank a state reg).1
  perform (dispose_call a) reg = (dispose blank a reg).1

  unfoldable pub perform_all : List Call → Registry → Registry
  perform_all [] reg = reg
  perform_all (c ∷ cs) reg = perform_all cs (perform c reg)

  -- What every write of a record keeps, every call keeps.
  module _ (P : Registry → Type 0) where
    record IsKept : Type 0 where
      pub by_registered :
          (a state : String) (reg : Registry)
          → P reg
          → P (registered blank (get reg.records a) a state reg).1
      pub by_state_set :
          (a state : String) (reg : Registry)
          → P reg
          → P (state_set blank (get reg.records a) a state reg).1
      pub by_remove :
          (a : String) (reg : Registry) → P reg → P (record reg { records = remove reg.records a })

    by_register :
        IsKept → (a state : String) (reg : Registry) → P reg → P (register blank a state reg).1
    unfolding register
    by_register k a state reg h = elim (Bool-cases (blank a)) [
      | inl e ↦ rw e h
      | inr e ↦ rw e (k.by_registered a state reg h)
    ]

    by_ensured :
        IsKept
        → (o : Option AgentRecord) (a state : String) (reg : Registry) → P reg
        → P (ensured blank o a state reg).1
    by_ensured k none a state reg h = by_register k a state reg h
    by_ensured k (some r) a state reg h = h

    kept : IsKept → (c : Call) (reg : Registry) → P reg → P (perform c reg)
    unfolding perform
    kept k (register_call a state) reg h = by_register k a state reg h
    kept k (ensure_call a state) reg h = by_ensured k (get reg.records a) a state reg h
    kept k (state_call a state) reg h = k.by_state_set a state reg h
    kept k (dispose_call a) reg h = k.by_remove a reg h

    kept_all : IsKept → (cs : List Call) (reg : Registry) → P reg → P (perform_all cs reg)
    unfolding perform_all
    kept_all k [] reg h = h
    kept_all k (c ∷ cs) reg h = kept_all k cs (perform c reg) (kept k c reg h)

  IsUnique-IsKept : IsKept IsUnique
  IsUnique-IsKept = record {
    by_registered =
        λ a state reg u. IsUnique-registered blank (get reg.records a) a state reg refl u;
    by_state_set = λ a state reg u. by_state (get reg.records a) a state reg refl u;
    by_remove = IsUnique-remove;
  }
    where
      by_state :
          (o : Option AgentRecord) (a state : String) (reg : Registry)
          → get reg.records a ≡ o
          → IsUnique reg
          → IsUnique (state_set blank o a state reg).1
      by_state none a state reg e u = u
      by_state (some r) a state reg e u =
          IsUnique-put reg reg.made a _ u (u.own a r e) (omega arith) (u.past a r e)
            (λ b q k same. u.single a b r q e k same)

  IsDead-IsKept : (x : ℕ) → IsKept (IsDead x)
  IsDead-IsKept x = record {
    by_registered = λ a state reg h. by_record (get reg.records a) a state reg refl h;
    by_state_set = λ a state reg h. by_state (get reg.records a) a state reg refl h;
    by_remove = λ a reg h. record {
      made_before = h.made_before;
      gone = λ b q e. h.gone b q (still_there a b q reg e).1;
    };
  }
    where
      by_record :
          (o : Option AgentRecord) (a state : String) (reg : Registry)
          → get reg.records a ≡ o
          → IsDead x reg
          → IsDead x (registered blank o a state reg).1
      by_record none a state reg e h =
          IsDead-put x (suc reg.made) a _ reg h (omega arith) (λ p. omega (arith, h.made_before, p))
      by_record (some r) a state reg e h =
          IsDead-put x reg.made a _ reg h (omega arith) (h.gone a r e)

      by_state :
          (o : Option AgentRecord) (a state : String) (reg : Registry)
          → get reg.records a ≡ o
          → IsDead x reg
          → IsDead x (state_set blank o a state reg).1
      by_state none a state reg e h = h
      by_state (some r) a state reg e h =
          IsDead-put x reg.made a _ reg h (omega arith) (h.gone a r e)

  -- From a registry with unique identities, any calls lead to one: each record stands under its own
  -- id, and no two agents have one identity.
  pub perform_all-IsUnique :
      (cs : List Call) (reg : Registry) → IsUnique reg → IsUnique (perform_all cs reg)
  perform_all-IsUnique cs reg u = kept_all IsUnique IsUnique-IsKept cs reg u

  -- The agent that is disposed of takes its identity along.
  IsDead-dispose :
      (a : String) (r : AgentRecord) (reg : Registry)
      → IsUnique reg
      → get reg.records a ≡ some r
      → IsDead r.identity (dispose blank a reg).1
  unfolding dispose
  IsDead-dispose a r reg u e = record {
    made_before = u.past a r e;
    gone = λ b q k same.
        let old : ((a == b) ≡ false) × (get reg.records b ≡ some q) = still_there a b q reg k in
        let m : a ≡ b = u.single a b r q e old.1 (sym same) in ==_ne a b old.0 m;
  }

  -- In a registry with unique identities, once an agent is disposed of, no later calls, those that
  -- register it again included, give any agent the identity that it had.
  pub dispose-perform_all :
      (a b : String) (r q : AgentRecord) (cs : List Call) (reg : Registry)
      → IsUnique reg
      → get reg.records a ≡ some r
      → get (perform_all cs (dispose blank a reg).1).records b ≡ some q
      → q.identity ≢ r.identity
  dispose-perform_all a b r q cs reg u e k =
      (kept_all (IsDead r.identity) (IsDead-IsKept r.identity) cs (dispose blank a reg).1
          (IsDead-dispose a r reg u e)).gone
        b q k
