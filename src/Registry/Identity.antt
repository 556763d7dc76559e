-- ===== src/Registry/Identity.antt =====
-- The identities in a registry of registry.py.
use ftre.Prelude.{
  ℕ, suc, ◌≤◌, ◌<◌, String, ◌≡◌, ◌⊎◌, refl, ap, sym, subst, ◌∙◌, Bool, Option, none, some, ◌==◌,
  String_key, arith, Bool-cases, inl, inr, ==_eq,
}
use mathlib.Core.Option.{some-injective}
use ftre.Prelude.Dict.{Dict, get, put, get-put}
use ftre.Registry.{AgentRecord, Registry, registered}

-- A record stands under its own id, its identity was made before, and no other agent has it.
pub record IsUnique (reg : Registry) : Type 0 where
  pub own : (a : String) (r : AgentRecord) → get reg.records a ≡ some r → r.agent_id ≡ a
  pub past : (a : String) (r : AgentRecord) → get reg.records a ≡ some r → r.identity < reg.made
  pub single :
      (a b : String) (r q : AgentRecord)
      → get reg.records a ≡ some r
      → get reg.records b ≡ some q
      → r.identity ≡ q.identity
      → a ≡ b

-- What a lookup says after a write.
module _ (d : Dict AgentRecord) (a : String) (r : AgentRecord) where
  pub read :
      (b : String) (q : AgentRecord)
      → get (put d a r) b ≡ some q
      → ((a ≡ b) × (q ≡ r)) ⊎ (get d b ≡ some q)
  read b q e = elim (Bool-cases (a == b)) [
    | inl m ↦ inl (==_eq a b m, some-injective _ _ (sym e ∙ (get-put a b r d ∙ rw m)))
    | inr m ↦ inr (sym (get-put a b r d ∙ rw m) ∙ e)
  ]

pub IsUnique-put :
    (reg : Registry) (made : ℕ) (a : String) (r : AgentRecord)
    → IsUnique reg
    → r.agent_id ≡ a
    → reg.made ≤ made
    → r.identity < made
    → ((b : String) (q : AgentRecord)
        → get reg.records b ≡ some q
        → r.identity ≡ q.identity
        → a ≡ b)
    → IsUnique (record { records = put reg.records a r; made = made })
IsUnique-put reg made a r u same le lt only = record {
  own = λ b q e. elim (read reg.records a r b q e) [
    | inl (m, w) ↦ ap (λ (x : AgentRecord). x.agent_id) w ∙ same ∙ m
    | inr k ↦ u.own b q k
  ];
  past = λ b q e. elim (read reg.records a r b q e) [
    | inl (m, w) ↦ subst (λ (x : AgentRecord). x.identity < made) (sym w) lt
    | inr k ↦ omega (arith, le, u.past b q k)
  ];
  single = λ b c q p e f same_id. elim (read reg.records a r b q e) [
    | inl (m, w) ↦ elim (read reg.records a r c p f) [
      | inl (n, v) ↦ sym m ∙ n
      | inr k ↦ sym m ∙ only c p k (ap (λ (x : AgentRecord). x.identity) (sym w) ∙ same_id)
    ]
    | inr k ↦ elim (read reg.records a r c p f) [
      | inl (n, v) ↦ sym (only b q k (sym (same_id ∙ ap (λ (x : AgentRecord). x.identity) v))) ∙ n
      | inr l ↦ u.single b c q p k l same_id
    ]
  ];
}

module _ (blank : String → Bool) where
  pub IsUnique-registered :
      (o : Option AgentRecord) (a state : String) (reg : Registry)
      → get reg.records a ≡ o
      → IsUnique reg
      → IsUnique (registered blank o a state reg).1
  IsUnique-registered none a state reg e u =
      IsUnique-put reg (suc reg.made) a _ u refl (omega arith) (omega arith)
        (λ b q k same. absurd (omega (arith, u.past b q k, same)))
  IsUnique-registered (some r) a state reg e u =
      IsUnique-put reg reg.made a _ u (u.own a r e) (omega arith) (u.past a r e)
        (λ b q k same. u.single a b r q e k same)
