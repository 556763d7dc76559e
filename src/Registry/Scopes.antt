-- ===== src/Registry/Scopes.antt =====
-- Carriers of registered agents.
use ftre.Prelude.{
  String, ◌≡◌, refl, ap, sym, ◌∙◌, Bool, false, some, ◌==◌, ℕ_key, if◌then◌else◌, Bool-cases, inl,
  inr, ne_==, ==_eq, ==_ne, String_key, ==_refl,
}
use mathlib.Core.Option.{some-injective}
use ftre.Prelude.Dict.{get}
use ftre.Registry.{
  AgentRecord, Registry, top, under, ok, err, cycle, carrier, scope_identity, scope_carrier,
}
use ftre.Registry.Identity.{IsUnique}

module _ (blank : String → Bool) (agent_key : blank "agent" ≡ false) where
  -- Two registered agents get a chain of two carriers; an agent under itself, and only that, is
  -- refused as a cycle.
  pub scope_carrier-IsUnique :
      (a p : String) (r q : AgentRecord) (reg : Registry)
      → IsUnique reg
      → get reg.records a ≡ some r
      → get reg.records p ≡ some q
      → scope_carrier blank a (some p) reg
        ≡ (if a == p then err cycle else ok (under "agent" r.identity (top "agent" q.identity)))
  unfolding scope_carrier scope_identity carrier
  scope_carrier-IsUnique a p r q reg u e f = elim (Bool-cases (a == p)) [
    | inl m ↦
        let rq : r.identity ≡ q.identity =
          ap (λ (x : AgentRecord). x.identity)
            (some-injective _ _ (sym e ∙ ap (λ k. get reg.records k) (==_eq a p m) ∙ f)) in
        rw (e, f, agent_key, m, rq, ==_refl q.identity) (rw agent_key refl)
    | inr m ↦
        rw
          (
            e,
            f,
            agent_key,
            m,
            ne_== r.identity q.identity (λ h. ==_ne a p m (u.single a p r q e f h)),
          )
          (rw agent_key refl)
  ]
