-- ===== src/Hooks/Spec.antt =====
-- The equality of HookSpec in hooks.py, a dataclass.
use ftre.Prelude.{
  ℕ, ◌≡◌, refl, ap, sym, ◌∙◌, Bool, true, false, ◌&&◌, Option, none, some, ◌==◌, ℕ_key, String_key,
  arith, if◌then◌else◌, ==_eq,
}
use ftre.Hooks.{
  HookSpec, HookMode, HookFailurePolicy, HookScope, emit, parallel, serial, bail, waterfall,
  observe, propagate, global, agent,
}
use ftre.Hooks.Register.{same_spec, same_option, mode_no, policy_no, scope_no}

mode_at : ℕ → HookMode
mode_at n =
    if n == 0
    then emit
    else if n == 1
    then parallel
    else if n == 2
    then serial
    else if n == 3
    then bail
    else waterfall

mode_at-mode_no : (m : HookMode) → mode_at (mode_no m) ≡ m
unfolding mode_at
mode_at-mode_no emit = refl
mode_at-mode_no parallel = refl
mode_at-mode_no serial = refl
mode_at-mode_no bail = refl
mode_at-mode_no waterfall = refl

mode_no-injective : (m n : HookMode) → mode_no m ≡ mode_no n → m ≡ n
mode_no-injective m n e = sym (mode_at-mode_no m) ∙ (ap mode_at e ∙ mode_at-mode_no n)

policy_no-injective : (p q : HookFailurePolicy) → policy_no p ≡ policy_no q → p ≡ q
policy_no-injective observe observe e = refl
policy_no-injective observe propagate e = absurd (omega (arith, e))
policy_no-injective propagate observe e = absurd (omega (arith, e))
policy_no-injective propagate propagate e = refl

scope_no-injective : (p q : HookScope) → scope_no p ≡ scope_no q → p ≡ q
scope_no-injective global global e = refl
scope_no-injective global agent e = absurd (omega (arith, e))
scope_no-injective agent global e = absurd (omega (arith, e))
scope_no-injective agent agent e = refl

same_option-eq : (x y : Option ℕ) → same_option x y ≡ true → x ≡ y
same_option-eq none none e = refl
same_option-eq none (some y) e = cc
same_option-eq (some x) none e = cc
same_option-eq (some x) (some y) e = ap some (==_eq x y e)

both : (a b : Bool) → (a && b) ≡ true → (a ≡ true) × (b ≡ true)
both true b e = (refl, e)
both false b e = cc

pub same_spec-eq : (p s : HookSpec) → same_spec p s ≡ true → p ≡ s
same_spec-eq p s e =
    let h = both _ _ e in
    let g = both _ _ h.0 in
    let f = both _ _ g.0 in
    let d = both _ _ f.0 in
    let c = both _ _ d.0 in
    let b = both _ _ c.0 in
    let a = both _ _ b.0 in
    let name = ==_eq p.name s.name a.0 in
    let domain = ==_eq p.domain s.domain a.1 in
    let mode = mode_no-injective p.mode s.mode (==_eq _ _ b.1) in
    let policy = policy_no-injective p.failure_policy s.failure_policy (==_eq _ _ c.1) in
    let payload = same_option-eq p.payload_type s.payload_type d.1 in
    let result = same_option-eq p.result_type s.result_type f.1 in
    let default = same_option-eq p.default s.default g.1 in
    let scope = scope_no-injective p.scope s.scope (==_eq _ _ h.1) in
    λ i. record {
      name = name i;
      domain = domain i;
      mode = mode i;
      failure_policy = policy i;
      payload_type = payload i;
      result_type = result i;
      default = default i;
      scope = scope i;
    }
