-- ===== src/Registry/Tests.antt =====
-- The registry's theorems at concrete agents.
use ftre.Prelude.{ℕ, String, ◌≡◌, ◌≢◌, refl, Bool, some, List, [], ◌∷◌, ◌==◌, String_key}
use ftre.Prelude.Dict.{get, put, remove}
use ftre.Registry.{
  AgentRecord, new_registry, scope_carrier, register, dispose, set_state, ok, under, top,
}
use ftre.Registry.Identity.{IsUnique}
use ftre.Registry.History.{
  Call, register_call, state_call, perform, perform_all, perform_all-IsUnique, dispose-perform_all,
}
use ftre.Registry.Scopes.{scope_carrier-IsUnique}

-- Enough of `not value.strip()` for the names below.
abbrev no_text : String → Bool
no_text s = s == ""

new_registry-IsUnique : IsUnique new_registry
unfolding get
new_registry-IsUnique = record {
  own = λ a r e. cc;
  past = λ a r e. cc;
  single = λ a b r q e f same. cc;
}

abbrev setup : List Call
setup = register_call "ann" "ready" ∷ register_call "bob" "ready" ∷ state_call "ann" "busy" ∷ []

perform_all-IsUnique_example : IsUnique (perform_all no_text setup new_registry)
perform_all-IsUnique_example = perform_all-IsUnique no_text setup new_registry new_registry-IsUnique

abbrev agent : String → ℕ → String → AgentRecord
agent a i state = record { agent_id = a; identity = i; state = state }

ann_found : get (perform_all no_text setup new_registry).records "ann" ≡ some (agent "ann" 0 "busy")
unfolding perform_all perform get put register set_state
ann_found = refl

bob_found :
    get (perform_all no_text setup new_registry).records "bob" ≡ some (agent "bob" 1 "ready")
unfolding perform_all perform get put register set_state
bob_found = refl

ann_again :
    get
      (perform_all no_text
        (register_call "ann" "ready" ∷ [])
        (dispose no_text "ann" (perform_all no_text setup new_registry)).1).records
      "ann"
    ≡ some (agent "ann" 2 "ready")
unfolding perform_all perform get put remove register set_state dispose
ann_again = refl

dispose-perform_all_example : let zero_id : ℕ = 0 in (agent "ann" 2 "ready").identity ≢ zero_id
dispose-perform_all_example =
    dispose-perform_all no_text "ann" "ann" (agent "ann" 0 "busy") (agent "ann" 2 "ready")
      (register_call "ann" "ready" ∷ []) (perform_all no_text setup new_registry)
      perform_all-IsUnique_example ann_found ann_again

scope_carrier-IsUnique_example :
    scope_carrier no_text "ann" (some "bob") (perform_all no_text setup new_registry)
    ≡ ok (under "agent" 0 (top "agent" 1))
scope_carrier-IsUnique_example =
    scope_carrier-IsUnique no_text refl "ann" "bob" (agent "ann" 0 "busy") (agent "bob" 1 "ready")
      (perform_all no_text setup new_registry) perform_all-IsUnique_example ann_found bob_found
