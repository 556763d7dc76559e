-- ===== src/Runtime/Completion/Tests.antt =====
-- The theorems on the completion registry at concrete requests.
use ftre.Prelude.{ℕ, ◌≡◌, ◌≤◌, refl, some, List, [], ◌∷◌, get_elem?, length, arith}
use ftre.Prelude.Table.{lookup, assign}
use ftre.Runtime.Completion.{
  RequestKey, CompletionRegistry, outcome, cache_limit, complete, wait, resume, close, answer_all,
  new_registry,
}
use ftre.Runtime.Completion.Cache.{
  Event, complete_call, wait_call, resume_call, perform, perform_all, completions, complete-wait,
  length-perform_all,
}
use ftre.Runtime.Completion.Woken.{IsDone}
use ftre.Runtime.Completion.Woken.Run.{complete-IsDone}

abbrev task : RequestKey
task = ("main", "task_1")

abbrev other : RequestKey
other = ("main", "task_2")

abbrev setup : List (Event ℕ)
setup =
    wait_call task ∷ wait_call task ∷ wait_call other ∷ resume_call 1 ∷ complete_call other 7 ∷ []

abbrev reached : CompletionRegistry ℕ
reached = perform_all setup new_registry

length-perform_all_example : length reached.cache ≤ cache_limit
unfolding new_registry
length-perform_all_example = length-perform_all setup new_registry (omega arith)

first_waits : get_elem? reached.waiting 1 ≡ some (task, 0)
unfolding perform_all perform wait resume complete new_registry
first_waits = refl

complete-IsDone_example :
    IsDone (complete task 5 reached).answers 0 × IsDone (close reached).answers 0
complete-IsDone_example = complete-IsDone setup 1 task 0 5 first_waits

answered : lookup (complete task 5 reached).answers 0 ≡ some (outcome 5)
unfolding perform_all perform wait resume complete new_registry answer_all lookup assign
answered = refl

still_short : completions {O = ℕ} (wait_call task ∷ complete_call other 8 ∷ []) ≤ 1
unfolding completions
still_short = omega arith

complete-wait_example :
    (wait task (
      perform_all
        (wait_call task ∷ complete_call other 8 ∷ [])
        (complete task 5 (new_registry {O = ℕ})))).0
    ≡ some 5
complete-wait_example =
    complete-wait task 5 (wait_call task ∷ complete_call other 8 ∷ []) new_registry
      (refl, (refl, tt)) (omega (arith, still_short))
