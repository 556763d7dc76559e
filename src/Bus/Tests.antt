-- ===== src/Bus/Tests.antt =====
-- A bus with two requests, one answered and one woken by the stop.
use ftre.Prelude.{ℕ, String, ◌≡◌, refl, true, false, some, List, [], ◌∷◌, All}
use ftre.Prelude.Dict.{get, put}
use ftre.Prelude.Table.{lookup, assign}
use ftre.Bus.{
  Message, bus_stopped, new_bus, request_inbound, resolve_inbound, stop_inbound, wake_all,
}
use ftre.Bus.Steps.{IsReachable, IsDone}
use ftre.Bus.Run.{
  Event, request_call, resolve_call, stop_call, perform, perform_all, perform_all-IsReachable,
  perform_all-IsDone,
}

abbrev message : String → Message String
message rid = record { id = rid; is_topic = false; is_typed = false; body = "" }

abbrev running : List (Event String ℕ)
running = request_call (message "a") ∷ request_call (message "b") ∷ resolve_call "a" 7 ∷ []

abbrev stopping : List (Event String ℕ)
stopping =
    request_call (message "a")
    ∷ request_call (message "b")
    ∷ resolve_call "a" 7
    ∷ stop_call
    ∷ request_call (message "c")
    ∷ []

empty : IsReachable (new_bus {B = String} {R = ℕ})
unfolding new_bus
empty = record { live = λ e. tt; apart = λ e. tt; over = λ e. tt }

perform_all-IsReachable_example : IsReachable (perform_all running new_bus)
perform_all-IsReachable_example = perform_all-IsReachable running new_bus empty

is_stopped : (perform_all stopping new_bus).stopped ≡ true
unfolding perform_all perform new_bus request_inbound resolve_inbound stop_inbound get put lookup
    assign wake_all
is_stopped = refl

perform_all-IsDone_example :
    All
      (λ (w : String × ℕ). IsDone (perform_all stopping new_bus).answers w.1)
      (perform_all stopping new_bus).waiters
perform_all-IsDone_example = perform_all-IsDone stopping is_stopped

-- Both still wait, and the second was woken by the stop.
two_waiting : (perform_all stopping new_bus).waiters ≡ ("b", 1) ∷ ("a", 0) ∷ []
unfolding perform_all perform new_bus request_inbound resolve_inbound stop_inbound get put lookup
    assign wake_all
two_waiting = refl

second_answer : lookup (perform_all stopping new_bus).answers 1 ≡ some bus_stopped
unfolding perform_all perform new_bus request_inbound resolve_inbound stop_inbound get put lookup
    assign wake_all
second_answer = refl
