-- ===== src/Bus/Run.antt =====
-- Any sequence of what can happen to the bus of bus.py.
use ftre.Prelude.{
  ℕ, String, ◌≡◌, refl, true, Option, none, some, List, [], ◌∷◌, Bool-cases, inl, inr, All,
  get_elem?,
}
use ftre.Prelude.Dict.{get}
use ftre.Bus.{
  Message, Bus, result, rejected, new_bus, is_valid, publish_inbound, publish_in, publish_outbound,
  publish_out, request_inbound, resume, resolve_inbound, reject_inbound, stop_inbound, use_inbound,
  use_outbound,
}
use ftre.Bus.Steps.{
  IsReachable, IsReachable-stop, IsReachable-answer_at, IsReachable-resume_at, IsDone,
}
use ftre.Bus.Requests.{IsReachable-request}

-- A call, or a coroutine that resumes, the k-th of those that wait.
pub data Event (B R : Type 0) : Type 0 where
  use_inbound_call use_outbound_call : (Message B → Option (Message B)) → Event B R
  publish_inbound_call publish_outbound_call request_call : Message B → Event B R
  resume_call : ℕ → Event B R
  resolve_call : String → R → Event B R
  reject_call : String → String → Event B R
  stop_call : Event B R

module _ {B R : Type 0} where
  unfoldable pub perform : Event B R → Bus B R → Bus B R
  perform (use_inbound_call f) b = use_inbound f b
  perform (use_outbound_call f) b = use_outbound f b
  perform (publish_inbound_call msg) b = (publish_inbound msg b).1
  perform (publish_outbound_call msg) b = (publish_outbound msg b).1
  perform (request_call msg) b = (request_inbound msg b).1
  perform (resume_call k) b = resume k b
  perform (resolve_call rid r) b = (resolve_inbound rid r b).1
  perform (reject_call rid error) b = (reject_inbound rid error b).1
  perform stop_call b = stop_inbound b

  unfoldable pub perform_all : List (Event B R) → Bus B R → Bus B R
  perform_all [] b = b
  perform_all (e ∷ es) b = perform_all es (perform e b)

  publish_in-IsReachable :
      (o : Option (Message B)) (b : Bus B R) → IsReachable b → IsReachable (publish_in o b).1
  publish_in-IsReachable none b h = h
  publish_in-IsReachable (some msg) b h = elim (Bool-cases (is_valid msg)) [
    | inl e ↦ simp e (record { live = h.live; apart = h.apart; over = h.over })
    | inr e ↦ simp e h
  ]

  publish_out-IsReachable :
      (o : Option (Message B)) (b : Bus B R) → IsReachable b → IsReachable (publish_out o b).1
  publish_out-IsReachable none b h = h
  publish_out-IsReachable (some msg) b h = elim (Bool-cases (is_valid msg)) [
    | inl e ↦ simp e (record { live = h.live; apart = h.apart; over = h.over })
    | inr e ↦ simp e h
  ]

  perform-IsReachable : (e : Event B R) (b : Bus B R) → IsReachable b → IsReachable (perform e b)
  unfolding perform use_inbound use_outbound publish_inbound publish_outbound resume resolve_inbound
      reject_inbound
  perform-IsReachable (use_inbound_call f) b h = record {
    live = h.live;
    apart = h.apart;
    over = h.over;
  }
  perform-IsReachable (use_outbound_call f) b h = record {
    live = h.live;
    apart = h.apart;
    over = h.over;
  }
  perform-IsReachable (publish_inbound_call msg) b h = publish_in-IsReachable _ b h
  perform-IsReachable (publish_outbound_call msg) b h = publish_out-IsReachable _ b h
  perform-IsReachable (request_call msg) b h = IsReachable-request msg b h
  perform-IsReachable (resume_call k) b h = IsReachable-resume_at (get_elem? b.waiters k) k b refl h
  perform-IsReachable (resolve_call rid r) b h =
      IsReachable-answer_at (get b.replies rid) (result r) b h
  perform-IsReachable (reject_call rid error) b h =
      IsReachable-answer_at (get b.replies rid) (rejected error) b h
  perform-IsReachable stop_call b h = IsReachable-stop b h

  -- From a bus whose waiting coroutines can be reached, whatever happens leads to one: before it is
  -- stopped, each of them is found by its request id, no two under one id; once it is stopped, each
  -- has its answer.
  pub perform_all-IsReachable :
      (es : List (Event B R)) (b : Bus B R) → IsReachable b → IsReachable (perform_all es b)
  unfolding perform_all
  perform_all-IsReachable [] b h = h
  perform_all-IsReachable (e ∷ es) b h =
      perform_all-IsReachable es (perform e b) (perform-IsReachable e b h)

  -- Whatever happened to a bus, with stops at any point, once it is stopped no coroutine is left
  -- waiting without an answer.
  pub perform_all-IsDone :
      (es : List (Event B R))
      → (perform_all es new_bus).stopped ≡ true
      → All
          (λ (w : String × ℕ). IsDone (perform_all es new_bus).answers w.1)
          (perform_all es new_bus).waiters
  unfolding new_bus
  perform_all-IsDone es s = (perform_all-IsReachable es new_bus new_bus-IsReachable).over s
    where
      new_bus-IsReachable : IsReachable (new_bus {B = B} {R = R})
      new_bus-IsReachable = record { live = λ e. tt; apart = λ e. tt; over = λ e. tt }
