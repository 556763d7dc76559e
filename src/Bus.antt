-- ===== src/Bus.antt =====
-- src/ftre/services/messaging/bus/bus.py: the two queues between the channels and the agent loop,
-- and the requests that wait for an answer. A future is a number into the table of answers; one
-- without an answer is not done. A coroutine that waits is its request's id and its future.
pub mod Steps
pub mod Requests
pub mod Run
mod Tests
use ftre.Prelude.{
  ℕ, suc, String, Bool, true, false, not, ◌&&◌, Option, none, some, List, [], ◌∷◌, ◌++◌, map,
  if◌then◌else◌, ◌≡◌, get_elem?, pop_at,
}
use ftre.Prelude.Dict.{Dict, get, put, remove}
use ftre.Prelude.Table.{Table, lookup, assign}

-- A message: what bus.py reads of it, and the rest. `is_topic` says that its type has one of the
-- prefixes of typed topics, `is_typed` that it is a TypedBusMessage.
pub record Message (B : Type 0) : Type 0 where
  pub id : String
  pub is_topic : Bool
  pub is_typed : Bool
  pub body : B

pub data Raised : Type 0 where
  stopped_error duplicate_id refused_by_middleware untyped_topic : Raised

-- What a future is given: a result, or an exception.
pub data Answer (R : Type 0) : Type 0 where
  result : R → Answer R
  rejected : String → Answer R
  bus_stopped : Answer R

pub record Bus (B R : Type 0) : Type 0 where
  pub inbound : List (Message B)
  pub outbound : List (Message B)
  pub inbound_middlewares : List (Message B → Option (Message B))
  pub outbound_middlewares : List (Message B → Option (Message B))
  pub replies : Dict ℕ
  pub stopped : Bool
  pub answers : Table (Answer R)
  pub next_future : ℕ
  pub waiters : List (String × ℕ)

module _ {B : Type 0} where
  -- `_apply`
  abbrev pub apply : List (Message B → Option (Message B)) → Option (Message B) → Option (Message B)
  apply fs none = none
  apply [] (some msg) = some msg
  apply (f ∷ fs) (some msg) = apply fs (f msg)

  -- `_validate_message`: `true` where it returns.
  abbrev pub is_valid : Message B → Bool
  is_valid msg = not (msg.is_topic && not msg.is_typed)

module _ {R : Type 0} where
  abbrev pub wake_one : Option (Answer R) → ℕ → Table (Answer R) → Table (Answer R)
  wake_one (some old) f answers = answers
  wake_one none f answers = assign answers f bus_stopped

  unfoldable pub wake_all : Dict ℕ → Table (Answer R) → Table (Answer R)
  wake_all [] answers = answers
  wake_all ((rid, f) ∷ rest) answers = wake_all rest (wake_one (lookup answers f) f answers)

module _ {B R : Type 0} where
  unfoldable pub new_bus : Bus B R
  new_bus = record {
    inbound = [];
    outbound = [];
    inbound_middlewares = [];
    outbound_middlewares = [];
    replies = [];
    stopped = false;
    answers = [];
    next_future = 0;
    waiters = [];
  }

  unfoldable pub use_inbound : (Message B → Option (Message B)) → Bus B R → Bus B R
  use_inbound f b = record b { inbound_middlewares = b.inbound_middlewares ++ f ∷ [] }

  unfoldable pub use_outbound : (Message B → Option (Message B)) → Bus B R → Bus B R
  use_outbound f b = record b { outbound_middlewares = b.outbound_middlewares ++ f ∷ [] }

  abbrev pub publish_in : Option (Message B) → Bus B R → Option Raised × Bus B R
  publish_in none b = (none, b)
  publish_in (some msg) b =
      if is_valid msg
      then (none, record b { inbound = b.inbound ++ msg ∷ [] })
      else (some untyped_topic, b)

  unfoldable pub publish_inbound : Message B → Bus B R → Option Raised × Bus B R
  publish_inbound msg b = publish_in (apply b.inbound_middlewares (some msg)) b

  abbrev pub publish_out : Option (Message B) → Bus B R → Option Raised × Bus B R
  publish_out none b = (none, b)
  publish_out (some msg) b =
      if is_valid msg
      then (none, record b { outbound = b.outbound ++ msg ∷ [] })
      else (some untyped_topic, b)

  unfoldable pub publish_outbound : Message B → Bus B R → Option Raised × Bus B R
  publish_outbound msg b = publish_out (apply b.outbound_middlewares (some msg)) b

  -- `request_inbound` up to its `await`. Where it raises, `finally` takes the entry back.
  abbrev pub request_filtered : Option (Message B) → String → Bus B R → Option Raised × Bus B R
  request_filtered none rid b =
      (some refused_by_middleware, record b { replies = remove b.replies rid })
  request_filtered (some msg) rid b =
      if is_valid msg
      then (
        none,
        record b {
          inbound = b.inbound ++ msg ∷ [];
          waiters = (rid, b.next_future) ∷ b.waiters;
          next_future = suc b.next_future;
        },
      )
      else (some untyped_topic, record b { replies = remove b.replies rid })

  abbrev pub request_new : Option ℕ → Message B → Bus B R → Option Raised × Bus B R
  request_new (some f) msg b = (some duplicate_id, b)
  request_new none msg b =
      request_filtered (apply b.inbound_middlewares (some msg)) msg.id
        (record b { replies = put b.replies msg.id b.next_future })

  unfoldable pub request_inbound : Message B → Bus B R → Option Raised × Bus B R
  request_inbound msg b =
      if b.stopped then (some stopped_error, b) else request_new (get b.replies msg.id) msg b

  -- The end of `request_inbound`: the coroutine resumes, with its answer or by a cancellation.
  abbrev pub resume_at : Option (String × ℕ) → ℕ → Bus B R → Bus B R
  resume_at none k b = b
  resume_at (some (rid, f)) k b = record b {
    replies = remove b.replies rid;
    waiters = pop_at b.waiters k;
  }

  unfoldable pub resume : ℕ → Bus B R → Bus B R
  resume k b = resume_at (get_elem? b.waiters k) k b

  abbrev pub answer_open : Option (Answer R) → ℕ → Answer R → Bus B R → Bool × Bus B R
  answer_open (some old) f a b = (false, b)
  answer_open none f a b = (true, record b { answers = assign b.answers f a })

  abbrev pub answer_at : Option ℕ → Answer R → Bus B R → Bool × Bus B R
  answer_at none a b = (false, b)
  answer_at (some f) a b = answer_open (lookup b.answers f) f a b

  unfoldable pub resolve_inbound : String → R → Bus B R → Bool × Bus B R
  resolve_inbound rid r b = answer_at (get b.replies rid) (result r) b

  unfoldable pub reject_inbound : String → String → Bus B R → Bool × Bus B R
  reject_inbound rid error b = answer_at (get b.replies rid) (rejected error) b

  unfoldable pub stop_inbound : Bus B R → Bus B R
  stop_inbound b = record b { stopped = true; answers = wake_all b.replies b.answers; replies = [] }
