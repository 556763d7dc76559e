-- ===== src/Hooks/Steady.antt =====
-- What runtime.py keeps of a listener's registration from one event to the next.
use ftre.Prelude.{
  ℕ, suc, String, ◌≡◌, refl, ap, ◌∙◌, Bool, true, false, Option, none, some, List, [], ◌∷◌,
  get_elem?, alter, pop_at, if-elim, map, map-alter_unseen, map-alter,
}
use ftre.Prelude.Dict.{Dict}
use ftre.Hooks.{HookRuntime, HookSpec, Registration, is_waterfall}
use ftre.Hooks.Register.{
  Disposal, shift, later, dispose, dispose_at, lifecycle_dispose, receipt_used, ended,
}
use ftre.Hooks.Calls.{
  Outcome, Ending, raised, escaped, value, awaitable, failed, returned, cancelled, unstarted,
  counted, once_over, at_object, recorded, handle_failure, guarded, invoke, invoke_at, next_at,
  next_once, leave_of, leave_at, listener_returns, finish_of, finish_at, finish_async, release_call,
  finally,
}
use ftre.Hooks.Run.{
  Event, register_call, dispose_call, lifecycle_call, invoke_call, next_call, listener_end,
  async_end, perform,
}

pub record Standing : Type 0 where
  pub spec : HookSpec
  pub order : ℕ
  pub gone : Bool

abbrev pub standing : Registration → Standing
standing r = record { spec = r.spec; order = r.order; gone = r.lifecycle_disposed }

pub record Board : Type 0 where
  pub specs : Dict HookSpec
  pub registrations : Dict (List ℕ)
  pub standings : List Standing

abbrev pub board : HookRuntime → Board
board rt = record {
  specs = rt.specs;
  registrations = rt.registrations;
  standings = map standing rt.objects;
}

abbrev with_standings : HookRuntime → List Standing → Board
with_standings rt ss = record { specs = rt.specs; registrations = rt.registrations; standings = ss }

abbrev pub later_standing : Standing → Standing
later_standing s = record s { order = suc s.order }

abbrev pub gone_standing : Standing → Standing
gone_standing s = record s { gone = true }

abbrev pub shift_standings : List ℕ → List Standing → List Standing
shift_standings [] ss = ss
shift_standings (i ∷ is) ss = shift_standings is (alter ss i later_standing)

pub map-shift :
    (is : List ℕ) (objects : List Registration)
    → map standing (shift is objects) ≡ shift_standings is (map standing objects)
map-shift [] objects = refl
map-shift (i ∷ is) objects =
    map-shift is (alter objects i later)
    ∙ ap (shift_standings is) (map-alter standing objects i later later_standing (λ r. refl))

board-at_object :
    (i : ℕ) (f : Registration → Registration) (rt : HookRuntime)
    → ((r : Registration) → standing (f r) ≡ standing r)
    → board (at_object i f rt) ≡ board rt
board-at_object i f rt e = ap (with_standings rt) (map-alter_unseen standing rt.objects i f e)

standing-release_call : (r : Registration) → standing (release_call r) ≡ standing r
unfolding release_call
standing-release_call r = if-elim (λ (q : Registration). standing q ≡ standing r) _ refl refl

board-finally : (i : ℕ) (rt : HookRuntime) → board (finally i rt) ≡ board rt
board-finally i rt =
    board-at_object i once_over (at_object i release_call rt) (λ r. refl)
    ∙ board-at_object i release_call rt standing-release_call

board-handle_failure :
    (i : ℕ) (x : String) (rt : HookRuntime) → board (handle_failure i x rt) ≡ board rt
unfolding handle_failure
board-handle_failure i x rt = at_record (get_elem? rt.objects i)
  where
    at_record : (o : Option Registration) → board (recorded o x rt) ≡ board rt
    at_record none = refl
    at_record (some r) = refl

board-dispose :
    (o : Option Registration) (i : ℕ) (rt : HookRuntime) → board (dispose_at o i rt).1 ≡ board rt
board-dispose none i rt = refl
board-dispose (some r) i rt =
    if-elim (λ (p : Disposal × HookRuntime). board p.1 ≡ board rt) r.receipt_disposed refl
      (board-at_object i receipt_used rt (λ q. refl))

board-guarded :
    (w has_next : Bool) (i : ℕ) (rt : HookRuntime) → board (guarded w has_next i rt).1 ≡ board rt
board-guarded false has_next i rt = refl
board-guarded true false i rt = refl
board-guarded true true i rt = refl

board-invoke :
    (o : Option Registration) (i : ℕ) (has_next : Bool) (rt : HookRuntime)
    → board (invoke_at o i has_next rt).1 ≡ board rt
board-invoke none i has_next rt = refl
board-invoke (some r) i has_next rt =
    board-guarded (is_waterfall r.spec.mode) has_next i (at_object i counted rt)
    ∙ board-at_object i counted rt (λ q. refl)

board-next : (o : Option Bool) (k : ℕ) (rt : HookRuntime) → board (next_at o k rt).1 ≡ board rt
board-next none k rt = refl
board-next (some true) k rt = refl
board-next (some false) k rt = refl

abbrev popped_listening : ℕ → HookRuntime → HookRuntime
popped_listening k rt = record rt { listening = pop_at rt.listening k }

abbrev popped_awaiting : ℕ → HookRuntime → HookRuntime
popped_awaiting k rt = record rt { awaiting = pop_at rt.awaiting k }

board-leave :
    (at : Option ℕ) (o : Outcome) (k : ℕ) (rt : HookRuntime)
    → board (leave_at at o k rt).1 ≡ board rt
board-leave none o k rt = refl
board-leave (some i) o k rt = of (get_elem? rt.objects i) o
  where
    of : (r : Option Registration) (o : Outcome) → board (leave_of r o i k rt).1 ≡ board rt
    of none o = refl
    of (some r) (raised x) =
        board-handle_failure i x (at_object i release_call (popped_listening k rt))
        ∙ board-at_object i release_call (popped_listening k rt) standing-release_call
    of (some r) escaped = refl
    of (some r) value = board-finally i (popped_listening k rt)
    of (some r) awaitable = refl

board-finish :
    (at : Option ℕ) (e : Ending) (k : ℕ) (rt : HookRuntime)
    → board (finish_at at e k rt).1 ≡ board rt
board-finish none e k rt = refl
board-finish (some i) e k rt = of (get_elem? rt.objects i) e
  where
    of : (r : Option Registration) (e : Ending) → board (finish_of r e i k rt).1 ≡ board rt
    of none e = refl
    of (some r) (failed x) =
        board-finally i (handle_failure i x (popped_awaiting k rt))
        ∙ board-handle_failure i x (popped_awaiting k rt)
    of (some r) returned = board-finally i (popped_awaiting k rt)
    of (some r) cancelled = board-finally i (popped_awaiting k rt)
    of (some r) unstarted = refl

-- Neither a registration nor the end of a fiber.
abbrev pub is_steady : Event → Bool
is_steady (register_call q) = false
is_steady (dispose_call i) = true
is_steady (lifecycle_call i) = false
is_steady (invoke_call i has_next) = true
is_steady (next_call k) = true
is_steady (listener_end k o) = true
is_steady (async_end k e) = true

module _ (blank : String → Bool) where
  pub board-perform :
      (e : Event) (rt : HookRuntime) → is_steady e ≡ true → board (perform blank e rt) ≡ board rt
  unfolding perform dispose invoke next_once listener_returns finish_async
  board-perform (register_call q) rt h = cc
  board-perform (dispose_call i) rt h = board-dispose (get_elem? rt.objects i) i rt
  board-perform (lifecycle_call i) rt h = cc
  board-perform (invoke_call i n) rt h = board-invoke (get_elem? rt.objects i) i n rt
  board-perform (next_call k) rt h = board-next (get_elem? rt.nexts k) k rt
  board-perform (listener_end k o) rt h = board-leave (get_elem? rt.listening k) o k rt
  board-perform (async_end k e) rt h = board-finish (get_elem? rt.awaiting k) e k rt

pub board-lifecycle :
    (i : ℕ) (rt : HookRuntime)
    → board (lifecycle_dispose i rt).1 ≡ record {
      specs = rt.specs;
      registrations = rt.registrations;
      standings = alter (map standing rt.objects) i gone_standing;
    }
unfolding lifecycle_dispose dispose
board-lifecycle i rt =
    board-dispose (get_elem? (alter rt.objects i ended) i) i (at_object i ended rt)
    ∙ ap (with_standings rt) (map-alter standing rt.objects i ended gone_standing (λ r. refl))
