-- ===== src/Bus/Steps.antt =====
-- Sequences of steps of the bus of bus.py, and the coroutines that wait for an answer.
use ftre.Prelude.{
  ℕ, zero, suc, String, ◌≡◌, ◌≢◌, refl, sym, subst, ◌∙◌, true, false, Option, none, some, List, [],
  ◌∷◌, ◌==◌, String_key, ℕ_key, Bool-cases, inl, inr, All, All-map, get_elem?, pop_at, ==_refl,
  ne_==,
}
use mathlib.Core.Option.{some-injective}
use ftre.Prelude.Order.Sorted.{All-pop_at, All-get}
use ftre.Prelude.Dict.{Dict, get, remove, get-remove}
use ftre.Prelude.Table.{Table, lookup, assign, lookup-assign}
use ftre.Bus.{
  Bus, Answer, bus_stopped, resume_at, answer_at, answer_open, wake_one, wake_all, stop_inbound,
}

module _ {R : Type 0} where
  -- The future has its answer.
  abbrev pub IsDone : Table (Answer R) → ℕ → Type 0
  IsDone answers f = (a : Answer R) × (lookup answers f ≡ some a)

  IsDone-assign :
      (answers : Table (Answer R)) (f g : ℕ) (a : Answer R)
      → IsDone answers g
      → IsDone (assign answers f a) g
  IsDone-assign answers f g a (old, e) = elim (Bool-cases (f == g)) [
    | inl m ↦ (a, lookup-assign f g a answers ∙ rw m)
    | inr m ↦ (old, lookup-assign f g a answers ∙ (rw m refl ∙ e))
  ]

  IsDone-wake_one :
      (o : Option (Answer R)) (f g : ℕ) (answers : Table (Answer R))
      → IsDone answers g
      → IsDone (wake_one o f answers) g
  IsDone-wake_one none f g answers h = IsDone-assign answers f g bus_stopped h
  IsDone-wake_one (some a) f g answers h = h

  woken :
      (o : Option (Answer R)) (f : ℕ) (answers : Table (Answer R))
      → lookup answers f ≡ o
      → IsDone (wake_one o f answers) f
  woken none f answers e = (bus_stopped, lookup-assign f f bus_stopped answers ∙ rw (==_refl f))
  woken (some a) f answers e = (a, e)

  IsDone-wake_all :
      (d : Dict ℕ) (g : ℕ) (answers : Table (Answer R))
      → IsDone answers g
      → IsDone (wake_all d answers) g
  unfolding wake_all
  IsDone-wake_all [] g answers h = h
  IsDone-wake_all ((rid, f) ∷ d) g answers h =
      IsDone-wake_all d g (wake_one (lookup answers f) f answers)
        (IsDone-wake_one (lookup answers f) f g answers h)

  all_woken :
      (d : Dict ℕ) (rid : String) (f : ℕ) (answers : Table (Answer R))
      → get d rid ≡ some f
      → IsDone (wake_all d answers) f
  unfolding wake_all get
  all_woken [] rid f answers e = cc
  all_woken ((j, g) ∷ d) rid f answers e = elim (Bool-cases (j == rid)) [
    | inl m ↦
        let same : g ≡ f = some-injective _ _ (sym (rw m) ∙ e) in
        subst (λ k. IsDone (wake_all d (wake_one (lookup answers g) g answers)) k) same
          (IsDone-wake_all d g (wake_one (lookup answers g) g answers)
            (woken (lookup answers g) g answers refl))
    | inr m ↦ all_woken d rid f (wake_one (lookup answers g) g answers) (sym (rw m) ∙ e)
  ]

-- No two of the coroutines wait for one request id.
abbrev pub Apart : List (String × ℕ) → Type 0
Apart [] = Unit
Apart (w ∷ ws) = All (λ (v : String × ℕ). v.0 ≢ w.0) ws × Apart ws

Apart-pop_at : (ws : List (String × ℕ)) (k : ℕ) → Apart ws → Apart (pop_at ws k)
Apart-pop_at [] k h = h
Apart-pop_at (w ∷ ws) zero h = h.1
Apart-pop_at (w ∷ ws) (suc k) h = (All-pop_at _ ws k h.0, Apart-pop_at ws k h.1)

others :
    (ws : List (String × ℕ)) (k : ℕ) (w : String × ℕ)
    → get_elem? ws k ≡ some w
    → Apart ws
    → All (λ (v : String × ℕ). v.0 ≢ w.0) (pop_at ws k)
others [] k w e h = cc
others (v ∷ ws) zero w e h =
    subst (λ (u : String × ℕ). All (λ (v : String × ℕ). v.0 ≢ u.0) ws) (some-injective _ _ e) h.0
others (v ∷ ws) (suc k) w e h =
    ((λ p. All-get (λ (u : String × ℕ). u.0 ≢ v.0) ws k e h.0 (sym p)), others ws k w e h.1)

-- Before the bus stops, each coroutine that waits can be reached by its request id; once it has
-- stopped, each has its answer.
pub record IsReachable {B R : Type 0} (b : Bus B R) : Type 0 where
  pub live : b.stopped ≡ false → All (λ (w : String × ℕ). get b.replies w.0 ≡ some w.1) b.waiters
  pub apart : b.stopped ≡ false → Apart b.waiters
  pub over : b.stopped ≡ true → All (λ (w : String × ℕ). IsDone b.answers w.1) b.waiters

module _ {B R : Type 0} where
  pub IsReachable-stop : (b : Bus B R) → IsReachable b → IsReachable (stop_inbound b)
  unfolding stop_inbound
  IsReachable-stop b h = record {
    live = λ e. cc;
    apart = λ e. cc;
    over = λ e. elim (Bool-cases b.stopped) [
      | inl s ↦ All-map _ _ (λ w d. IsDone-wake_all b.replies w.1 b.answers d) b.waiters (h.over s)
      | inr s ↦ All-map _ _ (λ w g. all_woken b.replies w.0 w.1 b.answers g) b.waiters (h.live s)
    ];
  }

  IsReachable-answer_open :
      (o : Option (Answer R)) (f : ℕ) (a : Answer R) (b : Bus B R)
      → IsReachable b
      → IsReachable (answer_open o f a b).1
  IsReachable-answer_open (some old) f a b h = h
  IsReachable-answer_open none f a b h = record {
    live = h.live;
    apart = h.apart;
    over = λ s. All-map _ _ (λ w d. IsDone-assign b.answers f w.1 a d) b.waiters (h.over s);
  }

  pub IsReachable-answer_at :
      (o : Option ℕ) (a : Answer R) (b : Bus B R) → IsReachable b → IsReachable (answer_at o a b).1
  IsReachable-answer_at none a b h = h
  IsReachable-answer_at (some f) a b h = IsReachable-answer_open (lookup b.answers f) f a b h

  pub IsReachable-resume_at :
      (o : Option (String × ℕ)) (k : ℕ) (b : Bus B R)
      → get_elem? b.waiters k ≡ o
      → IsReachable b
      → IsReachable (resume_at o k b)
  IsReachable-resume_at none k b e h = h
  IsReachable-resume_at (some (rid, f)) k b e h = record {
    live = λ s.
        still (pop_at b.waiters k) (others b.waiters k (rid, f) e (h.apart s))
          (All-pop_at _ b.waiters k (h.live s));
    apart = λ s. Apart-pop_at b.waiters k (h.apart s);
    over = λ s. All-pop_at _ b.waiters k (h.over s);
  }
    where
      still :
          (ws : List (String × ℕ))
          → All (λ (v : String × ℕ). v.0 ≢ rid) ws
          → All (λ (w : String × ℕ). get b.replies w.0 ≡ some w.1) ws
          → All (λ (w : String × ℕ). get (remove b.replies rid) w.0 ≡ some w.1) ws
      still [] n g = tt
      still (w ∷ ws) n g = (
        get-remove rid w.0 b.replies ∙ (rw (ne_== rid w.0 (λ p. n.0 (sym p))) refl ∙ g.0),
        still ws n.1 g.1,
      )
