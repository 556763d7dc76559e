-- ===== src/Bus/Requests.antt =====
-- Requests of the bus of bus.py.
use ftre.Prelude.{
  ℕ, suc, String, ◌≡◌, ◌≢◌, refl, ap, sym, ◌∙◌, false, Option, none, some, List, [], ◌∷◌, ◌++◌,
  ◌==◌, String_key, Bool-cases, inl, inr, All, All-map, ==_refl, ne_==,
}
use ftre.Prelude.Dict.{get, put, remove, get-put, get-remove}
use ftre.Bus.{Message, Bus, apply, is_valid, request_inbound, request_new, request_filtered}
use ftre.Bus.Steps.{IsReachable}

module _ {B R : Type 0} where
  module _ (b : Bus B R) (h : IsReachable b) (running : b.stopped ≡ false) (rid : String)
      (free : get b.replies rid ≡ none) where
    not_waiting :
        (ws : List (String × ℕ))
        → All (λ (w : String × ℕ). get b.replies w.0 ≡ some w.1) ws
        → All (λ (w : String × ℕ). w.0 ≢ rid) ws
    not_waiting ws g = All-map _ _ (λ w e p. absurd (clash w e p)) ws g
      where
        clash : (w : String × ℕ) → get b.replies w.0 ≡ some w.1 → w.0 ≡ rid → ⊥
        clash w e p =
            let taken : get b.replies rid ≡ some w.1 = ap (λ k. get b.replies k) (sym p) ∙ e in cc

    IsReachable-withdrawn :
        IsReachable (record b { replies = remove (put b.replies rid b.next_future) rid })
    IsReachable-withdrawn = record {
      live = λ s. still b.waiters (not_waiting b.waiters (h.live running)) (h.live running);
      apart = h.apart;
      over = h.over;
    }
      where
        still :
            (ws : List (String × ℕ))
            → All (λ (w : String × ℕ). w.0 ≢ rid) ws
            → All (λ (w : String × ℕ). get b.replies w.0 ≡ some w.1) ws
            → All
                (λ (w : String × ℕ).
                  get (remove (put b.replies rid b.next_future) rid) w.0 ≡ some w.1)
                ws
        still [] n g = tt
        still (w ∷ ws) n g =
            let other : (rid == w.0) ≡ false = ne_== rid w.0 (λ p. n.0 (sym p)) in
            (rw (get-remove, get-put, other) g.0, still ws n.1 g.1)

    IsReachable-waiting :
        (queue : List (Message B))
        → IsReachable (record b {
          inbound = queue;
          replies = put b.replies rid b.next_future;
          waiters = (rid, b.next_future) ∷ b.waiters;
          next_future = suc b.next_future;
        })
    IsReachable-waiting queue = record {
      live = λ s. (
        get-put rid rid b.next_future b.replies ∙ rw (==_refl rid),
        still b.waiters (not_waiting b.waiters (h.live running)) (h.live running),
      );
      apart = λ s. (not_waiting b.waiters (h.live running), h.apart running);
      over = λ s. cc;
    }
      where
        still :
            (ws : List (String × ℕ))
            → All (λ (w : String × ℕ). w.0 ≢ rid) ws
            → All (λ (w : String × ℕ). get b.replies w.0 ≡ some w.1) ws
            → All (λ (w : String × ℕ). get (put b.replies rid b.next_future) w.0 ≡ some w.1) ws
        still [] n g = tt
        still (w ∷ ws) n g =
            let other : (rid == w.0) ≡ false = ne_== rid w.0 (λ p. n.0 (sym p)) in
            (rw (get-put, other) g.0, still ws n.1 g.1)

    IsReachable-request_filtered :
        (o : Option (Message B))
        → IsReachable
            (request_filtered o rid (record b { replies = put b.replies rid b.next_future })).1
    IsReachable-request_filtered none = IsReachable-withdrawn
    IsReachable-request_filtered (some msg) = elim (Bool-cases (is_valid msg)) [
      | inl e ↦ simp e (IsReachable-waiting (b.inbound ++ msg ∷ []))
      | inr e ↦ simp e IsReachable-withdrawn
    ]

  IsReachable-request_new :
      (o : Option ℕ) (msg : Message B) (b : Bus B R)
      → get b.replies msg.id ≡ o
      → b.stopped ≡ false
      → IsReachable b
      → IsReachable (request_new o msg b).1
  IsReachable-request_new (some f) msg b e s h = h
  IsReachable-request_new none msg b e s h =
      IsReachable-request_filtered b h s msg.id e (apply b.inbound_middlewares (some msg))

  pub IsReachable-request :
      (msg : Message B) (b : Bus B R) → IsReachable b → IsReachable (request_inbound msg b).1
  unfolding request_inbound
  IsReachable-request msg b h = elim (Bool-cases b.stopped) [
    | inl s ↦ simp s h
    | inr s ↦ simp s (IsReachable-request_new (get b.replies msg.id) msg b refl s h)
  ]
