-- ===== src/Inbox/Repository/Claim/Located.antt =====
-- The places at which `claim` of repository.py finds its requests.
use ftre.Prelude.{
  ◌<◌, String, ◌≡◌, ◌≢◌, refl, ap, sym, true, false, some, List, [], ◌∷◌, arith, String_key, ℕ_key,
  All, inl, inr, contains, all_distinct, traverse, traverse-cons, Option-cases, ==_ne,
}
use mathlib.Core.Path.{subst, ap₂}
use mathlib.Core.Option.{some-injective}
use ftre.Inbox.Models.{Inbox, ids}
use ftre.Inbox.Repository.{Location, find, item_at, items_at, pop_all, by_index}
use ftre.Inbox.Repository.Find.{find-item_at, find-none}
use ftre.Inbox.Repository.Claim.{AllDistinct, IsPresent, total, pop_all-by_index}

module _ {M : Type 0} where
  -- Two requests that are found at one place are one.
  find_same :
      (s : Inbox M) (x y : String) (l m : Location)
      → find s x ≡ some l
      → find s y ≡ some m
      → m ≡ l
      → x ≡ y
  find_same s x y l m p q e =
      let (a, at, ax) = find-item_at s x l p in
      let (b, bt, by) = find-item_at s y m q in cc (ap (item_at s) e)

  -- Each place is where its request is found.
  abbrev pub Located : Inbox M → List String → List Location → Type 0
  Located s [] [] = Unit
  Located s (x ∷ xs) (l ∷ ls) = (find s x ≡ some l) × Located s xs ls
  Located s _ _ = ⊥

  pub traverse-Located :
      (s : Inbox M) (rids : List String) (ls : List Location)
      → traverse (find s) rids ≡ some ls
      → Located s rids ls
  traverse-Located s [] ls h = subst (Located s []) (some-injective _ _ h) tt
  traverse-Located s (x ∷ rids) ls h =
      let (l, ms, p, q, e) = traverse-cons (find s) x rids h in
      subst (Located s (x ∷ rids)) (sym e) (p, traverse-Located s rids ms q)

  fresh_place :
      (s : Inbox M) (x : String) (l : Location) (rids : List String) (ls : List Location)
      → find s x ≡ some l
      → Located s rids ls
      → contains x rids ≡ false
      → All (λ m. m ≢ l) ls
  fresh_place s x l [] [] p h c = tt
  fresh_place s x l (y ∷ rids) (m ∷ ls) p (q, h) c = (
    λ e. ground (arith, ==_ne y x, sym (find_same s x y l m p q e)),
    fresh_place s x l rids ls p h (ground arith),
  )
  fresh_place s x l [] (m ∷ ls) p h c = elim h [ ]
  fresh_place s x l (y ∷ rids) [] p h c = elim h [ ]

  pub AllDistinct-Located :
      (s : Inbox M) (rids : List String) (ls : List Location)
      → Located s rids ls
      → all_distinct rids ≡ true
      → AllDistinct ls
  AllDistinct-Located s [] [] h d = tt
  AllDistinct-Located s (x ∷ rids) (l ∷ ls) (p, h) d =
      (fresh_place s x l rids ls p h (ground arith), AllDistinct-Located s rids ls h (ground arith))
  AllDistinct-Located s [] (m ∷ ls) h d = elim h [ ]
  AllDistinct-Located s (y ∷ rids) [] h d = elim h [ ]

  -- The places that are found hold the requests, in the order of the call.
  pub items_at-Located :
      (s : Inbox M) (rids : List String) (ls : List Location)
      → Located s rids ls
      → All (IsPresent s) ls × (ids (items_at s ls) ≡ rids)
  unfolding items_at
  items_at-Located s [] [] h = (tt, refl)
  items_at-Located s (x ∷ rids) (l ∷ ls) (p, h) =
      let (q, at, same) = find-item_at s x l p in
      let (present, named) = items_at-Located s rids ls h in
      (((q, at), present), rw at (ap₂ (λ (y : String) (ys : List String). y ∷ ys) same named))
  items_at-Located s [] (m ∷ ls) h = elim h [ ]
  items_at-Located s (y ∷ rids) [] h = elim h [ ]

  pub traverse-find :
      (s : Inbox M) (rids : List String)
      → All (λ x. 0 < total x s) rids
      → (ls : List Location) × (traverse (find s) rids ≡ some ls)
  traverse-find s [] h = ([], refl)
  traverse-find s (x ∷ rids) h = elim (Option-cases (find s x)) [
    | inl n ↦ absurd (omega (arith, find-none s x n))
    | inr (l, p) ↦ let (ls, q) = traverse-find s rids h.1 in (l ∷ ls, rw (p, q))
  ]

  -- Distinct requests that are found are popped without an IndexError.
  pub pop_all-found :
      (s : Inbox M) (rids : List String) (ls : List Location)
      → traverse (find s) rids ≡ some ls
      → all_distinct rids ≡ true
      → (pop_all s (by_index ls)).0 ≡ true
  pop_all-found s rids ls found d =
      let located = traverse-Located s rids ls found in
      pop_all-by_index ls s (AllDistinct-Located s rids ls located d)
        (items_at-Located s rids ls located).0
