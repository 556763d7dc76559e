-- ===== src/Json.antt =====
-- JSON documents, as `json.loads` yields them, and the Python built-ins that the repository's
-- readers apply to them. Numbers are the non-negative integers, the only ones that it writes.
use ftre.Prelude.{
  ℕ, String, ◌≡◌, refl, Bool, true, false, not, Option, none, some, List, [], ◌∷◌, if◌then◌else◌,
  ◌==◌, String_key, ℕ_key, ap,
}

mutual
  pub data Json : Type 0 where
    null : Json
    bool : Bool → Json
    num : ℕ → Json
    text : String → Json
    arr : Items → Json
    obj : Fields → Json

  pub data Items : Type 0 where
    nil : Items
    cons : Json → Items → Items

  pub data Fields : Type 0 where
    end : Fields
    field : String → Json → Fields → Fields

abbrev pub items_of : List Json → Items
items_of [] = nil
items_of (x ∷ xs) = cons x (items_of xs)

abbrev pub list_of : Items → List Json
list_of nil = []
list_of (cons x xs) = x ∷ list_of xs

pub list_of-items_of : (xs : List Json) → list_of (items_of xs) ≡ xs
list_of-items_of [] = refl
list_of-items_of (x ∷ xs) = ap (λ (t : List Json). x ∷ t) (list_of-items_of xs)

-- value.get(key) on a dict
abbrev pub member : Fields → String → Option Json
member end k = none
member (field j v fs) k = if j == k then some v else member fs k

-- value.get(key, default)
abbrev pub member_or : Fields → String → Json → Json
member_or fs k default = elim (member fs k) [ none ↦ default | some v ↦ v ]

-- bool(value)
abbrev pub truthy : Json → Bool
truthy null = false
truthy (bool b) = b
truthy (num n) = not (n == 0)
truthy (text s) = not (s == "")
truthy (arr nil) = false
truthy (arr (cons x xs)) = true
truthy (obj end) = false
truthy (obj (field k v fs)) = true

-- value.get(key), where a missing key reads as None
abbrev pub member_or_null : Fields → String → Json
member_or_null fs k = member_or fs k null

-- `str`, `int`, `dict` and iteration are Python's: only what they do to a value of their own kind
-- is used. `none` is an exception.
pub record Builtins : Type 0 where
  pub str : Json → String
  pub int : Json → Option ℕ
  pub dict : Json → Option Fields
  pub iter : Json → Option (List Json)
  pub str-text : (s : String) → str (text s) ≡ s
  pub int-num : (n : ℕ) → int (num n) ≡ some n
  pub dict-obj : (fs : Fields) → dict (obj fs) ≡ some fs
  pub iter-arr : (xs : Items) → iter (arr xs) ≡ some (list_of xs)
