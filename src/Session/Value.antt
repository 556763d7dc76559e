-- ===== src/Session/Value.antt =====
-- Python values as callers hand them to the session log, and the two traversals of
-- packages/ftre-agent/src/ftre_agent/session/log.py over them.
pub mod Pure
use ftre.Prelude.{
  ℕ, String, ◌≡◌, refl, ap, ap₂, Bool, true, false, Option, none, some, ◌==◌, String_key, ℕ_key,
  not, if◌then◌else◌, ◌>>=◌, arith, Bool-cases, inl, inr,
}

mutual
  pub data PyValue : Type 0 where
    none_value : PyValue
    bool : Bool → PyValue
    int : ℕ → PyValue
    text : String → PyValue
    -- A float by its digits; `nan` and the infinities are `odd_float`.
    float : String → PyValue
    odd_float : String → PyValue
    list : PyList → PyValue
    dict : PyDict → PyValue
    -- An object of any other class, by its class's name.
    object : String → PyValue

  pub data PyList : Type 0 where
    nil : PyList
    cons : PyValue → PyList → PyList

  pub data PyDict : Type 0 where
    end : PyDict
    entry : String → PyValue → PyDict → PyDict
    -- An entry whose key is no `str`.
    odd_entry : PyValue → PyDict → PyDict

-- payload.get(key); an object that is no dict has no `get`.
abbrev pub field : PyDict → String → PyValue
field end k = none_value
field (entry j v d) k = if j == k then v else field d k
field (odd_entry v d) k = field d k

-- bool(value)
abbrev pub truthy : PyValue → Bool
truthy none_value = false
truthy (bool b) = b
truthy (int n) = not (n == 0)
truthy (text s) = not (s == "")
truthy (list nil) = false
truthy (dict end) = false
truthy (float s) = not (s == "0.0")
truthy _ = true

unfoldable mutual
  -- `_snapshot_json`; `none` is a TypeError.
  pub snapshot_json : PyValue → Option PyValue
  snapshot_json none_value = some none_value
  snapshot_json (bool b) = some (bool b)
  snapshot_json (int n) = some (int n)
  snapshot_json (text s) = some (text s)
  snapshot_json (float s) = some (float s)
  snapshot_json (odd_float s) = none
  snapshot_json (list xs) = do ys ← snapshot_list xs; some (list ys)
  snapshot_json (dict d) = do e ← snapshot_dict d; some (dict e)
  snapshot_json (object c) = none

  pub snapshot_list : PyList → Option PyList
  snapshot_list nil = some nil
  snapshot_list (cons x xs) = do y ← snapshot_json x; ys ← snapshot_list xs; some (cons y ys)

  pub snapshot_dict : PyDict → Option PyDict
  snapshot_dict end = some end
  snapshot_dict (entry k v d) = do w ← snapshot_json v; e ← snapshot_dict d; some (entry k w e)
  snapshot_dict (odd_entry v d) = none

unfoldable mutual
  -- `_strip_ids` of `request_fingerprint`.
  pub strip_ids : PyValue → PyValue
  strip_ids (list xs) = list (strip_list xs)
  strip_ids (dict d) = dict (strip_dict d)
  strip_ids v = v

  pub strip_list : PyList → PyList
  strip_list nil = nil
  strip_list (cons x xs) = cons (strip_ids x) (strip_list xs)

  pub strip_dict : PyDict → PyDict
  strip_dict end = end
  strip_dict (entry k v d) =
      let rest = strip_dict d in if k == "id" then rest else entry k (strip_ids v) rest
  strip_dict (odd_entry v d) = odd_entry (strip_ids v) (strip_dict d)

mutual
  -- What JSON can hold: no odd float, no other object, and only texts as keys.
  pub data IsPure : PyValue → Type 0 where
    pure_none : IsPure none_value
    pure_bool : (b : Bool) → IsPure (bool b)
    pure_int : (n : ℕ) → IsPure (int n)
    pure_text : (s : String) → IsPure (text s)
    pure_float : (s : String) → IsPure (float s)
    pure_list : {xs : PyList} → IsPureList xs → IsPure (list xs)
    pure_dict : {d : PyDict} → IsPureDict d → IsPure (dict d)

  pub data IsPureList : PyList → Type 0 where
    pure_nil : IsPureList nil
    pure_cons : {x : PyValue} {xs : PyList} → IsPure x → IsPureList xs → IsPureList (cons x xs)

  pub data IsPureDict : PyDict → Type 0 where
    pure_end : IsPureDict end
    pure_entry :
        {k : String} {v : PyValue} {d : PyDict} → IsPure v → IsPureDict d → IsPureDict (entry k v d)
