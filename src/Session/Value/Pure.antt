-- ===== src/Session/Value/Pure.antt =====
-- `_snapshot_json` of log.py and the JSON values, and the stripping of ids.
use ftre.Prelude.{
  ◌≡◌, refl, ap, ap₂, Option, none, some, String, ◌==◌, String_key, ◌>>=◌, Bool-cases, inl, inr,
  subst,
}
use ftre.Session.Value.{
  PyValue, none_value, bool, int, text, float, odd_float, list, dict, object, PyList, nil, cons,
  PyDict, end, entry, odd_entry, snapshot_json, snapshot_list, snapshot_dict, strip_ids, strip_list,
  strip_dict, IsPure, pure_none, pure_bool, pure_int, pure_text, pure_float, pure_list, pure_dict,
  IsPureList, pure_nil, pure_cons, IsPureDict, pure_end, pure_entry,
}

abbrev Copies : (P : PyValue → Type 0) → PyValue → Option PyValue → Type 0
Copies P v none = Unit
Copies P v (some w) = (w ≡ v) × P v

abbrev CopiesList : PyList → Option PyList → Type 0
CopiesList xs none = Unit
CopiesList xs (some ys) = (ys ≡ xs) × IsPureList xs

abbrev CopiesDict : PyDict → Option PyDict → Type 0
CopiesDict d none = Unit
CopiesDict d (some e) = (e ≡ d) × IsPureDict d

copies_list :
    (xs : PyList) (o : Option PyList)
    → CopiesList xs o
    → Copies IsPure (list xs) (o >>= λ ys. some (list ys))
copies_list xs none h = tt
copies_list xs (some ys) (e, p) = (ap list e, pure_list p)

copies_dict :
    (d : PyDict) (o : Option PyDict)
    → CopiesDict d o
    → Copies IsPure (dict d) (o >>= λ e. some (dict e))
copies_dict d none h = tt
copies_dict d (some e) (p, q) = (ap dict p, pure_dict q)

Copies-cons :
    (x : PyValue) (xs : PyList) (o : Option PyValue) (os : Option PyList)
    → Copies IsPure x o
    → CopiesList xs os
    → CopiesList (cons x xs) (o >>= λ y. os >>= λ ys. some (cons y ys))
Copies-cons x xs none os h k = tt
Copies-cons x xs (some y) none h k = tt
Copies-cons x xs (some y) (some ys) (e, p) (f, q) = (ap₂ cons e f, pure_cons p q)

Copies-entry :
    (k : String) (v : PyValue) (d : PyDict) (o : Option PyValue) (os : Option PyDict)
    → Copies IsPure v o
    → CopiesDict d os
    → CopiesDict (entry k v d) (o >>= λ w. os >>= λ e. some (entry k w e))
Copies-entry k v d none os h g = tt
Copies-entry k v d (some y) none h g = tt
Copies-entry k v d (some y) (some ys) (e, p) (f, q) = (ap₂ (entry k) e f, pure_entry p q)

mutual
  unfolding snapshot_json

  copies : (v : PyValue) → Copies IsPure v (snapshot_json v)
  copies none_value = (refl, pure_none)
  copies (bool b) = (refl, pure_bool b)
  copies (int n) = (refl, pure_int n)
  copies (text s) = (refl, pure_text s)
  copies (float s) = (refl, pure_float s)
  copies (odd_float s) = tt
  copies (list xs) = copies_list xs (snapshot_list xs) (copies_items xs)
  copies (dict d) = copies_dict d (snapshot_dict d) (copies_fields d)
  copies (object c) = tt

  copies_items : (xs : PyList) → CopiesList xs (snapshot_list xs)
  copies_items nil = (refl, pure_nil)
  copies_items (cons x xs) =
      Copies-cons x xs (snapshot_json x) (snapshot_list xs) (copies x) (copies_items xs)

  copies_fields : (d : PyDict) → CopiesDict d (snapshot_dict d)
  copies_fields end = (refl, pure_end)
  copies_fields (entry k v d) =
      Copies-entry k v d (snapshot_json v) (snapshot_dict d) (copies v) (copies_fields d)
  copies_fields (odd_entry v d) = tt

mutual
  unfolding snapshot_json

  copied : (v : PyValue) → IsPure v → snapshot_json v ≡ some v
  copied none_value p = refl
  copied (bool b) p = refl
  copied (int n) p = refl
  copied (text s) p = refl
  copied (float s) p = refl
  copied (list xs) (pure_list p) = rw (copied_items xs p)
  copied (dict d) (pure_dict p) = rw (copied_fields d p)
  copied (odd_float s) p = elim p [ ]
  copied (object c) p = elim p [ ]

  copied_items : (xs : PyList) → IsPureList xs → snapshot_list xs ≡ some xs
  copied_items nil p = refl
  copied_items (cons x xs) (pure_cons p q) = rw (copied x p, copied_items xs q)

  copied_fields : (d : PyDict) → IsPureDict d → snapshot_dict d ≡ some d
  copied_fields end p = refl
  copied_fields (entry k v d) (pure_entry p q) = rw (copied v p, copied_fields d q)
  copied_fields (odd_entry v d) p = elim p [ ]

-- What is accepted is an equal copy of a JSON value.
pub snapshot_json-IsPure : (v w : PyValue) → snapshot_json v ≡ some w → (w ≡ v) × IsPure v
snapshot_json-IsPure v w h = subst (Copies IsPure v) h (copies v)

-- Every JSON value is accepted.
pub snapshot_json_of_IsPure : (v : PyValue) → IsPure v → snapshot_json v ≡ some v
snapshot_json_of_IsPure v p = copied v p

mutual
  unfolding strip_ids

  stripped : (v : PyValue) → strip_ids (strip_ids v) ≡ strip_ids v
  stripped (list xs) = ap list (stripped_items xs)
  stripped (dict d) = ap dict (stripped_fields d)
  stripped none_value = refl
  stripped (bool b) = refl
  stripped (int n) = refl
  stripped (text s) = refl
  stripped (float s) = refl
  stripped (odd_float s) = refl
  stripped (object c) = refl

  stripped_items : (xs : PyList) → strip_list (strip_list xs) ≡ strip_list xs
  stripped_items nil = refl
  stripped_items (cons x xs) = ap₂ cons (stripped x) (stripped_items xs)

  stripped_fields : (d : PyDict) → strip_dict (strip_dict d) ≡ strip_dict d
  stripped_fields end = refl
  stripped_fields (entry k v d) = elim (Bool-cases (k == "id")) [
    | inl e ↦ rw e (stripped_fields d)
    | inr e ↦ rw e (rw e (ap₂ (entry k) (stripped v) (stripped_fields d)))
  ]
  stripped_fields (odd_entry v d) = ap₂ odd_entry (stripped v) (stripped_fields d)
