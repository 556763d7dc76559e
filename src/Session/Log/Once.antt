-- ===== src/Session/Log/Once.antt =====
-- Repeated calls of `append_user_message` of log.py.
use ftre.Prelude.{
  ℕ, String, ◌≡◌, ◌≢◌, refl, subst, Option, none, some, List, [], ◌==◌, String_key, if◌then◌else◌,
  Bool-cases, inl, inr, ne_==, ==_refl,
}
use ftre.Prelude.Dict.{get, get-put}
use ftre.Session.Value.{PyValue, dict, text, snapshot_json, PyDict, end, entry}
use ftre.Session.Value.Pure.{snapshot_json-IsPure}
use ftre.Session.Log.{Event, Result, ok, err, bound_otherwise, Outside, Log, or_empty}
use ftre.Session.Log.Append.{
  Appended, as_some, append, reindex, publish, append, admissible, publish_if, append_payload,
  user_data, append_user_message, request_fingerprint, is_known, same_or_absent, str_field,
  message_id_of,
}

module _ (out : Outside) (rid : String) (content : PyValue) (metadata : PyDict)
    (named : rid ≢ "") where
  -- The indexes hold the request.
  pub record IsCommitted (log : Log) : Type 0 where
    pub known : (m : String) × (get log.user_requests rid ≡ some m)
    pub marked : get log.fingerprints rid ≡ some (request_fingerprint out content)

  request_id_of :
      str_field out
        (entry "content" content
          (entry "metadata" (dict metadata) (entry "request_id" (text rid) end)))
        "request_id"
      ≡ rid
  unfolding str_field
  request_id_of = rw (ne_== rid "" named) (out.str-text rid)

  IsCommitted-publish :
      (e : Event) (log : Log)
      → e.type_ ≡ "user/message"
      → e.content ≡ user_data out content metadata rid
      → IsCommitted (publish out e log).1
  unfolding publish reindex
  IsCommitted-publish e log t c =
      rw (t, c, request_id_of, ne_== rid "" named)
        record {
          known = (or_empty e.message_id, rw (get-put, ==_refl rid) refl);
          marked = rw (get-put, ==_refl rid) refl;
        }

  abbrev Commits : Result (Option Event) × Log × List ℕ → Type 0
  Commits (ok (some e), log, who) = IsCommitted log
  Commits _ = Unit

  abbrev CommitsPlain : Appended out → Type 0
  CommitsPlain (ok e, log, who) = IsCommitted log
  CommitsPlain (err x, log, who) = Unit

  Commits-as_some : (r : Appended out) → CommitsPlain r → Commits (as_some out r)
  Commits-as_some (ok e, log, who) h = h
  Commits-as_some (err x, log, who) h = tt

  plain : (r : Appended out) → IsCommitted r.1 → CommitsPlain r
  plain (ok e, log, who) h = h
  plain (err x, log, who) h = tt

  Commits-publish_if :
      (r : Result (Unit {0})) (e : Event) (log : Log)
      → e.type_ ≡ "user/message"
      → e.content ≡ user_data out content metadata rid
      → CommitsPlain (publish_if out r e log)
  Commits-publish_if (err x) e log t c = tt
  Commits-publish_if (ok u) e log t c = plain (publish out e log) (IsCommitted-publish e log t c)

  Commits-append_payload :
      (o : Option PyValue) (now : ℕ) (mid : Option String) (log : Log)
      → ((w : PyValue) → o ≡ some w → w ≡ user_data out content metadata rid)
      → CommitsPlain (append_payload out "user/message" now mid o log)
  Commits-append_payload none now mid log same = tt
  Commits-append_payload (some w) now mid log same =
      Commits-publish_if (admissible out "user/message" w log) _ log refl (same w refl)

  Commits-append :
      (mid : Option String) (now : ℕ) (log : Log)
      → CommitsPlain (append out "user/message" (user_data out content metadata rid) mid now log)
  unfolding append
  Commits-append mid now log = elim (Bool-cases log.appending) [
    | inl e ↦ simp e tt
    | inr e ↦ simp e (
        Commits-append_payload (snapshot_json (user_data out content metadata rid)) now mid log
          (λ w h. (snapshot_json-IsPure (user_data out content metadata rid) w h).0))
  ]

  Commits-append_user_message :
      (mid : Option String) (fresh : String) (now : ℕ) (log : Log)
      → Commits (append_user_message out rid content metadata mid fresh now log)
  unfolding append_user_message
  Commits-append_user_message mid fresh now log = elim (Bool-cases (is_known out rid log)) [
    | inl e ↦
        rw e
          (elim (Bool-cases
            (same_or_absent out (get log.fingerprints rid) (request_fingerprint out content))) [
              | inl f ↦ rw f tt
              | inr f ↦ rw f tt
            ])
    | inr e ↦ rw e (
        Commits-as_some
          (append out "user/message" (user_data out content metadata rid)
            (some (message_id_of out mid log.session_id rid fresh)) now log)
          (Commits-append (some (message_id_of out mid log.session_id rid fresh)) now log))
  ]

  repeated :
      (again : PyValue) (metadata2 : PyDict) (mid : Option String) (fresh : String) (now : ℕ)
      (log : Log)
      → IsCommitted log
      → append_user_message out rid again metadata2 mid fresh now log ≡ (
          if request_fingerprint out content == request_fingerprint out again
          then (ok none, log, [])
          else (err bound_otherwise, log, []))
  unfolding append_user_message
  repeated again metadata2 mid fresh now log h = rw (h.known.1, h.marked, ne_== rid "" named) refl

  -- Once a message with a request id is appended, a call with the same id appends nothing and
  -- tells no subscriber: it is answered without an event where its content has the fingerprint of
  -- the first one's, and refused otherwise.
  pub append_user_message-twice :
      (again : PyValue) (metadata2 : PyDict) (mid mid2 : Option String) (fresh fresh2 : String)
      (now now2 : ℕ) (log log2 : Log) (e : Event) (who : List ℕ)
      → append_user_message out rid content metadata mid fresh now log ≡ (ok (some e), log2, who)
      → append_user_message out rid again metadata2 mid2 fresh2 now2 log2 ≡ (
          if request_fingerprint out content == request_fingerprint out again
          then (ok none, log2, [])
          else (err bound_otherwise, log2, []))
  append_user_message-twice again metadata2 mid mid2 fresh fresh2 now now2 log log2 e who h =
      repeated again metadata2 mid2 fresh2 now2 log2
        (subst Commits h (Commits-append_user_message mid fresh now log))
