-- ===== src/Inbox/Tests.antt =====
-- The inbox theorems at concrete queues.
use ftre.Prelude.{
  ℕ, ◌+◌, String, ◌≡◌, refl, true, false, Option, none, some, List, [], ◌∷◌, arith, if◌then◌else◌,
  ◌==◌, String_key, ℕ_key,
}
use ftre.Prelude.Dict.{get, put}
use ftre.Json.{Json, text, num, Fields, list_of, Builtins, arr, obj}
use ftre.Inbox.Models.{user, next_turn, QueueItem, Inbox, validate, ids}
use ftre.Inbox.Models.Codec.{MsgCodec, inbox_to_json, inbox_from_json}
use ftre.Inbox.Models.RoundTrip.{IsReadable, inbox_from_json-inbox_to_json}
use ftre.Inbox.Repository.{
  find, promoted, pop_all, items_at, index_error, Repo, Config, ok, err, illegal_session, touch,
  state_of, enqueue, pending_count, legal_path,
}
use ftre.Inbox.Repository.Methods.{admit, claim, promote, save, commit}
use ftre.Inbox.Repository.History.{
  Call, admit_call, promote_call, empty_repo, perform_all, perform_all-IsSafe, empty_repo-IsSafe,
}
use ftre.Inbox.Repository.Enqueue.{HasJoined}
use ftre.Inbox.Repository.Safety.{IsSafe}
use ftre.Inbox.Repository.Claim.{total}
use ftre.Inbox.Repository.Claim.Conserves.{claim_pending, Claims}
use ftre.Inbox.Repository.Admission.{admit_again, claim_again, admit_new_lem, admit_illegal}

abbrev str : Json → String
str (text s) = s
str _ = ""

abbrev int : Json → Option ℕ
int (num n) = some n
int _ = none

abbrev dict : Json → Option Fields
dict (obj fs) = some fs
dict _ = none

abbrev iter : Json → Option (List Json)
iter (arr xs) = some (list_of xs)
iter _ = none

abbrev python : Builtins
python = record {
  str = str;
  int = int;
  dict = dict;
  iter = iter;
  str-text = λ s. refl;
  int-num = λ n. refl;
  dict-obj = λ fs. refl;
  iter-arr = λ xs. refl;
}

-- A message that is empty is refused.
abbrev read : Json → Option String
read (text s) = if s == "" then none else some s
read _ = none

abbrev texts : MsgCodec String
texts = record { dump = λ s. text s; read = read }

abbrev item : String → QueueItem String
item rid = record {
  request_id = rid;
  sequence = 0;
  session_id = "s1";
  channel_id = "ws";
  content = "hello";
  attachments = [];
  source = user;
  history_message_id = none;
  messages = "hello" ∷ [];
  agent_id = "default";
}

abbrev config : Config
config = record { capacity = 2; session_exists = none; request_seen = none }

abbrev calls : List (Call String)
calls =
    admit_call (item "a") next_turn ∷ admit_call (item "b") next_turn ∷ promote_call "s1" "b" ∷ []

abbrev busy : Repo String
busy = perform_all python texts config calls empty_repo

busy-IsSafe : IsSafe python texts busy
busy-IsSafe =
    perform_all-IsSafe python texts config calls empty_repo (refl, (refl, (tt, tt)))
      (empty_repo-IsSafe python texts)

perform_all-IsSafe_example : IsSafe python texts busy
perform_all-IsSafe_example =
    perform_all-IsSafe python texts config calls empty_repo (refl, (refl, (tt, tt)))
      (empty_repo-IsSafe python texts)

-- Promotion moved the second request, and its place on disk with it.
busy_steps :
    (ids (state_of busy "s1").steps ≡ "b" ∷ []) × (ids (state_of busy "s1").turns ≡ "a" ∷ [])
unfolding perform_all admit promote find state_of get put save commit enqueue promoted legal_path
    validate inbox_to_json
busy_steps = (refl, refl)

busy_totals : (total "a" (state_of busy "s1") ≡ 1) × (total "b" (state_of busy "s1") ≡ 1)
unfolding perform_all admit promote find state_of get put save commit enqueue promoted legal_path
    validate inbox_to_json
busy_totals = (refl, refl)

legal_s1 : legal_path "s1" ≡ true
unfolding legal_path
legal_s1 = refl

claim_pending_example :
    (claimed : List (QueueItem String)) × Claims python texts busy "s1" ("b" ∷ "a" ∷ []) claimed
claim_pending_example =
    claim_pending python texts busy busy-IsSafe "s1" ("b" ∷ "a" ∷ []) legal_s1 refl
      (omega (arith, busy_totals))

abbrev claimed_a : Repo String
claimed_a = (claim python texts "s1" ("a" ∷ []) busy).1

-- A request that is named twice raises once it was popped: memory has lost it, the disk has not.
claimed_twice :
    ((claim python texts "s1" ("b" ∷ "b" ∷ []) busy).0 ≡ err index_error)
    × ((state_of (claim python texts "s1" ("b" ∷ "b" ∷ []) busy).1 "s1").steps ≡ [])
    × ((claim python texts "s1" ("b" ∷ "b" ∷ []) busy).1.disk ≡ busy.disk)
unfolding perform_all admit promote claim pop_all items_at find state_of get put save commit enqueue
    promoted legal_path validate inbox_to_json
claimed_twice = (refl, refl, refl)

claim_again_example :
    ((claim python texts "s1" ("a" ∷ "b" ∷ []) claimed_a).0 ≡ ok [])
    × ((j : String)
        → state_of (claim python texts "s1" ("a" ∷ "b" ∷ []) claimed_a).1 j ≡ state_of claimed_a j)
    × ((claim python texts "s1" ("a" ∷ "b" ∷ []) claimed_a).1.disk ≡ claimed_a.disk)
claim_again_example =
    claim_again python texts busy busy-IsSafe "s1" "a" ("a" ∷ []) ("a" ∷ "b" ∷ []) legal_s1 refl
      (omega (arith, busy_totals)) refl refl

abbrev fresh : Repo String
fresh = empty_repo

fresh-IsSafe : IsSafe python texts fresh
fresh-IsSafe = empty_repo-IsSafe python texts

fresh-total : (total "a" (state_of fresh "s1") ≡ 0) × (pending_count (state_of fresh "s1") ≡ 0)
unfolding state_of get
fresh-total = (refl, refl)

admit_new_lem_example :
    ((admit python texts config (item "a") next_turn fresh).0
      ≡ ok (true, pending_count (state_of fresh "s1") + 1))
    × HasJoined next_turn
        (item "a")
        (state_of fresh "s1")
        (state_of (admit python texts config (item "a") next_turn fresh).1 "s1")
    × ((j : String)
        → ("s1" == j) ≡ false
        → state_of (admit python texts config (item "a") next_turn fresh).1 j ≡ state_of fresh j)
admit_new_lem_example =
    admit_new_lem python texts fresh config (item "a") next_turn refl fresh-total.0 refl
      (fresh-IsSafe.valid "s1") (fresh-IsSafe.keyed "s1") refl (omega (arith, fresh-total)) legal_s1
      refl

abbrev stray : QueueItem String
stray = record (item "a") { session_id = "../s" }

stray_facts :
    (legal_path "../s" ≡ false)
    × (total "a" (state_of fresh "../s") ≡ 0)
    × (pending_count (state_of fresh "../s") ≡ 0)
unfolding legal_path state_of get
stray_facts = (refl, refl, refl)

admit_illegal_example :
    ((admit python texts config stray next_turn fresh).0 ≡ err illegal_session)
    × HasJoined next_turn stray
        (state_of fresh "../s")
        (state_of (admit python texts config stray next_turn fresh).1 "../s")
    × ((admit python texts config stray next_turn fresh).1.disk ≡ fresh.disk)
admit_illegal_example =
    admit_illegal python texts fresh config stray next_turn refl stray_facts.1 refl
      (fresh-IsSafe.valid "../s") (fresh-IsSafe.keyed "../s") refl (omega (arith, stray_facts))
      stray_facts.0

abbrev waiting : Inbox String
waiting = record {
  session_id = "s1";
  revision = 4;
  next_sequence = 9;
  turns = record (item "a") { sequence = 3 } ∷ record (item "b") { sequence = 7 } ∷ [];
  steps = record (item "c") { sequence = 5 } ∷ [];
}

readable : (rid : String) (n : ℕ) → IsReadable texts (record (item rid) { sequence = n })
readable rid n = record { messages = (refl, tt); history = λ e. cc; agent = λ e. cc }

inbox_from_json-inbox_to_json_example :
    inbox_from_json python texts (inbox_to_json python texts waiting) ≡ some waiting
unfolding validate
inbox_from_json-inbox_to_json_example =
    inbox_from_json-inbox_to_json python texts waiting (readable "a" 3, (readable "b" 7, tt))
      (readable "c" 5, tt) refl

admit_again_example :
    (n : ℕ) × (admit python texts config (item "a") next_turn busy
      ≡ (ok (false, n), touch "s1" busy))
admit_again_example =
    admit_again python texts busy config (item "a") next_turn refl (omega (arith, busy_totals))

-- The disk is full.
abbrev full : Repo String
full = record fresh { disk_fails = true }
