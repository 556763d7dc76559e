-- ===== src/Runtime/Completion.antt =====
-- packages/ftre-agent-runtime/src/ftre_agent_runtime/completion.py: who waits for the end of a
-- request. A future is a number into the table of answers; one without an answer is not done.
-- A coroutine that waits is its request's key and its future.
mod Woken
mod Cache
mod Tests
use ftre.Prelude.{
  ℕ, suc, String, Bool, true, false, Option, none, some, List, [], ◌∷◌, ◌++◌, if◌then◌else◌, ◌==◌,
  ℕ_key, get_elem?, pop_at, leb, length, contains,
}
use ftre.Prelude.Map.{Map, find, store, erase, pair_key}
use ftre.Prelude.Table.{Table, lookup, assign}

-- The session and the request.
abbrev pub RequestKey : Type 0
RequestKey = String × String

pub data Answer (O : Type 0) : Type 0 where
  outcome : O → Answer O
  closed : Answer O

pub record CompletionRegistry (O : Type 0) : Type 0 where
  pub waiters : Map RequestKey (List ℕ)
  pub cache : Map RequestKey O
  pub answers : Table (Answer O)
  pub next_future : ℕ
  pub waiting : List (RequestKey × ℕ)

-- `_CACHE_LIMIT`
abbrev pub cache_limit : ℕ
cache_limit = 256

abbrev pub or_none_wait : Option (List ℕ) → List ℕ
or_none_wait none = []
or_none_wait (some fs) = fs

-- `waiters.remove(future)`, the first that is equal.
abbrev pub removed : ℕ → List ℕ → List ℕ
removed f [] = []
removed f (g ∷ fs) = let rest = removed f fs in if g == f then fs else g ∷ rest

-- The `finally` of `wait`, where the list of the key is there; a list that becomes empty goes.
abbrev pub keep_rest : List ℕ → RequestKey → Map RequestKey (List ℕ) → Map RequestKey (List ℕ)
keep_rest [] k d = erase d k
keep_rest (f ∷ fs) k d = store d k (f ∷ fs)

abbrev pub leave_list :
    Option (List ℕ) → RequestKey → ℕ → Map RequestKey (List ℕ) → Map RequestKey (List ℕ)
leave_list none k f d = d
leave_list (some []) k f d = d
leave_list (some (g ∷ fs)) k f d =
    if contains f (g ∷ fs) then keep_rest (removed f (g ∷ fs)) k d else d

abbrev pub all_futures : Map RequestKey (List ℕ) → List ℕ
all_futures [] = []
all_futures ((k, fs) ∷ d) = fs ++ all_futures d

module _ {O : Type 0} where
  unfoldable pub new_registry : CompletionRegistry O
  new_registry = record { waiters = []; cache = []; answers = []; next_future = 0; waiting = [] }

  -- `while len(cache) > limit: cache.popitem(last=False)`
  abbrev pub evict : Map RequestKey O → Map RequestKey O
  evict [] = []
  evict (x ∷ d) = let rest = evict d in if leb (length (x ∷ d)) cache_limit then x ∷ d else rest

  -- `cache[key] = outcome` and `move_to_end(key)`
  abbrev pub cached_last : Map RequestKey O → RequestKey → O → Map RequestKey O
  cached_last d k o = erase d k ++ (k, o) ∷ []

  -- `if not future.done()`: it gets the answer.
  abbrev pub answer_one : Option (Answer O) → ℕ → Answer O → Table (Answer O) → Table (Answer O)
  answer_one (some old) f a answers = answers
  answer_one none f a answers = assign answers f a

  unfoldable pub answer_all : List ℕ → Answer O → Table (Answer O) → Table (Answer O)
  answer_all [] a answers = answers
  answer_all (f ∷ fs) a answers = answer_all fs a (answer_one (lookup answers f) f a answers)

  unfoldable pub complete : RequestKey → O → CompletionRegistry O → CompletionRegistry O
  complete k o c = record c {
    cache = evict (cached_last c.cache k o);
    waiters = erase c.waiters k;
    answers = answer_all (or_none_wait (find c.waiters k)) (outcome o) c.answers;
  }

  -- `wait` up to its await: the outcome from the cache, or a coroutine that waits.
  abbrev pub wait_cached :
      Option O → RequestKey → CompletionRegistry O → Option O × CompletionRegistry O
  wait_cached (some o) k c = (some o, c)
  wait_cached none k c = (
    none,
    record c {
      waiters = store c.waiters k (or_none_wait (find c.waiters k) ++ c.next_future ∷ []);
      next_future = suc c.next_future;
      waiting = (k, c.next_future) ∷ c.waiting;
    },
  )

  unfoldable pub wait : RequestKey → CompletionRegistry O → Option O × CompletionRegistry O
  wait k c = wait_cached (find c.cache k) k c

  -- The n-th coroutine that waits goes on, with its answer or by a cancellation.
  abbrev pub resume_at : Option (RequestKey × ℕ) → ℕ → CompletionRegistry O → CompletionRegistry O
  resume_at none n c = c
  resume_at (some (k, f)) n c = record c {
    waiters = leave_list (find c.waiters k) k f c.waiters;
    waiting = pop_at c.waiting n;
  }

  unfoldable pub resume : ℕ → CompletionRegistry O → CompletionRegistry O
  resume n c = resume_at (get_elem? c.waiting n) n c

  unfoldable pub close : CompletionRegistry O → CompletionRegistry O
  close c = record c {
    waiters = [];
    cache = [];
    answers = answer_all (all_futures c.waiters) closed c.answers;
  }
