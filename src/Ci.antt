-- ===== src/Ci.antt =====
-- CI observation for the merge gate (src/ci.ts). `JSON.parse` is the argument `parse_json`, and the
-- output of the n-th `gh pr checks` is the argument `outputs`. The waits between polls are left out:
-- no clock is read. The times are natural numbers, and the interval is positive.
pub mod Polling
use jme_loop_public.Prelude.{
  ℕ, zero, suc, ◌+◌, ◌-◌, ◌/◌, max, String, Bool, true, false, ◌&&◌, ◌||◌, Option, none, some, List,
  [], ◌∷◌, map, ◌==◌, keep, leb, eqb, is_empty, get, if◌then◌else◌, ◌⊕◌, decimal, join, codes,
}
use jme_loop_public.Json.{Json, null, str, object, array, Items, nil, cons, fields}
use jme_loop_public.MergeGate.{CiObservation, green, red, pending_timeout, no_signal}

abbrev pub no_checks_grace_polls : ℕ
no_checks_grace_polls = 2

pub record CheckRun : Type 0 where
  pub name : String
  pub bucket : String

text_of : Option Json → Option String
text_of (some (str s)) = some s
text_of _ = none

check_of : Json → Option CheckRun
unfolding text_of
check_of (object ms) = elim (text_of (get "name" (fields ms))) [
  | none ↦ none
  | some name ↦ elim (text_of (get "bucket" (fields ms))) [
    | none ↦ none
    | some bucket ↦ some (record { name = name; bucket = bucket })
  ]
]
check_of _ = none

-- An array item has no `name`; one that is no object gives null in the same way.
checks_of : Items → Option (List CheckRun)
unfolding check_of
checks_of nil = some []
checks_of (cons v vs) = elim (check_of v) [
  | none ↦ none
  | some c ↦ elim (checks_of vs) [ none ↦ none | some cs ↦ some (c ∷ cs) ]
]

unfoldable pub narrow_checks : Option Json → Option (List CheckRun)
unfolding checks_of
narrow_checks (some (array vs)) = checks_of vs
narrow_checks _ = none

lower : ℕ → ℕ
lower c = if leb b'A' c && leb c b'Z' then c + 32 else c

begins : List ℕ → List ℕ → Bool
unfolding lower
begins [] text = true
begins (p ∷ ps) [] = false
begins (p ∷ ps) (c ∷ cs) = eqb p (lower c) && begins ps cs

occurs : List ℕ → List ℕ → Bool
unfolding begins
occurs part [] = begins part []
occurs part (c ∷ cs) = begins part (c ∷ cs) || occurs part cs

-- `/no checks reported/i.test(output)`.
unfoldable pub says_no_checks : String → Bool
unfolding occurs
says_no_checks output = occurs (codes "no checks reported") (codes output)

-- What one poll tells.
pub data Reading : Type 0 where
  unusable : (no_checks : Bool) → Reading
  unregistered : Reading
  failing : List String → Reading
  waiting : List String → Reading
  passing : Reading

abbrev pub names : List CheckRun → List String
names cs = map (λ c. c.name) cs

abbrev pub is_failed : CheckRun → Bool
is_failed c = c.bucket == "fail" || c.bucket == "cancel"

abbrev pub is_pending : CheckRun → Bool
is_pending c = c.bucket == "pending"

read_buckets : List CheckRun → Reading
read_buckets cs =
    let failed = keep is_failed cs in
    let pending = keep is_pending cs in
    if is_empty failed
    then if is_empty pending then passing else waiting (names pending)
    else failing (names failed)

-- `none` is an output that is no list of checks.
reading_of : Bool → Option (List CheckRun) → Reading
unfolding read_buckets
reading_of no_checks none = unusable no_checks
reading_of no_checks (some []) = unregistered
reading_of no_checks (some (c ∷ cs)) = read_buckets (c ∷ cs)

module _ (parse_json : String → Option Json) where
  unfoldable pub parse_checks : String → Option (List CheckRun)
  unfolding narrow_checks
  parse_checks raw = narrow_checks (parse_json raw)

  unfoldable pub read_output : String → Reading
  unfolding parse_checks reading_of
  read_output output = reading_of (says_no_checks output) (parse_checks output)

unregistered_observation : CiObservation
unregistered_observation = record {
  state = no_signal;
  detail = some "no checks reported on the PR";
}

-- What the poll number `poll` concludes, if it concludes anything.
unfoldable pub conclusion : ℕ → Reading → Option CiObservation
unfolding unregistered_observation
conclusion poll (unusable no_checks) =
    if no_checks && leb no_checks_grace_polls poll then some unregistered_observation else none
conclusion poll unregistered =
    if leb no_checks_grace_polls poll then some unregistered_observation else none
conclusion poll (failing fs) = some (record { state = red; detail = some (join ", " fs) })
conclusion poll (waiting ps) = none
conclusion poll passing = some (record { state = green; detail = none })

-- The names that were pending last: `none` until some were, which is `everPending`.
unfoldable pub seen_pending : Option (List String) → Reading → Option (List String)
seen_pending known (waiting ps) = some ps
seen_pending known _ = known

module _ (timeout_sec : ℕ) where
  unfoldable pub at_deadline : Option (List String) → CiObservation
  at_deadline none = record {
    state = no_signal;
    detail = some "checks unobservable before the deadline";
  }
  at_deadline (some ps) = record {
    state = pending_timeout;
    detail = some (join ", " ps ⊕ " (waited " ⊕ decimal timeout_sec ⊕ "s)");
  }

  module _ (readings : ℕ → Reading) where
    -- The loop from the poll number `poll`, with `left` polls to go.
    pub poll_from : ℕ → ℕ → Option (List String) → CiObservation
    unfolding conclusion seen_pending at_deadline
    poll_from zero poll known = at_deadline known
    poll_from (suc left) poll known =
        let later = poll_from left (suc poll) (seen_pending known (readings poll)) in
        elim (conclusion poll (readings poll)) [ none ↦ later | some o ↦ o ]

-- `Math.max(1, Math.ceil(timeoutSec / pollIntervalSec))`.
unfoldable pub max_polls : ℕ → ℕ → ℕ
max_polls timeout_sec interval = max 1 ((timeout_sec + interval - 1) / interval)

unfoldable pub observe_ci :
    (String → Option Json) → (ℕ → String) → (timeout_sec interval : ℕ) → CiObservation
unfolding poll_from read_output max_polls
observe_ci parse_json outputs timeout_sec interval =
    poll_from timeout_sec (λ n. read_output parse_json (outputs n)) (max_polls timeout_sec interval)
      0 none
