-- ===== src/RunState.antt =====
-- The durable snapshot of a run, its event log entries, and the parser that narrows a persisted
-- snapshot (src/runState.ts).
pub mod Parsing
use jme_loop_public.Prelude.{
  String, Bool, true, false, not, ◌&&◌, ◌||◌, Option, none, some, List, [], ◌∷◌, ◌==◌, Number, int,
  pos, get, if◌then◌else◌,
}
use jme_loop_public.Json.{
  Json, null, bool, num, str, array, object, Items, nil, cons, Members, end, member, Fields, items,
  fields, of_fields, of_texts,
}

pub data RunStatus : Type 0 where
  running completed stopped failed : RunStatus

pub record RunQueue : Type 0 where
  pub processed : List String
  pub remaining : List String

pub record RunState : Type 0 where
  pub run_id : String
  pub epic_id : Option String
  pub status : RunStatus
  pub started_at : String
  pub updated_at : String
  pub current_ticket_id : Option String
  pub current_phase : Option String
  pub queue : RunQueue
  pub budget : Fields
  pub no_progress : Fields

-- One line of the event log. The absent `data` is `none`.
pub record RunEvent : Type 0 where
  pub ts : String
  pub type : String
  pub ticket_id : Option String
  pub phase : Option String
  pub data_fields : Option Fields

-- The failures of `parseRunState`, one for each message.
pub data RunStateError : Type 0 where
  not_an_object bad_version bad_run_id bad_epic_id bad_status bad_started_at : RunStateError
  bad_updated_at bad_ticket_id bad_phase bad_queue bad_budget bad_no_progress : RunStateError

pub data Parsed {ℓ} (A : Type ℓ) : Type ℓ where
  ok : A → Parsed A
  err : RunStateError → Parsed A

infixl 5 ◌>>=◌ ◌>>◌
abbrev ◌>>=◌ {ℓ κ} : {A : Type ℓ} {B : Type κ} → Parsed A → (A → Parsed B) → Parsed B
ok a >>= f = f a
err e >>= f = err e

abbrev ◌>>◌ {ℓ κ} : {A : Type ℓ} {B : Type κ} → Parsed A → Parsed B → Parsed B
m >> k = m >>= λ _. k

-- A failed check throws.
abbrev require {ℓ} : {A : Type ℓ} → RunStateError → Option A → Parsed A
require e none = err e
require e (some a) = ok a

-- `typeof value === "object" && value !== null && !Array.isArray(value)`.
is_plain_object : Json → Option Fields
is_plain_object (object ms) = some (fields ms)
is_plain_object _ = none

-- The value of a member, `undefined` if it is absent: no check below accepts `undefined`.
texts_of : Items → Option (List String)
texts_of nil = some []
texts_of (cons (str s) vs) = elim (texts_of vs) [ none ↦ none | some ts ↦ some (s ∷ ts) ]
texts_of (cons _ vs) = none

pub is_string_array : Option Json → Option (List String)
unfolding texts_of
is_string_array (some (array vs)) = texts_of vs
is_string_array _ = none

is_object_field : Option Json → Option Fields
unfolding is_plain_object
is_object_field none = none
is_object_field (some v) = is_plain_object v

is_text : Option Json → Option String
is_text (some (str s)) = some s
is_text _ = none

is_non_empty_text : Option Json → Option String
is_non_empty_text (some (str s)) = if s == "" then none else some s
is_non_empty_text _ = none

-- A text or `null`.
is_nullable_text : Option Json → Option (Option String)
is_nullable_text (some null) = some none
is_nullable_text (some (str s)) = some (some s)
is_nullable_text _ = none

is_version_one : Option Json → Option (Unit {0})
is_version_one (some (num (int (pos n)))) =
    if jme_loop_public.Prelude.eqb n 1 then some tt else none
is_version_one _ = none

unfoldable pub status_name : RunStatus → String
status_name running = "running"
status_name completed = "completed"
status_name stopped = "stopped"
status_name failed = "failed"

status_of : String → Option RunStatus
unfolding status_name
status_of s =
    if s == status_name running
    then some running
    else if s == status_name completed
    then some completed
    else if s == status_name stopped
    then some stopped
    else if s == status_name failed
    then some failed
    else none

is_status : Option Json → Option RunStatus
unfolding status_of
is_status (some (str s)) = status_of s
is_status _ = none

queue_of : Fields → Option RunQueue
unfolding is_string_array
queue_of q = elim (is_string_array (get "processed" q)) [
  | none ↦ none
  | some processed ↦ elim (is_string_array (get "remaining" q)) [
    | none ↦ none
    | some remaining ↦ some (record { processed = processed; remaining = remaining })
  ]
]

is_queue : Option Json → Option RunQueue
unfolding is_object_field queue_of
is_queue v = elim (is_object_field v) [ none ↦ none | some q ↦ queue_of q ]

unfoldable pub parse_run_state : Json → Parsed RunState
unfolding is_plain_object is_version_one is_non_empty_text is_nullable_text is_status is_text
    is_queue is_object_field
parse_run_state value = do
  o ← require not_an_object (is_plain_object value)
  require bad_version (is_version_one (get "version" o))
  run_id ← require bad_run_id (is_non_empty_text (get "runId" o))
  epic_id ← require bad_epic_id (is_nullable_text (get "epicId" o))
  status ← require bad_status (is_status (get "status" o))
  started_at ← require bad_started_at (is_text (get "startedAt" o))
  updated_at ← require bad_updated_at (is_text (get "updatedAt" o))
  ticket_id ← require bad_ticket_id (is_nullable_text (get "currentTicketId" o))
  phase ← require bad_phase (is_nullable_text (get "currentPhase" o))
  queue ← require bad_queue (is_queue (get "queue" o))
  budget ← require bad_budget (is_object_field (get "budget" o))
  no_progress ← require bad_no_progress (is_object_field (get "noProgress" o))
  ok (record {
    run_id = run_id;
    epic_id = epic_id;
    status = status;
    started_at = started_at;
    updated_at = updated_at;
    current_ticket_id = ticket_id;
    current_phase = phase;
    queue = queue;
    budget = budget;
    no_progress = no_progress;
  })
