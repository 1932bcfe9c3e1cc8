-- ===== src/RunStore.antt =====
-- The in-memory run store (src/runStore.ts, `createMemoryRunStore`), which has the contract of the
-- one on disk. A method that throws leaves the store as it was. A `Map` is an association list, and
-- the injected clock's reading is an argument.
pub mod Laws
pub mod Resumable
use jme_loop_public.Prelude.{
  ℕ, ◌+◌, String, Bool, true, false, not, ◌&&◌, ◌||◌, Option, none, some, List, [], ◌∷◌, ◌++◌, ◌==◌,
  eqb, get, set, or_else, if◌then◌else◌, ◌⊕◌, decimal, codes, any, length, ltb,
}
use jme_loop_public.Json.{Fields}
use jme_loop_public.RunState.{
  RunState, RunStatus, RunQueue, RunEvent, running, completed, stopped, failed, status_name,
}

-- A reading of the clock: the text of `toISOString` and the fields of the date in UTC.
pub record Date : Type 0 where
  pub iso : String
  pub year : ℕ
  pub month : ℕ
  pub day : ℕ
  pub hours : ℕ
  pub minutes : ℕ
  pub seconds : ℕ

pub record RunStore : Type 0 where
  pub states : List (String × RunState)
  pub events : List (String × List RunEvent)
  pub artifacts : List (String × String)
  pub seq : ℕ

unfoldable pub empty : RunStore
empty = record { states = []; events = []; artifacts = []; seq = 0 }

-- `String(n).padStart(2, "0")`.
pad : ℕ → String
pad n = if ltb n 10 then "0" ⊕ decimal n else decimal n

-- `month` is that of the date counted from 1.
unfoldable pub compact_timestamp : Date → String
unfolding pad
compact_timestamp d =
    decimal d.year ⊕ pad d.month ⊕ pad d.day ⊕ "T" ⊕ pad d.hours ⊕ pad d.minutes ⊕ pad d.seconds

unfoldable pub is_safe_path_segment : String → Bool
is_safe_path_segment value =
    not (value == "")
    && not (value == ".")
    && not (value == "..")
    && not (any (λ c. eqb c b'/') (codes value))
    && not (any (λ c. eqb c b'\\') (codes value))
    && not (any (λ c. eqb c 0) (codes value))

-- What a store's method throws.
pub data StoreError : Type 0 where
  no_state : String → StoreError
  unsafe_segment : String → StoreError

pub data Stored {ℓ} (A : Type ℓ) : Type ℓ where
  ok : A → Stored A
  err : StoreError → Stored A

-- `epicId ?? "run"`, the compact time and the counter.
new_run_id : Option String → Date → ℕ → String
new_run_id epic_id now n = or_else epic_id "run" ⊕ "-" ⊕ compact_timestamp now ⊕ "-" ⊕ decimal n

fresh_state : String → Option String → List String → Date → RunState
fresh_state run_id epic_id queue now = record {
  run_id = run_id;
  epic_id = epic_id;
  status = running;
  started_at = now.iso;
  updated_at = now.iso;
  current_ticket_id = none;
  current_phase = none;
  queue = record { processed = []; remaining = queue };
  budget = [];
  no_progress = [];
}

is_safe_epic : Option String → Bool
is_safe_epic none = true
is_safe_epic (some id) = is_safe_path_segment id

unfoldable pub create_run :
    Date → Option String → List String → RunStore → Stored RunState × RunStore
unfolding new_run_id fresh_state is_safe_epic
create_run now epic_id queue store =
    let n = store.seq + 1 in
    let run_id = new_run_id epic_id now n in
    let state = fresh_state run_id epic_id queue now in
    if is_safe_epic epic_id
    then (
      ok state,
      record store {
        states = set run_id state store.states;
        events = set run_id [] store.events;
        seq = n;
      },
    )
    else (err (unsafe_segment (or_else epic_id "")), store)

unfoldable pub read_state : String → RunStore → Stored RunState
read_state run_id store = elim (get run_id store.states) [
  | none ↦ err (no_state run_id)
  | some state ↦ ok state
]

-- Returns the snapshot that is stored.
unfoldable pub write_state : Date → RunState → RunStore → RunState × RunStore
write_state now state store =
    let updated = record state { updated_at = now.iso } in
    (updated, record store { states = set updated.run_id updated store.states })

unfoldable pub read_events : String → RunStore → List RunEvent
read_events run_id store = or_else (get run_id store.events) []

-- The event comes without its time stamp, which the store sets.
unfoldable pub append_event : Date → String → RunEvent → RunStore → RunStore
unfolding read_events
append_event now run_id event store = record store {
  events = set run_id (read_events run_id store ++ record event { ts = now.iso } ∷ []) store.events;
}

unfoldable pub write_ticket_artifact :
    String → String → String → String → RunStore → Stored (Unit {0}) × RunStore
write_ticket_artifact run_id ticket_id name content store =
    if is_safe_path_segment ticket_id
    then (
      ok tt,
      record store {
        artifacts = set (run_id ⊕ "/" ⊕ ticket_id ⊕ "/" ⊕ name) content store.artifacts;
      },
    )
    else (err (unsafe_segment ticket_id), store)

is_running : RunState → Bool
unfolding status_name
is_running s = status_name s.status == "running"

running_states : List (String × RunState) → List RunState
unfolding is_running
running_states [] = []
running_states ((k, s) ∷ m) = if is_running s then s ∷ running_states m else running_states m

-- The head after `sort((a, b) => (a.startedAt < b.startedAt ? 1 : -1))`, for the order `before` of
-- texts. The comparator prefers each of two equal starts to the other; the model puts the later
-- entry first then, as an insertion sort that compares a new entry with those before it does.
module _ (before : String → String → Bool) where
  latest : RunState → List RunState → RunState
  latest best [] = best
  latest best (s ∷ ss) = latest (if before s.started_at best.started_at then best else s) ss

  unfoldable pub latest_resumable_run : RunStore → Option RunState
  unfolding running_states latest
  latest_resumable_run store = elim (running_states store.states) [
    | [] ↦ none
    | s ∷ ss ↦ some (latest s ss)
  ]
