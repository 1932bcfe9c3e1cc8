-- ===== src/RunLoop.antt =====
-- src/orchestrator.ts, `runLoop`: what its parts share, and how an error that reaches it is settled.
-- The loop runs over the in-memory store; a call of it may end by an error, which is a value here.
pub mod Round
pub mod Session
pub mod Start
pub mod Settled
pub mod Outcomes
pub mod Endings
pub mod Returns
pub mod Resumed
pub mod Tickets
pub mod Progress
use jme_loop_public.Prelude.{
  ℕ, String, Bool, true, false, Option, none, some, List, [], ◌∷◌, ◌⊕◌, decimal, int, pos,
}
use jme_loop_public.Json.{Json, str, num, Fields}
use jme_loop_public.LoopState.{LoopState, state_name}
use jme_loop_public.RunState.{RunState, RunEvent, stopped}
use jme_loop_public.RunStore.{
  RunStore, Date, StoreError, no_state, unsafe_segment, ok, err, read_state, write_state,
  append_event,
}
use jme_loop_public.LoopKernel.{
  KernelError, store_error, unknown_state, illegal_transition, transition_denied,
}

-- What a call of the loop throws: a `FlagRecordError`, an error of the driver or of the store, or
-- any other, with its message.
pub data LoopError : Type 0 where
  flag_record_failed : (ticket_id why : String) (attempts : ℕ) (cause : String) → LoopError
  kernel : KernelError → LoopError
  other : String → LoopError

-- How a call ends.
pub data Ended : Type 0 where
  returned : Ended
  thrown : LoopError → Ended

-- How `runLoop` ends: it returns, with the number of tickets it processed, throws, or still waits
-- for tickets where the given rounds are used up.
pub data LoopEnd : Type 0 where
  finished : ℕ → LoopEnd
  rethrown : LoopError → LoopEnd
  waiting : LoopEnd

unfoldable pub event : String → Option String → Option Fields → RunEvent
event type ticket_id fields = record {
  ts = "";
  type = type;
  ticket_id = ticket_id;
  phase = none;
  data_fields = fields;
}

unfoldable pub run_stopped : Option String → Fields → RunEvent
unfolding event
run_stopped ticket_id fields = event "run.stopped" ticket_id (some fields)

unfoldable pub run_completed : Fields → RunEvent
unfolding event
run_completed fields = event "run.completed" none (some fields)

-- `status: "stopped"` is written first, and then the event.
unfoldable pub mark_stopped : String → Date → RunEvent → RunState → RunStore → RunStore
mark_stopped run_id now e session store =
    append_event now run_id e (write_state now (record session { status = stopped }) store).1

abbrev pub count : ℕ → Json
count n = num (int (pos n))

store_message : StoreError → String
store_message (no_state id) = "no state for run '" ⊕ id ⊕ "'"
store_message (unsafe_segment s) = "epicId '" ⊕ s ⊕ "' is not a safe path segment"

-- The messages of the errors, where `quote` is `JSON.stringify` on a text.
module _ (quote : String → String) where
  kernel_message : KernelError → String
  unfolding store_message
  kernel_message (store_error e) = store_message e
  kernel_message (unknown_state none) = "unknown loop state: null"
  kernel_message (unknown_state (some name)) = "unknown loop state: " ⊕ quote name
  kernel_message (illegal_transition from to) =
      "illegal transition: " ⊕ state_name from ⊕ " -> " ⊕ state_name to
  kernel_message (transition_denied guard reason from to) =
      "transition "
      ⊕ state_name from
      ⊕ " -> "
      ⊕ state_name to
      ⊕ " blocked by guard '"
      ⊕ guard
      ⊕ "': "
      ⊕ reason

  unfoldable pub error_message : LoopError → String
  unfolding kernel_message
  error_message (flag_record_failed id why attempts cause) =
      "failed to record ticket.flagged for " ⊕ id ⊕ " after " ⊕ decimal attempts ⊕ " attempts"
  error_message (kernel e) = kernel_message e
  error_message (other message) = message

  -- The `run.stopped` event of an error that the loop settles: a flag that was not recorded, or an
  -- error of the state machine. A store's error, and any other, is thrown on.
  kernel_stop : KernelError → Option RunEvent
  unfolding kernel_message
  kernel_stop (store_error e) = none
  kernel_stop (transition_denied guard reason from to) = some (
      run_stopped none (
        ("reason", str "guard-denied")
        ∷ ("guard", str guard)
        ∷ ("from", str (state_name from))
        ∷ ("to", str (state_name to))
        ∷ ("detail", str reason)
        ∷ []))
  kernel_stop e = some (
      run_stopped none
        (("reason", str "illegal-transition") ∷ ("detail", str (kernel_message e)) ∷ []))

  unfoldable pub stop_event : LoopError → Option RunEvent
  unfolding kernel_stop
  stop_event (flag_record_failed id why attempts cause) = some (
      run_stopped (some id) (
        ("reason", str "flag-record-failed")
        ∷ ("ticketId", str id)
        ∷ ("why", str why)
        ∷ ("attempts", count attempts)
        ∷ ("detail", str cause)
        ∷ []))
  stop_event (kernel e) = kernel_stop e
  stop_event (other message) = none

  -- The error that is thrown on where the run's snapshot cannot be read for the stop: the one at
  -- hand if a flag was not recorded, and the store's otherwise.
  read_failure : LoopError → StoreError → LoopError
  read_failure (flag_record_failed id why attempts cause) s =
      flag_record_failed id why attempts cause
  read_failure (kernel e) s = kernel (store_error s)
  read_failure (other message) s = other message

  module _ (run_id : String) where
    unfoldable pub settle_by :
        Date → LoopError → ℕ → Option RunEvent → RunStore → LoopEnd × RunStore
    unfolding read_failure
    settle_by now e processed none store = (rethrown e, store)
    settle_by now e processed (some stop) store = elim (read_state run_id store) [
      | err s ↦ (rethrown (read_failure e s), store)
      | ok session ↦ (finished processed, mark_stopped run_id now stop session store)
    ]

    -- The `catch` of the loop.
    unfoldable pub settle : Date → LoopError → ℕ → RunStore → LoopEnd × RunStore
    unfolding settle_by
    settle now e processed store = settle_by now e processed (stop_event e) store
