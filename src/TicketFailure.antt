-- ===== src/TicketFailure.antt =====
-- src/ticketFailure.ts, `makeTicketFailureHandler`, with `enter` of src/ticketRunContext.ts, the
-- recorder of src/ticketRecorder.ts and the note of src/executionNote.ts: what a ticket that cannot
-- be finished leaves, and how the run comes back to `SelectTicket`. The store's append may fail
-- where the real store does file I/O: `records n` tells whether the n-th attempt succeeds.
pub mod Moves
pub mod Return
use jme_loop_public.Prelude.{
  ℕ, zero, suc, String, Bool, true, false, Option, none, some, List, [], ◌∷◌, ◌==◌, if◌then◌else◌,
  ◌⊕◌,
}
use jme_loop_public.Json.{Json, str}
use jme_loop_public.LoopState.{LoopState, select_ticket, state_name, same_state, failure_route}
use jme_loop_public.RunState.{RunEvent}
use jme_loop_public.RunStore.{RunStore, Date, append_event, write_ticket_artifact}
use jme_loop_public.LoopKernel.{
  TransitionGuard, KernelError, Outcome, return, throw, AdvanceOptions, no_options, current,
  advance,
}

abbrev pub flag_record_max_attempts : ℕ
flag_record_max_attempts = 3

-- How `failAndContinue` ends: it returns, or throws a `FlagRecordError` or a kernel's error.
pub data FailureResult : Type 0 where
  continued : FailureResult
  flag_record_failed : (ticket_id why : String) (attempts : ℕ) → FailureResult
  move_failed : KernelError → FailureResult

unfoldable pub build_execution_note : String → String → String → Option String → String
build_execution_note ticket_id reason phase log =
    let top =
      "# Execution note — " ⊕ ticket_id ⊕ "\n\n**Phase:** " ⊕ phase ⊕ "\n**Reason:** " ⊕ reason in
    elim log [
      | none ↦ top ⊕ "\n"
      | some path ↦ if path == "" then top ⊕ "\n" else top ⊕ "\n**Log:** `" ⊕ path ⊕ "`\n"
    ]

-- `await`: a move that throws ends the handler.
unfoldable pub and_then :
    Outcome LoopState × RunStore → (RunStore → FailureResult × RunStore) → FailureResult × RunStore
and_then (return s, after) next = next after
and_then (throw e, after) next = (move_failed e, after)

module _ (now : Date) (guards : List TransitionGuard) (run_id ticket_id : String) where
  unfoldable pub enter : LoopState → AdvanceOptions → RunStore → Outcome LoopState × RunStore
  enter to opts store =
      advance now guards run_id to (record opts { ticket_id = some ticket_id }) store

  abbrev pub clears_ticket : AdvanceOptions
  clears_ticket = record no_options { state_patch = some none }

  unfoldable pub back_to_select : RunStore → Outcome LoopState × RunStore
  unfolding enter
  back_to_select store = enter select_ticket clears_ticket store

  -- The persisted phase, or the one in memory if it cannot be read.
  unfoldable pub persisted_phase : LoopState → RunStore → LoopState
  persisted_phase in_memory store = elim (current run_id store) [
    | return s ↦ s
    | throw e ↦ in_memory
  ]

  unfoldable pub flag_event : String → LoopState → RunEvent
  flag_event why at = record {
    ts = "";
    type = "ticket.flagged";
    ticket_id = some ticket_id;
    phase = some (state_name at);
    data_fields = some (("why", str why) ∷ []);
  }

  -- The attempts to record the flag, of which `left` are left.
  unfoldable pub record_flag : (ℕ → Bool) → ℕ → ℕ → String → LoopState → RunStore → Option RunStore
  unfolding flag_event
  record_flag records zero attempt why at store = none
  record_flag records (suc left) attempt why at store =
      let rest = record_flag records left (suc attempt) why at store in
      if records attempt then some (append_event now run_id (flag_event why at) store) else rest

  -- The note is written if it can be; an error is only logged.
  unfoldable pub write_note : String → LoopState → Option String → RunStore → RunStore
  write_note why at log store =
      (write_ticket_artifact run_id ticket_id "execution-note.md"
        (build_execution_note ticket_id why (state_name at) log) store).1

  -- The second move, which is left out where the run stands in `SelectTicket`.
  unfoldable pub leave : (selecting : Bool) → RunStore → FailureResult × RunStore
  unfolding back_to_select and_then
  leave true store = (continued, store)
  leave false store = and_then (back_to_select store) (λ after. (continued, after))

  -- The first move, to the failure state, if there is one.
  unfoldable pub route : LoopState → Option LoopState → RunStore → FailureResult × RunStore
  unfolding leave enter and_then
  route at none store = leave (same_state at select_ticket) store
  route at (some failure) store =
      and_then (enter failure no_options store) (leave (same_state at select_ticket))

  -- After the flag was recorded, or was not.
  unfoldable pub after_flag :
      LoopState → Option String → String → RunStore → Option RunStore → FailureResult × RunStore
  unfolding write_note route
  after_flag at log why store none =
      (flag_record_failed ticket_id why flag_record_max_attempts, store)
  after_flag at log why store (some flagged) =
      route at (failure_route at) (write_note why at log flagged)

  unfoldable pub fail_at :
      (ℕ → Bool) → Option String → String → RunStore → LoopState → FailureResult × RunStore
  unfolding record_flag after_flag
  fail_at records log why store at =
      after_flag at log why store (record_flag records flag_record_max_attempts 1 why at store)

  unfoldable pub fail_and_continue :
      (ℕ → Bool) → LoopState → Option String → String → RunStore → FailureResult × RunStore
  unfolding persisted_phase fail_at
  fail_and_continue records in_memory log why store =
      fail_at records log why store (persisted_phase in_memory store)
