-- ===== src/LoopKernel.antt =====
-- The durable driver of the state machine (src/loopKernel.ts): it moves a run from one state to the
-- next through the run store, if the table and every guard allow it. A thrown error comes back
-- beside the store as it then is.
pub mod Advance
pub mod Histories
use jme_loop_public.Prelude.{
  String, Bool, true, false, Option, none, some, List, [], ◌∷◌, or_else, if◌then◌else◌,
}
use jme_loop_public.Json.{Json, str, Fields, spread}
use jme_loop_public.LoopState.{
  LoopState, state_name, same_state, done, is_terminal, can_transition, parse_loop_state,
}
use jme_loop_public.RunState.{RunState, RunEvent, completed, stopped}
use jme_loop_public.RunStore.{
  RunStore, Date, Stored, StoreError, ok, err, read_state, write_state, append_event,
}

pub data GuardVerdict : Type 0 where
  allowed : GuardVerdict
  denied : String → GuardVerdict

pub record TransitionGuard : Type 0 where
  pub name : String
  pub check : LoopState → LoopState → RunState → GuardVerdict

-- The errors that the driver throws: a store's, and the two kinds of `LoopStateError`.
pub data KernelError : Type 0 where
  store_error : StoreError → KernelError
  unknown_state : Option String → KernelError
  illegal_transition : LoopState → LoopState → KernelError
  transition_denied : (guard reason : String) → LoopState → LoopState → KernelError

pub data Outcome {ℓ} (A : Type ℓ) : Type ℓ where
  return : A → Outcome A
  throw : KernelError → Outcome A

-- `statePatch` sets or clears the active ticket, or is absent.
pub record AdvanceOptions : Type 0 where
  pub ticket_id : Option String
  pub data_fields : Fields
  pub state_patch : Option (Option String)

abbrev pub no_options : AdvanceOptions
no_options = record { ticket_id = none; data_fields = []; state_patch = none }

-- `current`: the typed state of a run.
unfoldable pub current : String → RunStore → Outcome LoopState
current run_id store = elim (read_state run_id store) [
  | err e ↦ throw (store_error e)
  | ok state ↦ elim (parse_loop_state state.current_phase) [
    | none ↦ throw (unknown_state state.current_phase)
    | some s ↦ return s
  ]
]

-- The first guard that denies the move, with its reason.
unfoldable pub denial :
    List TransitionGuard → LoopState → LoopState → RunState → Option (String × String)
denial [] from to state = none
denial (g ∷ gs) from to state = elim (g.check from to state) [
  | allowed ↦ denial gs from to state
  | denied reason ↦ some (g.name, reason)
]

-- The snapshot after a move: the patch, the phase, and at a terminal state the end of the run.
unfoldable pub moved : LoopState → AdvanceOptions → RunState → RunState
moved to opts state =
    let patched = record state {
      current_ticket_id = or_else opts.state_patch state.current_ticket_id;
      current_phase = some (state_name to);
    } in
    if is_terminal to
    then record patched {
      status = if same_state to done then completed else stopped;
      current_ticket_id = none;
    }
    else patched

unfoldable pub transition_event : LoopState → LoopState → AdvanceOptions → RunEvent
transition_event from to opts = record {
  ts = "";
  type = "loop.transition";
  ticket_id = opts.ticket_id;
  phase = some (state_name to);
  data_fields = some (spread (("from", str (state_name from)) ∷ []) opts.data_fields);
}

-- The two writes of a move, the snapshot first.
unfoldable pub commit :
    Date → String → LoopState → LoopState → AdvanceOptions → RunState → RunStore → RunStore
commit now run_id from to opts state store =
    append_event now run_id (transition_event from to opts)
      (write_state now (moved to opts state) store).1

-- `advance` after the state was read and parsed.
unfoldable pub advance_from :
    Date
    → List TransitionGuard
    → String
    → LoopState
    → LoopState
    → AdvanceOptions
    → RunState
    → RunStore
    → Outcome LoopState × RunStore
unfolding commit
advance_from now guards run_id from to opts state store =
    if can_transition from to
    then elim (denial guards from to state) [
      | some (guard, reason) ↦ (throw (transition_denied guard reason from to), store)
      | none ↦ (return to, commit now run_id from to opts state store)
    ]
    else (throw (illegal_transition from to), store)

unfoldable pub advance :
    Date
    → List TransitionGuard
    → String
    → LoopState
    → AdvanceOptions
    → RunStore
    → Outcome LoopState × RunStore
advance now guards run_id to opts store = elim (read_state run_id store) [
  | err e ↦ (throw (store_error e), store)
  | ok state ↦ elim (parse_loop_state state.current_phase) [
    | none ↦ (throw (unknown_state state.current_phase), store)
    | some from ↦ advance_from now guards run_id from to opts state store
  ]
]

-- `resume`: the persisted state, and whether it is terminal.
unfoldable pub resume : String → RunStore → Outcome (LoopState × Bool)
unfolding current
resume run_id store = elim (current run_id store) [
  | throw e ↦ throw e
  | return s ↦ return (s, is_terminal s)
]
