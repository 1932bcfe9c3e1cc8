-- ===== src/Tests/Kernel.antt =====
-- The state machine, the run store and the driver at concrete runs.
use jme_loop_public.Prelude.{
  String, ◌≡◌, refl, ◌↔◌, true, false, none, some, List, [], ◌∷◌, ◌++◌, eq_iff, arith, decimal, int,
  pos, infinity,
}
use jme_loop_public.Json.{num, null}
use jme_loop_public.LoopState.{
  LoopState, idle, select_ticket, start_ticket, execute_plan, review, close, merge_gate, done,
  state_name, is_terminal, parse_loop_state, can_transition,
}
use jme_loop_public.LoopState.Paths.{here}
use jme_loop_public.RunState.{RunState, ok, running, completed, parse_run_state}
use jme_loop_public.RunState.Parsing.{
  stringified, stringified_number, persisted, parse_run_state-persisted,
}
use jme_loop_public.RunStore
use jme_loop_public.RunStore.{
  RunStore, Date, create_run, read_state, read_events, is_safe_path_segment,
}
use jme_loop_public.RunStore.Laws.{IsKeyed}
use jme_loop_public.LoopKernel.{
  return, throw, illegal_transition, no_options, moved, transition_event, denial, advance_from,
  advance,
}
use jme_loop_public.LoopKernel.Advance.{MayMove, advance_returns_iff}
use jme_loop_public.LoopKernel.Histories.{
  Attempt, drive, logged, entered, HasHistory, created_run_at_merge_gate,
}

abbrev noon : Date
noon = record {
  iso = "2026-06-12T12:00:00.000Z";
  year = 2026;
  month = 6;
  day = 12;
  hours = 12;
  minutes = 0;
  seconds = 0;
}

abbrev started : RunState
started = record {
  run_id = "run-20260612T120000-1";
  epic_id = none;
  status = running;
  started_at = "2026-06-12T12:00:00.000Z";
  updated_at = "2026-06-12T12:00:00.000Z";
  current_ticket_id = none;
  current_phase = none;
  queue = record { processed = []; remaining = "TICKET-001" ∷ [] };
  budget = [];
  no_progress = [];
}

-- Opens what a run of the driver computes with.
kernel : Unit {0}
unfolding create_run RunStore.empty RunStore.compact_timestamp decimal drive advance read_state
    parse_loop_state can_transition state_name moved is_terminal denial advance_from
    RunStore.write_state RunStore.append_event transition_event
kernel = tt

creates : (create_run noon none ("TICKET-001" ∷ []) RunStore.empty).0 ≡ RunStore.ok started
unfolding kernel
creates = refl

empty-IsKeyed : IsKeyed RunStore.empty
unfolding RunStore.empty
empty-IsKeyed = tt

abbrev at : LoopState → Attempt
at s = record { now = noon; to = s; opts = no_options }

-- The move to `Close` is refused on the way.
abbrev calls : List Attempt
calls =
    at select_ticket
    ∷ at start_ticket
    ∷ at close
    ∷ at execute_plan
    ∷ at review
    ∷ at close
    ∷ at merge_gate
    ∷ []

abbrev driven : RunStore
driven =
    drive [] "run-20260612T120000-1" calls
      (create_run noon none ("TICKET-001" ∷ []) RunStore.empty).1

abbrev driven_state : RunState
driven_state = record started { current_phase = some "MergeGate" }

driven_reads : read_state "run-20260612T120000-1" driven ≡ RunStore.ok driven_state
unfolding kernel
driven_reads = refl

created_run_at_merge_gate_example :
    (earlier : List String) × (logged (read_events "run-20260612T120000-1" driven)
      ≡ earlier ++ "ExecutePlan" ∷ "Review" ∷ "Close" ∷ "MergeGate" ∷ [])
created_run_at_merge_gate_example =
    created_run_at_merge_gate noon none ("TICKET-001" ∷ []) RunStore.empty started [] calls
      driven_state empty-IsKeyed creates driven_reads (unfold state_name in refl)

can_start : can_transition idle select_ticket ≡ true
unfolding can_transition
can_start = refl

rejects : parse_loop_state (some "Reviewing") ≡ none
unfolding parse_loop_state
rejects = refl

-- A snapshot with a number and an infinity in its budget.
abbrev spent : RunState
spent = record started {
  budget = ("iterationsUsed", num (int (pos 3))) ∷ ("maxIterations", num infinity) ∷ [];
}

parse_run_state-persisted_example :
    parse_run_state (persisted spent)
    ≡ ok (record spent {
      budget = ("iterationsUsed", num (int (pos 3))) ∷ ("maxIterations", null) ∷ [];
    })
unfolding stringified stringified_number
parse_run_state-persisted_example =
    parse_run_state-persisted spent (λ e. ground (arith, eq_iff spent.run_id ""))

safe_segments :
    (is_safe_path_segment "EPIC-001" ≡ true)
    × (is_safe_path_segment ".." ≡ false)
    × (is_safe_path_segment "a/b" ≡ false)
    × (is_safe_path_segment "a\\b" ≡ false)
unfolding is_safe_path_segment
safe_segments = (refl, refl, refl, refl)

abbrev fresh : RunStore
fresh = (create_run noon none ("TICKET-001" ∷ []) RunStore.empty).1

fresh_reads : read_state "run-20260612T120000-1" fresh ≡ RunStore.ok started
unfolding kernel
fresh_reads = refl

fresh-MayMove : MayMove noon [] "run-20260612T120000-1" select_ticket fresh started idle
unfolding kernel
fresh-MayMove = record { stored = refl; stands = refl; legal = refl; unguarded = tt }

fresh-IsKeyed : IsKeyed fresh
unfolding kernel
fresh-IsKeyed = (refl, tt)

advance_returns_iff_example :
    ((advance noon [] "run-20260612T120000-1" select_ticket no_options fresh).0
      ≡ return select_ticket)
    ↔ ((state : RunState) × (from : LoopState) × MayMove noon [] "run-20260612T120000-1"
          select_ticket fresh state from)
advance_returns_iff_example =
    advance_returns_iff noon [] "run-20260612T120000-1" select_ticket no_options fresh

refuses :
    (advance noon [] "run-20260612T120000-1" close no_options fresh).0
    ≡ throw (illegal_transition idle close)
unfolding kernel
refuses = refl

abbrev finished : RunStore
finished = drive [] "run-20260612T120000-1" (at select_ticket ∷ at done ∷ []) fresh

abbrev finished_state : RunState
finished_state = record started { current_phase = some "Done"; status = completed }

finished_reads : read_state "run-20260612T120000-1" finished ≡ RunStore.ok finished_state
unfolding kernel
finished_reads = refl

fresh-HasHistory : HasHistory "run-20260612T120000-1" fresh
unfolding kernel logged entered
fresh-HasHistory = (
  [],
  idle,
  record {
    state = started;
    stored = refl;
    stands = refl;
    legal = here;
    told = refl;
    keyed = fresh-IsKeyed;
  },
)
