-- ===== src/Tests/Ceilings.antt =====
-- The budget at concrete logs and ceilings.
use jme_loop_public.Prelude.{
  String, ◌≡◌, refl, false, none, some, [], ◌∷◌, Number, nan, int, pos, ge, minus,
}
use jme_loop_public.LoopState.{budget_exceeded}
use jme_loop_public.RunState.{RunState, RunEvent, running}
use jme_loop_public.RunStore.{RunStore, Date}
use jme_loop_public.Budget.{
  BudgetConfig, iterations, first_tripped, marker_value, snapshot, evaluate_budget, count_starts,
  is_progress_event, no_progress_signals,
}
use jme_loop_public.Budget.Verdicts.{trip, first_reached, trip-evaluate_budget}

abbrev start : RunEvent
start = record {
  ts = "2026-06-12T12:01:00.000Z";
  type = "ticket.started";
  ticket_id = some "TICKET-001";
  phase = none;
  data_fields = none;
}

abbrev decided : RunEvent
decided = record start { ts = "2026-06-12T12:02:00.000Z"; type = "merge.decision" }

abbrev ceilings : BudgetConfig
ceilings = record {
  max_iterations = int (pos 2);
  max_wall_clock_ms = int (pos 1000);
  max_no_progress_iterations = int (pos 5);
  max_no_progress_ms = int (pos 1000);
  token_ceiling = none;
  dollar_ceiling = none;
  flags_count_as_progress = false;
}

abbrev session : RunState
session = record {
  run_id = "r";
  epic_id = none;
  status = running;
  started_at = "2026-06-12T12:00:00.000Z";
  updated_at = "2026-06-12T12:00:00.000Z";
  current_ticket_id = none;
  current_phase = some "SelectTicket";
  queue = record { processed = []; remaining = [] };
  budget = [];
  no_progress = [];
}

-- Opens what an evaluation computes with.
ceiling_run : Unit {0}
unfolding evaluate_budget first_tripped marker_value snapshot no_progress_signals count_starts
    is_progress_event ge minus
ceiling_run = tt

-- No time stamp is parsed: the arms of time never trip.
abbrev unparsed : String → Number
unparsed s = nan

iterations_trip :
    trip (evaluate_budget unparsed session (start ∷ start ∷ []) ceilings (int (pos 0)))
    ≡ some (budget_exceeded, iterations)
unfolding evaluate_budget ceiling_run
iterations_trip = refl

trip-evaluate_budget_example :
    trip (evaluate_budget unparsed session (start ∷ start ∷ []) ceilings (int (pos 0)))
    ≡ first_reached (snapshot unparsed session (start ∷ start ∷ []) ceilings (int (pos 0)))
trip-evaluate_budget_example =
    trip-evaluate_budget unparsed session (start ∷ start ∷ []) ceilings (int (pos 0))

abbrev noon : Date
noon = record {
  iso = "2026-06-12T12:00:00.000Z";
  year = 2026;
  month = 6;
  day = 12;
  hours = 12;
  minutes = 0;
  seconds = 0;
}

abbrev store : RunStore
store = record { states = ("r", session) ∷ []; events = []; artifacts = []; seq = 1 }
