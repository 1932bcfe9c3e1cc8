-- ===== src/Tests/Rounds.antt =====
-- The loop over the tickets at a concrete run.
use jme_loop_public.Prelude.{
  String, ◌≡◌, ◌≢◌, refl, Bool, true, false, none, some, [], ◌∷◌, int, pos, Number, arith, ge,
  minus, ◌-ℤ◌,
}
use jme_loop_public.LoopState.{
  state_name, parse_loop_state, same_state, can_transition, is_loop_state, is_terminal, member,
}
use jme_loop_public.RunState.{RunState, running}
use jme_loop_public.RunStore.{RunStore, Date, read_state, read_events, append_event, write_state}
use jme_loop_public.RunStore.Laws.{append_event-IsKeyed}
use jme_loop_public.Budget.{
  BudgetConfig, evaluate_budget, first_tripped, marker_value, snapshot, count_starts,
  no_progress_signals, is_progress_event, last_index,
}
use jme_loop_public.Queue.{
  Ticket, planned, loop_ready, is_prepared, is_there, is_unblocked, least, pick_next, status_by_id,
  needs_planning,
}
use jme_loop_public.LoopKernel.{
  current, advance, advance_from, commit, denial, moved, transition_event,
}
use jme_loop_public.BudgetGuard.{budget_view, no_progress_view}
use jme_loop_public.Resume.{ResumePoint}
use jme_loop_public.RunLoop.{
  returned, thrown, other, finished, event, run_completed, run_stopped, mark_stopped, error_message,
}
use jme_loop_public.RunLoop.Round.{
  Scan, scanned, Round, Loop, next, idles, leaves, stops, throws, RoundEnd, Runner, round, rounds,
  ensure_selecting, after_ticket, book, eligible, is_flag_of, on_end, on_pick, on_selected,
  on_verdict, run_picked, selecting, skip, take_ticket, write_views, kill,
}
use jme_loop_public.RunLoop.Session.{
  Backlog, run_session, refine_epic, after_pass, after_rounds, caught, complete, completed_event,
  move, move_then, on_epic, on_scan, refine_pass,
}
use jme_loop_public.RunLoop.Start.{
  Resumption, found, try_resume, after_resumed, after_done, reopened, requeue, give_up,
}
use jme_loop_public.RunLoop.Settled.{HasEnded}
use jme_loop_public.RunLoop.Outcomes.{KeepsKeys}
use jme_loop_public.RunLoop.Returns.{run_session_returns}
use jme_loop_public.RunLoop.Resumed.{try_resume-Resolves, Resolves}
use jme_loop_public.RunLoop.Tickets.{Leads, round-Leads, MayTake, Processed}
use jme_loop_public.RunLoop.Progress.{here, flagged_not_taken, rounds_end, pauses}

abbrev noon : Date
noon = record {
  iso = "2026-06-12T12:00:00.000Z";
  year = 2026;
  month = 6;
  day = 12;
  hours = 12;
  minutes = 0;
  seconds = 0;
}

abbrev run_id : String
run_id = "run-1"

abbrev session : RunState
session = record {
  run_id = run_id;
  epic_id = none;
  status = running;
  started_at = "2026-06-12T12:00:00.000Z";
  updated_at = "2026-06-12T12:00:00.000Z";
  current_ticket_id = none;
  current_phase = some "SelectTicket";
  queue = record { processed = []; remaining = [] };
  budget = [];
  no_progress = [];
}

abbrev store : RunStore
store = record {
  states = (run_id, session) ∷ [];
  events = (run_id, []) ∷ [];
  artifacts = [];
  seq = 1;
}

abbrev ticket : String → Ticket
ticket id = record {
  id = id;
  epic_id = "EPIC-001";
  title = "A change";
  status = planned;
  spec = some "spec.md";
  plan = some "plan.md";
  loop = true;
  depends_on = [];
}

abbrev scan : Scan
scan = scanned (λ path. true) (ticket "TICKET-001" ∷ ticket "TICKET-002" ∷ [])

abbrev a_round : Round
a_round = record { kill_switch = false; now = noon; now_ms = int (pos 0); scan = scan }

-- Every ticket is flagged.
abbrev flags : Runner
flags now t s = (returned, append_event now run_id (event "ticket.flagged" (some t.id) none) s)

abbrev high : Number
high = int (pos 1000000)

abbrev limits : BudgetConfig
limits = record {
  max_iterations = high;
  max_wall_clock_ms = high;
  max_no_progress_iterations = high;
  max_no_progress_ms = high;
  token_ceiling = none;
  dollar_ceiling = none;
  flags_count_as_progress = false;
}

abbrev epoch : String → Number
epoch s = int (pos 0)

abbrev in_order : String → String → Bool
in_order a b = false

abbrev start : Loop
start = record { store = store; processed = 0; skipped = [] }

flags-KeepsKeys : KeepsKeys flags
flags-KeepsKeys = record {
  keeps =
      λ now t s k. append_event-IsKeyed now run_id (event "ticket.flagged" (some t.id) none) s k;
}

abbrev no_backlog : Backlog
no_backlog = record { scan = scan; has_skill = false; refine = λ epic s. (returned, s) }

abbrev plain : String → String
plain s = s

-- Opens what a run of the loop computes with.
the_loop : Unit {0}
unfolding run_session round rounds refine_epic loop_ready ensure_selecting current read_state
    append_event parse_loop_state same_state evaluate_budget first_tripped ge marker_value snapshot
    minus count_starts event no_progress_signals is_progress_event last_index budget_view
    no_progress_view advance advance_from commit denial moved transition_event can_transition
    is_loop_state is_terminal member state_name is_prepared is_there is_unblocked least pick_next
    status_by_id needs_planning after_ticket book eligible is_flag_of on_end on_pick on_selected
    on_verdict run_picked selecting skip take_ticket write_views after_pass after_rounds caught
    complete completed_event move move_then on_epic on_scan refine_pass run_completed read_events
    write_state try_resume after_resumed after_done reopened requeue give_up pauses kill run_stopped
    mark_stopped error_message ◌-ℤ◌
the_loop = tt

ends_as :
    (run_session noon [] run_id plain epoch in_order limits 2 flags no_backlog
      (a_round ∷ a_round ∷ [])
      store).0
    ≡ finished 2
unfolding the_loop
ends_as = refl

run_session_returns_example :
    HasEnded run_id
      (run_session noon [] run_id plain epoch in_order limits 2 flags no_backlog
        (a_round ∷ a_round ∷ [])
        store).1
run_session_returns_example =
    run_session_returns noon [] run_id plain epoch in_order limits 2 flags no_backlog
      (a_round ∷ a_round ∷ []) store 2 flags-KeepsKeys (λ epic s k. k) (refl, tt) ends_as

round-Leads_example :
    Leads [] run_id epoch in_order limits 2 flags a_round 0 []
      (round [] run_id epoch in_order limits 2 flags a_round start)
round-Leads_example = round-Leads [] run_id epoch in_order limits 2 flags a_round start

rounds_end_example :
    rounds [] run_id epoch in_order limits 2 flags (a_round ∷ a_round ∷ []) start ≢ idles start
unfolding the_loop
rounds_end_example =
    rounds_end [] run_id epoch in_order limits 2 flags (a_round ∷ a_round ∷ []) store start
      (omega arith)

-- The loop after the next round.
abbrev after : RoundEnd → Loop
after (next l) = l
after (idles l) = l
after (leaves l) = l
after (stops l) = l
after (throws e l) = l

abbrev a_step : Loop → Loop
a_step l = after (round [] run_id epoch in_order limits 2 flags a_round l)

first_round :
    Processed [] run_id epoch in_order limits 2 flags a_round 0 []
      (a_step start)
      (ticket "TICKET-001")
unfolding the_loop
first_round = record {
  booked =
      book [] run_id epoch in_order limits 2 flags noon session (ticket "TICKET-001")
        ("TICKET-002" ∷ []) store;
  ran = refl;
  counted = refl;
  marked = refl;
}

second_round :
    round [] run_id epoch in_order limits 2 flags a_round (a_step start)
    ≡ next (a_step (a_step start))
unfolding the_loop
second_round = refl

flagged_not_taken_example :
    (u : Ticket) × (u.id ≢ "TICKET-001")
    × MayTake (a_step start).skipped scan u
    × Processed [] run_id epoch in_order limits 2 flags a_round
        (a_step start).processed
        (a_step start).skipped
        (a_step (a_step start))
        u
unfolding the_loop first_round
flagged_not_taken_example =
    flagged_not_taken [] run_id epoch in_order limits 2 flags a_round start (a_step start)
      (a_step start) (a_step (a_step start)) (ticket "TICKET-001") first_round refl here a_round
      second_round

abbrev point : ResumePoint
point = record {
  run_id = run_id;
  ticket_id = "TICKET-001";
  phase = "Review";
  session_id = "s1";
  cwd = "/tmp/w";
}

abbrev resumption : Resumption
resumption = record {
  find = λ id. found (ticket id);
  reopen = λ id cwd. thrown (other "no such worktree");
  run = λ p. flags;
}

try_resume-Resolves_example :
    Resolves noon [] point plain
      (try_resume noon [] point resumption store (resumption.find "TICKET-001"))
try_resume-Resolves_example =
    try_resume-Resolves noon [] point plain resumption store flags-KeepsKeys (refl, tt)
