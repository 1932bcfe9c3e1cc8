-- ===== src/Tests/Tickets.antt =====
-- The queue and the failure of a ticket at concrete tickets and runs.
use jme_loop_public.Prelude.{
  ℕ, String, ◌≡◌, refl, ◌↔◌, Bool, true, false, not, none, some, List, [], ◌∷◌, In, inl, eqb, sym,
  subst, both_branches, int, pos, ge, is_finite, arith,
}
use jme_loop_public.Json.{num, str, bool, array, cons, nil, Fields}
use jme_loop_public.LoopState.{
  member, execute_plan, select_ticket, idle, is_terminal, same_state, parse_loop_state,
}
use jme_loop_public.RunState.{RunState, RunEvent, running}
use jme_loop_public.RunStore.{RunStore, Date, read_state, read_events}
use jme_loop_public.LoopKernel.{TransitionGuard, GuardVerdict, allowed}
use jme_loop_public.Budget.{budget_arms, first_tripped, reaches, key_name}
use jme_loop_public.BudgetGuard.{
  make_budget_guard, guard_verdict, state_value, view_number, finite_number, check_budget,
  guard_exempt_targets,
}
use jme_loop_public.TicketFailure.{continued, flag_event, fail_and_continue}
use jme_loop_public.TicketFailure.Return.{fail_and_continue_returns}
use jme_loop_public.TicketFailure.Moves.{Standing, Selecting, Unguarded}
use jme_loop_public.Queue.{
  Ticket, planned, done, read_ticket, status_of, loop_ready, is_unblocked, pick_next, is_ticket_id,
}
use jme_loop_public.Queue.Picking.{
  IsReleased, IsPrepared, IsOrder, Scanned, loop_ready_iff, pick_next_least, pick_next_dependencies,
}

abbrev base : Ticket
base = record {
  id = "TICKET-001";
  epic_id = "EPIC-001";
  title = "Base";
  status = done;
  spec = some "spec.md";
  plan = some "plan.md";
  loop = true;
  depends_on = [];
}

abbrev next_one : Ticket
next_one = record base { id = "TICKET-002"; status = planned; depends_on = "TICKET-001" ∷ [] }

abbrev scanned : List Ticket
scanned = base ∷ next_one ∷ []

-- No id precedes another: the first ready ticket is taken.
abbrev unordered : String → String → Bool
unordered a b = false

abbrev everything : String → Bool
everything path = true

unordered-IsOrder : IsOrder unordered
unordered-IsOrder = record { irreflexive = λ a. refl; transitive = λ a b c h k. h }

-- Opens what the queue computes with.
queue_run : Unit {0}
unfolding pick_next loop_ready is_unblocked read_ticket status_of
queue_run = tt

abbrev frontmatter : Fields
frontmatter =
    ("id", str "TICKET-002")
    ∷ ("status", str " planned ")
    ∷ ("title", str "Base")
    ∷ ("spec", str "spec.md")
    ∷ ("plan", str "plan.md")
    ∷ ("loop", bool true)
    ∷ ("depends-on", array (cons (str "TICKET-001") nil))
    ∷ []

reads : read_ticket (some "EPIC-001") frontmatter ≡ some next_one
unfolding queue_run
reads = refl

suffixed : is_ticket_id "TICKET-014a" ≡ true
unfolding is_ticket_id
suffixed = refl

picked : pick_next unordered (loop_ready everything scanned) scanned ≡ some next_one
unfolding queue_run
picked = refl

loop_ready_iff_example :
    In next_one (loop_ready everything scanned)
    ↔ (In next_one scanned × IsReleased next_one × IsPrepared everything next_one)
loop_ready_iff_example = loop_ready_iff everything next_one scanned

pick_next_dependencies_example : Scanned scanned "TICKET-001" done
pick_next_dependencies_example =
    pick_next_dependencies unordered (loop_ready everything scanned) scanned next_one "TICKET-001"
      picked (inl refl)

ready_next_one : In next_one (loop_ready everything scanned)
unfolding queue_run
ready_next_one = inl refl

unblocked : is_unblocked scanned next_one ≡ true
unfolding queue_run
unblocked = refl

pick_next_least_example : unordered "TICKET-002" "TICKET-002" ≡ false
pick_next_least_example =
    pick_next_least unordered unordered-IsOrder (loop_ready everything scanned) scanned next_one
      next_one picked ready_next_one unblocked

abbrev noon : Date
noon = record {
  iso = "2026-06-12T12:00:00.000Z";
  year = 2026;
  month = 6;
  day = 12;
  hours = 12;
  minutes = 0;
  seconds = 0;
}

abbrev building : RunState
building = record {
  run_id = "run-1";
  epic_id = none;
  status = running;
  started_at = "2026-06-12T12:00:00.000Z";
  updated_at = "2026-06-12T12:00:00.000Z";
  current_ticket_id = some "TICKET-002";
  current_phase = some "ExecutePlan";
  queue = record { processed = []; remaining = [] };
  budget =
      ("iterationsUsed", num (int (pos 7)))
      ∷ ("maxIterations", num (int (pos 50)))
      ∷ ("elapsedMs", num (int (pos 60000)))
      ∷ ("maxWallClockMs", num (int (pos 28800000)))
      ∷ [];
  no_progress =
      ("iterationsSinceProgress", num (int (pos 2)))
      ∷ ("maxNoProgressIterations", num (int (pos 5)))
      ∷ ("msSinceProgress", num (int (pos 60000)))
      ∷ ("maxNoProgressMs", num (int (pos 7200000)))
      ∷ [];
}

abbrev store : RunStore
store = record {
  states = ("run-1", building) ∷ [];
  events = ("run-1", []) ∷ [];
  artifacts = [];
  seq = 1;
}

-- The guard that the program wires, and a run within its ceilings.
abbrev guards : List TransitionGuard
guards = make_budget_guard ∷ []

within :
    (s : RunState)
    → s.budget ≡ building.budget
    → s.no_progress ≡ building.no_progress
    → guard_verdict (first_tripped (state_value s) budget_arms) ≡ allowed
unfolding guard_verdict first_tripped state_value view_number finite_number reaches ge is_finite
    key_name
within s b n =
    subst
      (λ fields.
        guard_verdict (first_tripped (state_value (record s { budget = fields })) budget_arms)
        ≡ allowed)
      (sym b)
      (subst
        (λ fields.
          guard_verdict (
            first_tripped
              (state_value (record s { budget = building.budget; no_progress = fields }))
              budget_arms)
          ≡ allowed)
        (sym n) refl)

building-Unguarded : Unguarded noon guards "run-1" "TICKET-002" building
unfolding check_budget
building-Unguarded from to s b n = (
  both_branches (λ (v : GuardVerdict). v ≡ allowed) (member to guard_exempt_targets) allowed _
      (λ _. refl) (λ _. within s b n),
  tt,
)

building-Standing : Standing noon guards "run-1" "TICKET-002" execute_plan building [] store
unfolding read_state read_events parse_loop_state
building-Standing = record { stored = refl; stands = refl; told = refl; keyed = (refl, tt) }

building_alive : is_terminal execute_plan ≡ false
unfolding is_terminal
building_alive = refl

-- The first two attempts to record the flag fail.
abbrev third : ℕ → Bool
third k = eqb k 3

abbrev the_flag : RunEvent
the_flag = record (flag_event noon guards "run-1" "TICKET-002" "the build broke" execute_plan) {
  ts = noon.iso;
}

fail_and_continue_returns_example :
    let end =
      fail_and_continue noon guards "run-1" "TICKET-002" third idle none "the build broke" store in
    (end.0 ≡ continued)
    × Selecting noon guards "run-1" "TICKET-002"
        (the_flag ∷ [])
        (not (same_state execute_plan select_ticket))
        end.1
fail_and_continue_returns_example =
    fail_and_continue_returns noon guards "run-1" "TICKET-002" third 3 idle execute_plan none
      "the build broke" building [] store building-Unguarded (omega arith) (omega arith) refl
      building_alive building-Standing
