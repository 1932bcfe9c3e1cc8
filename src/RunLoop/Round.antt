-- ===== src/RunLoop/Round.antt =====
-- src/orchestrator.ts, the `while` loop of `runLoop`. A round is given what it meets outside: the
-- kill switch, the clock, and the tickets on disk. The clock is read once in a round.
use jme_loop_public.Prelude.{
  ℕ, ◌+◌, String, Bool, false, not, ◌&&◌, Option, none, some, or_else, List, [], ◌∷◌, ◌++◌, ◌==◌,
  eqb, ltb, any, keep, drop, length, map, includes, is_empty, Number, if◌then◌else◌,
}
use jme_loop_public.Json.{Json, str, num, null, object, of_fields, Fields}
use jme_loop_public.LoopState.{LoopState, idle, select_ticket, state_name, same_state}
use jme_loop_public.RunState.{RunState, RunEvent, stopped}
use jme_loop_public.RunStore.{
  RunStore, Date, ok, err, read_state, write_state, read_events, append_event,
}
use jme_loop_public.LoopKernel.{
  TransitionGuard, store_error, Outcome, return, throw, no_options, current, advance,
}
use jme_loop_public.Budget.{
  BudgetConfig, BudgetArm, BudgetSnapshot, BudgetVerdict, clear, tripped, evaluate_budget, arm_name,
}
use jme_loop_public.BudgetGuard.{budget_view, no_progress_view}
use jme_loop_public.Queue.{Ticket, loop_ready, pick_next}
use jme_loop_public.RunLoop.{LoopError, kernel, other, Ended, returned, thrown, event, run_stopped}

-- The tickets of the repository, with the files that exist, or the error of reading them.
pub data Scan : Type 0 where
  scanned : (exists : String → Bool) → List Ticket → Scan
  unreadable : String → Scan

pub record Round : Type 0 where
  pub kill_switch : Bool
  pub now : Date
  pub now_ms : Number
  pub scan : Scan

-- The loop's variables, with the store.
pub record Loop : Type 0 where
  pub store : RunStore
  pub processed : ℕ
  pub skipped : List String

-- What a round comes to: the next one, the next one after a pause, the end of the loop, a stop that
-- was recorded, or an error.
pub data RoundEnd : Type 0 where
  next idles leaves stops : Loop → RoundEnd
  throws : LoopError → Loop → RoundEnd

-- The one that `runTicket` is called by.
abbrev pub Runner : Type 0
Runner = Date → Ticket → RunStore → Ended × RunStore

names_ticket : Option String → String → Bool
names_ticket none id = false
names_ticket (some ticket_id) id = ticket_id == id

unfoldable pub is_flag_of : String → RunEvent → Bool
unfolding names_ticket
is_flag_of id e = e.type == "ticket.flagged" && names_ticket e.ticket_id id

null_or : Option Number → Json
null_or none = null
null_or (some n) = num n

-- The marker of a verdict, as the event holds it.
marker_fields : BudgetSnapshot → Fields
unfolding null_or
marker_fields m =
    ("iterationsUsed", num m.iterations_used)
    ∷ ("maxIterations", num m.max_iterations)
    ∷ ("elapsedMs", num m.elapsed_ms)
    ∷ ("maxWallClockMs", num m.max_wall_clock_ms)
    ∷ ("iterationsSinceProgress", num m.iterations_since_progress)
    ∷ ("maxNoProgressIterations", num m.max_no_progress_iterations)
    ∷ ("msSinceProgress", num m.ms_since_progress)
    ∷ ("maxNoProgressMs", num m.max_no_progress_ms)
    ∷ ("lastProgressAt", elim m.last_progress_at [ none ↦ null | some ts ↦ str ts ])
    ∷ ("tokenCeiling", null_or m.token_ceiling)
    ∷ ("dollarCeiling", null_or m.dollar_ceiling)
    ∷ []

unfoldable pub budget_stop : LoopState → BudgetArm → BudgetSnapshot → RunEvent
unfolding marker_fields run_stopped
budget_stop state arm m = run_stopped none (
    ("reason", str (state_name state))
    ∷ ("arm", str (arm_name arm))
    ∷ ("marker", object (of_fields (marker_fields m)))
    ∷ [])

abbrev pub kill_switch_stop : RunEvent
unfolding run_stopped
kill_switch_stop = run_stopped none (("reason", str "kill-switch") ∷ [])

module _ (guards : List TransitionGuard) (run_id : String) where
  unfoldable pub selecting : Date → RunStore → LoopState → Outcome LoopState × RunStore
  selecting now store at =
      if same_state at idle
      then advance now guards run_id select_ticket no_options store
      else (return at, store)

  -- `if (current === "Idle") advance("SelectTicket")`.
  unfoldable pub ensure_selecting : Date → RunStore → Outcome LoopState × RunStore
  unfolding selecting
  ensure_selecting now store = elim (current run_id store) [
    | throw e ↦ (throw e, store)
    | return at ↦ selecting now store at
  ]

  -- The kill switch: the snapshot first, and then the event.
  unfoldable pub kill : Date → Loop → RoundEnd
  kill now l = elim (read_state run_id l.store) [
    | err e ↦ throws (kernel (store_error e)) l
    | ok session ↦ stops (record l {
      store =
          append_event now run_id kill_switch_stop
            (write_state now
              (record session { status = stopped; current_ticket_id = none; current_phase = none })
              l.store).1;
    })
  ]

  module _ (parse : String → Number) (precedes : String → String → Bool) (budget : BudgetConfig)
      (max_tickets : ℕ) (run_ticket : Runner) where
    -- A ticket that was flagged in the events after the first `before` ones is skipped from now on.
    unfoldable pub skip : ℕ → Ticket → RunStore → List String → List String
    skip before t store skipped =
        if any (is_flag_of t.id) (drop before (read_events run_id store))
        then t.id ∷ skipped
        else skipped

    -- After `runTicket`: the ticket counts as processed.
    unfoldable pub after_ticket :
        Round → Loop → Ticket → List String → ℕ → Ended × RunStore → RoundEnd
    unfolding skip
    after_ticket r l t remaining before (thrown e, store) = throws e (record l { store = store })
    after_ticket r l t remaining before (returned, store) =
        let skipped = skip before t store l.skipped in
        elim (read_state run_id store) [
          | err e ↦ throws (kernel (store_error e)) (record l { store = store; skipped = skipped })
          | ok session ↦ next (record {
            store =
                (write_state r.now
                  (record session {
                    queue = record {
                      processed = session.queue.processed ++ t.id ∷ [];
                      remaining = remaining;
                    };
                  })
                  store).1;
            processed = l.processed + 1;
            skipped = skipped;
          })
        ]

    -- The queue and the event that are written before a ticket's run.
    unfoldable pub book : Date → RunState → Ticket → List String → RunStore → RunStore
    book now session t remaining store =
        append_event now run_id (event "ticket.started" (some t.id) none)
          (write_state now
            (record session {
              epic_id = some (or_else session.epic_id t.epic_id);
              queue = record { processed = session.queue.processed; remaining = remaining };
            })
            store).1

    unfoldable pub run_picked : Round → RunState → Loop → List Ticket → Ticket → RoundEnd
    unfolding book after_ticket
    run_picked r session l ready t =
        let remaining = keep (λ id. not (id == t.id)) (map (λ (x : Ticket). x.id) ready) in
        let booked = book r.now session t remaining l.store in
        after_ticket r l t remaining (length (read_events run_id booked))
          (run_ticket r.now t booked)

    -- With no ticket to take: the loop ends if only skipped ones are left, or in a run of one
    -- ticket, and waits otherwise.
    unfoldable pub on_pick : Round → RunState → Loop → List Ticket → Bool → Option Ticket → RoundEnd
    unfolding run_picked
    on_pick r session l ready some_skipped (some t) = run_picked r session l ready t
    on_pick r session l ready some_skipped none =
        if is_empty ready && some_skipped
        then leaves l
        else if eqb max_tickets 1
        then leaves l
        else idles l

    unfoldable pub eligible : Loop → List Ticket → List Ticket
    eligible l tickets = keep (λ (t : Ticket). not (includes l.skipped t.id)) tickets

    unfoldable pub take_ticket : Round → RunState → Loop → Scan → RoundEnd
    unfolding on_pick eligible
    take_ticket r session l (unreadable why) = throws (other why) l
    take_ticket r session l (scanned exists tickets) =
        let released = loop_ready exists tickets in
        let ready = eligible l released in
        on_pick r session l ready (any (λ (t : Ticket). includes l.skipped t.id) released)
          (pick_next precedes ready tickets)

    -- The budget trips: the move to the verdict's state, and then the event.
    unfoldable pub after_trip :
        Date
        → LoopState
        → BudgetArm
        → BudgetSnapshot
        → Loop
        → Outcome LoopState × RunStore
        → RoundEnd
    after_trip now state arm m l (throw e, store) = throws (kernel e) (record l { store = store })
    after_trip now state arm m l (return _, store) =
        stops (record l { store = append_event now run_id (budget_stop state arm m) store })

    -- The views of the verdict are written in either case.
    unfoldable pub write_views : Date → RunState → BudgetSnapshot → RunStore → RunState × RunStore
    write_views now session m store =
        write_state now
          (record session { budget = budget_view m; no_progress = no_progress_view m }) store

    unfoldable pub on_verdict : Round → RunState → Loop → BudgetVerdict → RoundEnd
    unfolding write_views take_ticket after_trip
    on_verdict r session l (clear m) =
        let (written, store) = write_views r.now session m l.store in
        take_ticket r written (record l { store = store }) r.scan
    on_verdict r session l (tripped state arm reason m) =
        let store = (write_views r.now session m l.store).1 in
        after_trip r.now state arm m l (advance r.now guards run_id state no_options store)

    -- A round from `SelectTicket`.
    unfoldable pub on_selected : Round → Loop → Outcome LoopState × RunStore → RoundEnd
    unfolding on_verdict
    on_selected r l (throw e, store) = throws (kernel e) (record l { store = store })
    on_selected r l (return _, store) = elim (read_state run_id store) [
      | err e ↦ throws (kernel (store_error e)) (record l { store = store })
      | ok session ↦
          on_verdict r session (record l { store = store })
            (evaluate_budget parse session (read_events run_id store) budget r.now_ms)
    ]

    unfoldable pub round : Round → Loop → RoundEnd
    unfolding kill on_selected
    round r l =
        if r.kill_switch then kill r.now l else on_selected r l (ensure_selecting r.now l.store)

    -- After a round: the loop goes on with the rest of the rounds, or is left.
    unfoldable pub on_end : RoundEnd → (Loop → RoundEnd) → RoundEnd
    on_end (next l) rest = rest l
    on_end (idles l) rest = rest l
    on_end (leaves l) rest = leaves l
    on_end (stops l) rest = stops l
    on_end (throws e l) rest = throws e l

    -- `while (processed < maxTicketsPerRun)`, over the rounds that are given; it idles where they
    -- are used up.
    unfoldable pub rounds : List Round → Loop → RoundEnd
    unfolding on_end
    rounds [] l = if ltb l.processed max_tickets then idles l else leaves l
    rounds (r ∷ rs) l =
        if ltb l.processed max_tickets then on_end (round r l) (rounds rs) else leaves l
