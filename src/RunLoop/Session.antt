-- ===== src/RunLoop/Session.antt =====
-- src/orchestrator.ts, `runLoop` from the run that it opens to its end: the pass over the backlog,
-- the rounds, the end of the run, and the settlement of an error.
use jme_loop_public.Prelude.{
  ℕ, String, Bool, Option, none, some, List, [], ◌∷◌, Number, if◌then◌else◌,
}
use jme_loop_public.Json.{str}
use jme_loop_public.LoopState.{LoopState, select_ticket, refine_backlog, done}
use jme_loop_public.RunStore.{RunStore, Date, append_event}
use jme_loop_public.LoopKernel.{TransitionGuard, Outcome, return, throw, no_options, advance}
use jme_loop_public.Budget.{BudgetConfig}
use jme_loop_public.Queue.{Ticket, loop_ready, needs_planning}
use jme_loop_public.RunLoop.{
  kernel, other, Ended, returned, thrown, LoopEnd, finished, waiting, event, run_completed, count,
  settle,
}
use jme_loop_public.RunLoop.Round.{
  Scan, scanned, unreadable, Round, RoundEnd, next, idles, leaves, stops, throws, Runner,
  ensure_selecting, rounds,
}

-- The epic of the first ticket that is ready, or else of the first that needs planning.
epic_of : List Ticket → List Ticket → Option String
epic_of (t ∷ ready) planning = some t.epic_id
epic_of [] (t ∷ planning) = some t.epic_id
epic_of [] [] = none

unfoldable pub refine_epic : (String → Bool) → List Ticket → Option String
unfolding epic_of
refine_epic exists tickets = epic_of (loop_ready exists tickets) (needs_planning exists tickets)

-- What the pass over the backlog meets: the tickets, the registry of skills, and the two calls
-- `runRefineBacklog` and `runApplyRefinement`, which act on the store and may throw.
pub record Backlog : Type 0 where
  pub scan : Scan
  pub has_skill : Bool
  pub refine : String → RunStore → Ended × RunStore

module _ (now : Date) (guards : List TransitionGuard) (run_id : String) where
  -- A move, and what follows it if it is made.
  unfoldable pub move_then :
      Outcome LoopState × RunStore → (RunStore → Ended × RunStore) → Ended × RunStore
  move_then (throw e, store) rest = (thrown (kernel e), store)
  move_then (return _, store) rest = rest store

  unfoldable pub move : LoopState → RunStore → Outcome LoopState × RunStore
  move to store = advance now guards run_id to no_options store

  abbrev pub ending : RunStore → Ended × RunStore
  ending store = (returned, store)

  unfoldable pub back_from : Ended × RunStore → Ended × RunStore
  unfolding move_then move
  back_from (thrown e, store) = (thrown e, store)
  back_from (returned, store) = move_then (move select_ticket store) ending

  unfoldable pub refinement_of : Backlog → String → RunStore → Ended × RunStore
  unfolding move_then move back_from
  refinement_of b epic store = move_then (ensure_selecting guards run_id now store) (λ selected.
      move_then (move refine_backlog selected) (λ entered. back_from (b.refine epic entered)))

  unfoldable pub on_epic : Backlog → RunStore → Option String → Ended × RunStore
  unfolding refinement_of
  on_epic b store none = (returned, store)
  on_epic b store (some epic) = if b.has_skill then refinement_of b epic store else (
    returned,
    append_event now run_id
        (event "backlog.refinement.skipped" none
          (some (("epicId", str epic) ∷ ("reason", str "skill unregistered") ∷ [])))
        store,
  )

  unfoldable pub on_scan : Backlog → RunStore → Scan → Ended × RunStore
  unfolding on_epic
  on_scan b store (unreadable why) = (thrown (other why), store)
  on_scan b store (scanned exists tickets) = on_epic b store (refine_epic exists tickets)

  -- The pass over the backlog before the first round.
  unfoldable pub refine_pass : Backlog → RunStore → Ended × RunStore
  unfolding on_scan
  refine_pass b store = on_scan b store b.scan

  unfoldable pub completed_event : ℕ → RunStore → RunStore
  completed_event processed store =
      append_event now run_id (run_completed (("processed", count processed) ∷ [])) store

  -- The end of a run that was not stopped: the move to `Done`, and then the event.
  unfoldable pub complete : ℕ → RunStore → Ended × RunStore
  unfolding move_then move completed_event
  complete processed store = move_then (ensure_selecting guards run_id now store) (λ selected.
      move_then (move done selected) (λ ended. ending (completed_event processed ended)))

  module _ (quote : String → String) where
    -- The `catch` around the backlog's pass, the rounds and the end of the run.
    unfoldable pub caught : ℕ → Ended × RunStore → LoopEnd × RunStore
    caught processed (returned, store) = (finished processed, store)
    caught processed (thrown e, store) = settle quote run_id now e processed store

    unfoldable pub after_rounds : RoundEnd → LoopEnd × RunStore
    unfolding caught complete
    after_rounds (next l) = (waiting, l.store)
    after_rounds (idles l) = (waiting, l.store)
    after_rounds (leaves l) = caught l.processed (complete l.processed l.store)
    after_rounds (stops l) = (finished l.processed, l.store)
    after_rounds (throws e l) = settle quote run_id now e l.processed l.store

    module _ (parse : String → Number) (precedes : String → String → Bool) (budget : BudgetConfig)
        (max_tickets : ℕ) (run_ticket : Runner) where
      unfoldable pub after_pass : List Round → Ended × RunStore → LoopEnd × RunStore
      unfolding after_rounds
      after_pass rs (thrown e, store) = settle quote run_id now e 0 store
      after_pass rs (returned, store) = after_rounds (
          rounds guards run_id parse precedes budget max_tickets run_ticket rs
            (record { store = store; processed = 0; skipped = [] }))

      -- The run that was opened, from the pass over the backlog on.
      unfoldable pub run_session : Backlog → List Round → RunStore → LoopEnd × RunStore
      unfolding refine_pass after_pass
      run_session b rs store = after_pass rs (refine_pass b store)
