-- ===== src/RunLoop/Start.antt =====
-- src/orchestrator.ts, `runLoop` as a whole: an interrupted run is taken up again, and otherwise,
-- or where that fails, a new run is opened. The removal of old runs, whose errors are caught, is
-- left out.
use jme_loop_public.Prelude.{
  ℕ, String, sort_texts, Bool, true, not, Option, none, some, List, [], ◌∷◌, ◌++◌, ◌==◌, eqb,
  is_empty, join, keep, map, ◌⊕◌, Number, if◌then◌else◌,
}
use jme_loop_public.Json.{str, bool}
use jme_loop_public.LoopState.{LoopState, done}
use jme_loop_public.RunState.{RunState}
use jme_loop_public.RunStore.{
  RunStore, Date, Stored, ok, err, create_run, read_state, write_state, append_event,
}
use jme_loop_public.LoopKernel.{
  TransitionGuard, store_error, Outcome, return, throw, no_options, advance,
}
use jme_loop_public.Budget.{BudgetConfig}
use jme_loop_public.Queue.{Ticket, needs_planning}
use jme_loop_public.Resume.{ResumePoint, resolve_resume_point}
use jme_loop_public.RunLoop.{
  LoopError, kernel, other, Ended, returned, thrown, LoopEnd, finished, rethrown, event,
  run_stopped, run_completed, count, error_message, mark_stopped,
}
use jme_loop_public.RunLoop.Round.{Scan, scanned, Round, Runner}
use jme_loop_public.RunLoop.Session.{Backlog, run_session}

-- What `findTicketById` comes to.
pub data Found : Type 0 where
  found : Ticket → Found
  missing : Found
  unreadable : String → Found

-- What a resumption meets: the ticket's file, the worktree, and the ticket's run.
pub record Resumption : Type 0 where
  pub find : String → Found
  pub reopen : (ticket_id cwd : String) → Ended
  pub run : ResumePoint → Runner

-- The released tickets that keep the loop from starting.
loop_readiness_stop_message : List Ticket → Option String
unfolding sort_texts
loop_readiness_stop_message [] = none
loop_readiness_stop_message ts = some (
    "Released ticket(s) are missing spec/plan artifacts: "
    ⊕ join ", " (sort_texts (map (λ (t : Ticket). t.id) ts))
    ⊕ ". Run loop doctor or loop autoplan before starting the unattended loop.")

message_stops : Option String → List String
message_stops none = []
message_stops (some message) = message ∷ []

unfoldable pub collect_loop_readiness_stops : (String → Bool) → List Ticket → List String
unfolding loop_readiness_stop_message message_stops
collect_loop_readiness_stops exists tickets =
    message_stops (loop_readiness_stop_message (needs_planning exists tickets))

module _ (now : Date) (guards : List TransitionGuard) (p : ResumePoint) where
  -- The ticket moves from the queue's rest to its processed part.
  unfoldable pub requeue : RunState → RunStore → RunStore
  requeue session store =
      (write_state now
        (record session {
          queue = record {
            processed = session.queue.processed ++ p.ticket_id ∷ [];
            remaining = keep (λ id. not (id == p.ticket_id)) session.queue.remaining;
          };
        })
        store).1

  unfoldable pub after_done : Outcome LoopState × RunStore → Ended × RunStore
  after_done (throw e, store) = (thrown (kernel e), store)
  after_done (return _, store) = (
    returned,
    append_event now p.run_id (run_completed (("processed", count 1) ∷ ("resumed", bool true) ∷ []))
        store,
  )

  -- The end of a resumed run.
  unfoldable pub after_resumed : Ended × RunStore → Ended × RunStore
  unfolding requeue after_done
  after_resumed (thrown e, store) = (thrown e, store)
  after_resumed (returned, store) = elim (read_state p.run_id store) [
    | err e ↦ (thrown (kernel (store_error e)), store)
    | ok session ↦ after_done (advance now guards p.run_id done no_options (requeue session store))
  ]

  unfoldable pub reopened : Resumption → Ticket → RunStore → Ended → Ended × RunStore
  unfolding after_resumed
  reopened r t store (thrown e) = (thrown e, store)
  reopened r t store returned = after_resumed (r.run p now t store)

  -- The `try` of the resumption.
  unfoldable pub try_resume : Resumption → RunStore → Found → Ended × RunStore
  unfolding reopened
  try_resume r store (unreadable why) = (thrown (other why), store)
  try_resume r store missing = (thrown (other ("ticket not found: " ⊕ p.ticket_id)), store)
  try_resume r store (found t) = reopened r t store (r.reopen p.ticket_id p.cwd)

  module _ (quote : String → String) where
    -- Its `catch`: the interrupted run is marked as stopped, unless its snapshot cannot be read.
    unfoldable pub give_up : LoopError → RunStore → RunStore
    give_up e store = elim (read_state p.run_id store) [
      | err s ↦ store
      | ok session ↦
          mark_stopped p.run_id now
            (run_stopped (some p.ticket_id)
              (("reason", str "resume-skipped") ∷ ("detail", str (error_message quote e)) ∷ []))
            session store
    ]

module _ (now : Date) (guards : List TransitionGuard) (quote : String → String)
    (before : String → String → Bool) (parse : String → Number) (precedes : String → String → Bool)
    (budget : BudgetConfig) (max_tickets : ℕ) (run_ticket : Runner) where
  on_created : Backlog → List Round → Stored RunState × RunStore → LoopEnd × RunStore
  on_created b rs (err e, store) = (rethrown (kernel (store_error e)), store)
  on_created b rs (ok run, store) =
      run_session now guards run.run_id quote parse precedes budget max_tickets run_ticket b rs
        (append_event now run.run_id (event "run.started" none none) store)

  -- A new run, unless a released ticket is not ready for the loop.
  unfoldable pub new_run : Scan → Backlog → List Round → RunStore → LoopEnd × RunStore
  unfolding on_created collect_loop_readiness_stops
  new_run (Scan.unreadable why) b rs store = (rethrown (other why), store)
  new_run (scanned exists tickets) b rs store =
      let stops = collect_loop_readiness_stops exists tickets in
      if is_empty stops
      then on_created b rs (create_run now none [] store)
      else (rethrown (other ("Loop startup refused: " ⊕ join " " stops)), store)

  after_resume : ResumePoint → Scan → Backlog → List Round → Ended × RunStore → LoopEnd × RunStore
  unfolding give_up new_run
  after_resume p ready b rs (returned, store) = (finished 1, store)
  after_resume p ready b rs (thrown e, store) =
      new_run ready b rs (give_up now guards p quote e store)

  on_point :
      Resumption → Scan → Backlog → List Round → RunStore → Option ResumePoint → LoopEnd × RunStore
  unfolding try_resume after_resume new_run
  on_point r ready b rs store none = new_run ready b rs store
  on_point r ready b rs store (some p) =
      after_resume p ready b rs (try_resume now guards p r store (r.find p.ticket_id))

  unfoldable pub run_loop : Resumption → Scan → Backlog → List Round → RunStore → LoopEnd × RunStore
  unfolding on_point
  run_loop r ready b rs store =
      if eqb max_tickets 0
      then (rethrown (other "maxTicketsPerRun must be a positive integer; got 0"), store)
      else on_point r ready b rs store (resolve_resume_point before store)
