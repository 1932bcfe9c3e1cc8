-- ===== src/RunLoop/Returns.antt =====
-- src/orchestrator.ts, `runLoop`: what it leaves of the run that it opened, and of one that it took
-- up again.
use jme_loop_public.Prelude.{ℕ, String, ◌≡◌, Bool, List, [], Number}
use jme_loop_public.RunStore.{RunStore, Date}
use jme_loop_public.RunStore.Laws.{IsKeyed}
use jme_loop_public.LoopKernel.{TransitionGuard}
use jme_loop_public.Budget.{BudgetConfig}
use jme_loop_public.RunLoop.{Ended, returned, thrown, LoopEnd, finished, rethrown, waiting}
use jme_loop_public.RunLoop.Round.{Round, Loop, Runner, rounds}
use jme_loop_public.RunLoop.Session.{Backlog, refine_pass, after_pass, run_session}
use jme_loop_public.RunLoop.Settled.{HasEnded}
use jme_loop_public.RunLoop.Outcomes.{KeepsKeys, rounds-Keeps}
use jme_loop_public.RunLoop.Endings.{
  Settles, settle-Settles, after_rounds-Settles, refine_pass-IsKeyed,
}

Settles-finished :
    (run_id : String) (e : LoopEnd) (store : RunStore) {n : ℕ}
    → Settles run_id (e, store)
    → e ≡ finished n
    → HasEnded run_id store
Settles-finished run_id (finished n) store h q = h
Settles-finished run_id (rethrown e) store h q = cc
Settles-finished run_id waiting store h q = cc

module _ (now : Date) (guards : List TransitionGuard) (run_id : String) (quote : String → String)
    (parse : String → Number) (precedes : String → String → Bool) (budget : BudgetConfig)
    (max_tickets : ℕ) (run_ticket : Runner) where
  after_pass-Settles :
      (rs : List Round) (e : Ended) (store : RunStore)
      → KeepsKeys run_ticket
      → IsKeyed store
      → Settles run_id (
          after_pass now guards run_id quote parse precedes budget max_tickets run_ticket rs
            (e, store))
  unfolding after_pass
  after_pass-Settles rs (thrown e) store law k = settle-Settles now run_id quote e 0 store k
  after_pass-Settles rs returned store law k =
      let l : Loop = record { store = store; processed = 0; skipped = [] } in
      after_rounds-Settles now run_id quote guards
        (rounds guards run_id parse precedes budget max_tickets run_ticket rs l)
        (rounds-Keeps guards run_id parse precedes budget max_tickets run_ticket law rs l k)

  -- A run from which the loop returns has ended: its snapshot is completed or stopped, and its log
  -- ends with the event that says so. The tickets' runs and the refinement of the backlog, whatever
  -- they do and however they end, keep every snapshot under its run id.
  pub run_session_returns :
      (b : Backlog) (rs : List Round) (store : RunStore) (n : ℕ)
      → KeepsKeys run_ticket
      → ((epic : String) (s : RunStore) → IsKeyed s → IsKeyed (b.refine epic s).1)
      → IsKeyed store
      → (run_session now guards run_id quote parse precedes budget max_tickets run_ticket b rs
          store).0
        ≡ finished n
      → HasEnded run_id
          (run_session now guards run_id quote parse precedes budget max_tickets run_ticket b rs
            store).1
  unfolding run_session
  run_session_returns b rs store n law refines k h =
      let pass = refine_pass now guards run_id b store in
      let end =
        after_pass now guards run_id quote parse precedes budget max_tickets run_ticket rs pass in
      Settles-finished run_id end.0 end.1
        (after_pass-Settles rs pass.0 pass.1 law
          (refine_pass-IsKeyed now guards run_id b refines store k))
        h
