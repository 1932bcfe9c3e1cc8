-- ===== src/RunLoop/Endings.antt =====
-- src/orchestrator.ts, `runLoop`: the end of the run that it opened, and the settlement of an error.
use jme_loop_public.Prelude.{
  ℕ, String, ◌≡◌, refl, ap, subst, inl, inr, true, Option, none, some, or_else, List, [], ◌∷◌,
  Bool-cases,
}
use jme_loop_public.Json.{Fields}
use jme_loop_public.LoopState.{LoopState, select_ticket, refine_backlog, is_terminal, done}
use jme_loop_public.RunState.{RunEvent, stopped}
use jme_loop_public.RunStore.{RunStore, Date, read_state, append_event}
use jme_loop_public.RunStore.Laws.{IsKeyed, read_state-IsKeyed, Stored-cases}
use jme_loop_public.LoopKernel.{
  TransitionGuard, store_error, unknown_state, illegal_transition, transition_denied, Outcome,
  return, throw, no_options, advance,
}
use jme_loop_public.RunLoop.{
  LoopError, flag_record_failed, kernel, other, Ended, returned, thrown, LoopEnd, finished,
  rethrown, waiting, event, run_stopped, run_completed, count, stop_event, settle, settle_by,
  mark_stopped,
}
use jme_loop_public.RunLoop.Round.{
  Scan, scanned, unreadable, RoundEnd, next, idles, leaves, stops, throws, ensure_selecting,
}
use jme_loop_public.RunLoop.Session.{
  Backlog, move_then, move, back_from, refinement_of, on_epic, on_scan, refine_pass, refine_epic,
  completed_event, complete, caught, after_rounds,
}
use jme_loop_public.RunLoop.Settled.{
  is_final, HasEnded, append_event-HasEnded, write_state-HasEnded, advance-IsKeyed,
  advance_to_terminal,
}
use jme_loop_public.RunLoop.Outcomes.{Keeps, ensure_selecting-IsKeyed, Outcome-cases}

-- Where the loop returns, the run has ended.
abbrev pub Settles : String → LoopEnd × RunStore → Type 0
Settles run_id (finished n, store) = HasEnded run_id store
Settles run_id (rethrown e, store) = Unit
Settles run_id (waiting, store) = Unit

-- Where the end of a run is recorded, it has ended; where a call throws, the store is keyed.
abbrev pub Closes : String → Ended × RunStore → Type 0
Closes run_id (returned, store) = HasEnded run_id store
Closes run_id (thrown e, store) = IsKeyed store

run_stopped-is_final :
    (ticket_id : Option String) (fields : Fields) (stop : RunEvent)
    → some (run_stopped ticket_id fields) ≡ some stop
    → is_final stop ≡ true
unfolding run_stopped event
run_stopped-is_final ticket_id fields stop h =
    subst (λ e. is_final e ≡ true) (ap (λ o. or_else o stop) h) refl

stop_event-is_final :
    (quote : String → String) (e : LoopError) (stop : RunEvent)
    → stop_event quote e ≡ some stop
    → is_final stop ≡ true
unfolding stop_event
stop_event-is_final quote (flag_record_failed id why n cause) stop h =
    run_stopped-is_final _ _ stop h
stop_event-is_final quote (kernel (store_error e)) stop h = cc
stop_event-is_final quote (kernel (unknown_state name)) stop h = run_stopped-is_final _ _ stop h
stop_event-is_final quote (kernel (illegal_transition from to)) stop h =
    run_stopped-is_final _ _ stop h
stop_event-is_final quote (kernel (transition_denied g r from to)) stop h =
    run_stopped-is_final _ _ stop h
stop_event-is_final quote (other message) stop h = cc

module _ (now : Date) (run_id : String) (quote : String → String) where
  settle_by-Settles :
      (e : LoopError) (n : ℕ) (o : Option RunEvent) (store : RunStore)
      → IsKeyed store
      → ((stop : RunEvent) → o ≡ some stop → is_final stop ≡ true)
      → Settles run_id (settle_by quote run_id now e n o store)
  unfolding settle_by mark_stopped
  settle_by-Settles e n none store k f = tt
  settle_by-Settles e n (some stop) store k f = elim (Stored-cases (read_state run_id store)) [
    | inr (s, q) ↦ rw (q, settle_by) tt
    | inl (session, q) ↦
        rw (q, settle_by)
          (write_state-HasEnded now run_id stop (record session { status = stopped }) store
            (read_state-IsKeyed run_id store session k q) (inr refl) (f stop refl))
  ]

  pub settle-Settles :
      (e : LoopError) (n : ℕ) (store : RunStore)
      → IsKeyed store
      → Settles run_id (settle quote run_id now e n store)
  unfolding settle
  settle-Settles e n store k =
      settle_by-Settles e n (stop_event quote e) store k (stop_event-is_final quote e)

  module _ (guards : List TransitionGuard) where
    move_done-Closes :
        (n : ℕ) (store : RunStore)
        → IsKeyed store
        → Closes run_id (
            move_then now guards run_id
              (move now guards run_id done store)
              (λ ended. (returned, completed_event now guards run_id n ended)))
    unfolding move_then move completed_event run_completed event is_terminal
    move_done-Closes n store k =
        let moved = advance now guards run_id done no_options store in
        elim (Outcome-cases moved.0) [
          | inr (e, q) ↦
              rw (q, move_then) (advance-IsKeyed now guards run_id done no_options store k)
          | inl (s, q) ↦
              let (session, stored, status) =
                advance_to_terminal now guards run_id done s no_options store k refl q in
              rw (q, move_then)
                (append_event-HasEnded now run_id (run_completed (("processed", count n) ∷ []))
                  moved.1 session stored status refl)
        ]

    complete-Closes :
        (n : ℕ) (store : RunStore)
        → IsKeyed store
        → Closes run_id (complete now guards run_id n store)
    unfolding complete
    complete-Closes n store k =
        let selected = ensure_selecting guards run_id now store in
        let kept = ensure_selecting-IsKeyed guards run_id now store k in
        elim (Outcome-cases selected.0) [
          | inr (e, q) ↦ rw (q, move_then) kept
          | inl (s, q) ↦ rw (q, move_then) (move_done-Closes n selected.1 kept)
        ]

    caught-Settles :
        (n : ℕ) (e : Ended) (store : RunStore)
        → Closes run_id (e, store)
        → Settles run_id (caught now guards run_id quote n (e, store))
    unfolding caught
    caught-Settles n returned store h = h
    caught-Settles n (thrown e) store h = settle-Settles e n store h

    pub after_rounds-Settles :
        (e : RoundEnd) → Keeps run_id e → Settles run_id (after_rounds now guards run_id quote e)
    unfolding after_rounds
    after_rounds-Settles (next l) h = tt
    after_rounds-Settles (idles l) h = tt
    after_rounds-Settles (stops l) h = h
    after_rounds-Settles (throws e l) h = settle-Settles e l.processed l.store h
    after_rounds-Settles (leaves l) h =
        let closed = complete now guards run_id l.processed l.store in
        caught-Settles l.processed closed.0 closed.1 (complete-Closes l.processed l.store h)

module _ (now : Date) (guards : List TransitionGuard) (run_id : String) where
  move_then-IsKeyed :
      (o : Outcome LoopState) (store : RunStore) (rest : RunStore → Ended × RunStore)
      → IsKeyed store
      → ((s : RunStore) → IsKeyed s → IsKeyed (rest s).1)
      → IsKeyed (move_then now guards run_id (o, store) rest).1
  unfolding move_then
  move_then-IsKeyed (throw e) store rest k h = k
  move_then-IsKeyed (return s) store rest k h = h store k

  move-IsKeyed :
      (to : LoopState) (store : RunStore) (rest : RunStore → Ended × RunStore)
      → IsKeyed store
      → ((s : RunStore) → IsKeyed s → IsKeyed (rest s).1)
      → IsKeyed (move_then now guards run_id (move now guards run_id to store) rest).1
  unfolding move
  move-IsKeyed to store rest k h =
      let moved = advance now guards run_id to no_options store in
      move_then-IsKeyed moved.0 moved.1 rest
        (advance-IsKeyed now guards run_id to no_options store k) h

  back_from-IsKeyed :
      (e : Ended) (store : RunStore)
      → IsKeyed store
      → IsKeyed (back_from now guards run_id (e, store)).1
  unfolding back_from
  back_from-IsKeyed (thrown e) store k = k
  back_from-IsKeyed returned store k = move-IsKeyed select_ticket store _ k (λ s h. h)

  -- What the refinement of the backlog does keeps every snapshot under its run id.
  module _ (b : Backlog)
      (law : (epic : String) (store : RunStore)
        → IsKeyed store
        → IsKeyed (b.refine epic store).1) where
    refinement-IsKeyed :
        (epic : String) (store : RunStore)
        → IsKeyed store
        → IsKeyed (refinement_of now guards run_id b epic store).1
    unfolding refinement_of
    refinement-IsKeyed epic store k =
        let selected = ensure_selecting guards run_id now store in
        move_then-IsKeyed selected.0 selected.1 _
          (ensure_selecting-IsKeyed guards run_id now store k)
          (λ s h.
            move-IsKeyed refine_backlog s _ h
              (λ t i. back_from-IsKeyed (b.refine epic t).0 (b.refine epic t).1 (law epic t i)))

    on_epic-IsKeyed :
        (store : RunStore) (o : Option String)
        → IsKeyed store
        → IsKeyed (on_epic now guards run_id b store o).1
    unfolding on_epic append_event
    on_epic-IsKeyed store none k = k
    on_epic-IsKeyed store (some epic) k = elim (Bool-cases b.has_skill) [
      | inl e ↦ rw e (refinement-IsKeyed epic store k)
      | inr e ↦ rw e k
    ]

    on_scan-IsKeyed :
        (store : RunStore) (s : Scan)
        → IsKeyed store
        → IsKeyed (on_scan now guards run_id b store s).1
    unfolding on_scan
    on_scan-IsKeyed store (unreadable why) k = k
    on_scan-IsKeyed store (scanned exists tickets) k =
        on_epic-IsKeyed store (refine_epic exists tickets) k

    pub refine_pass-IsKeyed :
        (store : RunStore) → IsKeyed store → IsKeyed (refine_pass now guards run_id b store).1
    unfolding refine_pass
    refine_pass-IsKeyed store k = on_scan-IsKeyed store b.scan k
