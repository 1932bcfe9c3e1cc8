-- ===== src/RunLoop/Tickets.antt =====
-- src/orchestrator.ts, the `while` loop of `runLoop`: which ticket a round processes, and what it
-- counts.
use jme_loop_public.Prelude.{
  ℕ, ◌+◌, String, ◌≡◌, refl, ap, inl, inr, Bool, true, false, not, Option, none, some, List, ◌∷◌,
  keep, map, drop, length, any, includes, eqb, ◌==◌, In, Number, if◌then◌else◌, arith,
}
use jme_loop_public.LoopState.{LoopState}
use jme_loop_public.RunState.{RunState}
use jme_loop_public.RunStore.{RunStore, read_state, read_events}
use jme_loop_public.RunStore.Laws.{Stored-cases}
use jme_loop_public.LoopKernel.{TransitionGuard, Outcome, return, throw, no_options, advance}
use jme_loop_public.Budget.{
  BudgetConfig, BudgetArm, BudgetSnapshot, BudgetVerdict, clear, tripped, evaluate_budget,
}
use jme_loop_public.Queue.{Ticket, loop_ready, pick_next, is_unblocked}
use jme_loop_public.Queue.Picking.{In-keep, pick_next_unblocked}
use jme_loop_public.RunLoop.{Ended, returned, thrown}
use jme_loop_public.RunLoop.Round.{
  Scan, scanned, unreadable, Round, Loop, RoundEnd, next, idles, leaves, stops, throws, Runner,
  ensure_selecting, kill, is_flag_of, skip, after_ticket, book, run_picked, on_pick, take_ticket,
  eligible, after_trip, write_views, on_verdict, on_selected, round,
}

-- A ticket of a scan that the loop may take: it is ready, what it depends on is done, and it is not
-- skipped.
abbrev pub MayTake : List String → Scan → Ticket → Type 0
MayTake skipped (unreadable why) t = ⊥
MayTake skipped (scanned exists tickets) t =
    In t (loop_ready exists tickets)
    × (is_unblocked tickets t ≡ true)
    × (includes skipped t.id ≡ false)

module _ (guards : List TransitionGuard) (run_id : String) (parse : String → Number)
    (precedes : String → String → Bool) (budget : BudgetConfig) (max_tickets : ℕ)
    (run_ticket : Runner) where
  -- A round that processed the ticket `t`: its run, from a store with `n` events, returned; it
  -- counts, and it is skipped from now on exactly if the events of its run flag it.
  pub record Processed (r : Round) (processed : ℕ) (skipped : List String) (l : Loop) (t : Ticket)
      : Type 0 where
    pub booked : RunStore
    pub ran : (run_ticket r.now t booked).0 ≡ returned
    pub counted : l.processed ≡ processed + 1
    pub marked : l.skipped ≡ (
        if any (is_flag_of t.id) (
          drop
            (length (read_events run_id booked))
            (read_events run_id (run_ticket r.now t booked).1))
        then t.id ∷ skipped
        else skipped)

  -- What a round leads to: the next round after a ticket that may be taken, or a pause that changes
  -- no variable of the loop, or out of the loop with the same count.
  abbrev pub Leads : Round → ℕ → List String → RoundEnd → Type 0
  Leads r processed skipped (next l) =
      (t : Ticket) × MayTake skipped r.scan t × Processed r processed skipped l t
  Leads r processed skipped (idles l) =
      (l.processed ≡ processed) × (l.skipped ≡ skipped) × (eqb max_tickets 1 ≡ false)
  Leads r processed skipped (leaves l) = (l.processed ≡ processed) × (l.skipped ≡ skipped)
  Leads r processed skipped (stops l) = l.processed ≡ processed
  Leads r processed skipped (throws e l) = l.processed ≡ processed

  after_ticket-Leads :
      (r : Round) (l : Loop) (t : Ticket) (remaining : List String) (booked : RunStore)
      → MayTake l.skipped r.scan t
      → (e : Ended) (store : RunStore) → run_ticket r.now t booked ≡ (e, store)
      → Leads r l.processed l.skipped (
          after_ticket guards run_id parse precedes budget max_tickets run_ticket r l t remaining
            (length (read_events run_id booked))
            (e, store))
  unfolding after_ticket skip
  after_ticket-Leads r l t remaining booked m (thrown e) store h = refl
  after_ticket-Leads r l t remaining booked m returned store h =
      elim (Stored-cases (read_state run_id store)) [
        | inr (e, q) ↦ rw (q, after_ticket) refl
        | inl (session, q) ↦
            rw (q, after_ticket)
              (
                t,
                m,
                record {
                  booked = booked;
                  ran = ap (λ p. p.0) h;
                  counted = refl;
                  marked = rw h refl;
                },
              )
      ]

  on_pick-Leads :
      (r : Round) (session : RunState) (l : Loop) (ready : List Ticket) (b : Bool)
      (o : Option Ticket)
      → ((t : Ticket) → o ≡ some t → MayTake l.skipped r.scan t)
      → Leads r l.processed l.skipped
          (on_pick guards run_id parse precedes budget max_tickets run_ticket r session l ready b o)
  unfolding on_pick run_picked
  on_pick-Leads r session l ready b none m = ground arith
  on_pick-Leads r session l ready b (some t) m =
      let remaining = keep (λ id. not (id == t.id)) (map (λ (x : Ticket). x.id) ready) in
      let booked =
        book guards run_id parse precedes budget max_tickets run_ticket r.now session t remaining
          l.store in
      let run = run_ticket r.now t booked in
      after_ticket-Leads r l t remaining booked (m t refl) run.0 run.1 refl

  may_take :
      (r : Round) (l : Loop) (exists : String → Bool) (tickets : List Ticket) (t : Ticket)
      → pick_next precedes
          (eligible guards run_id parse precedes budget max_tickets run_ticket l
            (loop_ready exists tickets))
          tickets
        ≡ some t
      → MayTake l.skipped (scanned exists tickets) t
  unfolding eligible
  may_take r l exists tickets t h =
      let fresh = λ (x : Ticket). not (includes l.skipped x.id) in
      let (ready, free) =
        pick_next_unblocked precedes (keep fresh (loop_ready exists tickets)) tickets t h in
      let (at, unskipped) = In-keep fresh t (loop_ready exists tickets) ready in
      (at, free, ground (arith, unskipped))

  take_ticket-Leads :
      (r : Round) (session : RunState) (l : Loop) (s : Scan)
      → r.scan ≡ s
      → Leads r l.processed l.skipped
          (take_ticket guards run_id parse precedes budget max_tickets run_ticket r session l s)
  unfolding take_ticket
  take_ticket-Leads r session l (unreadable why) h = refl
  take_ticket-Leads r session l (scanned exists tickets) h =
      let released = loop_ready exists tickets in
      let ready = eligible guards run_id parse precedes budget max_tickets run_ticket l released in
      on_pick-Leads r session l ready (any (λ (t : Ticket). includes l.skipped t.id) released)
        (pick_next precedes ready tickets) (λ t q. rw h (may_take r l exists tickets t q))

  after_trip-Leads :
      (r : Round) (l : Loop) (state : LoopState) (arm : BudgetArm) (m : BudgetSnapshot)
      (o : Outcome LoopState) (store : RunStore)
      → Leads r l.processed l.skipped (
          after_trip guards run_id parse precedes budget max_tickets run_ticket r.now state arm m l
            (o, store))
  unfolding after_trip
  after_trip-Leads r l state arm m (throw e) store = refl
  after_trip-Leads r l state arm m (return s) store = refl

  on_verdict-Leads :
      (r : Round) (session : RunState) (l : Loop) (v : BudgetVerdict)
      → Leads r l.processed l.skipped
          (on_verdict guards run_id parse precedes budget max_tickets run_ticket r session l v)
  unfolding on_verdict
  on_verdict-Leads r session l (clear m) =
      let written =
        write_views guards run_id parse precedes budget max_tickets run_ticket r.now session m
          l.store in
      take_ticket-Leads r written.0 (record l { store = written.1 }) r.scan refl
  on_verdict-Leads r session l (tripped state arm reason m) =
      let written =
        write_views guards run_id parse precedes budget max_tickets run_ticket r.now session m
          l.store in
      let moved = advance r.now guards run_id state no_options written.1 in
      after_trip-Leads r l state arm m moved.0 moved.1

  on_selected-Leads :
      (r : Round) (l : Loop) (o : Outcome LoopState) (store : RunStore)
      → Leads r l.processed l.skipped
          (on_selected guards run_id parse precedes budget max_tickets run_ticket r l (o, store))
  unfolding on_selected
  on_selected-Leads r l (throw e) store = refl
  on_selected-Leads r l (return s) store = elim (Stored-cases (read_state run_id store)) [
    | inr (e, q) ↦ rw (q, on_selected) refl
    | inl (session, q) ↦
        rw (q, on_selected)
          (on_verdict-Leads r session (record l { store = store })
            (evaluate_budget parse session (read_events run_id store) budget r.now_ms))
  ]

  kill-Leads : (r : Round) (l : Loop) → Leads r l.processed l.skipped (kill guards run_id r.now l)
  unfolding kill
  kill-Leads r l = elim (Stored-cases (read_state run_id l.store)) [
    | inr (e, q) ↦ rw (q, kill) refl
    | inl (session, q) ↦ rw (q, kill) refl
  ]

  killed-Leads :
      (r : Round) (l : Loop) (killed : Bool)
      → Leads r l.processed l.skipped (
          if killed
          then kill guards run_id r.now l
          else on_selected guards run_id parse precedes budget max_tickets run_ticket r l
              (ensure_selecting guards run_id r.now l.store))
  killed-Leads r l true = kill-Leads r l
  killed-Leads r l false =
      let selected = ensure_selecting guards run_id r.now l.store in
      on_selected-Leads r l selected.0 selected.1

  -- A round that leads to the next one processed one ticket that may be taken: it is ready, what it
  -- depends on is done, and it was not flagged in this run. Its run returned, it counts, and it is
  -- skipped from now on exactly if the events of its run flag it. Any other round counts nothing, and
  -- no round pauses where the limit is one ticket.
  pub round-Leads :
      (r : Round) (l : Loop)
      → Leads r l.processed l.skipped
          (round guards run_id parse precedes budget max_tickets run_ticket r l)
  unfolding round
  round-Leads r l = killed-Leads r l r.kill_switch
