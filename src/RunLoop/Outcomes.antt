-- ===== src/RunLoop/Outcomes.antt =====
-- src/orchestrator.ts, `runLoop`: a run that the loop returns from has ended.
use jme_loop_public.Prelude.{
  ℕ, String, ◌≡◌, refl, ◌⊎◌, inl, inr, Bool, true, Option, none, some, List, [], ◌∷◌, ◌++◌, keep,
  map, not, or_else, ◌==◌, length, any, includes, ltb, Number, Bool-cases, arith,
}
use jme_loop_public.LoopState.{LoopState, idle, select_ticket, same_state, is_terminal}
use jme_loop_public.RunState.{RunState, stopped}
use jme_loop_public.RunStore.{RunStore, Date, read_state, read_events, append_event}
use jme_loop_public.RunStore.Laws.{IsKeyed, read_state-IsKeyed, write_state-IsKeyed, Stored-cases}
use jme_loop_public.LoopKernel.{
  TransitionGuard, KernelError, Outcome, return, throw, no_options, current, advance,
}
use jme_loop_public.Budget.{
  BudgetConfig, BudgetArm, BudgetSnapshot, BudgetVerdict, clear, tripped, evaluate_budget,
}
use jme_loop_public.Budget.Verdicts.{trip, trip-is_terminal}
use jme_loop_public.BudgetGuard.{budget_view, no_progress_view}
use jme_loop_public.Queue.{Ticket, pick_next, loop_ready}
use jme_loop_public.RunLoop.{Ended, returned, thrown, event, run_stopped}
use jme_loop_public.RunLoop.Round.{
  Scan, scanned, unreadable, Round, Loop, RoundEnd, next, idles, leaves, stops, throws, Runner,
  selecting, ensure_selecting, kill, kill_switch_stop, budget_stop, book, after_ticket, run_picked,
  on_pick, take_ticket, eligible, after_trip, write_views, on_verdict, on_selected, round, rounds,
  on_end,
}
use jme_loop_public.RunLoop.Settled.{
  HasEnded, append_event-HasEnded, write_state-HasEnded, advance-IsKeyed, advance_to_terminal,
}

-- A ticket's run keeps every snapshot under its run id.
pub record KeepsKeys (run : Runner) : Type 0 where
  pub keeps :
      (now : Date) (t : Ticket) (store : RunStore) → IsKeyed store → IsKeyed (run now t store).1

-- The store that a round leaves is keyed, and a run that it stopped has ended.
abbrev pub Keeps : String → RoundEnd → Type 0
Keeps run_id (next l) = IsKeyed l.store
Keeps run_id (idles l) = IsKeyed l.store
Keeps run_id (leaves l) = IsKeyed l.store
Keeps run_id (throws e l) = IsKeyed l.store
Keeps run_id (stops l) = HasEnded run_id l.store

pub Outcome-cases :
    {A : Type 0} (o : Outcome A) → ((a : A) × (o ≡ return a)) ⊎ ((e : KernelError) × (o ≡ throw e))
Outcome-cases (return a) = inl (a, refl)
Outcome-cases (throw e) = inr (e, refl)

module _ (guards : List TransitionGuard) (run_id : String) where
  selecting-IsKeyed :
      (now : Date) (store : RunStore) (at : LoopState)
      → IsKeyed store
      → IsKeyed (selecting guards run_id now store at).1
  unfolding selecting
  selecting-IsKeyed now store at k = elim (Bool-cases (same_state at idle)) [
    | inl e ↦ rw e (advance-IsKeyed now guards run_id select_ticket no_options store k)
    | inr e ↦ rw e k
  ]

  selected-IsKeyed :
      (now : Date) (store : RunStore) (at : Outcome LoopState)
      → current run_id store ≡ at
      → IsKeyed store
      → IsKeyed (ensure_selecting guards run_id now store).1
  unfolding ensure_selecting
  selected-IsKeyed now store (throw e) h k = rw (h, ensure_selecting) k
  selected-IsKeyed now store (return at) h k =
      rw (h, ensure_selecting) (selecting-IsKeyed now store at k)

  pub ensure_selecting-IsKeyed :
      (now : Date) (store : RunStore)
      → IsKeyed store
      → IsKeyed (ensure_selecting guards run_id now store).1
  ensure_selecting-IsKeyed now store k = selected-IsKeyed now store (current run_id store) refl k

  kill-Keeps : (now : Date) (l : Loop) → IsKeyed l.store → Keeps run_id (kill guards run_id now l)
  unfolding kill run_stopped event
  kill-Keeps now l k = elim (Stored-cases (read_state run_id l.store)) [
    | inr (e, r) ↦ rw (r, kill) k
    | inl (s, r) ↦
        rw (r, kill)
          (write_state-HasEnded now run_id kill_switch_stop
            (record s { status = stopped; current_ticket_id = none; current_phase = none }) l.store
            (read_state-IsKeyed run_id l.store s k r) (inr refl) refl)
  ]

  module _ (parse : String → Number) (precedes : String → String → Bool) (budget : BudgetConfig)
      (max_tickets : ℕ) (run_ticket : Runner) (law : KeepsKeys run_ticket) where
    after_ticket-Keeps :
        (r : Round) (l : Loop) (t : Ticket) (remaining : List String) (n : ℕ) (e : Ended)
        (store : RunStore)
        → IsKeyed store
        → Keeps run_id (
            after_ticket guards run_id parse precedes budget max_tickets run_ticket r l t remaining
              n
              (e, store))
    unfolding after_ticket
    after_ticket-Keeps r l t remaining n (thrown e) store k = k
    after_ticket-Keeps r l t remaining n returned store k =
        elim (Stored-cases (read_state run_id store)) [
          | inr (e, q) ↦ rw (q, after_ticket) k
          | inl (s, q) ↦
              rw (q, after_ticket)
                (write_state-IsKeyed r.now
                  (record s {
                    queue = record {
                      processed = s.queue.processed ++ t.id ∷ [];
                      remaining = remaining;
                    };
                  })
                  store k)
        ]

    book-IsKeyed :
        (now : Date) (session : RunState) (t : Ticket) (remaining : List String) (store : RunStore)
        → IsKeyed store
        → IsKeyed (
            book guards run_id parse precedes budget max_tickets run_ticket now session t remaining
              store)
    unfolding book append_event
    book-IsKeyed now session t remaining store k =
        write_state-IsKeyed now
          (record session {
            epic_id = some (or_else session.epic_id t.epic_id);
            queue = record { processed = session.queue.processed; remaining = remaining };
          })
          store k

    on_pick-Keeps :
        (r : Round) (session : RunState) (l : Loop) (ready : List Ticket) (b : Bool)
        (o : Option Ticket)
        → IsKeyed l.store
        → Keeps run_id (
            on_pick guards run_id parse precedes budget max_tickets run_ticket r session l ready b
              o)
    unfolding on_pick run_picked book
    on_pick-Keeps r session l ready b none k = ground (arith, k)
    on_pick-Keeps r session l ready b (some t) k =
        let remaining = keep (λ id. not (id == t.id)) (map (λ (x : Ticket). x.id) ready) in
        let booked =
          book guards run_id parse precedes budget max_tickets run_ticket r.now session t remaining
            l.store in
        let run = run_ticket r.now t booked in
        after_ticket-Keeps r l t remaining (length (read_events run_id booked)) run.0 run.1
          (law.keeps r.now t booked (book-IsKeyed r.now session t remaining l.store k))

    take_ticket-Keeps :
        (r : Round) (session : RunState) (l : Loop) (s : Scan)
        → IsKeyed l.store
        → Keeps run_id
            (take_ticket guards run_id parse precedes budget max_tickets run_ticket r session l s)
    unfolding take_ticket
    take_ticket-Keeps r session l (unreadable why) k = k
    take_ticket-Keeps r session l (scanned exists tickets) k =
        let released = loop_ready exists tickets in
        let ready =
          eligible guards run_id parse precedes budget max_tickets run_ticket l released in
        on_pick-Keeps r session l ready (any (λ (t : Ticket). includes l.skipped t.id) released)
          (pick_next precedes ready tickets) k

    after_trip-Keeps :
        (now : Date) (state : LoopState) (arm : BudgetArm) (m : BudgetSnapshot) (l : Loop)
        (store : RunStore)
        → IsKeyed store
        → is_terminal state ≡ true
        → Keeps run_id (
            after_trip guards run_id parse precedes budget max_tickets run_ticket now state arm m l
              (advance now guards run_id state no_options store))
    unfolding after_trip budget_stop run_stopped event
    after_trip-Keeps now state arm m l store k t =
        let moved = advance now guards run_id state no_options store in
        elim (Outcome-cases moved.0) [
          | inr (e, q) ↦
              rw (q, after_trip) (advance-IsKeyed now guards run_id state no_options store k)
          | inl (s, q) ↦
              let (session, stored, status) =
                advance_to_terminal now guards run_id state s no_options store k t q in
              rw (q, after_trip)
                (append_event-HasEnded now run_id (budget_stop state arm m) moved.1 session stored
                  status refl)
        ]

    on_verdict-Keeps :
        (r : Round) (session : RunState) (l : Loop) (v : BudgetVerdict)
        → IsKeyed l.store
        → ((t : LoopState) (arm : BudgetArm) → trip v ≡ some (t, arm) → is_terminal t ≡ true)
        → Keeps run_id
            (on_verdict guards run_id parse precedes budget max_tickets run_ticket r session l v)
    unfolding on_verdict write_views
    on_verdict-Keeps r session l (clear m) k t =
        let written =
          write_views guards run_id parse precedes budget max_tickets run_ticket r.now session m
            l.store in
        take_ticket-Keeps r written.0 (record l { store = written.1 }) r.scan
          (write_state-IsKeyed r.now
            (record session { budget = budget_view m; no_progress = no_progress_view m }) l.store k)
    on_verdict-Keeps r session l (tripped state arm reason m) k t =
        let written =
          write_views guards run_id parse precedes budget max_tickets run_ticket r.now session m
            l.store in
        after_trip-Keeps r.now state arm m l written.1
          (write_state-IsKeyed r.now
            (record session { budget = budget_view m; no_progress = no_progress_view m }) l.store k)
          (t state arm refl)

    on_selected-Keeps :
        (r : Round) (l : Loop) (o : Outcome LoopState) (store : RunStore)
        → IsKeyed store
        → Keeps run_id
            (on_selected guards run_id parse precedes budget max_tickets run_ticket r l (o, store))
    unfolding on_selected
    on_selected-Keeps r l (throw e) store k = k
    on_selected-Keeps r l (return s) store k = elim (Stored-cases (read_state run_id store)) [
      | inr (e, q) ↦ rw (q, on_selected) k
      | inl (session, q) ↦
          rw (q, on_selected)
            (on_verdict-Keeps r session (record l { store = store })
              (evaluate_budget parse session (read_events run_id store) budget r.now_ms) k
              (λ t arm h.
                trip-is_terminal parse session (read_events run_id store) budget r.now_ms h))
    ]

    pub round-Keeps :
        (r : Round) (l : Loop)
        → IsKeyed l.store
        → Keeps run_id (round guards run_id parse precedes budget max_tickets run_ticket r l)
    unfolding round
    round-Keeps r l k = elim (Bool-cases r.kill_switch) [
      | inl e ↦ rw e (kill-Keeps r.now l k)
      | inr e ↦ rw e (
          on_selected-Keeps r l (ensure_selecting guards run_id r.now l.store).0
            (ensure_selecting guards run_id r.now l.store).1
            (ensure_selecting-IsKeyed r.now l.store k))
    ]

    on_end-Keeps :
        (e : RoundEnd) (rest : Loop → RoundEnd)
        → Keeps run_id e
        → ((l : Loop) → IsKeyed l.store → Keeps run_id (rest l))
        → Keeps run_id (on_end guards run_id parse precedes budget max_tickets run_ticket e rest)
    unfolding on_end
    on_end-Keeps (next l) rest k h = h l k
    on_end-Keeps (idles l) rest k h = h l k
    on_end-Keeps (leaves l) rest k h = k
    on_end-Keeps (stops l) rest k h = k
    on_end-Keeps (throws e l) rest k h = k

    pub rounds-Keeps :
        (rs : List Round) (l : Loop)
        → IsKeyed l.store
        → Keeps run_id (rounds guards run_id parse precedes budget max_tickets run_ticket rs l)
    unfolding rounds
    rounds-Keeps [] l k = ground (arith, k)
    rounds-Keeps (r ∷ rs) l k = elim (Bool-cases (ltb l.processed max_tickets)) [
      | inr e ↦ rw e k
      | inl e ↦ rw e (
          on_end-Keeps (round guards run_id parse precedes budget max_tickets run_ticket r l)
            (rounds guards run_id parse precedes budget max_tickets run_ticket rs)
            (round-Keeps r l k) (rounds-Keeps rs))
    ]
