-- ===== src/RunLoop/Resumed.antt =====
-- src/orchestrator.ts, `runLoop`: what becomes of an interrupted run that it takes up again.
use jme_loop_public.Prelude.{
  String, some, ◌≡◌, refl, ap, ◌∙◌, true, false, List, [], ◌∷◌, ◌++◌, keep, includes,
  includes-append, ends, not, ◌==◌, eq_iff, eq_refl, inl, inr, ◌⊎◌, arith,
}
use jme_loop_public.Json.{bool, str}
use jme_loop_public.LoopState.{done}
use jme_loop_public.RunState.{RunState, completed, stopped}
use jme_loop_public.RunStore.{
  RunStore, Date, StoreError, ok, err, read_state, write_state, append_event, read_events,
}
use jme_loop_public.RunStore.Laws.{
  IsKeyed, read_state-IsKeyed, write_state-IsKeyed, read_state-write_state_of_run_id,
  read_events-append_event, Stored-cases,
}
use jme_loop_public.LoopKernel.{TransitionGuard, no_options, advance}
use jme_loop_public.Queue.{Ticket}
use jme_loop_public.Resume.{ResumePoint}
use jme_loop_public.RunLoop.{
  LoopError, Ended, returned, thrown, run_completed, run_stopped, event, mark_stopped, count,
  error_message,
}
use jme_loop_public.RunLoop.Start.{
  Found, found, missing, unreadable, Resumption, requeue, after_done, after_resumed, reopened,
  try_resume, give_up,
}
use jme_loop_public.RunLoop.Settled.{ends-append, advance-IsKeyed, advance_to_done}
use jme_loop_public.RunLoop.Outcomes.{KeepsKeys, Outcome-cases}

-- The run is completed with the ticket among the processed ones and no longer among the others, and
-- its log ends with the event that says so.
pub record HasCompleted (run_id ticket_id : String) (store : RunStore) : Type 0 where
  pub session : RunState
  pub stored : read_state run_id store ≡ ok session
  pub status : session.status ≡ completed
  pub processed : includes session.queue.processed ticket_id ≡ true
  pub remaining : includes session.queue.remaining ticket_id ≡ false
  pub last : ends (λ e. e.type == "run.completed") (read_events run_id store) ≡ true

-- The run is stopped, and its log ends with the event that says so.
pub record HasStopped (run_id : String) (store : RunStore) : Type 0 where
  pub session : RunState
  pub stored : read_state run_id store ≡ ok session
  pub status : session.status ≡ stopped
  pub last : ends (λ e. e.type == "run.stopped") (read_events run_id store) ≡ true

includes-without :
    (id : String) (ids : List String) → includes (keep (λ x. not (x == id)) ids) id ≡ false
includes-without id [] = refl
includes-without id (x ∷ ids) = ground (arith, includes-without id ids, eq_iff x id)

module _ (now : Date) (guards : List TransitionGuard) (p : ResumePoint) where
  -- Where the resumption returns, the run is completed; where a call throws, the store is keyed.
  abbrev Closes : Ended × RunStore → Type 0
  Closes (returned, store) = HasCompleted p.run_id p.ticket_id store
  Closes (thrown e, store) = IsKeyed store

  abbrev requeued : RunState → RunState
  requeued session = record session {
    queue = record {
      processed = session.queue.processed ++ p.ticket_id ∷ [];
      remaining = keep (λ id. not (id == p.ticket_id)) session.queue.remaining;
    };
  }

  after_done-Closes :
      (store : RunStore) (session : RunState)
      → IsKeyed store
      → read_state p.run_id store ≡ ok session
      → includes session.queue.processed p.ticket_id ≡ true
      → includes session.queue.remaining p.ticket_id ≡ false
      → Closes (after_done now guards p (advance now guards p.run_id done no_options store))
  unfolding after_done run_completed event append_event read_state
  after_done-Closes store session k r i j =
      let moved = advance now guards p.run_id done no_options store in
      elim (Outcome-cases moved.0) [
        | inr (e, q) ↦
            rw (q, after_done) (advance-IsKeyed now guards p.run_id done no_options store k)
        | inl (s, q) ↦
            let (after, stored, status, queue) =
              advance_to_done now guards p.run_id s store session k r q in
            let e = run_completed (("processed", count 1) ∷ ("resumed", bool true) ∷ []) in
            rw (q, after_done)
              (record {
                session = after;
                stored = stored;
                status = status;
                processed = ap (λ u. includes u.processed p.ticket_id) queue ∙ i;
                remaining = ap (λ u. includes u.remaining p.ticket_id) queue ∙ j;
                last =
                    ap (ends (λ x. x.type == "run.completed"))
                      (read_events-append_event now p.run_id e moved.1)
                    ∙ ends-append (λ x. x.type == "run.completed") (read_events p.run_id moved.1) _;
              })
      ]

  after_resumed-Closes :
      (e : Ended) (store : RunStore)
      → IsKeyed store
      → Closes (after_resumed now guards p (e, store))
  unfolding after_resumed requeue
  after_resumed-Closes (thrown e) store k = k
  after_resumed-Closes returned store k = elim (Stored-cases (read_state p.run_id store)) [
    | inr (e, q) ↦ rw (q, after_resumed) k
    | inl (session, q) ↦
        rw (q, after_resumed)
          (after_done-Closes (requeue now guards p session store)
            (record (requeued session) { updated_at = now.iso })
            (write_state-IsKeyed now (requeued session) store k)
            (read_state-write_state_of_run_id now (requeued session) p.run_id store
              (read_state-IsKeyed p.run_id store session k q))
            (ground (
              arith,
              includes-append session.queue.processed p.ticket_id p.ticket_id,
              eq_refl p.ticket_id,
            ))
            (includes-without p.ticket_id session.queue.remaining))
  ]

  reopened-Closes :
      (r : Resumption) (t : Ticket) (store : RunStore) (e : Ended)
      → KeepsKeys (r.run p)
      → IsKeyed store
      → Closes (reopened now guards p r t store e)
  unfolding reopened
  reopened-Closes r t store (thrown e) law k = k
  reopened-Closes r t store returned law k =
      let run = r.run p now t store in after_resumed-Closes run.0 run.1 (law.keeps now t store k)

  try_resume-Closes :
      (r : Resumption) (store : RunStore) (f : Found)
      → KeepsKeys (r.run p)
      → IsKeyed store
      → Closes (try_resume now guards p r store f)
  unfolding try_resume
  try_resume-Closes r store (unreadable why) law k = k
  try_resume-Closes r store missing law k = k
  try_resume-Closes r store (found t) law k =
      reopened-Closes r t store (r.reopen p.ticket_id p.cwd) law k

  module _ (quote : String → String) where
    give_up-HasStopped :
        (e : LoopError) (store : RunStore) (session : RunState)
        → IsKeyed store
        → read_state p.run_id store ≡ ok session
        → HasStopped p.run_id (give_up now guards p quote e store)
    unfolding give_up mark_stopped run_stopped event append_event read_state
    give_up-HasStopped e store session k q =
        let written = write_state now (record session { status = stopped }) store in
        rw (q, give_up)
          (record {
            session = record session { status = stopped; updated_at = now.iso };
            stored =
                read_state-write_state_of_run_id now (record session { status = stopped }) p.run_id
                  store (read_state-IsKeyed p.run_id store session k q);
            status = refl;
            last =
                ap (ends (λ x. x.type == "run.stopped")) (
                  read_events-append_event now p.run_id
                    (run_stopped (some p.ticket_id) (
                      ("reason", str "resume-skipped")
                      ∷ ("detail", str (error_message quote e))
                      ∷ []))
                    written.1)
                ∙ ends-append (λ x. x.type == "run.stopped") (read_events p.run_id written.1) _;
          })

    -- What becomes of an interrupted run, from what its resumption comes to: it is completed with its
    -- ticket, or, where that throws, marked as stopped, or its snapshot cannot be read.
    abbrev pub Resolves : Ended × RunStore → Type 0
    Resolves (returned, store) = HasCompleted p.run_id p.ticket_id store
    Resolves (thrown e, store) =
        ((s : StoreError) × (read_state p.run_id store ≡ err s))
        ⊎ HasStopped p.run_id (give_up now guards p quote e store)

    Closes-Resolves : (e : Ended) (store : RunStore) → Closes (e, store) → Resolves (e, store)
    Closes-Resolves returned store h = h
    Closes-Resolves (thrown e) store k = elim (Stored-cases (read_state p.run_id store)) [
      | inl (session, q) ↦ inr (give_up-HasStopped e store session k q)
      | inr gone ↦ inl gone
    ]

    -- An interrupted run that is taken up again is ended. Where the resumption returns, it is
    -- completed, with its ticket moved to the processed ones, and its log ends with `run.completed`;
    -- otherwise it is stopped, and its log ends with `run.stopped`, unless its snapshot cannot be
    -- read. The theorem asks that the ticket's run, whatever it does and however it ends, keeps every
    -- snapshot under its run id.
    pub try_resume-Resolves :
        (r : Resumption) (store : RunStore)
        → KeepsKeys (r.run p)
        → IsKeyed store
        → Resolves (try_resume now guards p r store (r.find p.ticket_id))
    try_resume-Resolves r store law k =
        let end = try_resume now guards p r store (r.find p.ticket_id) in
        Closes-Resolves end.0 end.1 (try_resume-Closes r store (r.find p.ticket_id) law k)
