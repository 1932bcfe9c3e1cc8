-- ===== src/TicketFailure/Return.antt =====
-- src/ticketFailure.ts, `failAndContinue`: what the handler leaves of a run.
use jme_loop_public.Prelude.{
  ℕ, zero, suc, ◌+◌, ◌≤◌, ◌<◌, String, ◌≡◌, refl, sym, ap, ◌∙◌, subst, inl, inr, Bool, true, false,
  Option, none, some, List, [], ◌∷◌, ◌++◌, All, Bool-cases, not, arith,
}
use jme_loop_public.LoopState.{
  LoopState, select_ticket, state_name, same_state, failure_route, is_terminal,
}
use jme_loop_public.RunState.{RunState, RunEvent}
use jme_loop_public.RunStore.{
  RunStore, Date, read_state, read_events, append_event, write_ticket_artifact,
  is_safe_path_segment,
}
use jme_loop_public.RunStore.Laws.{
  append_event-IsKeyed, read_state-append_event, read_events-append_event,
}
use jme_loop_public.LoopKernel.{TransitionGuard, current}
use jme_loop_public.TicketFailure.{
  FailureResult, continued, flag_record_failed, after_flag, fail_at, build_execution_note,
  persisted_phase, flag_event, record_flag, write_note, fail_and_continue,
}
use jme_loop_public.TicketFailure.Moves.{Standing, Unguarded, Selecting, route-Selecting}

module _ (now : Date) (guards : List TransitionGuard) (run_id ticket_id : String) where
  record_flag-some :
      (records : ℕ → Bool) (left attempt k : ℕ) (why : String) (at : LoopState) (store : RunStore)
      → attempt ≤ k
      → k < attempt + left
      → records k ≡ true
      → record_flag now guards run_id ticket_id records left attempt why at store
        ≡ some (append_event now run_id (flag_event now guards run_id ticket_id why at) store)
  unfolding record_flag
  record_flag-some records zero attempt k why at store le lt h = absurd (omega arith)
  record_flag-some records (suc left) attempt k why at store le lt h =
      elim (Bool-cases (records attempt)) [
        | inl now_ok ↦ rw now_ok refl
        | inr failed ↦ rw failed (
            record_flag-some records left (suc attempt) k why at store
              (ground (arith, h, failed, ap records)) (omega arith) h)
      ]

  -- An artifact leaves the snapshots and the events as they are.
  write_ticket_artifact-keeps :
      (name content : String) (store : RunStore)
      → let after = (write_ticket_artifact run_id ticket_id name content store).1 in
        (read_state run_id after ≡ read_state run_id store)
        × (read_events run_id after ≡ read_events run_id store)
        × (after.states ≡ store.states)
  unfolding write_ticket_artifact read_state read_events
  write_ticket_artifact-keeps name content store =
      elim (Bool-cases (is_safe_path_segment ticket_id)) [
        | inl safe ↦ rw safe (refl, refl, refl)
        | inr unsafe ↦ rw unsafe (refl, refl, refl)
      ]

  write_note-Standing :
      (why : String) (at u : LoopState) (path : Option String) (state : RunState)
      (log : List RunEvent) (store : RunStore)
      → Standing now guards run_id ticket_id u state log store
      → Standing now guards run_id ticket_id u state log
          (write_note now guards run_id ticket_id why at path store)
  unfolding write_note
  write_note-Standing why at u path state log store st =
      let (s, e, k) =
        write_ticket_artifact-keeps "execution-note.md"
          (build_execution_note ticket_id why (state_name at) path) store in
      record {
        stored = s ∙ st.stored;
        stands = st.stands;
        told = e ∙ st.told;
        keyed = subst (λ m. All (λ kv. kv.1.run_id ≡ kv.0) m) (sym k) st.keyed;
      }

  flag-Standing :
      (e : RunEvent) (u : LoopState) (state : RunState) (log : List RunEvent) (store : RunStore)
      → Standing now guards run_id ticket_id u state log store
      → Standing now guards run_id ticket_id u state
          (log ++ record e { ts = now.iso } ∷ [])
          (append_event now run_id e store)
  flag-Standing e u state log store st = record {
    stored = read_state-append_event now run_id run_id e store ∙ st.stored;
    stands = st.stands;
    told =
        read_events-append_event now run_id e store
        ∙ ap (λ l. l ++ record e { ts = now.iso } ∷ []) st.told;
    keyed = append_event-IsKeyed now run_id e store st.keyed;
  }

  persisted_phase-Standing :
      (in_memory u : LoopState) (state : RunState) (log : List RunEvent) (store : RunStore)
      → Standing now guards run_id ticket_id u state log store
      → persisted_phase now guards run_id ticket_id in_memory store ≡ u
  unfolding persisted_phase current
  persisted_phase-Standing in_memory u state log store st = ground (arith, st.stored, st.stands)

  abbrev Returned : LoopState → String → List RunEvent → FailureResult × RunStore → Type 0
  Returned u why log end =
      (end.0 ≡ continued)
      × Selecting now guards run_id ticket_id
          (log ++ record (flag_event now guards run_id ticket_id why u) { ts = now.iso } ∷ [])
          (not (same_state u select_ticket)) end.1

  fail_at-Returned :
      (records : ℕ → Bool) (k : ℕ) (u : LoopState) (path : Option String) (why : String)
      (state : RunState) (log : List RunEvent) (store : RunStore)
      → Unguarded now guards run_id ticket_id state
      → 1 ≤ k
      → k ≤ 3
      → records k ≡ true
      → is_terminal u ≡ false
      → Standing now guards run_id ticket_id u state log store
      → Returned u why log (fail_at now guards run_id ticket_id records path why store u)
  unfolding fail_at after_flag
  fail_at-Returned records k u path why state log store free a b ok_k alive st =
      let event = flag_event now guards run_id ticket_id why u in
      rw (record_flag-some records 3 1 k why u store a (omega arith) ok_k) (
        route-Selecting now guards run_id ticket_id u (failure_route u) state
          (log ++ record event { ts = now.iso } ∷ [])
          (write_note now guards run_id ticket_id why u path (append_event now run_id event store))
          free refl alive
          (write_note-Standing why u u path state (log ++ record event { ts = now.iso } ∷ [])
            (append_event now run_id event store) (flag-Standing event u state log store st)))

  -- Where the guards allow each move of snapshots with the run's budget and progress, and one of
  -- three attempts to record the flag succeeds, a ticket that fails in whatever state that is not
  -- terminal is flagged in the log under that state, and the handler returns with the run in
  -- `SelectTicket`, the active ticket cleared unless the run stood there already.
  pub fail_and_continue_returns :
      (records : ℕ → Bool) (k : ℕ) (in_memory u : LoopState) (path : Option String) (why : String)
      (state : RunState) (log : List RunEvent) (store : RunStore)
      → Unguarded now guards run_id ticket_id state
      → 1 ≤ k
      → k ≤ 3
      → records k ≡ true
      → is_terminal u ≡ false
      → Standing now guards run_id ticket_id u state log store
      → let end = fail_and_continue now guards run_id ticket_id records in_memory path why store in
        let flag = record (flag_event now guards run_id ticket_id why u) { ts = now.iso } in
        (end.0 ≡ continued)
        × Selecting now guards run_id ticket_id
            (log ++ flag ∷ [])
            (not (same_state u select_ticket))
            end.1
  unfolding fail_and_continue
  fail_and_continue_returns records k in_memory u path why state log store free a b ok_k alive st =
      subst
        (λ at. Returned u why log (fail_at now guards run_id ticket_id records path why store at))
        (sym (persisted_phase-Standing in_memory u state log store st))
        (fail_at-Returned records k u path why state log store free a b ok_k alive st)

  record_flag-none :
      (records : ℕ → Bool) (left attempt : ℕ) (why : String) (at : LoopState) (store : RunStore)
      → ((k : ℕ) → attempt ≤ k → k < attempt + left → records k ≡ false)
      → record_flag now guards run_id ticket_id records left attempt why at store ≡ none
  unfolding record_flag
  record_flag-none records zero attempt why at store h = refl
  record_flag-none records (suc left) attempt why at store h =
      rw (h attempt (omega arith) (omega arith)) (
        record_flag-none records left (suc attempt) why at store
          (λ k le lt. h k (omega arith) (omega arith)))

  -- If no attempt to record the flag succeeds, the handler throws after three of them, and the store
  -- is as it was: no move is made for a failure that the log does not show.
  pub fail_and_continue_unrecorded :
      (records : ℕ → Bool) (in_memory : LoopState) (path : Option String) (why : String)
      (store : RunStore)
      → ((k : ℕ) → 1 ≤ k → k ≤ 3 → records k ≡ false)
      → fail_and_continue now guards run_id ticket_id records in_memory path why store
        ≡ (flag_record_failed ticket_id why 3, store)
  unfolding fail_and_continue fail_at after_flag
  fail_and_continue_unrecorded records in_memory path why store h =
      rw
        (record_flag-none records 3 1 why
          (persisted_phase now guards run_id ticket_id in_memory store) store
          (λ k le lt. h k le (omega arith)))
        refl
