-- ===== src/LoopKernel/Advance.antt =====
-- src/loopKernel.ts: when a move is made, what it writes, and what a refused one leaves.
use jme_loop_public.Prelude.{
  String, ◌≡◌, refl, ◌≢◌, ◌↔◌, ◌⊎◌, inl, inr, ap, sym, ◌∙◌, true, none, some, List, [], ◌∷◌, ◌++◌,
  All, Bool-cases, Option-cases, if◌then◌else◌, arith,
}
use jme_loop_public.LoopState.{
  LoopState, same_state, done, state_name, is_terminal, can_transition, parse_loop_state,
}
use jme_loop_public.RunState.{RunState, completed, stopped}
use jme_loop_public.RunStore.{RunStore, Date, ok, read_state, read_events, write_state}
use jme_loop_public.RunStore.Laws.{
  IsKeyed, read_state-write_state_of_run_id, append_event-IsKeyed, read_state-append_event,
  read_events-append_event, read_events-write_state, read_state-IsKeyed, write_state-IsKeyed,
  Stored-cases,
}
use jme_loop_public.LoopKernel.{
  TransitionGuard, allowed, return, throw, KernelError, store_error, unknown_state,
  transition_denied, illegal_transition, AdvanceOptions, denial, moved, transition_event, commit,
  advance_from, advance,
}

pub return-ne-throw : {A : Type 0} {a : A} {e : KernelError} → return a ≢ throw e
return-ne-throw h = cc

moved-run_id :
    (to : LoopState) (opts : AdvanceOptions) (state : RunState)
    → (moved to opts state).run_id ≡ state.run_id
unfolding moved
moved-run_id to opts state = ground arith

-- What a move to a terminal state makes of the snapshot.
pub moved_at_terminal :
    (to : LoopState) (opts : AdvanceOptions) (state : RunState)
    → is_terminal to ≡ true
    → ((moved to opts state).status ≡ (if same_state to done then completed else stopped))
      × ((moved to opts state).current_ticket_id ≡ none)
      × ((moved to opts state).current_phase ≡ some (state_name to))
unfolding moved
moved_at_terminal to opts state h = rw h (refl, refl, refl)

-- What the two writes of a move leave in the store.
commit_effect :
    (now : Date) (run_id : String) (from to : LoopState) (opts : AdvanceOptions) (store : RunStore)
    (state : RunState)
    → IsKeyed store
    → read_state run_id store ≡ ok state
    → let after = commit now run_id from to opts state store in
      (read_state run_id after ≡ ok (record (moved to opts state) { updated_at = now.iso }))
      × (read_events run_id after
          ≡ read_events run_id store
            ++ record (transition_event from to opts) { ts = now.iso } ∷ [])
      × IsKeyed after
unfolding commit
commit_effect now run_id from to opts store state keyed r =
    let next = moved to opts state in
    let event = transition_event from to opts in
    let written = (write_state now next store).1 in
    let e = moved-run_id to opts state ∙ read_state-IsKeyed run_id store state keyed r in
    (
      read_state-append_event now run_id run_id event written
          ∙ read_state-write_state_of_run_id now next run_id store e,
      read_events-append_event now run_id event written
          ∙ ap (λ l. l ++ record event { ts = now.iso } ∷ [])
              (read_events-write_state now next run_id store),
      append_event-IsKeyed now run_id event written (write_state-IsKeyed now next store keyed),
    )

-- No guard denies a move exactly if each of them allows it.
pub denial_iff :
    (gs : List TransitionGuard) (from to : LoopState) (state : RunState)
    → (denial gs from to state ≡ none) ↔ All (λ g. g.check from to state ≡ allowed) gs
unfolding denial
denial_iff [] from to state = ((λ _. tt), (λ _. refl))
denial_iff (g ∷ gs) from to state =
    let ih = denial_iff gs from to state in
    ((λ h. ground (arith, ih.0)), (λ h. ground (arith, ih.1 h.1)))

module _ (now : Date) (guards : List TransitionGuard) (run_id : String) (to : LoopState) where
  -- What has to hold for the move to be made: the run's snapshot stands in `from`, the table has
  -- the move, and each guard allows it.
  pub record MayMove (store : RunStore) (state : RunState) (from : LoopState) : Type 0 where
    pub stored : read_state run_id store ≡ ok state
    pub stands : parse_loop_state state.current_phase ≡ some from
    pub legal : can_transition from to ≡ true
    pub unguarded : All (λ g. g.check from to state ≡ allowed) guards

  pub advance_of_MayMove :
      (opts : AdvanceOptions) {store : RunStore} {state : RunState} {from : LoopState}
      → MayMove store state from
      → advance now guards run_id to opts store
        ≡ (return to, commit now run_id from to opts state store)
  unfolding advance advance_from
  advance_of_MayMove opts {store} {state} {from} m =
      ground (arith, m.stored, m.stands, m.legal, (denial_iff guards from to state).1 m.unguarded)

  advance_from_cases :
      (opts : AdvanceOptions) (store : RunStore) (state : RunState) (from : LoopState)
      → read_state run_id store ≡ ok state
      → parse_loop_state state.current_phase ≡ some from
      → MayMove store state from
        ⊎ ((e : KernelError) × (advance_from now guards run_id from to opts state store
              ≡ (throw e, store)))
  unfolding advance_from
  advance_from_cases opts store state from r p = elim (Bool-cases (can_transition from to)) [
    | inr illegal ↦ inr (illegal_transition from to, rw illegal)
    | inl legal ↦ elim (Option-cases (denial guards from to state)) [
      | inl free ↦ inl (record {
        stored = r;
        stands = p;
        legal = legal;
        unguarded = (denial_iff guards from to state).0 free;
      })
      | inr (d, q) ↦
          inr (transition_denied d.0 d.1 from to, rw (legal, advance_from) (rw (q, advance_from)))
    ]
  ]

  -- Either the move may be made, or the call throws and leaves the store as it was.
  pub advance_cases :
      (opts : AdvanceOptions) (store : RunStore)
      → ((state : RunState) × (from : LoopState) × MayMove store state from)
        ⊎ ((e : KernelError) × (advance now guards run_id to opts store ≡ (throw e, store)))
  unfolding advance
  advance_cases opts store = elim (Stored-cases (read_state run_id store)) [
    | inr (e, r) ↦ inr (store_error e, rw (r, advance))
    | inl (state, r) ↦ elim (Option-cases (parse_loop_state state.current_phase)) [
      | inl p ↦ inr (unknown_state state.current_phase, rw (r, advance) (rw (p, advance)))
      | inr (from, p) ↦ elim (advance_from_cases opts store state from r p) [
        | inl m ↦ inl (state, from, m)
        | inr (e, q) ↦ inr (e, rw (r, advance) (rw (p, advance) q))
      ]
    ]
  ]

  -- A call of `advance` returns exactly if the run has a snapshot whose phase parses to a state, the
  -- table has the move from that state, and each guard allows it.
  pub advance_returns_iff :
      (opts : AdvanceOptions) (store : RunStore)
      → ((advance now guards run_id to opts store).0 ≡ return to)
        ↔ ((state : RunState) × (from : LoopState) × MayMove store state from)
  advance_returns_iff opts store = (
    λ h. elim (advance_cases opts store) [
      | inl m ↦ m
      | inr (e, q) ↦ absurd (return-ne-throw (sym h ∙ ap (λ r. r.0) q))
    ],
    λ (state, from, m). ap (λ r. r.0) (advance_of_MayMove opts m),
  )

  -- A call that throws leaves the store as it was.
  pub advance_throw_unchanged :
      (opts : AdvanceOptions) (store : RunStore) {e : KernelError}
      → (advance now guards run_id to opts store).0 ≡ throw e
      → (advance now guards run_id to opts store).1 ≡ store
  advance_throw_unchanged opts store h = elim (advance_cases opts store) [
    | inl (state, from, m) ↦
        absurd (return-ne-throw (sym (ap (λ r. r.0) (advance_of_MayMove opts m)) ∙ h))
    | inr (e, q) ↦ ap (λ r. r.1) q
  ]

  -- A move that may be made stores the moved snapshot, appends one transition event to the log, and
  -- keeps every snapshot under its run id.
  pub advance_effect :
      (opts : AdvanceOptions) {store : RunStore} {state : RunState} {from : LoopState}
      → IsKeyed store
      → MayMove store state from
      → let after = (advance now guards run_id to opts store).1 in
        (read_state run_id after ≡ ok (record (moved to opts state) { updated_at = now.iso }))
        × (read_events run_id after
            ≡ read_events run_id store
              ++ record (transition_event from to opts) { ts = now.iso } ∷ [])
        × IsKeyed after
  advance_effect opts {store} {state} {from} keyed m =
      rw (advance_of_MayMove opts m)
        (commit_effect now run_id from to opts store state keyed m.stored)
