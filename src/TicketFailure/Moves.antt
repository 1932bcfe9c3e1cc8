-- ===== src/TicketFailure/Moves.antt =====
-- src/ticketFailure.ts: the moves of the handler, and where they leave the run.
use jme_loop_public.Prelude.{
  String, ◌≡◌, refl, sym, ap, ◌∙◌, subst, Bool, true, false, Option, none, some, List, [], ◌∷◌,
  ◌++◌, All, not, Bool-cases, inl, inr, arith,
}
use mathlib.Core.List.{append_assoc, append-nil}
use jme_loop_public.LoopState.{
  LoopState, select_ticket, same_state, failure_route, is_terminal, can_transition,
  parse_loop_state,
}
use jme_loop_public.LoopState.Paths.{failure_route_sound}
use jme_loop_public.RunState.{RunState, RunEvent}
use jme_loop_public.RunStore.{RunStore, Date, ok, read_state, read_events}
use jme_loop_public.RunStore.Laws.{IsKeyed}
use jme_loop_public.LoopKernel.{
  TransitionGuard, allowed, return, AdvanceOptions, no_options, moved, transition_event, advance,
}
use jme_loop_public.LoopKernel.Advance.{MayMove, advance_of_MayMove, advance_effect}
use jme_loop_public.LoopKernel.Histories.{parse-moved}
use jme_loop_public.TicketFailure.{
  continued, enter, clears_ticket, back_to_select, and_then, leave, route,
}
use jme_loop_public.LoopState.Returns.{same_select, direct_return, no_detour}

module _ (now : Date) (guards : List TransitionGuard) (run_id ticket_id : String) where
  -- The run's snapshot is `state` and stands in `u`, and its log is `log`.
  pub record Standing (u : LoopState) (state : RunState) (log : List RunEvent) (store : RunStore)
      : Type 0 where
    pub stored : read_state run_id store ≡ ok state
    pub stands : parse_loop_state state.current_phase ≡ some u
    pub told : read_events run_id store ≡ log
    pub keyed : IsKeyed store

  -- The guards allow each move of a snapshot with the budget and the progress of the given one.
  abbrev pub Unguarded : RunState → Type 0
  Unguarded state =
      (from to : LoopState) (s : RunState)
      → s.budget ≡ state.budget
      → s.no_progress ≡ state.no_progress
      → All (λ g. g.check from to s ≡ allowed) guards

  abbrev pub attributed : AdvanceOptions → AdvanceOptions
  attributed opts = record opts { ticket_id = some ticket_id }

  abbrev pub after_move : LoopState → AdvanceOptions → RunState → RunState
  after_move to opts state = record (moved to (attributed opts) state) { updated_at = now.iso }

  -- A move keeps the budget and the progress.
  moved-views :
      (to : LoopState) (opts : AdvanceOptions) (state : RunState)
      → ((moved to opts state).budget ≡ state.budget)
        × ((moved to opts state).no_progress ≡ state.no_progress)
  unfolding moved
  moved-views to opts state = elim (Bool-cases (is_terminal to)) [
    | inl ends ↦ rw ends (refl, refl)
    | inr goes ↦ rw goes (refl, refl)
  ]

  after_move-Unguarded :
      (to : LoopState) (opts : AdvanceOptions) (state : RunState)
      → Unguarded state
      → Unguarded (after_move to opts state)
  after_move-Unguarded to opts state free from next s b n =
      let (budget, progress) = moved-views to (attributed opts) state in
      free from next s (b ∙ budget) (n ∙ progress)

  pub enter_stands :
      (to : LoopState) (opts : AdvanceOptions) (u : LoopState) (state : RunState)
      (log : List RunEvent) (store : RunStore)
      → Unguarded state
      → can_transition u to ≡ true
      → Standing u state log store
      → (e : RunEvent) × (after : RunStore) × (enter now guards run_id ticket_id to opts store
          ≡ (return to, after))
        × Standing to (after_move to opts state) (log ++ e ∷ []) after
  unfolding enter
  enter_stands to opts u state log store free legal st =
      let may : MayMove now guards run_id to store state u = record {
        stored = st.stored;
        stands = st.stands;
        legal = legal;
        unguarded = free u to state refl refl;
      } in
      let run = advance now guards run_id to (attributed opts) store in
      let effect = advance_effect now guards run_id to (attributed opts) st.keyed may in
      (
        record (transition_event u to (attributed opts)) { ts = now.iso },
        run.1,
        ap (λ r. (r.0, run.1)) (advance_of_MayMove now guards run_id to (attributed opts) may),
        record {
          stored = effect.0;
          stands = parse-moved to (attributed opts) state;
          told =
              effect.1
              ∙ ap
                  (λ l. l ++ record (transition_event u to (attributed opts)) { ts = now.iso } ∷ [])
                  st.told;
          keyed = effect.2;
        },
      )

  -- The run is back at `SelectTicket`, after `log` and perhaps further events.
  pub record Selecting (log : List RunEvent) (cleared : Bool) (store : RunStore) : Type 0 where
    pub state : RunState
    pub later : List RunEvent
    pub standing : Standing select_ticket state (log ++ later) store
    pub ticket : cleared ≡ true → state.current_ticket_id ≡ none

  ticket_after_select :
      (state : RunState)
      → (after_move select_ticket
          (clears_ticket now guards run_id ticket_id)
          state).current_ticket_id
        ≡ none
  unfolding moved is_terminal
  ticket_after_select state = refl

  leave-Selecting :
      (selecting : Bool) (v : LoopState) (state : RunState) (log : List RunEvent) (store : RunStore)
      → Unguarded state
      → Standing v state log store
      → (selecting ≡ true → v ≡ select_ticket)
      → (selecting ≡ false → can_transition v select_ticket ≡ true)
      → let end = leave now guards run_id ticket_id selecting store in
        (end.0 ≡ continued) × Selecting log (not selecting) end.1
  unfolding leave back_to_select and_then
  leave-Selecting true v state log store free st here back = (
    refl,
    record {
      state = state;
      later = [];
      standing =
          subst (λ l. Standing select_ticket state l store) (sym (append-nil log))
            (subst (λ u. Standing u state log store) (here refl) st);
      ticket = λ h. absurd (ground arith);
    },
  )
  leave-Selecting false v state log store free st here back =
      let (e, after, eq, to) =
        enter_stands select_ticket (clears_ticket now guards run_id ticket_id) v state log store
          free (back refl) st in
      rw eq (
        refl,
        record {
          state = after_move select_ticket (clears_ticket now guards run_id ticket_id) state;
          later = e ∷ [];
          standing = to;
          ticket = λ h. ticket_after_select state;
        },
      )

  Selecting-earlier :
      (log : List RunEvent) (e : RunEvent) (cleared : Bool) (store : RunStore)
      → Selecting (log ++ e ∷ []) cleared store
      → Selecting log cleared store
  Selecting-earlier log e cleared store s = record {
    state = s.state;
    later = e ∷ s.later;
    standing =
        subst (λ l. Standing select_ticket s.state l store) (append_assoc log (e ∷ []) s.later)
          s.standing;
    ticket = s.ticket;
  }

  pub route-Selecting :
      (u : LoopState) (f : Option LoopState) (state : RunState) (log : List RunEvent)
      (store : RunStore)
      → Unguarded state
      → failure_route u ≡ f
      → is_terminal u ≡ false
      → Standing u state log store
      → let end = route now guards run_id ticket_id u f store in
        (end.0 ≡ continued) × Selecting log (not (same_state u select_ticket)) end.1
  unfolding route and_then
  route-Selecting u none state log store free way alive st =
      leave-Selecting (same_state u select_ticket) u state log store free st (same_select u)
        (direct_return u alive way)
  route-Selecting u (some f) state log store free way alive st =
      let (there, back, _) = failure_route_sound u way in
      let (e, after, eq, to) = enter_stands f no_options u state log store free there st in
      let (r, s) =
        leave-Selecting (same_state u select_ticket) f (after_move f no_options state)
          (log ++ e ∷ []) after (after_move-Unguarded f no_options state free) to
          (no_detour u f way) (λ _. back) in
      rw eq (r, Selecting-earlier log e _ _ s)
