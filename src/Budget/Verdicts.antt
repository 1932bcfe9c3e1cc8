-- ===== src/Budget/Verdicts.antt =====
-- src/budget.ts, `evaluateBudget`: which ceiling a verdict names, and the stop of the run.
use jme_loop_public.Prelude.{
  String, ◌≡◌, refl, ap, sym, subst, ◌∙◌, ◌⊎◌, inl, inr, true, false, Option, none, some, List, [],
  ◌∷◌, Number, ge, if◌then◌else◌, arith,
}
use jme_loop_public.LoopState.{
  LoopState, state_name, same_state, done, select_ticket, budget_exceeded, no_progress,
  can_transition, is_terminal, parse_loop_state, member,
}
use jme_loop_public.RunState.{RunState, RunEvent, completed, stopped}
use jme_loop_public.RunStore.{RunStore, Date, ok, read_state}
use jme_loop_public.LoopKernel.{return, AdvanceOptions, advance, allowed, moved}
use jme_loop_public.LoopKernel.Advance.{
  MayMove, advance_effect, moved_at_terminal, advance_returns_iff,
}
use jme_loop_public.RunStore.Laws.{IsKeyed}
use jme_loop_public.LoopState.Vocabulary.{parse-state_name}
use jme_loop_public.Budget.{
  BudgetConfig, BudgetArm, iterations, wall_clock, no_progress_count, no_progress_time,
  BudgetSnapshot, first_tripped, marker_value, snapshot, BudgetVerdict, clear, tripped,
  evaluate_budget,
}
use jme_loop_public.BudgetGuard.{make_budget_guard, check_budget, guard_exempt_targets}

-- The state and the arm of a verdict that tripped.
abbrev pub trip : BudgetVerdict → Option (LoopState × BudgetArm)
trip (clear _) = none
trip (tripped state arm _ _) = some (state, arm)

-- The ceilings in their order: the first that its measure reaches.
abbrev pub first_reached : BudgetSnapshot → Option (LoopState × BudgetArm)
first_reached m =
    if ge m.elapsed_ms m.max_wall_clock_ms
    then some (budget_exceeded, wall_clock)
    else if ge m.iterations_used m.max_iterations
    then some (budget_exceeded, iterations)
    else if ge m.iterations_since_progress m.max_no_progress_iterations
    then some (no_progress, no_progress_count)
    else if ge m.ms_since_progress m.max_no_progress_ms
    then some (no_progress, no_progress_time)
    else none

-- The verdict of `evaluateBudget` trips exactly if some measure reaches its ceiling, and it names
-- the first such arm in the order wall clock, iterations, count without progress, time without
-- progress, with `BudgetExceeded` for the first two and `NoProgress` for the others.
pub trip-evaluate_budget :
    (parse : String → Number) (state : RunState) (events : List RunEvent) (config : BudgetConfig)
    (now : Number)
    → trip (evaluate_budget parse state events config now)
      ≡ first_reached (snapshot parse state events config now)
unfolding evaluate_budget first_tripped marker_value
trip-evaluate_budget parse state events config now = ground arith

-- A legal, terminal target of `SelectTicket` that the budget guard never blocks.
abbrev CanStop : LoopState → Type 0
CanStop t =
    (can_transition select_ticket t ≡ true)
    × (is_terminal t ≡ true)
    × (member t guard_exempt_targets ≡ true)
    × (same_state t done ≡ false)

budget_exceeded-CanStop : CanStop budget_exceeded
unfolding can_transition is_terminal member same_state
budget_exceeded-CanStop = (refl, refl, refl, refl)

no_progress-CanStop : CanStop no_progress
unfolding can_transition is_terminal member same_state
no_progress-CanStop = (refl, refl, refl, refl)

first_reached-CanStop :
    (m : BudgetSnapshot) {t : LoopState} {arm : BudgetArm}
    → first_reached m ≡ some (t, arm)
    → CanStop t
first_reached-CanStop m {t} h =
    let which : (budget_exceeded ≡ t) ⊎ (no_progress ≡ t) = ground arith in
    elim which [
      | inl e ↦ subst CanStop e budget_exceeded-CanStop
      | inr e ↦ subst CanStop e no_progress-CanStop
    ]

-- A verdict that trips names a terminal state.
pub trip-is_terminal :
    (parse : String → Number) (state : RunState) (events : List RunEvent) (config : BudgetConfig)
    (now : Number) {t : LoopState} {arm : BudgetArm}
    → trip (evaluate_budget parse state events config now) ≡ some (t, arm)
    → is_terminal t ≡ true
trip-is_terminal parse state events config now h =
    (first_reached-CanStop (snapshot parse state events config now)
      (sym (trip-evaluate_budget parse state events config now) ∙ h)).1

check_budget_exempt :
    (from to : LoopState) (state : RunState)
    → member to guard_exempt_targets ≡ true
    → check_budget from to state ≡ allowed
unfolding check_budget
check_budget_exempt from to state h = rw h

module _ (parse : String → Number) where
  -- When the verdict of a run that stands in `SelectTicket` trips, the driver with the budget guard
  -- makes the move to the verdict's state, and the run is stopped.
  pub evaluate_budget_stops :
      (state : RunState) (events : List RunEvent) (config : BudgetConfig) (at : Number)
      {t : LoopState} {arm : BudgetArm} (now : Date) (opts : AdvanceOptions) (run_id : String)
      (store : RunStore)
      → trip (evaluate_budget parse state events config at) ≡ some (t, arm)
      → IsKeyed store
      → read_state run_id store ≡ ok state
      → state.current_phase ≡ some (state_name select_ticket)
      → ((advance now (make_budget_guard ∷ []) run_id t opts store).0 ≡ return t)
        × ((after : RunState) × (read_state run_id
                (advance now (make_budget_guard ∷ []) run_id t opts store).1
              ≡ ok after)
            × (after.status ≡ stopped)
            × (after.current_phase ≡ some (state_name t)))
  evaluate_budget_stops state events config at {t} now opts run_id store h keyed r p =
      let (legal, terminal, exempt, not_done) =
        first_reached-CanStop (snapshot parse state events config at)
          (sym (trip-evaluate_budget parse state events config at) ∙ h) in
      let m : MayMove now (make_budget_guard ∷ []) run_id t store state select_ticket = record {
        stored = r;
        stands = ap parse_loop_state p ∙ parse-state_name select_ticket;
        legal = legal;
        unguarded = (check_budget_exempt select_ticket t state exempt, tt);
      } in
      let (stored, _, _) = advance_effect now (make_budget_guard ∷ []) run_id t opts keyed m in
      let (status, _, phase) = moved_at_terminal t opts state terminal in
      (
        (advance_returns_iff now (make_budget_guard ∷ []) run_id t opts store).1
            (state, select_ticket, m),
        (
          record (moved t opts state) { updated_at = now.iso },
          stored,
          status ∙ ap (λ b. if b then completed else stopped) not_done,
          phase,
        ),
      )
