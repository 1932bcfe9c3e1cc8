-- ===== src/Budget/Guards.antt =====
-- src/budget.ts: the guard over the persisted views, against the evaluation.
use jme_loop_public.Prelude.{
  String, ◌≡◌, refl, ◌↔◌, ◌⊎◌, inl, inr, true, none, some, List, Number, nan, infinity,
  minus_infinity, int, ge, is_finite, Bool-cases, arith,
}
use jme_loop_public.Json.{num}
use jme_loop_public.LoopState.{LoopState, member}
use jme_loop_public.RunState.{RunState, RunEvent}
use jme_loop_public.LoopKernel.{allowed}
use jme_loop_public.Budget.{
  BudgetConfig, BudgetSnapshot, snapshot, evaluate_budget, budget_arms, first_tripped, reaches,
}
use jme_loop_public.BudgetGuard.{
  budget_view, no_progress_view, finite_number, state_value, check_budget, guard_verdict,
  guard_exempt_targets,
}
use jme_loop_public.Budget.Verdicts.{trip, first_reached, trip-evaluate_budget}

-- No infinity: what the clock, the counters and a persisted configuration give.
abbrev pub IsOrdinary : Number → Type 0
IsOrdinary nan = Unit
IsOrdinary infinity = ⊥
IsOrdinary minus_infinity = ⊥
IsOrdinary (int _) = Unit

pub record HasOrdinary (m : BudgetSnapshot) : Type 0 where
  pub elapsed : IsOrdinary m.elapsed_ms
  pub wall_clock : IsOrdinary m.max_wall_clock_ms
  pub used : IsOrdinary m.iterations_used
  pub iterations : IsOrdinary m.max_iterations
  pub since : IsOrdinary m.iterations_since_progress
  pub count : IsOrdinary m.max_no_progress_iterations
  pub ms_since : IsOrdinary m.ms_since_progress
  pub time : IsOrdinary m.max_no_progress_ms

reaches-finite_number :
    (a b : Number)
    → IsOrdinary a
    → IsOrdinary b
    → reaches (finite_number (some (num a))) (finite_number (some (num b))) ≡ ge a b
unfolding reaches finite_number is_finite ge
reaches-finite_number nan b h k = refl
reaches-finite_number (int a) nan h k = refl
reaches-finite_number (int a) (int b) h k = refl
reaches-finite_number (int a) infinity h k = absurd k
reaches-finite_number (int a) minus_infinity h k = absurd k
reaches-finite_number infinity b h k = absurd h
reaches-finite_number minus_infinity b h k = absurd h

-- The run's state with the views of a snapshot, as the loop writes it after each evaluation.
abbrev pub with_views : RunState → BudgetSnapshot → RunState
with_views state m = record state { budget = budget_view m; no_progress = no_progress_view m }

first_tripped-with_views :
    (state : RunState) (m : BudgetSnapshot)
    → HasOrdinary m
    → (guard_verdict (first_tripped (state_value (with_views state m)) budget_arms) ≡ allowed)
      ↔ (first_reached m ≡ none)
unfolding first_tripped state_value budget_view no_progress_view guard_verdict
first_tripped-with_views state m h =
    let a = reaches-finite_number m.elapsed_ms m.max_wall_clock_ms h.elapsed h.wall_clock in
    let b = reaches-finite_number m.iterations_used m.max_iterations h.used h.iterations in
    let c =
      reaches-finite_number m.iterations_since_progress m.max_no_progress_iterations h.since
        h.count in
    let d = reaches-finite_number m.ms_since_progress m.max_no_progress_ms h.ms_since h.time in
    ground arith

-- After the loop wrote the views of an evaluation into the run's state, the guard allows a move
-- exactly if its target is exempt or that evaluation did not trip, where no number is infinite.
pub check_budget_agrees :
    (parse : String → Number) (state : RunState) (events : List RunEvent) (config : BudgetConfig)
    (now : Number) (from to : LoopState)
    → HasOrdinary (snapshot parse state events config now)
    → (check_budget from to (with_views state (snapshot parse state events config now)) ≡ allowed)
      ↔ ((member to guard_exempt_targets ≡ true)
          ⊎ (trip (evaluate_budget parse state events config now) ≡ none))
unfolding check_budget
check_budget_agrees parse state events config now from to h =
    let (forth, back) = first_tripped-with_views state (snapshot parse state events config now) h in
    let e = trip-evaluate_budget parse state events config now in
    elim (Bool-cases (member to guard_exempt_targets)) [
      | inl exempt ↦ rw exempt ((λ _. inl refl), (λ _. refl))
      | inr other ↦
          rw (other, e) ((λ c. inr (forth c)), (λ s. back (elim s [ inl x ↦ (cc) | inr t ↦ t ])))
    ]
