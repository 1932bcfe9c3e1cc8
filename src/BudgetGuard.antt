-- ===== src/BudgetGuard.antt =====
-- src/budget.ts: the two views of a snapshot that the loop persists, and the guard that reads them
-- back (`budgetView`, `noProgressView`, `makeBudgetGuard`).
use jme_loop_public.Prelude.{
  String, Option, none, some, List, [], ◌∷◌, Number, is_finite, get, if◌then◌else◌, ◌⊕◌,
}
use jme_loop_public.Json.{Json, null, num, str, Fields}
use jme_loop_public.LoopState.{LoopState, budget_exceeded, needs_human, member}
use jme_loop_public.RunState.{RunState}
use jme_loop_public.LoopKernel.{TransitionGuard, GuardVerdict, allowed, denied}
use jme_loop_public.Budget.{
  arm_name, BudgetSnapshot, SnapshotKey, key_name, View, option_text, BudgetArmSpec, budget_arms,
  first_tripped,
}

nullable : Option Number → Json
nullable none = null
nullable (some n) = num n

unfoldable pub budget_view : BudgetSnapshot → Fields
unfolding nullable
budget_view s =
    ("iterationsUsed", num s.iterations_used)
    ∷ ("maxIterations", num s.max_iterations)
    ∷ ("elapsedMs", num s.elapsed_ms)
    ∷ ("maxWallClockMs", num s.max_wall_clock_ms)
    ∷ ("tokenCeiling", nullable s.token_ceiling)
    ∷ ("dollarCeiling", nullable s.dollar_ceiling)
    ∷ []

unfoldable pub no_progress_view : BudgetSnapshot → Fields
no_progress_view s =
    ("iterationsSinceProgress", num s.iterations_since_progress)
    ∷ ("maxNoProgressIterations", num s.max_no_progress_iterations)
    ∷ ("msSinceProgress", num s.ms_since_progress)
    ∷ ("maxNoProgressMs", num s.max_no_progress_ms)
    ∷ ("lastProgressAt", elim s.last_progress_at [ none ↦ null | some ts ↦ str ts ])
    ∷ []

abbrev pub guard_exempt_targets : List LoopState
guard_exempt_targets = budget_exceeded ∷ LoopState.no_progress ∷ needs_human ∷ []

unfoldable pub finite_number : Option Json → Option Number
finite_number (some (num n)) = if is_finite n then some n else none
finite_number _ = none

unfoldable pub view_number : Fields → String → Option Number
unfolding finite_number
view_number view key = finite_number (get key view)

unfoldable pub state_value : RunState → BudgetArmSpec → SnapshotKey → Option Number
unfolding view_number key_name
state_value state spec key = elim spec.view [
  | View.budget ↦ view_number state.budget (key_name key)
  | View.no_progress ↦ view_number state.no_progress (key_name key)
]

unfoldable pub guard_verdict : Option (BudgetArmSpec × Option Number × Option Number) → GuardVerdict
unfolding option_text arm_name
guard_verdict none = allowed
guard_verdict (some (spec, used, max)) =
    denied
      (arm_name spec.arm ⊕ " ceiling tripped (" ⊕ option_text used ⊕ " >= " ⊕ option_text max ⊕ ")")

unfoldable pub check_budget : LoopState → LoopState → RunState → GuardVerdict
unfolding guard_verdict
check_budget from to state =
    if member to guard_exempt_targets
    then allowed
    else guard_verdict (first_tripped (state_value state) budget_arms)

abbrev pub make_budget_guard : TransitionGuard
make_budget_guard = record { name = "budget"; check = check_budget }
