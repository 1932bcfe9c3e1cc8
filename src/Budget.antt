-- ===== src/Budget.antt =====
-- Budget ceilings and the no-progress detector (src/budget.ts). `Date.parse` is the argument
-- `parse`; the time of evaluation, `now.getTime()`, is a number. The token and dollar ceilings are
-- kept and never enforced, as in the source.
pub mod Progress
pub mod Verdicts
pub mod Guards
use jme_loop_public.Prelude.{
  ℕ, zero, suc, ◌+◌, String, Bool, true, false, ◌&&◌, ◌||◌, Option, none, some, List, [], ◌∷◌, ◌==◌,
  Number, int, pos, ge, minus, is_finite, get, length, keep, drop, get_elem?, or_else,
  if◌then◌else◌, ◌⊕◌, number_text, join,
}
use jme_loop_public.Json.{Json, null, num, str, Fields}
use jme_loop_public.LoopState.{LoopState, budget_exceeded, needs_human, member}
use jme_loop_public.RunState.{RunState, RunEvent}
use jme_loop_public.LoopKernel.{TransitionGuard, GuardVerdict, allowed, denied}

pub record BudgetConfig : Type 0 where
  pub max_iterations : Number
  pub max_wall_clock_ms : Number
  pub max_no_progress_iterations : Number
  pub max_no_progress_ms : Number
  pub token_ceiling : Option Number
  pub dollar_ceiling : Option Number
  pub flags_count_as_progress : Bool

pub data BudgetArm : Type 0 where
  iterations wall_clock no_progress_count no_progress_time : BudgetArm

unfoldable pub arm_name : BudgetArm → String
arm_name iterations = "iterations"
arm_name wall_clock = "wall-clock"
arm_name no_progress_count = "no-progress-count"
arm_name no_progress_time = "no-progress-time"

pub record BudgetSnapshot : Type 0 where
  pub iterations_used : Number
  pub max_iterations : Number
  pub elapsed_ms : Number
  pub max_wall_clock_ms : Number
  pub iterations_since_progress : Number
  pub max_no_progress_iterations : Number
  pub ms_since_progress : Number
  pub max_no_progress_ms : Number
  pub last_progress_at : Option String
  pub token_ceiling : Option Number
  pub dollar_ceiling : Option Number

-- The names of a snapshot's numbers.
pub data SnapshotKey : Type 0 where
  iterations_used max_iterations elapsed_ms max_wall_clock_ms : SnapshotKey
  iterations_since_progress max_no_progress_iterations ms_since_progress : SnapshotKey
  max_no_progress_ms : SnapshotKey

unfoldable pub key_name : SnapshotKey → String
key_name iterations_used = "iterationsUsed"
key_name max_iterations = "maxIterations"
key_name elapsed_ms = "elapsedMs"
key_name max_wall_clock_ms = "maxWallClockMs"
key_name iterations_since_progress = "iterationsSinceProgress"
key_name max_no_progress_iterations = "maxNoProgressIterations"
key_name ms_since_progress = "msSinceProgress"
key_name max_no_progress_ms = "maxNoProgressMs"

-- `marker[key]`.
unfoldable pub marker_value : BudgetSnapshot → SnapshotKey → Number
marker_value m iterations_used = m.iterations_used
marker_value m max_iterations = m.max_iterations
marker_value m elapsed_ms = m.elapsed_ms
marker_value m max_wall_clock_ms = m.max_wall_clock_ms
marker_value m iterations_since_progress = m.iterations_since_progress
marker_value m max_no_progress_iterations = m.max_no_progress_iterations
marker_value m ms_since_progress = m.ms_since_progress
marker_value m max_no_progress_ms = m.max_no_progress_ms

-- The view of the run's state that holds an arm's numbers.
pub data View : Type 0 where
  budget no_progress : View

pub record BudgetArmSpec : Type 0 where
  pub arm : BudgetArm
  pub state : LoopState
  pub view : View
  pub used_key : SnapshotKey
  pub max_key : SnapshotKey

-- In the order of precedence.
abbrev pub budget_arms : List BudgetArmSpec
budget_arms =
    record {
      arm = wall_clock;
      state = budget_exceeded;
      view = budget;
      used_key = elapsed_ms;
      max_key = max_wall_clock_ms;
    }
    ∷ record {
      arm = iterations;
      state = budget_exceeded;
      view = budget;
      used_key = iterations_used;
      max_key = max_iterations;
    }
    ∷ record {
      arm = no_progress_count;
      state = LoopState.no_progress;
      view = View.no_progress;
      used_key = iterations_since_progress;
      max_key = max_no_progress_iterations;
    }
    ∷ record {
      arm = no_progress_time;
      state = LoopState.no_progress;
      view = View.no_progress;
      used_key = ms_since_progress;
      max_key = max_no_progress_ms;
    }
    ∷ []

-- `used !== null && max !== null && used >= max`.
unfoldable pub reaches : Option Number → Option Number → Bool
reaches (some used) (some max) = ge used max
reaches _ _ = false

-- The loop of `firstTrippedArm`, with the two numbers that were compared.
unfoldable pub first_tripped :
    (BudgetArmSpec → SnapshotKey → Option Number)
    → List BudgetArmSpec
    → Option (BudgetArmSpec × Option Number × Option Number)
unfolding reaches
first_tripped value_of [] = none
first_tripped value_of (spec ∷ specs) =
    let used = value_of spec spec.used_key in
    let max = value_of spec spec.max_key in
    if reaches used max then some (spec, used, max) else first_tripped value_of specs

trip_reason : BudgetArm → String → String → BudgetSnapshot → String
trip_reason wall_clock used max marker =
    "wall-clock ceiling reached: " ⊕ used ⊕ "ms >= " ⊕ max ⊕ "ms"
trip_reason iterations used max marker = "iteration ceiling reached: " ⊕ used ⊕ " >= " ⊕ max
trip_reason no_progress_count used max marker =
    "no progress for "
    ⊕ used
    ⊕ " iterations (>= "
    ⊕ max
    ⊕ "); last progress: "
    ⊕ or_else marker.last_progress_at "never"
trip_reason no_progress_time used max marker =
    "no progress for "
    ⊕ used
    ⊕ "ms (>= "
    ⊕ max
    ⊕ "ms); last progress: "
    ⊕ or_else marker.last_progress_at "never"

abbrev pub is_start : RunEvent → Bool
is_start e = e.type == "ticket.started"

unfoldable pub count_starts : List RunEvent → ℕ
count_starts events = length (keep is_start events)

-- The last index, counted from `i`, at which an event is progress, or the one known so far. The
-- source's -1 is `none`.
unfoldable pub last_index : (RunEvent → Bool) → ℕ → Option ℕ → List RunEvent → Option ℕ
last_index is_progress i found [] = found
last_index is_progress i found (e ∷ es) =
    last_index is_progress (suc i) (if is_progress e then some i else found) es

unfoldable pub is_progress_event : Bool → RunEvent → Bool
is_progress_event flags_count e =
    e.type == "merge.decision" || flags_count && e.type == "ticket.flagged"

time_of : Option RunEvent → Option String
time_of none = none
time_of (some e) = some e.ts

-- The signals for the last index of progress: the tickets started after it, and its time.
signals_from : Option ℕ → List RunEvent → ℕ × Option String
unfolding count_starts time_of
signals_from none events = (count_starts events, none)
signals_from (some i) events = (count_starts (drop (suc i) events), time_of (get_elem? events i))

unfoldable pub no_progress_signals : List RunEvent → Bool → ℕ × Option String
unfolding last_index signals_from
no_progress_signals events flags_count =
    signals_from (last_index (is_progress_event flags_count) 0 none events) events

pub data BudgetVerdict : Type 0 where
  clear : BudgetSnapshot → BudgetVerdict
  tripped : (state : LoopState) (arm : BudgetArm) (reason : String) → BudgetSnapshot → BudgetVerdict

unfoldable pub option_text : Option Number → String
option_text none = "null"
option_text (some n) = number_text n

verdict_of : BudgetSnapshot → Option (BudgetArmSpec × Option Number × Option Number) → BudgetVerdict
unfolding trip_reason option_text
verdict_of marker none = clear marker
verdict_of marker (some (spec, used, max)) =
    tripped spec.state spec.arm (trip_reason spec.arm (option_text used) (option_text max) marker)
      marker

module _ (parse : String → Number) where
  unfoldable pub snapshot : RunState → List RunEvent → BudgetConfig → Number → BudgetSnapshot
  snapshot state events config now =
      let started = parse state.started_at in
      let (since, at) = no_progress_signals events config.flags_count_as_progress in
      let progress : Number = elim at [ none ↦ started | some ts ↦ parse ts ] in
      record {
        iterations_used = int (pos (count_starts events));
        max_iterations = config.max_iterations;
        elapsed_ms = minus now started;
        max_wall_clock_ms = config.max_wall_clock_ms;
        iterations_since_progress = int (pos since);
        max_no_progress_iterations = config.max_no_progress_iterations;
        ms_since_progress = minus now progress;
        max_no_progress_ms = config.max_no_progress_ms;
        last_progress_at = at;
        token_ceiling = config.token_ceiling;
        dollar_ceiling = config.dollar_ceiling;
      }

  unfoldable pub evaluate_budget : RunState → List RunEvent → BudgetConfig → Number → BudgetVerdict
  unfolding verdict_of
  evaluate_budget state events config now =
      let marker = snapshot state events config now in
      verdict_of marker (first_tripped (λ _ key. some (marker_value marker key)) budget_arms)

-- The configured ceilings that are not enforced, as the notice lists them.
deferred : BudgetConfig → List String
deferred config =
    let dollar : List String = elim config.dollar_ceiling [
      | none ↦ []
      | some n ↦ ("dollarCeiling=" ⊕ number_text n) ∷ []
    ] in
    elim config.token_ceiling [
      | none ↦ dollar
      | some n ↦ ("tokenCeiling=" ⊕ number_text n) ∷ dollar
    ]

notice_of : List String → Option String
notice_of [] = none
notice_of ds = some (
    "[budget] "
    ⊕ join ", " ds
    ⊕ " CONFIGURED BUT NOT ENFORCED — pending usage reporting (TICKET-018). The loop is NOT protected by a cost ceiling.")

unfoldable pub budget_startup_notice : BudgetConfig → Option String
unfolding deferred notice_of
budget_startup_notice config = notice_of (deferred config)
