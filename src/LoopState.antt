-- ===== src/LoopState.antt =====
-- The vocabulary of the loop's state machine (src/loopState.ts): the states, the table of legal
-- moves, the terminal states, the failure routes, and the parser of a persisted phase.
-- The proofs are in the modules below.
pub mod Vocabulary
pub mod Paths
pub mod Gates
pub mod Returns
use jme_loop_public.Prelude.{
  String, Bool, true, false, Option, none, some, List, [], ◌∷◌, ◌==◌, if◌then◌else◌,
}

pub data LoopState : Type 0 where
  idle select_ticket refine_backlog start_ticket execute_plan plan_ticket review close : LoopState
  merge_gate done blocked needs_human verification_failed review_rejected : LoopState
  budget_exceeded no_progress : LoopState

pub LoopState-discrete : Discrete LoopState
LoopState-discrete = hlevel

-- The text that stands for a state in the run store.
unfoldable pub state_name : LoopState → String
state_name idle = "Idle"
state_name select_ticket = "SelectTicket"
state_name refine_backlog = "RefineBacklog"
state_name start_ticket = "StartTicket"
state_name execute_plan = "ExecutePlan"
state_name plan_ticket = "PlanTicket"
state_name review = "Review"
state_name close = "Close"
state_name merge_gate = "MergeGate"
state_name done = "Done"
state_name blocked = "Blocked"
state_name needs_human = "NeedsHuman"
state_name verification_failed = "VerificationFailed"
state_name review_rejected = "ReviewRejected"
state_name budget_exceeded = "BudgetExceeded"
state_name no_progress = "NoProgress"

abbrev pub transitions : LoopState → List LoopState
transitions idle = select_ticket ∷ []
transitions select_ticket =
    start_ticket ∷ done ∷ budget_exceeded ∷ no_progress ∷ refine_backlog ∷ []
transitions refine_backlog = select_ticket ∷ needs_human ∷ []
transitions start_ticket = execute_plan ∷ blocked ∷ budget_exceeded ∷ no_progress ∷ []
transitions execute_plan =
    review ∷ verification_failed ∷ budget_exceeded ∷ no_progress ∷ plan_ticket ∷ []
transitions plan_ticket = select_ticket ∷ needs_human ∷ []
transitions review = close ∷ review_rejected ∷ budget_exceeded ∷ no_progress ∷ []
transitions close =
    merge_gate ∷ select_ticket ∷ done ∷ needs_human ∷ budget_exceeded ∷ no_progress ∷ []
transitions merge_gate = select_ticket ∷ done ∷ budget_exceeded ∷ no_progress ∷ []
transitions blocked = select_ticket ∷ needs_human ∷ []
transitions verification_failed = execute_plan ∷ select_ticket ∷ needs_human ∷ []
transitions review_rejected = execute_plan ∷ select_ticket ∷ needs_human ∷ []
transitions done = []
transitions needs_human = []
transitions budget_exceeded = []
transitions no_progress = []

-- The keys of the table, in its order.
abbrev pub all_states : List LoopState
all_states =
    idle ∷ select_ticket ∷ refine_backlog ∷ start_ticket ∷ execute_plan ∷ plan_ticket ∷ review
    ∷ close ∷ merge_gate ∷ blocked ∷ verification_failed ∷ review_rejected ∷ done ∷ needs_human
    ∷ budget_exceeded ∷ no_progress ∷ []

-- A state is the text of its name, so `includes` on states compares names.
unfoldable pub same_state : LoopState → LoopState → Bool
unfolding state_name
same_state s t = state_name s == state_name t

unfoldable pub member : LoopState → List LoopState → Bool
unfolding same_state
member s [] = false
member s (t ∷ ts) = if same_state t s then true else member s ts

unfoldable pub failure_route : LoopState → Option LoopState
failure_route start_ticket = some blocked
failure_route execute_plan = some verification_failed
failure_route review = some review_rejected
failure_route _ = none

abbrev pub terminal_states : List LoopState
terminal_states = done ∷ needs_human ∷ budget_exceeded ∷ no_progress ∷ []

unfoldable pub is_terminal : LoopState → Bool
unfolding member
is_terminal s = member s terminal_states

unfoldable pub can_transition : LoopState → LoopState → Bool
unfolding member
can_transition from to = member to (transitions from)

-- The states whose name is the given text; `isLoopState` asks whether there is one.
find_state : String → List LoopState → Option LoopState
unfolding state_name
find_state value [] = none
find_state value (s ∷ ss) = if state_name s == value then some s else find_state value ss

unfoldable pub is_loop_state : String → Option LoopState
unfolding find_state
is_loop_state value = find_state value all_states

-- `none` is the error `unknown loop state`.
unfoldable pub parse_loop_state : Option String → Option LoopState
unfolding is_loop_state
parse_loop_state none = some idle
parse_loop_state (some value) = is_loop_state value
