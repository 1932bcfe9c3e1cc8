-- ===== src/MergeGateStep.antt =====
-- The last step of a ticket (src/mergeGateStep.ts): push, pull request, checks, decision, merge or
-- escalation, cleanup. The outside world is a list of calls in their order: each may throw, and
-- then no later call is made. The values that calls return are arguments. Log lines are left out.
pub mod Safety
use jme_loop_public.Prelude.{
  String, Bool, true, false, not, Option, none, some, List, [], ◌∷◌, if◌then◌else◌,
}
use jme_loop_public.MergeGate.{
  DiffSummary, CiObservation, CiSignalState, ReviewResult, GateConfig, Action, auto_merge, open_pr,
  MergeDecision, classify_risk, decide_merge,
}
use jme_loop_public.Autonomy.{AutonomyMode, AutonomyConfig, resolve_autonomy, apply_autonomy}

-- What `merge.decision` records.
pub record DecisionEvent : Type 0 where
  pub action : Action
  pub reason : String
  pub ci : CiSignalState
  pub autonomy : AutonomyMode
  pub original_action : Option Action

pub data Call : Type 0 where
  push enter_merge_gate create_pr observe_ci summarize_diff write_diff_summary : Call
  read_epic_request merge_pr : Call
  record_decision : DecisionEvent → Call
  mark_escalated record_triage : (reason : String) → Call
  cleanup_worktree back_to_select : Call

-- What the environment answers.
pub record Answers : Type 0 where
  pub has_remote : Bool
  pub ci : CiObservation
  pub diff : DiffSummary
  pub epic_request : Option String

module _ (config : GateConfig) (policy : AutonomyConfig) (review : ReviewResult) (a : Answers) where
  unfoldable pub raw_decision : MergeDecision
  raw_decision = decide_merge a.ci review (classify_risk a.diff config)

  unfoldable pub mode : AutonomyMode
  mode = (resolve_autonomy policy a.epic_request).mode

  unfoldable pub decision : MergeDecision
  unfolding raw_decision mode
  decision = apply_autonomy raw_decision mode

  -- The original action, if the policy changed it.
  downgrade : Action → Action → Option Action
  downgrade auto_merge auto_merge = none
  downgrade open_pr open_pr = none
  downgrade final original = some original

  decision_event : DecisionEvent
  unfolding downgrade
  decision_event = record {
    action = decision.action;
    reason = decision.reason;
    ci = a.ci.state;
    autonomy = mode;
    original_action = downgrade decision.action raw_decision.action;
  }

  -- The branch on the decision, and what follows it.
  ship : Action → List Call
  ship auto_merge = merge_pr ∷ cleanup_worktree ∷ back_to_select ∷ []
  ship open_pr =
      mark_escalated decision.reason
      ∷ record_triage decision.reason
      ∷ cleanup_worktree
      ∷ back_to_select
      ∷ []

  -- With a remote or without one.
  calls_if : Bool → List Call
  unfolding ship decision_event
  calls_if false = back_to_select ∷ []
  calls_if true =
      push
      ∷ enter_merge_gate
      ∷ create_pr
      ∷ observe_ci
      ∷ summarize_diff
      ∷ write_diff_summary
      ∷ read_epic_request
      ∷ record_decision decision_event
      ∷ ship decision.action

  unfoldable pub merge_gate_calls : List Call
  unfolding calls_if
  merge_gate_calls = calls_if a.has_remote

-- The calls that are made, the last of which may have thrown.
unfoldable pub made : (Call → Bool) → List Call → List Call
made succeeds [] = []
made succeeds (c ∷ cs) = let rest = made succeeds cs in if succeeds c then c ∷ rest else c ∷ []

unfoldable pub run_merge_gate_step :
    GateConfig → AutonomyConfig → ReviewResult → Answers → (Call → Bool) → List Call
unfolding made merge_gate_calls
run_merge_gate_step config policy review a succeeds =
    made succeeds (merge_gate_calls config policy review a)
