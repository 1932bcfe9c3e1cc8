-- ===== src/MergeGateStep/Safety.antt =====
-- src/mergeGateStep.ts: when a pull request is merged, and when a worktree is removed.
use jme_loop_public.Prelude.{
  ends, ends-cons, ◌≡◌, refl, ◌⊎◌, inl, inr, Bool, true, false, List, [], ◌∷◌, In, arith,
}
use jme_loop_public.MergeGate.{
  green, ReviewResult, approve, GateConfig, Action, auto_merge, open_pr,
}
use jme_loop_public.MergeGate.Decisions.{IsLowRisk, decide_merge_iff}
use jme_loop_public.Autonomy.{AutonomyMode, autopilot, AutonomyConfig, may_auto_merge}
use jme_loop_public.Autonomy.Policy.{apply_autonomy_restricts}
use jme_loop_public.MergeGateStep.{
  Call, record_decision, decision_event, push, merge_pr, mark_escalated, cleanup_worktree,
  back_to_select, Answers, decision, raw_decision, mode, ship, calls_if, merge_gate_calls, made,
  run_merge_gate_step,
}

In-made : (succeeds : Call → Bool) (c : Call) (cs : List Call) → In c (made succeeds cs) → In c cs
unfolding made
In-made succeeds c [] h = h
In-made succeeds c (d ∷ cs) h = ground (arith, In-made succeeds c cs)

-- A call that stands among those made, and is not the first, stands among the later ones.
In-made_later :
    (succeeds : Call → Bool) (c d : Call) (cs : List Call)
    → (d ≡ c → ⊥)
    → In c (made succeeds (d ∷ cs))
    → In c (made succeeds cs)
unfolding made
In-made_later succeeds c d cs other h = ground arith

abbrev pub returns_to_select : Call → Bool
returns_to_select back_to_select = true
returns_to_select _ = false

module _ (config : GateConfig) (policy : AutonomyConfig) (review : ReviewResult) (a : Answers) where
  may_auto_merge_only_autopilot : (m : AutonomyMode) → may_auto_merge m ≡ true → m ≡ autopilot
  unfolding may_auto_merge
  may_auto_merge_only_autopilot m h = ground arith

  In-ship : (act : Action) → In merge_pr (ship config policy review a act) → act ≡ auto_merge
  unfolding ship
  In-ship auto_merge h = refl
  In-ship open_pr h = ground arith

  In-calls_if :
      (remote : Bool)
      → In merge_pr (calls_if config policy review a remote)
      → (remote ≡ true) × ((decision config policy review a).action ≡ auto_merge)
  unfolding calls_if
  In-calls_if false h = ground arith
  In-calls_if true h = (refl, In-ship _ (ground arith))

  In-merge_gate_calls :
      In merge_pr (merge_gate_calls config policy review a)
      → (a.has_remote ≡ true) × ((decision config policy review a).action ≡ auto_merge)
  unfolding merge_gate_calls
  In-merge_gate_calls h = In-calls_if a.has_remote h

  merges_by_policy :
      (decision config policy review a).action ≡ auto_merge
      → ((raw_decision config policy review a).action ≡ auto_merge)
        × (may_auto_merge (mode config policy review a) ≡ true)
  unfolding decision
  merges_by_policy h =
      (apply_autonomy_restricts (raw_decision config policy review a)
          (mode config policy review a)).0
        h

  -- What has to hold for the step to call for the merge.
  abbrev pub MayMerge : Type 0
  MayMerge =
      (a.has_remote ≡ true)
      × (a.ci.state ≡ green)
      × (review.verdict ≡ approve)
      × IsLowRisk a.diff config
      × (mode config policy review a ≡ autopilot)

  pub In-merge_gate_calls-MayMerge :
      In merge_pr (merge_gate_calls config policy review a) → MayMerge
  unfolding raw_decision
  In-merge_gate_calls-MayMerge h =
      let (remote, act) = In-merge_gate_calls h in
      let (raw, allowed) = merges_by_policy act in
      let (ci, approved, risk) = (decide_merge_iff a.ci review a.diff config).0 raw in
      (remote, ci, approved, risk, may_auto_merge_only_autopilot _ allowed)

  -- The pull request is merged only if there is a remote, the checks were observed green, the
  -- reviewer approved, the risk is low, and the effective autonomy is `autopilot`; whichever calls
  -- throw.
  pub run_merge_gate_step_merges :
      (succeeds : Call → Bool)
      → In merge_pr (run_merge_gate_step config policy review a succeeds)
      → (a.has_remote ≡ true)
        × (a.ci.state ≡ green)
        × (review.verdict ≡ approve)
        × IsLowRisk a.diff config
        × (mode config policy review a ≡ autopilot)
  unfolding run_merge_gate_step
  run_merge_gate_step_merges succeeds h =
      In-merge_gate_calls-MayMerge (In-made succeeds merge_pr _ h)

  may_auto_merge_autopilot : (m : AutonomyMode) → m ≡ autopilot → may_auto_merge m ≡ true
  unfolding may_auto_merge
  may_auto_merge_autopilot m e = rw e refl

  merge_pr-In-calls :
      (remote : Bool)
      → remote ≡ true
      → (decision config policy review a).action ≡ auto_merge
      → In merge_pr (made (λ _. true) (calls_if config policy review a remote))
  unfolding made calls_if ship
  merge_pr-In-calls remote e act =
      rw (e, act) (inr (inr (inr (inr (inr (inr (inr (inr (inl refl)))))))))

  -- If no call throws, the pull request is merged whenever there is a remote, the checks were
  -- observed green, the reviewer approved, the risk is low (a coverage of just the limit for thin
  -- coverage included), and the effective autonomy is `autopilot`.
  pub run_merge_gate_step_made :
      a.has_remote ≡ true
      → a.ci.state ≡ green
      → review.verdict ≡ approve
      → IsLowRisk a.diff config
      → mode config policy review a ≡ autopilot
      → In merge_pr (run_merge_gate_step config policy review a (λ _. true))
  unfolding run_merge_gate_step merge_gate_calls decision raw_decision
  run_merge_gate_step_made remote ci approved risk pilot = merge_pr-In-calls a.has_remote remote (
      (apply_autonomy_restricts (raw_decision config policy review a)
          (mode config policy review a)).1
        (
          (decide_merge_iff a.ci review a.diff config).1 (ci, approved, risk),
          may_auto_merge_autopilot _ pilot,
        ))

  ship-ends : (act : Action) → ends returns_to_select (ship config policy review a act) ≡ true
  unfolding ship
  ship-ends auto_merge = refl
  ship-ends open_pr = refl

  calls_if-ends :
      (remote : Bool) → ends returns_to_select (calls_if config policy review a remote) ≡ true
  unfolding calls_if
  calls_if-ends false = refl
  calls_if-ends true =
      ends-cons returns_to_select (record_decision (decision_event config policy review a))
        (ship config policy review a (decision config policy review a).action)
        (ship-ends (decision config policy review a).action)

  -- The step's calls end with the one that returns to `SelectTicket`.
  pub merge_gate_calls-ends :
      ends returns_to_select (merge_gate_calls config policy review a) ≡ true
  unfolding merge_gate_calls
  merge_gate_calls-ends = calls_if-ends a.has_remote

  cleanup-In-calls :
      (succeeds : Call → Bool) (remote : Bool)
      → In cleanup_worktree (made succeeds (calls_if config policy review a remote))
      → In cleanup_worktree
          (made succeeds (ship config policy review a (decision config policy review a).action))
  unfolding calls_if
  cleanup-In-calls succeeds false h =
      absurd (unfold made in In-made_later succeeds cleanup_worktree back_to_select [] (λ e. cc) h)
  cleanup-In-calls succeeds true h =
      let later = In-made_later succeeds cleanup_worktree in
      later _ _ (λ e. cc)
        (later _ _ (λ e. cc)
          (later _ _ (λ e. cc)
            (later _ _ (λ e. cc)
              (later _ _ (λ e. cc)
                (later _ _ (λ e. cc) (later _ _ (λ e. cc) (later push _ (λ e. cc) h)))))))

  cleanup-In-made :
      (succeeds : Call → Bool) (act : Action)
      → In cleanup_worktree (made succeeds (ship config policy review a act))
      → ((act ≡ auto_merge) × (succeeds merge_pr ≡ true))
        ⊎ ((act ≡ open_pr)
            × (succeeds (mark_escalated (decision config policy review a).reason) ≡ true))
  unfolding made ship
  cleanup-In-made succeeds auto_merge h = ground arith
  cleanup-In-made succeeds open_pr h = ground arith

  -- The worktree is removed only after the merge was made, or the pull request was marked as
  -- escalated, as was decided, and that call did not throw.
  pub run_merge_gate_step_cleans :
      (succeeds : Call → Bool)
      → In cleanup_worktree (run_merge_gate_step config policy review a succeeds)
      → let d = decision config policy review a in
        ((d.action ≡ auto_merge) × (succeeds merge_pr ≡ true))
        ⊎ ((d.action ≡ open_pr) × (succeeds (mark_escalated d.reason) ≡ true))
  unfolding run_merge_gate_step merge_gate_calls
  run_merge_gate_step_cleans succeeds h =
      cleanup-In-made succeeds (decision config policy review a).action
        (cleanup-In-calls succeeds a.has_remote h)
