-- ===== src/Tests/Gate.antt =====
-- The merge gate at concrete changes, reviews and checks.
use jme_loop_public.Prelude.{
  ℕ, String, ◌≡◌, refl, ◌↔◌, ◌⊎◌, true, false, Option, none, some, List, [], ◌∷◌, In, inl, inr, eqb,
  min, ◌==◌, if◌then◌else◌,
}
use jme_loop_public.Json.{Json, str, array, object, nil, cons, end, member}
use jme_loop_public.MergeGate.{
  DiffSummary, GateConfig, low, CiObservation, green, ReviewResult, approve, auto_merge, open_pr,
  MergeDecision, hit_protected, classify_risk, decide_merge,
}
use jme_loop_public.MergeGate.Decisions.{IsLowRisk, classify_risk_low_iff, decide_merge_iff}
use jme_loop_public.Autonomy.{
  review, autopilot, AutonomyConfig, autonomy_rank, resolve_autonomy, resolve_autonomy_config,
  apply_autonomy,
}
use jme_loop_public.Autonomy.Policy.{asked, resolve_autonomy_rank}
use jme_loop_public.MergeGateStep.{
  merge_pr, cleanup_worktree, Answers, decision, raw_decision, mode, run_merge_gate_step,
}
use jme_loop_public.MergeGateStep.Safety.{
  run_merge_gate_step_merges, run_merge_gate_step_made, run_merge_gate_step_cleans,
}
use jme_loop_public.Ci.{conclusion, says_no_checks, observe_ci, CheckRun}
use jme_loop_public.Ci.Polling.{PassedAt, observe_ci_green_iff}

abbrev limits : GateConfig
limits = record { protected_paths = "auth/" ∷ []; max_auto_merge_diff_lines = 400 }

abbrev change : DiffSummary
change = record {
  changed_files = "src/diff.ts" ∷ [];
  changed_lines = 17;
  touches_public_api = false;
  affected_coverage = none;
  content_risks = [];
}

abbrev passed : CiObservation
passed = record { state = green; detail = none }

abbrev approved : ReviewResult
approved = record { verdict = approve; findings = "" }

classify_risk_low_iff_example :
    ((classify_risk change limits).level ≡ low) ↔ IsLowRisk change limits
classify_risk_low_iff_example = classify_risk_low_iff change limits

decide_merge_iff_example :
    ((decide_merge passed approved (classify_risk change limits)).action ≡ auto_merge)
    ↔ ((passed.state ≡ green) × (approved.verdict ≡ approve) × IsLowRisk change limits)
decide_merge_iff_example = decide_merge_iff passed approved change limits

change-IsLowRisk : IsLowRisk change limits
unfolding classify_risk
change-IsLowRisk = (classify_risk_low_iff change limits).0 refl

protects :
    hit_protected (record change { changed_files = "src/auth/key.ts" ∷ "a.ts" ∷ [] }) limits
    ≡ "src/auth/key.ts" ∷ []
unfolding hit_protected
protects = refl

abbrev pilot : AutonomyConfig
pilot = record { default = review; ceiling = autopilot }

resolve_autonomy_rank_example :
    autonomy_rank (resolve_autonomy pilot (some "autopilot")).mode
    ≡ min (autonomy_rank (asked pilot (some "autopilot"))) (autonomy_rank pilot.ceiling)
unfolding resolve_autonomy_config
resolve_autonomy_rank_example =
    resolve_autonomy_rank none (some "autopilot") (some "autopilot") refl

abbrev merging : MergeDecision
merging = record { action = auto_merge; reason = "green + approved + low-risk" }

abbrev answers : Answers
answers = record { has_remote = true; ci = passed; diff = change; epic_request = some "autopilot" }

-- Opens what a run of the step computes with.
gate_run : Unit {0}
unfolding run_merge_gate_step decision raw_decision mode decide_merge classify_risk apply_autonomy
    resolve_autonomy
gate_run = tt

merges : In merge_pr (run_merge_gate_step limits pilot approved answers (λ _. true))
unfolding gate_run
merges = inr (inr (inr (inr (inr (inr (inr (inr (inl refl))))))))

run_merge_gate_step_merges_example :
    (answers.has_remote ≡ true)
    × (answers.ci.state ≡ green)
    × (approved.verdict ≡ approve)
    × IsLowRisk answers.diff limits
    × (mode limits pilot approved answers ≡ autopilot)
run_merge_gate_step_merges_example =
    run_merge_gate_step_merges limits pilot approved answers (λ _. true) merges

run_merge_gate_step_made_example :
    In merge_pr (run_merge_gate_step limits pilot approved answers (λ _. true))
run_merge_gate_step_made_example =
    run_merge_gate_step_made limits pilot approved answers refl refl refl change-IsLowRisk
      (unfold mode in unfold resolve_autonomy in refl)

cleans : In cleanup_worktree (run_merge_gate_step limits pilot approved answers (λ _. true))
unfolding gate_run
cleans = inr (inr (inr (inr (inr (inr (inr (inr (inr (inl refl)))))))))

run_merge_gate_step_cleans_example :
    let d = decision limits pilot approved answers in
    ((d.action ≡ auto_merge) × (true ≡ true)) ⊎ ((d.action ≡ open_pr) × (true ≡ true))
run_merge_gate_step_cleans_example =
    run_merge_gate_step_cleans limits pilot approved answers (λ _. true) cleans

-- A reader of two outputs of `gh pr checks`.
abbrev one_check : String → Json
one_check bucket =
    array (cons (object (member "name" (str "build") (member "bucket" (str bucket) end))) nil)

abbrev reader : String → Option Json
reader s =
    if s == "[pass]"
    then some (one_check "pass")
    else if s == "[pending]"
    then some (one_check "pending")
    else none

abbrev outputs : ℕ → String
outputs n = if eqb n 0 then "no checks reported" else if eqb n 1 then "[pending]" else "[pass]"

observes : (observe_ci reader outputs 600 30).state ≡ green
unfolding observe_ci conclusion says_no_checks
observes = refl

observe_ci_green_iff_example :
    ((observe_ci reader outputs 600 30).state ≡ green)
    ↔ ((k : ℕ) × (checks : List CheckRun) × PassedAt reader outputs 600 30 k checks)
observe_ci_green_iff_example = observe_ci_green_iff reader outputs 600 30
