-- ===== src/Tests/Steps.antt =====
-- The steps of a ticket and its outcome at concrete answers and events.
use jme_loop_public.Prelude.{
  ◌≤◌, String, ◌≡◌, refl, true, false, none, some, [], ◌∷◌, eqb, inl, if◌then◌else◌,
}
use jme_loop_public.Json.{str}
use jme_loop_public.MergeGate.{approve, request_changes}
use jme_loop_public.ExecutePlan.{
  yes, no, Diagnosis, plan_unworkable, escalated, verified, Limits, Workers, execute_plan,
}
use jme_loop_public.ExecutePlan.Grounds.{Grounds, execute_plan-Grounds}
use jme_loop_public.ExecutePlan.Bounds.{
  builds, consults, preservations, expected_preservations, execute_plan_spends,
}
use jme_loop_public.ReviewStep.{Reviewers, review_step}
use jme_loop_public.ReviewStep.Rounds.{Founded, review_step-Founded}
use jme_loop_public.RunState.{RunEvent}
use jme_loop_public.TicketOutcomes.{TicketOutcome, derive_ticket_outcomes}
use jme_loop_public.TicketOutcomes.Shipping.{Shipped, outcome_after_decision}

abbrev same : String → String
same s = s

abbrev limits : Limits
limits = record {
  max_iterations = 3;
  diagnostic_retry_enabled = true;
  max_consults = 2;
  has_codex = true;
}

abbrev fixable : Diagnosis
fixable = record { hypothesis = "a typo"; plan_workable = yes; suggested_direction = "fix it" }

abbrev hopeless : Diagnosis
hopeless = record { hypothesis = "no such API"; plan_workable = no; suggested_direction = "replan" }

-- The build passes at the second attempt.
abbrev workers : Workers
workers = record {
  verification = λ k.
      if eqb k 2
      then record { passed = true; output = "ok" }
      else record { passed = false; output = "1 failed" };
  local_diagnosis = λ k. some fixable;
  consult_diagnosis = λ k. none;
}

-- Opens what a run of the plan computes with.
plan_run : Unit {0}
unfolding execute_plan
plan_run = tt

passes : (execute_plan same same limits workers "TICKET-001" (some "plan.md")).0 ≡ verified
unfolding plan_run
passes = refl

gives_up :
    (execute_plan same same limits
      (record workers { local_diagnosis = λ k. some hopeless; consult_diagnosis = λ k. none })
      "TICKET-001"
      (some "plan.md")).0
    ≡ escalated plan_unworkable 1 "1 failed" hopeless
unfolding plan_run
gives_up = refl

execute_plan-Grounds_example :
    Grounds same same limits workers 1
      (execute_plan same same limits workers "TICKET-001" (some "plan.md")).0
execute_plan-Grounds_example =
    execute_plan-Grounds same same limits workers "TICKET-001" (some "plan.md")

execute_plan_spends_example :
    let run = execute_plan same same limits workers "TICKET-001" (some "plan.md") in
    (builds run.1 ≤ 3) × (consults run.1 ≤ 2) × (preservations run.1 ≡ expected_preservations run.0)
execute_plan_spends_example =
    execute_plan_spends same same limits workers "TICKET-001" (some "plan.md")

-- The reviewer asks for changes once, and approves the fix.
abbrev reviewers : Reviewers
reviewers = record {
  review = λ k.
      if eqb k 1
      then record { verdict = request_changes; findings = "rename x" }
      else record { verdict = approve; findings = "" };
  reverified = λ k. true;
}

approves : (review_step same 3 reviewers).0 ≡ some (record { verdict = approve; findings = "" })
unfolding review_step
approves = refl

review_step-Founded_example : Founded same 3 reviewers 1 (review_step same 3 reviewers).0
review_step-Founded_example = review_step-Founded same 3 reviewers

abbrev event : String → String → RunEvent
event type action = record {
  ts = "2026-06-09T15:30:00Z";
  type = type;
  ticket_id = some "TICKET-001";
  phase = none;
  data_fields = some (("action", str action) ∷ []);
}

-- Opens what the outcomes compute with.
outcomes_run : Unit {0}
unfolding derive_ticket_outcomes
outcomes_run = tt

abbrev shipped : TicketOutcome
shipped = record {
  ticket_id = "TICKET-001";
  built = none;
  changed_files = none;
  verified = none;
  pr_opened = some true;
  merged = true;
  closed = true;
  cleanup_pending = false;
  shipping_uncertain = false;
}

abbrev unshipped : TicketOutcome
unshipped = record shipped { pr_opened = some false; merged = false; cleanup_pending = true }

outcome_after_decision_example : Shipped "auto-merge" false shipped
unfolding outcomes_run
outcome_after_decision_example =
    outcome_after_decision (event "ticket.started" "" ∷ event "ticket.closed" "" ∷ []) []
      (event "merge.decision" "auto-merge") shipped refl refl (inl refl)
