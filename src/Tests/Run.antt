-- ===== src/Tests/Run.antt =====
-- A ticket's whole run at concrete answers.
use jme_loop_public.Prelude.{
  String, ◌≡◌, refl, true, false, Option, none, some, [], ◌∷◌, In, inl, inr,
}
use jme_loop_public.MergeGate.{DiffSummary, GateConfig, CiObservation, green, ReviewResult, approve}
use jme_loop_public.MergeGate
use jme_loop_public.Autonomy.{autopilot, AutonomyConfig}
use jme_loop_public.Autonomy
use jme_loop_public.MergeGateStep
use jme_loop_public.MergeGateStep.{merge_pr, Answers, run_merge_gate_step}
use jme_loop_public.ExecutePlan.{verified}
use jme_loop_public.TicketRun.{
  fresh, started, TicketAnswers, TicketCall, gate_call, CallEnd, returned, error, ticket_calls,
  run_calls, is_provisioning_path, substantive_changed_files,
}
use jme_loop_public.TicketRun.Shipping.{Grounded, run_ticket_merges}

abbrev limits : GateConfig
limits = record { protected_paths = "auth/" ∷ []; max_auto_merge_diff_lines = 400 }

abbrev pilot : AutonomyConfig
pilot = record { default = autopilot; ceiling = autopilot }

abbrev answers : TicketAnswers
answers = record {
  has_ticketing_commands = true;
  start = started;
  is_refactor = true;
  captures_golden = true;
  golden_hash_before = "a1";
  golden_hash_after = "a1";
  outcome = verified;
  changed_files = "node_modules/x.js" ∷ "docs/t.md" ∷ "src/a.ts" ∷ [];
  ticket_path = "docs/t.md";
  review = some (record { verdict = approve; findings = "" });
  gate = record {
    has_remote = true;
    ci = record { state = green; detail = none };
    diff = record {
      changed_files = "src/a.ts" ∷ [];
      changed_lines = 3;
      touches_public_api = false;
      affected_coverage = none;
      content_risks = [];
    };
    epic_request = none;
  };
}

abbrev no_command : String → Option String
no_command output = none

abbrev succeeds : TicketCall → CallEnd
succeeds c = returned

-- Opens what a ticket's run computes with.
ticket_run : Unit {0}
unfolding run_calls ticket_calls substantive_changed_files is_provisioning_path
    MergeGateStep.merge_gate_calls MergeGateStep.decision MergeGateStep.raw_decision
    MergeGateStep.mode MergeGate.decide_merge MergeGate.classify_risk Autonomy.apply_autonomy
    Autonomy.resolve_autonomy
ticket_run = tt

implemented : substantive_changed_files answers.changed_files answers.ticket_path ≡ "src/a.ts" ∷ []
unfolding ticket_run
implemented = refl

merges :
    In
      (gate_call merge_pr)
      (run_calls succeeds (ticket_calls no_command 3 limits pilot answers fresh))
unfolding ticket_run
merges = inr (
    inr (
      inr (
        inr (
          inr (
            inr (
              inr (
                inr (
                  inr (
                    inr (
                      inr (
                        inr (
                          inr (
                            inr (
                              inr (
                                inr (
                                  inr (
                                    inr (
                                      inr (inr (inr (inr (inr (inr (inl refl))))))))))))))))))))))))

run_ticket_merges_example : Grounded no_command 3 limits pilot answers fresh
run_ticket_merges_example =
    run_ticket_merges no_command 3 limits pilot answers succeeds fresh merges

-- Every call throws.
abbrev breaks : TicketCall → CallEnd
breaks c = error "disk full"
