-- ===== src/TicketRun.antt =====
-- One ticket from its start to the merge gate: `runTicket` of src/orchestrator.ts with the steps of
-- src/ticketStart.ts, src/ticketExecutionGate.ts and src/ticketReviewClose.ts. What the outside
-- answers is a record; the steps are the sequence of their calls, and a call may throw. Log lines
-- and the session's pointers are left out.
pub mod Shipping
pub mod Endings
use jme_loop_public.Prelude.{
  ℕ, String, ◌≡◌, Bool, true, false, ◌&&◌, not, Option, none, some, List, [], ◌∷◌, ◌++◌, map, ◌==◌,
  eqb, any, keep, is_empty, codes, if◌then◌else◌, ◌⊕◌, decimal,
}
use jme_loop_public.LoopState.{LoopState, start_ticket, execute_plan, plan_ticket, review, close}
use jme_loop_public.MergeGate.{ReviewResult, GateConfig}
use jme_loop_public.Autonomy.{AutonomyConfig}
use jme_loop_public.MergeGateStep.{Call, Answers, merge_gate_calls}
use jme_loop_public.ExecutePlan.{
  Diagnosis, ExecuteOutcome, verified, exhausted, escalated, plan_unworkable, stalled,
}

-- A fresh ticket, or one that was interrupted in a builder's phase.
pub data Entry : Type 0 where
  fresh resume_execute resume_review : Entry

pub data StartOutcome : Type 0 where
  started : StartOutcome
  refused start_failed : (reason : String) → StartOutcome

-- The outputs before and after a build are given by the hashes that the gate compares.
pub record TicketAnswers : Type 0 where
  pub has_ticketing_commands : Bool
  pub start : StartOutcome
  pub is_refactor : Bool
  pub captures_golden : Bool
  pub golden_hash_before : String
  pub golden_hash_after : String
  pub outcome : ExecuteOutcome
  pub changed_files : List String
  pub ticket_path : String
  pub review : Option ReviewResult
  pub gate : Answers

pub data TicketCall : Type 0 where
  enter : LoopState → TicketCall
  create_worktree ticket_start capture_before capture_after run_plan : TicketCall
  record_result : (passed : Bool) → TicketCall
  repair_plan return_to_select summarize_diff : TicketCall
  record_built : (files : List String) → TicketCall
  run_review record_review close_ticket record_closed : TicketCall
  gate_call : Call → TicketCall
  fail : (why : String) → TicketCall

-- `executeFlagReason`. The command that a shell did not find is read by a regular expression, which
-- is the parameter `missing`.
unfoldable pub execute_flag_reason : (String → Option String) → ℕ → ExecuteOutcome → String
execute_flag_reason missing most (exhausted n output d) = elim (missing output) [
  | some command ↦
      "environment-unprovisioned: verifier command '" ⊕ command
      ⊕ "' was not found; install dependencies before retrying"
  | none ↦ "verification still failing after " ⊕ decimal most ⊕ " attempts"
]
execute_flag_reason missing most (escalated stalled n output d) =
    "verification stalled on identical failure after an informed retry"
execute_flag_reason missing most (escalated plan_unworkable n output d) =
    "diagnosis judged plan unworkable: " ⊕ d.hypothesis
execute_flag_reason missing most verified = "verification failed"

-- The segments of a path, between its slashes.
segments : List ℕ → List ℕ → List (List ℕ)
segments current [] = current ∷ []
segments current (c ∷ cs) =
    let rest = segments [] cs in
    let longer = segments (current ++ c ∷ []) cs in if eqb c 47 then current ∷ rest else longer

same_codes : List ℕ → List ℕ → Bool
same_codes [] [] = true
same_codes (x ∷ xs) (y ∷ ys) = eqb x y && same_codes xs ys
same_codes _ _ = false

unfoldable pub is_provisioning_path : String → Bool
unfolding segments same_codes
is_provisioning_path path =
    any (λ s. same_codes s (codes "node_modules")) (segments [] (codes path))

-- The paths are those of a system whose separator is the slash.
unfoldable pub substantive_changed_files : List String → String → List String
substantive_changed_files changed ticket_path =
    keep (λ f. not (f == ticket_path) && not (is_provisioning_path f)) changed

abbrev pub is_fresh : Entry → Bool
is_fresh fresh = true
is_fresh _ = false

module _ (missing : String → Option String) (most : ℕ) (config : GateConfig)
    (policy : AutonomyConfig) (a : TicketAnswers) where
  abbrev pub substantive : List String
  substantive = substantive_changed_files a.changed_files a.ticket_path

  -- `ticketReviewClose`, after the review's verdict.
  unfoldable pub close_calls : Option ReviewResult → List TicketCall
  close_calls none = fail "verification failed after addressing review feedback" ∷ []
  close_calls (some r) =
      record_review
      ∷ enter close
      ∷ close_ticket
      ∷ record_closed
      ∷ map gate_call (merge_gate_calls config policy r a.gate)

  unfoldable pub review_calls : Entry → List TicketCall
  unfolding close_calls
  review_calls resume_review = run_review ∷ close_calls a.review
  review_calls _ = enter review ∷ run_review ∷ close_calls a.review

  -- The comparison with the output that was captured before the build.
  unfoldable pub golden_calls : Entry → (captured : Bool) → List TicketCall
  unfolding review_calls
  golden_calls entry false = review_calls entry
  golden_calls entry true =
      capture_after
      ∷ (if a.golden_hash_after == a.golden_hash_before
          then review_calls entry
          else fail "golden output changed — behavior not preserved" ∷ [])

  abbrev pub is_captured : Entry → Bool
  is_captured entry = is_fresh entry && a.is_refactor && a.captures_golden

  -- After the verifier's last word.
  unfoldable pub built_calls : Entry → ExecuteOutcome → List TicketCall
  unfolding golden_calls execute_flag_reason
  built_calls entry verified =
      summarize_diff
      ∷ record_built substantive
      ∷ (if is_empty substantive
          then fail
              "builder produced no implementation — the diff is empty beyond the ticket file; flagged instead of shipping an empty PR"
            ∷ []
          else golden_calls entry (is_captured entry))
  built_calls entry (escalated plan_unworkable n output d) =
      enter plan_ticket ∷ repair_plan ∷ return_to_select ∷ []
  built_calls entry outcome = fail (execute_flag_reason missing most outcome) ∷ []

  abbrev pub is_verified : ExecuteOutcome → Bool
  is_verified verified = true
  is_verified _ = false

  unfoldable pub plan_calls : Entry → List TicketCall
  unfolding built_calls review_calls
  plan_calls fresh =
      enter execute_plan
      ∷ run_plan
      ∷ record_result (is_verified a.outcome)
      ∷ built_calls fresh a.outcome
  plan_calls resume_execute =
      run_plan ∷ record_result (is_verified a.outcome) ∷ built_calls resume_execute a.outcome
  plan_calls resume_review = review_calls resume_review

  -- `runTicketExecutionGate`, and what follows it.
  unfoldable pub gate_calls : Entry → List TicketCall
  unfolding plan_calls
  gate_calls entry =
      if not (is_fresh entry) && a.is_refactor
      then fail "golden baseline lost to interrupted run — re-run from a clean state" ∷ []
      else if is_captured entry
      then capture_before ∷ plan_calls entry
      else plan_calls entry

  -- After `/ticket-start`.
  unfoldable pub started_calls : StartOutcome → List TicketCall
  unfolding gate_calls
  started_calls started = gate_calls fresh
  started_calls (refused reason) = fail ("ticket-start refused: " ⊕ reason) ∷ []
  started_calls (start_failed reason) = fail ("ticket-start failed: " ⊕ reason) ∷ []

  unfoldable pub ticket_calls : Entry → List TicketCall
  unfolding started_calls gate_calls
  ticket_calls fresh =
      enter start_ticket
      ∷ (if a.has_ticketing_commands
          then create_worktree ∷ ticket_start ∷ started_calls a.start
          else fail "ticketing commands (/ticket-start, /ticket-close) not installed in this repo"
            ∷ [])
  ticket_calls entry = gate_calls entry

-- How a call ends: it returns, throws an error of the state machine, or throws another one.
pub data CallEnd : Type 0 where
  returned kernel_error : CallEnd
  error : (message : String) → CallEnd

unexpected : String → TicketCall
unexpected message = fail ("unexpected error: " ⊕ message ⊕ " — worktree kept for inspection")

-- The two calls whose error their own step handles, with the reason that it flags.
local_reason : TicketCall → String → Option String
local_reason create_worktree message = some ("worktree creation failed: " ⊕ message)
local_reason (enter start_ticket) message =
    some ("failed to record ticket start: " ⊕ message ⊕ " — ticket not started")
local_reason c message = none

module _ (end : TicketCall → CallEnd) where
  -- The handler of the step itself, whose own error comes to the handler of `runTicket`.
  fail_locally : String → CallEnd → List TicketCall
  unfolding unexpected
  fail_locally why (error message) = fail why ∷ unexpected message ∷ []
  fail_locally why _ = fail why ∷ []

  -- What a call's error leads to, given the reason that its own step flags.
  handled : String → Option String → List TicketCall
  unfolding fail_locally unexpected
  handled message (some why) = fail_locally why (end (fail why))
  handled message none = unexpected message ∷ []

  after_call : TicketCall → CallEnd → List TicketCall → List TicketCall
  unfolding handled local_reason
  after_call c returned rest = c ∷ rest
  after_call c kernel_error rest = c ∷ []
  after_call c (error message) rest = c ∷ handled message (local_reason c message)

  -- The calls that are made.
  unfoldable pub run_calls : List TicketCall → List TicketCall
  unfolding after_call
  run_calls [] = []
  run_calls (c ∷ cs) = after_call c (end c) (run_calls cs)
