-- ===== src/TicketRun/Endings.antt =====
-- src/orchestrator.ts, `runTicket`: how a ticket ends.
use jme_loop_public.Prelude.{
  ℕ, String, ◌≡◌, ◌≢◌, refl, Bool, true, false, ◌&&◌, not, Option, none, some, List, [], ◌∷◌, map,
  ◌==◌, is_empty, ends, ends-cons, if◌then◌else◌,
}
use jme_loop_public.MergeGate.{ReviewResult, GateConfig}
use jme_loop_public.Autonomy.{AutonomyConfig}
use jme_loop_public.MergeGateStep.{Call, merge_gate_calls}
use jme_loop_public.MergeGateStep.Safety.{returns_to_select, merge_gate_calls-ends}
use jme_loop_public.ExecutePlan.{
  ExecuteOutcome, verified, exhausted, escalated, plan_unworkable, stalled,
}
use jme_loop_public.TicketRun.{
  Entry, fresh, resume_execute, resume_review, StartOutcome, started, refused, start_failed,
  TicketAnswers, TicketCall, gate_call, fail, return_to_select, CallEnd, returned, kernel_error,
  error, is_fresh, substantive, close_calls, review_calls, golden_calls, is_captured, built_calls,
  plan_calls, gate_calls, started_calls, ticket_calls, local_reason, fail_locally, handled,
  after_call, run_calls,
}

-- The ticket was flagged, or the run was sent back to `SelectTicket`.
abbrev pub is_ending : TicketCall → Bool
is_ending (fail why) = true
is_ending return_to_select = true
is_ending (gate_call c) = returns_to_select c
is_ending _ = false

fail_locally-ends :
    (end : TicketCall → CallEnd) (why : String) (e : CallEnd)
    → ends is_ending (fail_locally end why e) ≡ true
unfolding fail_locally
fail_locally-ends end why (error m) = refl
fail_locally-ends end why returned = refl
fail_locally-ends end why kernel_error = refl

handled-ends :
    (end : TicketCall → CallEnd) (m : String) (r : Option String)
    → ends is_ending (handled end m r) ≡ true
unfolding handled
handled-ends end m (some why) = fail_locally-ends end why _
handled-ends end m none = refl

after_call-ends :
    (end : TicketCall → CallEnd) (c : TicketCall) (e : CallEnd) (rest : List TicketCall)
    → e ≢ kernel_error
    → ends is_ending rest ≡ true
    → ends is_ending (after_call end c e rest) ≡ true
unfolding after_call
after_call-ends end c returned rest ok h = ends-cons is_ending c rest h
after_call-ends end c kernel_error rest ok h = absurd (ok refl)
after_call-ends end c (error m) rest ok h =
    ends-cons is_ending c (handled end m (local_reason c m)) (handled-ends end m (local_reason c m))

after_last-ends :
    (end : TicketCall → CallEnd) (c : TicketCall) (e : CallEnd)
    → e ≢ kernel_error
    → is_ending c ≡ true
    → ends is_ending (after_call end c e []) ≡ true
unfolding after_call
after_last-ends end c returned ok h = h
after_last-ends end c kernel_error ok h = absurd (ok refl)
after_last-ends end c (error m) ok h =
    ends-cons is_ending c (handled end m (local_reason c m)) (handled-ends end m (local_reason c m))

run_calls-ends :
    (end : TicketCall → CallEnd) (cs : List TicketCall)
    → ((c : TicketCall) → end c ≢ kernel_error)
    → ends is_ending cs ≡ true
    → ends is_ending (run_calls end cs) ≡ true
unfolding run_calls
run_calls-ends end [] ok h = h
run_calls-ends end (c ∷ []) ok h = after_last-ends end c (end c) (ok c) h
run_calls-ends end (c ∷ d ∷ cs) ok h =
    after_call-ends end c (end c) (run_calls end (d ∷ cs)) (ok c) (run_calls-ends end (d ∷ cs) ok h)

map-gate_call-ends :
    (cs : List Call) → ends returns_to_select cs ≡ true → ends is_ending (map gate_call cs) ≡ true
map-gate_call-ends [] h = h
map-gate_call-ends (c ∷ []) h = h
map-gate_call-ends (c ∷ d ∷ cs) h = map-gate_call-ends (d ∷ cs) h

-- The same, as a record that keeps its list.
record Ends (cs : List TicketCall) : Type 0 where
  holds : ends is_ending cs ≡ true

Ends-cons : {c : TicketCall} {cs : List TicketCall} → Ends cs → Ends (c ∷ cs)
Ends-cons {c} {cs} h = record { holds = ends-cons is_ending c cs h.holds }

Ends-if : (b : Bool) {x y : List TicketCall} → Ends x → Ends y → Ends (if b then x else y)
Ends-if true h k = h
Ends-if false h k = k

Ends-fail : {why : String} → Ends (fail why ∷ [])
Ends-fail = record { holds = refl }

module _ (missing : String → Option String) (most : ℕ) (config : GateConfig)
    (policy : AutonomyConfig) (a : TicketAnswers) where
  close_calls-Ends : (r : Option ReviewResult) → Ends (close_calls missing most config policy a r)
  unfolding close_calls
  close_calls-Ends none = Ends-fail
  close_calls-Ends (some r) = Ends-cons (
      Ends-cons (
        Ends-cons (
          Ends-cons (record {
            holds =
                map-gate_call-ends (merge_gate_calls config policy r a.gate)
                  (merge_gate_calls-ends config policy r a.gate);
          }))))

  review_calls-Ends : (entry : Entry) → Ends (review_calls missing most config policy a entry)
  unfolding review_calls
  review_calls-Ends fresh = Ends-cons (Ends-cons (close_calls-Ends a.review))
  review_calls-Ends resume_execute = Ends-cons (Ends-cons (close_calls-Ends a.review))
  review_calls-Ends resume_review = Ends-cons (close_calls-Ends a.review)

  golden_calls-Ends :
      (entry : Entry) (captured : Bool)
      → Ends (golden_calls missing most config policy a entry captured)
  unfolding golden_calls
  golden_calls-Ends entry false = review_calls-Ends entry
  golden_calls-Ends entry true =
      Ends-cons
        (Ends-if (a.golden_hash_after == a.golden_hash_before) (review_calls-Ends entry) Ends-fail)

  built_calls-Ends :
      (entry : Entry) (o : ExecuteOutcome) → Ends (built_calls missing most config policy a entry o)
  unfolding built_calls
  built_calls-Ends entry verified = Ends-cons (
      Ends-cons (
        Ends-if (is_empty (substantive missing most config policy a)) Ends-fail
          (golden_calls-Ends entry (is_captured missing most config policy a entry))))
  built_calls-Ends entry (exhausted n out d) = Ends-fail
  built_calls-Ends entry (escalated plan_unworkable n out d) = record { holds = refl }
  built_calls-Ends entry (escalated stalled n out d) = Ends-fail

  plan_calls-Ends : (entry : Entry) → Ends (plan_calls missing most config policy a entry)
  unfolding plan_calls
  plan_calls-Ends fresh = Ends-cons (Ends-cons (Ends-cons (built_calls-Ends fresh a.outcome)))
  plan_calls-Ends resume_execute = Ends-cons (Ends-cons (built_calls-Ends resume_execute a.outcome))
  plan_calls-Ends resume_review = review_calls-Ends resume_review

  gate_calls-Ends : (entry : Entry) → Ends (gate_calls missing most config policy a entry)
  unfolding gate_calls
  gate_calls-Ends entry = Ends-if (not (is_fresh entry) && a.is_refactor) Ends-fail (
      Ends-if (is_captured missing most config policy a entry) (Ends-cons (plan_calls-Ends entry))
        (plan_calls-Ends entry))

  started_calls-Ends : (s : StartOutcome) → Ends (started_calls missing most config policy a s)
  unfolding started_calls
  started_calls-Ends started = gate_calls-Ends fresh
  started_calls-Ends (refused r) = Ends-fail
  started_calls-Ends (start_failed r) = Ends-fail

  ticket_calls-Ends : (entry : Entry) → Ends (ticket_calls missing most config policy a entry)
  unfolding ticket_calls
  ticket_calls-Ends fresh = Ends-cons (
      Ends-if a.has_ticketing_commands (Ends-cons (Ends-cons (started_calls-Ends a.start)))
        Ends-fail)
  ticket_calls-Ends resume_execute = gate_calls-Ends resume_execute
  ticket_calls-Ends resume_review = gate_calls-Ends resume_review

  -- Where no call throws an error of the state machine, the last call that is made for a ticket
  -- flags it or returns to `SelectTicket`, whatever the answers and whichever calls throw.
  pub run_ticket-ends :
      (end : TicketCall → CallEnd) (entry : Entry)
      → ((c : TicketCall) → end c ≢ kernel_error)
      → ends is_ending (run_calls end (ticket_calls missing most config policy a entry)) ≡ true
  run_ticket-ends end entry ok = run_calls-ends end _ ok (ticket_calls-Ends entry).holds
