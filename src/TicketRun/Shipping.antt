-- ===== src/TicketRun/Shipping.antt =====
-- src/orchestrator.ts, `runTicket`: what has to have happened before a ticket's pull request is
-- merged.
use jme_loop_public.Prelude.{
  ℕ, String, ◌≡◌, refl, ap, ◌⊎◌, inl, inr, Bool, true, false, ◌&&◌, not, Option, none, some, List,
  [], ◌∷◌, map, ◌==◌, is_empty, In, Bool-cases, arith,
}
use mathlib.Core.Option.{some-injective}
use jme_loop_public.MergeGate.{ReviewResult, GateConfig}
use jme_loop_public.Autonomy.{AutonomyConfig}
use jme_loop_public.MergeGateStep.{Call, merge_pr}
use jme_loop_public.MergeGateStep.Safety.{MayMerge, In-merge_gate_calls-MayMerge}
use jme_loop_public.ExecutePlan.{
  ExecuteOutcome, verified, exhausted, escalated, plan_unworkable, stalled,
}
use jme_loop_public.TicketRun.{
  Entry, fresh, resume_execute, resume_review, StartOutcome, started, refused, start_failed,
  TicketAnswers, TicketCall, gate_call, CallEnd, returned, kernel_error, error, is_fresh,
  substantive, close_calls, review_calls, golden_calls, is_captured, built_calls, plan_calls,
  gate_calls, started_calls, ticket_calls, fail_locally, handled, after_call, run_calls,
}

abbrev merge_call : TicketCall
merge_call = gate_call merge_pr

fail_locally-In :
    (end : TicketCall → CallEnd) (why : String) (e : CallEnd)
    → In merge_call (fail_locally end why e)
    → ⊥
unfolding fail_locally
fail_locally-In end why (error m) h = ground arith
fail_locally-In end why returned h = ground arith
fail_locally-In end why kernel_error h = ground arith

handled-In :
    (end : TicketCall → CallEnd) (m : String) (r : Option String)
    → In merge_call (handled end m r)
    → ⊥
unfolding handled
handled-In end m (some why) h = fail_locally-In end why _ h
handled-In end m none h = ground arith

after_call-In :
    (end : TicketCall → CallEnd) (c : TicketCall) (e : CallEnd) (rest : List TicketCall)
    → In merge_call (after_call end c e rest)
    → (c ≡ merge_call) ⊎ In merge_call rest
unfolding after_call
after_call-In end c returned rest h = h
after_call-In end c kernel_error rest (inl h) = inl h
after_call-In end c kernel_error rest (inr h) = absurd h
after_call-In end c (error m) rest (inl h) = inl h
after_call-In end c (error m) rest (inr h) = absurd (handled-In end m _ h)

run_calls-In :
    (end : TicketCall → CallEnd) (cs : List TicketCall)
    → In merge_call (run_calls end cs)
    → In merge_call cs
unfolding run_calls
run_calls-In end [] h = h
run_calls-In end (c ∷ cs) h = elim (after_call-In end c (end c) (run_calls end cs) h) [
  | inl here ↦ inl here
  | inr later ↦ inr (run_calls-In end cs later)
]

-- The call of the merge gate that a ticket's call is.
abbrev call_of : TicketCall → Option Call
call_of (gate_call c) = some c
call_of _ = none

map-gate_call-In : (cs : List Call) → In merge_call (map gate_call cs) → In merge_pr cs
map-gate_call-In [] h = h
map-gate_call-In (c ∷ cs) (inl h) = inl (some-injective _ _ (ap call_of h))
map-gate_call-In (c ∷ cs) (inr h) = inr (map-gate_call-In cs h)

module _ (missing : String → Option String) (most : ℕ) (config : GateConfig)
    (policy : AutonomyConfig) (a : TicketAnswers) where
  -- The review's verdict is there, and the merge gate may merge on it.
  abbrev pub IsApproved : Type 0
  IsApproved = (r : ReviewResult) × (a.review ≡ some r) × MayMerge config policy r a.gate

  -- The plan was verified, the diff has an implementation, and a captured output is the same after
  -- the build.
  pub record IsBuilt (entry : Entry) : Type 0 where
    pub is_verified : a.outcome ≡ verified
    pub implemented : is_empty (substantive missing most config policy a) ≡ false
    pub preserved :
        is_captured missing most config policy a entry ≡ true
        → (a.golden_hash_after == a.golden_hash_before) ≡ true

  close_calls-In :
      (r : Option ReviewResult)
      → In merge_call (close_calls missing most config policy a r)
      → (x : ReviewResult) × (r ≡ some x) × MayMerge config policy x a.gate
  unfolding close_calls
  close_calls-In none h = absurd (ground arith)
  close_calls-In (some r) h = (
    r,
    refl,
    In-merge_gate_calls-MayMerge config policy r a.gate (map-gate_call-In _ (ground arith)),
  )

  review_calls-In :
      (entry : Entry) → In merge_call (review_calls missing most config policy a entry) → IsApproved
  unfolding review_calls
  review_calls-In fresh h = close_calls-In a.review (ground arith)
  review_calls-In resume_execute h = close_calls-In a.review (ground arith)
  review_calls-In resume_review h = close_calls-In a.review (ground arith)

  golden_calls-In :
      (entry : Entry) (captured : Bool)
      → In merge_call (golden_calls missing most config policy a entry captured)
      → IsApproved × (captured ≡ true → (a.golden_hash_after == a.golden_hash_before) ≡ true)
  unfolding golden_calls
  golden_calls-In entry false h = (review_calls-In entry h, (λ e. absurd (ground arith)))
  golden_calls-In entry true h = elim (Bool-cases (a.golden_hash_after == a.golden_hash_before)) [
    | inl same ↦ (review_calls-In entry (ground (arith, h, same)), (λ e. same))
    | inr changed ↦ absurd (ground (arith, h, changed))
  ]

  built_calls-In :
      (entry : Entry) (o : ExecuteOutcome)
      → a.outcome ≡ o
      → In merge_call (built_calls missing most config policy a entry o)
      → IsApproved × IsBuilt entry
  unfolding built_calls
  built_calls-In entry verified e h =
      elim (Bool-cases (is_empty (substantive missing most config policy a))) [
        | inl nothing ↦ absurd (ground (arith, h, nothing))
        | inr some_files ↦
            let (approved, same) =
              golden_calls-In entry (is_captured missing most config policy a entry)
                (ground (arith, h, some_files)) in
            (approved, record { is_verified = e; implemented = some_files; preserved = same })
      ]
  built_calls-In entry (exhausted n out d) e h = absurd (ground arith)
  built_calls-In entry (escalated plan_unworkable n out d) e h = absurd (ground arith)
  built_calls-In entry (escalated stalled n out d) e h = absurd (ground arith)

  -- What a merge rests on: a review that was resumed rests on the build of the earlier session.
  abbrev pub Grounded : Entry → Type 0
  Grounded entry = IsApproved × ((entry ≡ resume_review) ⊎ IsBuilt entry)

  plan_calls-In :
      (entry : Entry)
      → In merge_call (plan_calls missing most config policy a entry)
      → Grounded entry
  unfolding plan_calls
  plan_calls-In fresh h =
      let (x, y) = built_calls-In fresh a.outcome refl (ground arith) in (x, inr y)
  plan_calls-In resume_execute h =
      let (x, y) = built_calls-In resume_execute a.outcome refl (ground arith) in (x, inr y)
  plan_calls-In resume_review h = (review_calls-In resume_review h, inl refl)

  gate_calls-In :
      (entry : Entry)
      → In merge_call (gate_calls missing most config policy a entry)
      → Grounded entry
  unfolding gate_calls
  gate_calls-In entry h = elim (Bool-cases (not (is_fresh entry) && a.is_refactor)) [
    | inl lost ↦ absurd (ground (arith, h, lost))
    | inr kept ↦ elim (Bool-cases (is_captured missing most config policy a entry)) [
      | inl yes_it ↦ plan_calls-In entry (ground (arith, h, kept, yes_it))
      | inr no_it ↦ plan_calls-In entry (ground (arith, h, kept, no_it))
    ]
  ]

  started_calls-In :
      (s : StartOutcome)
      → In merge_call (started_calls missing most config policy a s)
      → Grounded fresh × (s ≡ started)
  unfolding started_calls
  started_calls-In started h = (gate_calls-In fresh h, refl)
  started_calls-In (refused r) h = absurd (ground arith)
  started_calls-In (start_failed r) h = absurd (ground arith)

  ticket_calls-In :
      (entry : Entry)
      → In merge_call (ticket_calls missing most config policy a entry)
      → Grounded entry
  unfolding ticket_calls
  ticket_calls-In fresh h = elim (Bool-cases a.has_ticketing_commands) [
    | inl there ↦ (started_calls-In a.start (ground (arith, h, there))).0
    | inr absent ↦ absurd (ground (arith, h, absent))
  ]
  ticket_calls-In resume_execute h = gate_calls-In resume_execute h
  ticket_calls-In resume_review h = gate_calls-In resume_review h

  -- A ticket's pull request is merged only on a review's verdict on which the merge gate may merge,
  -- and, unless the ticket was resumed in its review, only after the plan was verified, with an
  -- implementation in the diff, and with the same output as before the build where one was captured;
  -- whichever calls throw.
  pub run_ticket_merges :
      (end : TicketCall → CallEnd) (entry : Entry)
      → In merge_call (run_calls end (ticket_calls missing most config policy a entry))
      → Grounded entry
  run_ticket_merges end entry h = ticket_calls-In entry (run_calls-In end _ h)
