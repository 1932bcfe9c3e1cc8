-- ===== src/ExecutePlan.antt =====
-- src/executePlan.ts, `executePlan`, with the shapes and the rules of src/diagnosis.ts that it
-- uses: the bounded loop that builds, verifies, diagnoses a failure and tries again. What the
-- builder, the verifier and the two models answer is indexed by the attempt. The two functions
-- that normalise and cut a verifier's output are parameters: they stand on regular expressions.
pub mod Grounds
pub mod Bounds
use jme_loop_public.Prelude.{
  ℕ, zero, suc, ◌+◌, String, Bool, true, false, ◌&&◌, ◌||◌, not, Option, none, some, List, [], ◌∷◌,
  ◌++◌, ◌==◌, eqb, ltb, or_else, if◌then◌else◌, ◌⊕◌,
}

pub data PlanWorkable : Type 0 where
  yes uncertain no : PlanWorkable

pub record Diagnosis : Type 0 where
  pub hypothesis : String
  pub plan_workable : PlanWorkable
  pub suggested_direction : String

pub data Escalation : Type 0 where
  plan_unworkable stalled : Escalation

pub data ExecuteOutcome : Type 0 where
  verified : ExecuteOutcome
  exhausted : (attempts : ℕ) (last_output : String) → Option Diagnosis → ExecuteOutcome
  escalated :
      (reason : Escalation) (attempts : ℕ) (last_output : String) → Diagnosis → ExecuteOutcome

pub record VerificationResult : Type 0 where
  pub passed : Bool
  pub output : String

-- What the loop reads of the configuration and of the environment.
pub record Limits : Type 0 where
  pub max_iterations : ℕ
  pub diagnostic_retry_enabled : Bool
  pub max_consults : ℕ
  pub has_codex : Bool

-- The answers at each attempt.
pub record Workers : Type 0 where
  pub verification : ℕ → VerificationResult
  pub local_diagnosis : ℕ → Option Diagnosis
  pub consult_diagnosis : ℕ → Option Diagnosis

-- Who a diagnosis event speaks for.
pub data DiagnosisSource : Type 0 where
  unavailable only_local local_consult : DiagnosisSource

-- What the loop does to the world, in order.
pub data Effect : Type 0 where
  built : (prompt : String) → Effect
  consulted : (attempt : ℕ) (answer : Option Diagnosis) (overturned : Bool) → Effect
  diagnosed :
      (attempt : ℕ) (signature : String)
      → Option PlanWorkable
      → (hypothesis : String) → DiagnosisSource
      → Effect
  artifact : (attempt : ℕ) (local : Diagnosis) (consult : Option Diagnosis) → Effect
  preserved : (outcome : String) → Effect

-- The variables of the loop.
pub record Retry : Type 0 where
  pub last_output : String
  pub last_prompt_output : String
  pub prev_prompt_output : String
  pub combined_dir : Option String
  pub prev_signature : Option String
  pub stalled_signature : Option String
  pub consults_used : ℕ
  pub last_diagnosis : Option Diagnosis

abbrev pub first_try : Retry
first_try = record {
  last_output = "";
  last_prompt_output = "";
  prev_prompt_output = "";
  combined_dir = none;
  prev_signature = none;
  stalled_signature = none;
  consults_used = 0;
  last_diagnosis = none;
}

abbrev pub says_no : PlanWorkable → Bool
says_no no = true
says_no _ = false

abbrev pub says_yes : PlanWorkable → Bool
says_yes yes = true
says_yes _ = false

unfoldable pub is_plan_unworkable : Diagnosis → Option Diagnosis → Bool
is_plan_unworkable local none = says_no local.plan_workable
is_plan_unworkable local (some c) = says_no local.plan_workable && says_no c.plan_workable

unfoldable pub combined_direction : Diagnosis → Option Diagnosis → String
combined_direction local none = "Local: " ⊕ local.suggested_direction
combined_direction local (some c) =
    "Local: " ⊕ local.suggested_direction ⊕ "\nCodex consult: " ⊕ c.suggested_direction

-- `overturned`: a second opinion that does not share the first one's `no`.
abbrev pub is_overturned : Diagnosis → Option Diagnosis → Bool
is_overturned local none = false
is_overturned local (some c) = says_no local.plan_workable && not (says_no c.plan_workable)

abbrev pub source_of : Option Diagnosis → DiagnosisSource
source_of none = only_local
source_of (some _) = local_consult

-- `x !== null && s === x`.
abbrev pub is_known : String → Option String → Bool
is_known s none = false
is_known s (some t) = s == t

unfoldable pub prompt_for : String → Option String → ℕ → Retry → String
prompt_for id plan attempt s =
    if eqb attempt 1
    then "Implement the plan for " ⊕ id ⊕ ". Plan: " ⊕ or_else plan "undefined"
    else elim s.combined_dir [
      | some direction ↦
          "The verification failed. Fix it.\n\nDiagnosis: " ⊕ direction ⊕ "\n\n"
          ⊕ s.last_prompt_output
      | none ↦ "The verification failed. Fix it.\n\n" ⊕ s.last_prompt_output
    ]

-- One pass of the loop: it returns, or goes on.
pub data Turn : Type 0 where
  finish : ExecuteOutcome → List Effect → Turn
  retry : Retry → List Effect → Turn

module _ (signature_of excerpt : String → String) (limits : Limits) (w : Workers) where
  -- Steps 5 and 6, after the consult that was made or not made.
  unfoldable pub conclude :
      (attempt : ℕ) (signature : String) (repeated : Bool) (s : Retry) (local : Diagnosis)
      (consult : Option Diagnosis)
      → List Effect
      → Turn
  unfolding is_plan_unworkable combined_direction
  conclude attempt signature repeated s local consult effects =
      let told =
        effects
        ++ diagnosed attempt signature (some local.plan_workable) local.hypothesis
            (source_of consult)
          ∷ artifact attempt local consult
          ∷ [] in
      if not (eqb attempt limits.max_iterations) && is_plan_unworkable local consult
      then finish (escalated plan_unworkable attempt s.last_output local)
          (told ++ preserved "plan-unworkable" ∷ [])
      else retry
          (record s {
            combined_dir = some (combined_direction local consult);
            stalled_signature = if repeated then some signature else s.stalled_signature;
            prev_signature = some signature;
            prev_prompt_output = s.last_prompt_output;
          })
          told

  -- Step 3, the gate of the consult.
  unfoldable pub wants_consult : ℕ → Bool → Retry → Diagnosis → Bool
  wants_consult attempt repeated s local =
      (repeated || not (says_yes local.plan_workable))
      && ltb s.consults_used limits.max_consults
      && limits.has_codex
      && not (eqb attempt limits.max_iterations)

  unfoldable pub after_consult :
      (attempt : ℕ) (signature : String) (repeated : Bool) → Retry → Diagnosis → Bool → Turn
  unfolding conclude
  after_consult attempt signature repeated s local true =
      let answer = w.consult_diagnosis attempt in
      conclude attempt signature repeated (record s { consults_used = s.consults_used + 1 }) local
        answer (consulted attempt answer (is_overturned local answer) ∷ [])
  after_consult attempt signature repeated s local false =
      conclude attempt signature repeated s local none []

  -- Steps 2 to 6, with the local diagnosis in hand.
  unfoldable pub diagnosed_turn : ℕ → String → Bool → Retry → Diagnosis → Turn
  unfolding after_consult wants_consult
  diagnosed_turn attempt signature repeated s local =
      if repeated && is_known signature s.stalled_signature
      then finish (escalated stalled attempt s.last_output local) (
          diagnosed attempt signature (some local.plan_workable) local.hypothesis only_local
          ∷ artifact attempt local none
          ∷ preserved "stalled"
          ∷ [])
      else after_consult attempt signature repeated s local (wants_consult attempt repeated s local)

  -- After a failed verification that is diagnosed.
  unfoldable pub failed_turn : ℕ → String → Retry → Option Diagnosis → Turn
  unfolding diagnosed_turn
  failed_turn attempt signature s none =
      retry
        (record s {
          combined_dir = none;
          prev_signature = some signature;
          prev_prompt_output = s.last_prompt_output;
        })
        (diagnosed attempt signature none "diagnosis unavailable; falling back to blind retry"
            unavailable
          ∷ [])
  failed_turn attempt signature s (some local) =
      diagnosed_turn attempt signature (is_known signature s.prev_signature)
        (record s { last_diagnosis = some local }) local

  -- After the verifier's answer.
  unfoldable pub verified_turn : ℕ → Retry → VerificationResult → Turn
  unfolding failed_turn
  verified_turn attempt s result =
      let failed = record s {
        last_output = result.output;
        last_prompt_output = excerpt result.output;
      } in
      if result.passed
      then finish verified []
      else if limits.diagnostic_retry_enabled
      then failed_turn attempt (signature_of result.output) failed (w.local_diagnosis attempt)
      else retry (record failed { prev_prompt_output = failed.last_prompt_output }) []

  -- The end of a pass: the builder's turn came before it, and the loop returns or goes on.
  unfoldable pub follow :
      String → Turn → (Retry → ExecuteOutcome × List Effect) → ExecuteOutcome × List Effect
  follow prompt (finish outcome effects) next = (outcome, built prompt ∷ effects)
  follow prompt (retry s effects) next = ((next s).0, built prompt ∷ effects ++ (next s).1)

  -- The loop, with the attempts that are left; they start at the configured maximum.
  unfoldable pub attempts_from :
      (id : String) (plan : Option String) (left attempt : ℕ) → Retry → ExecuteOutcome × List Effect
  unfolding verified_turn follow
  attempts_from id plan zero attempt s =
      (exhausted limits.max_iterations s.last_output s.last_diagnosis, preserved "exhausted" ∷ [])
  attempts_from id plan (suc left) attempt s =
      follow (prompt_for id plan attempt s) (verified_turn attempt s (w.verification attempt))
        (λ s1. attempts_from id plan left (suc attempt) s1)

  unfoldable pub execute_plan : String → Option String → ExecuteOutcome × List Effect
  unfolding attempts_from
  execute_plan id plan = attempts_from id plan limits.max_iterations 1 first_try
