-- ===== src/ExecutePlan/Bounds.antt =====
-- src/executePlan.ts: what the loop spends, counted in its effects.
use jme_loop_public.Prelude.{
  ℕ, zero, suc, ◌+◌, ◌≤◌, String, ◌≡◌, refl, Bool, true, false, not, ◌&&◌, Option, none, some, List,
  [], ◌∷◌, ◌++◌, length, keep, keep-append, length-append, eqb, if◌then◌else◌, arith,
}
use jme_loop_public.ExecutePlan.{
  Diagnosis, ExecuteOutcome, verified, VerificationResult, Limits, Workers, Effect, built,
  consulted, preserved, Retry, first_try, is_plan_unworkable, is_known, is_overturned, Turn, finish,
  retry, conclude, wants_consult, after_consult, diagnosed_turn, failed_turn, verified_turn, follow,
  attempts_from, execute_plan,
}

abbrev is_built : Effect → Bool
is_built (built _) = true
is_built _ = false

abbrev is_consulted : Effect → Bool
is_consulted (consulted _ _ _) = true
is_consulted _ = false

abbrev is_preserved : Effect → Bool
is_preserved (preserved _) = true
is_preserved _ = false

abbrev pub builds : List Effect → ℕ
builds es = length (keep is_built es)

abbrev pub consults : List Effect → ℕ
consults es = length (keep is_consulted es)

abbrev pub preservations : List Effect → ℕ
preservations es = length (keep is_preserved es)

-- How often an outcome keeps the worktree's state for a human.
abbrev pub expected_preservations : ExecuteOutcome → ℕ
expected_preservations verified = 0
expected_preservations _ = 1

count-append :
    (p : Effect → Bool) (xs ys : List Effect)
    → length (keep p (xs ++ ys)) ≡ length (keep p xs) + length (keep p ys)
count-append p xs ys = rw (keep-append p xs ys) (length-append (keep p xs) (keep p ys))

module _ (signature_of excerpt : String → String) (limits : Limits) (w : Workers) where
  -- What a turn spends, after `used` consults.
  abbrev Spends : ℕ → Turn → Type 0
  Spends used (finish o es) =
      (builds es ≡ 0)
      × (used + consults es ≤ limits.max_consults)
      × (preservations es ≡ expected_preservations o)
  Spends used (retry s es) =
      (builds es ≡ 0)
      × (s.consults_used ≡ used + consults es)
      × (s.consults_used ≤ limits.max_consults)
      × (preservations es ≡ 0)

  Spends-if :
      (used : ℕ) (b : Bool) (t u : Turn)
      → Spends used t
      → Spends used u
      → Spends used (if b then t else u)
  Spends-if used true t u h k = h
  Spends-if used false t u h k = k

  -- The consult of this pass, if one was made, is in `es`.
  conclude-Spends :
      (attempt : ℕ) (sig : String) (rep : Bool) (s : Retry) (d : Diagnosis) (c : Option Diagnosis)
      (used : ℕ) (es : List Effect)
      → builds es ≡ 0
      → preservations es ≡ 0
      → s.consults_used ≡ used + consults es
      → s.consults_used ≤ limits.max_consults
      → Spends used (conclude signature_of excerpt limits w attempt sig rep s d c es)
  unfolding conclude
  conclude-Spends attempt sig rep s d c used es b p e le =
      Spends-if used (not (eqb attempt limits.max_iterations) && is_plan_unworkable d c) _ _
        (grind (arith, count-append)) (grind (arith, count-append))

  after_consult-Spends :
      (attempt : ℕ) (sig : String) (rep : Bool) (s : Retry) (d : Diagnosis) (fires : Bool)
      → s.consults_used ≤ limits.max_consults
      → (fires ≡ true → s.consults_used + 1 ≤ limits.max_consults)
      → Spends s.consults_used
          (after_consult signature_of excerpt limits w attempt sig rep s d fires)
  unfolding after_consult
  after_consult-Spends attempt sig rep s d true le h =
      conclude-Spends attempt sig rep (record s { consults_used = s.consults_used + 1 }) d
        (w.consult_diagnosis attempt) s.consults_used
        (consulted attempt (w.consult_diagnosis attempt)
            (is_overturned d (w.consult_diagnosis attempt))
          ∷ [])
        refl refl refl (h refl)
  after_consult-Spends attempt sig rep s d false le h =
      conclude-Spends attempt sig rep s d none s.consults_used [] refl refl (omega arith) le

  wants_consult_room :
      (attempt : ℕ) (rep : Bool) (s : Retry) (d : Diagnosis)
      → wants_consult signature_of excerpt limits w attempt rep s d ≡ true
      → s.consults_used + 1 ≤ limits.max_consults
  unfolding wants_consult
  wants_consult_room attempt rep s d h = ground arith

  diagnosed_turn-Spends :
      (attempt : ℕ) (sig : String) (rep : Bool) (s : Retry) (d : Diagnosis)
      → s.consults_used ≤ limits.max_consults
      → Spends s.consults_used (diagnosed_turn signature_of excerpt limits w attempt sig rep s d)
  unfolding diagnosed_turn
  diagnosed_turn-Spends attempt sig rep s d le =
      Spends-if s.consults_used (rep && is_known sig s.stalled_signature) _ _
        (refl, omega arith, refl)
        (after_consult-Spends attempt sig rep s d
          (wants_consult signature_of excerpt limits w attempt rep s d) le
          (wants_consult_room attempt rep s d))

  failed_turn-Spends :
      (attempt : ℕ) (sig : String) (s : Retry) (d : Option Diagnosis)
      → s.consults_used ≤ limits.max_consults
      → Spends s.consults_used (failed_turn signature_of excerpt limits w attempt sig s d)
  unfolding failed_turn
  failed_turn-Spends attempt sig s none le = (refl, omega arith, le, refl)
  failed_turn-Spends attempt sig s (some d) le =
      diagnosed_turn-Spends attempt sig (is_known sig s.prev_signature)
        (record s { last_diagnosis = some d }) d le

  verified_turn-Spends :
      (attempt : ℕ) (s : Retry) (r : VerificationResult)
      → s.consults_used ≤ limits.max_consults
      → Spends s.consults_used (verified_turn signature_of excerpt limits w attempt s r)
  unfolding verified_turn
  verified_turn-Spends attempt s r le =
      let failed = record s { last_output = r.output; last_prompt_output = excerpt r.output } in
      Spends-if s.consults_used r.passed _ _ (refl, omega arith, refl)
        (Spends-if s.consults_used limits.diagnostic_retry_enabled _ _
          (failed_turn-Spends attempt (signature_of r.output) failed (w.local_diagnosis attempt) le)
          (refl, omega arith, le, refl))

  -- What the rest of the loop spends.
  abbrev Spent : (left used : ℕ) → ExecuteOutcome × List Effect → Type 0
  Spent left used (o, es) =
      (builds es ≤ left)
      × (used + consults es ≤ limits.max_consults)
      × (preservations es ≡ expected_preservations o)

  follow-Spent :
      (left used : ℕ) (prompt : String) (t : Turn) (next : Retry → ExecuteOutcome × List Effect)
      → Spends used t
      → ((s : Retry) → s.consults_used ≤ limits.max_consults → Spent left s.consults_used (next s))
      → Spent (suc left) used (follow signature_of excerpt limits w prompt t next)
  unfolding follow
  follow-Spent left used prompt (finish o es) next (b, c, p) k = (omega arith, c, p)
  follow-Spent left used prompt (retry s es) next (b, c, le, p) k =
      let (b1, c1, p1) = k s le in
      (
        omega (arith, count-append is_built es (next s).1),
        omega (arith, count-append is_consulted es (next s).1),
        omega (arith, count-append is_preserved es (next s).1),
      )

  attempts_from-Spent :
      (id : String) (plan : Option String) (left i : ℕ) (s : Retry)
      → s.consults_used ≤ limits.max_consults
      → Spent left s.consults_used (attempts_from signature_of excerpt limits w id plan left i s)
  unfolding attempts_from
  attempts_from-Spent id plan zero i s le = (omega arith, omega arith, refl)
  attempts_from-Spent id plan (suc left) i s le =
      follow-Spent left s.consults_used _ _ _ (verified_turn-Spends i s (w.verification i) le)
        (λ s1 le1. attempts_from-Spent id plan left (suc i) s1 le1)

  -- The loop asks the builder at most as often as the limit on the iterations, the second model at
  -- most as often as the limit on consults, and it keeps the worktree's state for a human exactly
  -- once unless the plan was verified, when it does not.
  pub execute_plan_spends :
      (id : String) (plan : Option String)
      → let run = execute_plan signature_of excerpt limits w id plan in
        (builds run.1 ≤ limits.max_iterations)
        × (consults run.1 ≤ limits.max_consults)
        × (preservations run.1 ≡ expected_preservations run.0)
  unfolding execute_plan
  execute_plan_spends id plan =
      let (b, c, p) = attempts_from-Spent id plan limits.max_iterations 1 first_try (omega arith) in
      (b, omega arith, p)
