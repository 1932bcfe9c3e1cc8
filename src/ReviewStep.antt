-- ===== src/ReviewStep.antt =====
-- src/reviewStep.ts, `reviewStep`: the bounded rounds of review and fix. What the reviewer and the
-- verifier answer is indexed by the round. The function that normalises the findings is a parameter:
-- it stands on regular expressions.
pub mod Rounds
use jme_loop_public.Prelude.{
  ℕ, zero, suc, String, Bool, true, false, Option, none, some, List, [], ◌∷◌, ◌==◌, eqb,
  if◌then◌else◌, ◌⊕◌, decimal,
}
use jme_loop_public.MergeGate.{Verdict, approve, request_changes, escalate, ReviewResult}
use jme_loop_public.ExecutePlan.{is_known}

-- The reviewer's answer, and whether the build passes after the fix, at each round.
pub record Reviewers : Type 0 where
  pub review : ℕ → ReviewResult
  pub reverified : ℕ → Bool

-- What the step does to the world, in order.
pub data ReviewEffect : Type 0 where
  reviewed : ReviewEffect
  refixed : (prompt : String) → ReviewEffect
  preserved_build_broke : ReviewEffect

abbrev pub Reviewed : Type 0
Reviewed = Option ReviewResult × List ReviewEffect

module _ (signature_of : String → String) (max_rounds : ℕ) (w : Reviewers) where
  unfoldable pub unresolved : String → ReviewResult
  unresolved findings = record {
    verdict = escalate;
    findings =
        "Unresolved after " ⊕ decimal max_rounds ⊕ " review rounds — needs a human.\n" ⊕ findings;
  }

  unfoldable pub review_stalled : String → ReviewResult
  review_stalled findings = record {
    verdict = escalate;
    findings = "Review stalled (same findings after a fix attempt):\n" ⊕ findings;
  }

  -- After the fix of a round that is not the last.
  unfoldable pub after_fix : String → Bool → Reviewed → Reviewed
  after_fix findings true (result, effects) =
      (result, reviewed ∷ refixed ("Address this review:\n" ⊕ findings) ∷ effects)
  after_fix findings false rest =
      (none, reviewed ∷ refixed ("Address this review:\n" ⊕ findings) ∷ preserved_build_broke ∷ [])

  -- One round, and the later ones.
  unfoldable pub judge :
      ℕ → Option String → ReviewResult → Verdict → (Option String → String → Reviewed) → Reviewed
  unfolding unresolved review_stalled after_fix
  judge round prev result approve next = (some result, reviewed ∷ [])
  judge round prev result escalate next = (some result, reviewed ∷ [])
  judge round prev result request_changes next =
      if is_known (signature_of result.findings) prev
      then (some (review_stalled result.findings), reviewed ∷ [])
      else if eqb round max_rounds
      then (some (unresolved result.findings), reviewed ∷ [])
      else after_fix result.findings (w.reverified round)
          (next (some (signature_of result.findings)) result.findings)

  -- The loop, with the rounds that are left; they start at the configured maximum.
  unfoldable pub rounds_from : (left round : ℕ) → Option String → String → Reviewed
  unfolding judge
  rounds_from zero round prev last = (some (unresolved last), [])
  rounds_from (suc left) round prev last =
      judge round prev (w.review round) (w.review round).verdict
        (λ prev1 last1. rounds_from left (suc round) prev1 last1)

  unfoldable pub review_step : Reviewed
  unfolding rounds_from
  review_step = rounds_from max_rounds 1 none ""
