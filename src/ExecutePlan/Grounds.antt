-- ===== src/ExecutePlan/Grounds.antt =====
-- src/executePlan.ts: what each outcome of the loop rests on.
use jme_loop_public.Prelude.{
  ℕ, zero, suc, ◌+◌, ◌<◌, ◌≤◌, String, ◌≡◌, refl, ◌∙◌, sym, ap, Bool, true, false, Option, none,
  some, List, [], ◌∷◌, eqb, Bool-cases, inl, inr, ◌&&◌, arith, leb, if◌then◌else◌,
}
use jme_loop_public.ExecutePlan.{
  Diagnosis, plan_unworkable, stalled, ExecuteOutcome, verified, exhausted, escalated, Limits,
  Workers, Effect, Retry, first_try, says_no, is_plan_unworkable, is_known, is_overturned,
  consulted, Turn, finish, retry, conclude, wants_consult, after_consult, diagnosed_turn,
  failed_turn, verified_turn, follow, attempts_from, execute_plan,
}

module _ (signature_of excerpt : String → String) (limits : Limits) (w : Workers) where
  abbrev passed_at : ℕ → Bool
  passed_at k = (w.verification k).passed

  -- The verifications at the attempts from `i` up to, without, `k` all failed.
  abbrev pub Failed : ℕ → ℕ → Type 0
  Failed i k = (j : ℕ) → i ≤ j → j < k → passed_at j ≡ false

  -- What an outcome rests on, when the attempts start at `i`.
  abbrev pub Grounds : ℕ → ExecuteOutcome → Type 0
  Grounds i verified =
      (k : ℕ) × (i ≤ k) × (k ≤ limits.max_iterations) × Failed i k × (passed_at k ≡ true)
  Grounds i (exhausted n out d) = (n ≡ limits.max_iterations) × Failed i (suc limits.max_iterations)
  Grounds i (escalated plan_unworkable n out d) =
      (i ≤ n)
      × (n < limits.max_iterations)
      × Failed i (suc n)
      × (out ≡ (w.verification n).output)
      × (w.local_diagnosis n ≡ some d)
      × (says_no d.plan_workable ≡ true)
  Grounds i (escalated stalled n out d) =
      (i ≤ n)
      × (n ≤ limits.max_iterations)
      × Failed i (suc n)
      × (out ≡ (w.verification n).output)
      × (w.local_diagnosis n ≡ some d)

  -- What a turn of the loop tells, at an attempt whose local diagnosis is `d`.
  abbrev Told : ℕ → String → Diagnosis → Turn → Type 0
  Told attempt out d (finish verified es) = ⊥
  Told attempt out d (finish (exhausted n o e) es) = ⊥
  Told attempt out d (finish (escalated plan_unworkable n o e) es) =
      (n ≡ attempt)
      × (eqb attempt limits.max_iterations ≡ false)
      × (o ≡ out)
      × (e ≡ d)
      × (says_no d.plan_workable ≡ true)
  Told attempt out d (finish (escalated stalled n o e) es) = (n ≡ attempt) × (o ≡ out) × (e ≡ d)
  Told attempt out d (retry s es) = Unit

  says_no_of :
      (d : Diagnosis) (c : Option Diagnosis)
      → is_plan_unworkable d c ≡ true
      → says_no d.plan_workable ≡ true
  unfolding is_plan_unworkable
  says_no_of d none h = h
  says_no_of d (some c) h = ground arith

  conclude-Told :
      (attempt : ℕ) (sig : String) (rep : Bool) (s : Retry) (d : Diagnosis) (c : Option Diagnosis)
      (es : List Effect)
      → Told attempt s.last_output d
          (conclude signature_of excerpt limits w attempt sig rep s d c es)
  unfolding conclude
  conclude-Told attempt sig rep s d c es = elim (Bool-cases (eqb attempt limits.max_iterations)) [
    | inl last ↦ rw last tt
    | inr early ↦ elim (Bool-cases (is_plan_unworkable d c)) [
      | inl bad ↦ rw (early, bad) (refl, early, refl, refl, says_no_of d c bad)
      | inr ok ↦ rw (early, ok) tt
    ]
  ]

  after_consult-Told :
      (attempt : ℕ) (sig : String) (rep : Bool) (s : Retry) (d : Diagnosis) (fires : Bool)
      → Told attempt s.last_output d
          (after_consult signature_of excerpt limits w attempt sig rep s d fires)
  unfolding after_consult
  after_consult-Told attempt sig rep s d true =
      conclude-Told attempt sig rep (record s { consults_used = s.consults_used + 1 }) d
        (w.consult_diagnosis attempt)
        (consulted attempt (w.consult_diagnosis attempt)
            (is_overturned d (w.consult_diagnosis attempt))
          ∷ [])
  after_consult-Told attempt sig rep s d false = conclude-Told attempt sig rep s d none []

  diagnosed_turn-Told :
      (attempt : ℕ) (sig : String) (rep : Bool) (s : Retry) (d : Diagnosis)
      → Told attempt s.last_output d
          (diagnosed_turn signature_of excerpt limits w attempt sig rep s d)
  unfolding diagnosed_turn
  diagnosed_turn-Told attempt sig rep s d =
      elim (Bool-cases (rep && is_known sig s.stalled_signature)) [
        | inl again ↦ rw again (refl, refl, refl)
        | inr first ↦ rw first (
            after_consult-Told attempt sig rep s d
              (wants_consult signature_of excerpt limits w attempt rep s d))
      ]

  -- What a turn tells of the verification and of the local diagnosis at its attempt.
  abbrev Shown : ℕ → Turn → Type 0
  Shown attempt (finish verified es) = passed_at attempt ≡ true
  Shown attempt (finish (exhausted n o e) es) = ⊥
  Shown attempt (finish (escalated plan_unworkable n o e) es) =
      (n ≡ attempt)
      × (eqb attempt limits.max_iterations ≡ false)
      × (o ≡ (w.verification attempt).output)
      × (w.local_diagnosis attempt ≡ some e)
      × (says_no e.plan_workable ≡ true)
      × (passed_at attempt ≡ false)
  Shown attempt (finish (escalated stalled n o e) es) =
      (n ≡ attempt)
      × (o ≡ (w.verification attempt).output)
      × (w.local_diagnosis attempt ≡ some e)
      × (passed_at attempt ≡ false)
  Shown attempt (retry s es) = passed_at attempt ≡ false

  Shown-Told :
      (attempt : ℕ) (out : String) (d : Diagnosis) (t : Turn)
      → passed_at attempt ≡ false
      → out ≡ (w.verification attempt).output
      → w.local_diagnosis attempt ≡ some d
      → Told attempt out d t
      → Shown attempt t
  Shown-Told attempt out d (finish verified es) f o l h = absurd h
  Shown-Told attempt out d (finish (exhausted n p e) es) f o l h = h
  Shown-Told attempt out d (finish (escalated plan_unworkable n p e) es) f o l (a, b, c, q, r) =
      (a, b, c ∙ o, l ∙ ap some (sym q), rw q r, f)
  Shown-Told attempt out d (finish (escalated stalled n p e) es) f o l (a, c, q) =
      (a, c ∙ o, l ∙ ap some (sym q), f)
  Shown-Told attempt out d (retry s es) f o l h = f

  failed_turn-Shown :
      (attempt : ℕ) (sig : String) (s : Retry) (d : Option Diagnosis)
      → passed_at attempt ≡ false
      → s.last_output ≡ (w.verification attempt).output
      → w.local_diagnosis attempt ≡ d
      → Shown attempt (failed_turn signature_of excerpt limits w attempt sig s d)
  unfolding failed_turn
  failed_turn-Shown attempt sig s none f o l = f
  failed_turn-Shown attempt sig s (some d) f o l = Shown-Told attempt s.last_output d _ f o l (
      diagnosed_turn-Told attempt sig (is_known sig s.prev_signature)
        (record s { last_diagnosis = some d }) d)

  Shown-if :
      (attempt : ℕ) (b : Bool) (t u : Turn)
      → Shown attempt t
      → Shown attempt u
      → Shown attempt (if b then t else u)
  Shown-if attempt true t u h k = h
  Shown-if attempt false t u h k = k

  verified_turn-Shown :
      (attempt : ℕ) (s : Retry)
      → Shown attempt
          (verified_turn signature_of excerpt limits w attempt s (w.verification attempt))
  unfolding verified_turn
  verified_turn-Shown attempt s = elim (Bool-cases (passed_at attempt)) [
    | inl ok ↦ rw ok ok
    | inr f ↦ rw f (
        Shown-if attempt limits.diagnostic_retry_enabled _ _
          (failed_turn-Shown attempt (signature_of (w.verification attempt).output)
            (record s {
              last_output = (w.verification attempt).output;
              last_prompt_output = excerpt (w.verification attempt).output;
            })
            (w.local_diagnosis attempt) f refl refl)
          f)
  ]

  Failed-down : (i k : ℕ) → passed_at i ≡ false → Failed (suc i) k → Failed i k
  Failed-down i k f h j le lt = elim (Bool-cases (leb j i)) [
    | inl small ↦ (let e : j ≡ i = ground arith in rw e f)
    | inr large ↦ h j (ground arith) lt
  ]

  Failed-empty : (i : ℕ) → Failed i i
  Failed-empty i j le lt = absurd (omega arith)

  Grounds-down :
      (i : ℕ) (o : ExecuteOutcome) → passed_at i ≡ false → Grounds (suc i) o → Grounds i o
  Grounds-down i verified f (k, a, b, c, d) = (k, omega arith, b, Failed-down i k f c, d)
  Grounds-down i (exhausted n out e) f (a, b) = (a, Failed-down i _ f b)
  Grounds-down i (escalated plan_unworkable n out e) f (a, b, c, d, g, h) =
      (omega arith, b, Failed-down i _ f c, d, g, h)
  Grounds-down i (escalated stalled n out e) f (a, b, c, d, g) =
      (omega arith, b, Failed-down i _ f c, d, g)

  Grounds-finish :
      (i : ℕ) (o : ExecuteOutcome) (es : List Effect)
      → i ≤ limits.max_iterations
      → Shown i (finish o es)
      → Grounds i o
  Grounds-finish i verified es le h = (i, omega arith, le, Failed-empty i, h)
  Grounds-finish i (exhausted n out e) es le h = absurd h
  Grounds-finish i (escalated plan_unworkable n out e) es le (a, b, c, d, g, h) = (
    omega arith,
    ground arith,
    rw a (Failed-down i (suc i) h (Failed-empty (suc i))),
    rw a c,
    rw a d,
    g,
  )
  Grounds-finish i (escalated stalled n out e) es le (a, c, d, h) = (
    omega arith,
    omega arith,
    rw a (Failed-down i (suc i) h (Failed-empty (suc i))),
    rw a c,
    rw a d,
  )

  follow-Grounds :
      (i : ℕ) (prompt : String) (t : Turn) (next : Retry → ExecuteOutcome × List Effect)
      → i ≤ limits.max_iterations
      → Shown i t
      → ((s : Retry) → Grounds (suc i) (next s).0)
      → Grounds i (follow signature_of excerpt limits w prompt t next).0
  unfolding follow
  follow-Grounds i prompt (finish o es) next le h k = Grounds-finish i o es le h
  follow-Grounds i prompt (retry s es) next le h k = Grounds-down i (next s).0 h (k s)

  attempts_from-Grounds :
      (id : String) (plan : Option String) (left i : ℕ) (s : Retry)
      → i + left ≡ suc limits.max_iterations
      → Grounds i (attempts_from signature_of excerpt limits w id plan left i s).0
  unfolding attempts_from
  attempts_from-Grounds id plan zero i s e = (refl, (λ j le lt. absurd (omega arith)))
  attempts_from-Grounds id plan (suc left) i s e =
      follow-Grounds i _ _ _ (omega arith) (verified_turn-Shown i s)
        (λ s1. attempts_from-Grounds id plan left (suc i) s1 (omega arith))

  -- A plan is verified only with a passing verification in hand, at an attempt within the limit,
  -- after failed ones; it is given up as exhausted only after every attempt failed, as unworkable
  -- only before the last attempt and on a local diagnosis that says so, and as stalled with the local
  -- diagnosis of that attempt; the last two with the output of the verification that failed there.
  pub execute_plan-Grounds :
      (id : String) (plan : Option String)
      → Grounds 1 (execute_plan signature_of excerpt limits w id plan).0
  unfolding execute_plan
  execute_plan-Grounds id plan =
      attempts_from-Grounds id plan limits.max_iterations 1 first_try (omega arith)
