-- ===== src/ReviewStep/Rounds.antt =====
-- src/reviewStep.ts: what the step's verdict rests on, and what it spends.
use jme_loop_public.Prelude.{
  ℕ, zero, suc, ◌+◌, ◌<◌, ◌≤◌, String, ◌≡◌, refl, sym, subst, max, Bool, true, false, Option, none,
  some, List, [], ◌∷◌, length, keep, leb, eqb, Bool-cases, inl, inr, if◌then◌else◌, arith,
}
use jme_loop_public.MergeGate.{Verdict, approve, request_changes, escalate, ReviewResult}
use jme_loop_public.ExecutePlan.{is_known}
use jme_loop_public.ReviewStep.{
  Reviewers, ReviewEffect, reviewed, refixed, Reviewed, unresolved, review_stalled, after_fix,
  judge, rounds_from, review_step,
}

abbrev is_review : ReviewEffect → Bool
is_review reviewed = true
is_review _ = false

abbrev is_fix : ReviewEffect → Bool
is_fix (refixed _) = true
is_fix _ = false

abbrev pub reviews : List ReviewEffect → ℕ
reviews es = length (keep is_review es)

abbrev pub fixes : List ReviewEffect → ℕ
fixes es = length (keep is_fix es)

module _ (signature_of : String → String) (max_rounds : ℕ) (w : Reviewers) where
  -- The rounds from `i` up to, without, `k` each asked for changes and ended with a passing build.
  abbrev pub Fixed : ℕ → ℕ → Type 0
  Fixed i k =
      (j : ℕ) → i ≤ j → j < k → ((w.review j).verdict ≡ request_changes) × (w.reverified j ≡ true)

  abbrev FoundedVerdict : ℕ → ReviewResult → Verdict → Type 0
  FoundedVerdict i r approve = (k : ℕ) × (i ≤ k) × (k ≤ max_rounds) × (w.review k ≡ r) × Fixed i k
  FoundedVerdict i r escalate = Unit
  FoundedVerdict i r request_changes = ⊥

  -- What the step's result rests on, when the rounds start at `i`.
  abbrev pub Founded : ℕ → Option ReviewResult → Type 0
  Founded i none =
      (k : ℕ) × (i ≤ k)
      × (k < max_rounds)
      × Fixed i k
      × ((w.review k).verdict ≡ request_changes)
      × (w.reverified k ≡ false)
  Founded i (some r) = FoundedVerdict i r r.verdict

  Fixed-down :
      (i k : ℕ)
      → (w.review i).verdict ≡ request_changes
      → w.reverified i ≡ true
      → Fixed (suc i) k
      → Fixed i k
  Fixed-down i k v b h j le lt = elim (Bool-cases (leb j i)) [
    | inl small ↦ (let e : j ≡ i = ground arith in rw e (v, b))
    | inr large ↦ h j (ground arith) lt
  ]

  Fixed-empty : (i : ℕ) → Fixed i i
  Fixed-empty i j le lt = absurd (omega arith)

  FoundedVerdict-down :
      (i : ℕ) (r : ReviewResult) (v : Verdict)
      → (w.review i).verdict ≡ request_changes
      → w.reverified i ≡ true
      → FoundedVerdict (suc i) r v
      → FoundedVerdict i r v
  FoundedVerdict-down i r approve c b (k, le, m, e, f) =
      (k, omega arith, m, e, Fixed-down i k c b f)
  FoundedVerdict-down i r escalate c b h = tt
  FoundedVerdict-down i r request_changes c b h = h

  Founded-down :
      (i : ℕ) (o : Option ReviewResult)
      → (w.review i).verdict ≡ request_changes
      → w.reverified i ≡ true
      → Founded (suc i) o
      → Founded i o
  Founded-down i none c b (k, le, m, f, v, x) = (k, omega arith, m, Fixed-down i k c b f, v, x)
  Founded-down i (some r) c b h = FoundedVerdict-down i r r.verdict c b h

  after_fix-Founded :
      (i : ℕ) (findings : String) (b : Bool) (rest : Reviewed)
      → i < max_rounds
      → w.reverified i ≡ b
      → (w.review i).verdict ≡ request_changes
      → Founded (suc i) rest.0
      → Founded i (after_fix signature_of max_rounds w findings b rest).0
  unfolding after_fix
  after_fix-Founded i findings true (o, es) lt e c h = Founded-down i o c e h
  after_fix-Founded i findings false rest lt e c h = (i, omega arith, lt, Fixed-empty i, c, e)

  Founded-if :
      (i : ℕ) (b : Bool) (x y : Reviewed)
      → Founded i x.0
      → (b ≡ false → Founded i y.0)
      → Founded i (if b then x else y).0
  Founded-if i true x y h k = h
  Founded-if i false x y h k = k refl

  judge-Founded :
      (i : ℕ) (prev : Option String) (v : Verdict) (next : Option String → String → Reviewed)
      → i ≤ max_rounds
      → (w.review i).verdict ≡ v
      → ((p : Option String) (l : String) → Founded (suc i) (next p l).0)
      → Founded i (judge signature_of max_rounds w i prev (w.review i) v next).0
  unfolding judge unresolved review_stalled
  judge-Founded i prev approve next le e h =
      subst (λ v. FoundedVerdict i (w.review i) v) (sym e) (i, omega arith, le, refl, Fixed-empty i)
  judge-Founded i prev escalate next le e h =
      subst (λ v. FoundedVerdict i (w.review i) v) (sym e) tt
  judge-Founded i prev request_changes next le e h =
      Founded-if i (is_known (signature_of (w.review i).findings) prev) _ _ tt (λ fresh.
        Founded-if i (eqb i max_rounds) _ _ tt (λ early.
          after_fix-Founded i (w.review i).findings (w.reverified i) _ (ground arith) refl e
            (h (some (signature_of (w.review i).findings)) (w.review i).findings)))

  rounds_from-Founded :
      (left i : ℕ) (prev : Option String) (last : String)
      → i + left ≡ suc max_rounds
      → Founded i (rounds_from signature_of max_rounds w left i prev last).0
  unfolding rounds_from unresolved
  rounds_from-Founded zero i prev last e = tt
  rounds_from-Founded (suc left) i prev last e =
      judge-Founded i prev (w.review i).verdict _ (omega arith) refl
        (λ p l. rounds_from-Founded left (suc i) p l (omega arith))

  -- The review step approves only what the reviewer approved in some round within the limit, where
  -- every earlier round asked for changes and was followed by a passing verification; it gives no
  -- verdict only if the verification after a fix failed; it never passes a request for changes on.
  pub review_step-Founded : Founded 1 (review_step signature_of max_rounds w).0
  unfolding review_step
  review_step-Founded = rounds_from-Founded max_rounds 1 none "" (omega arith)

  -- Reviews and fixes of the rounds from here on, when `left` of them are left.
  abbrev Used : ℕ → List ReviewEffect → Type 0
  Used left es = (reviews es ≤ left) × (fixes es ≤ reviews es) × (fixes es < max 1 left)

  after_fix-Used :
      (left : ℕ) (findings : String) (b : Bool) (rest : Reviewed)
      → 0 < left
      → Used left rest.1
      → Used (suc left) (after_fix signature_of max_rounds w findings b rest).1
  unfolding after_fix
  after_fix-Used left findings true (o, es) lt (a, b, c) = (omega arith, omega arith, omega arith)
  after_fix-Used left findings false rest lt h = (omega arith, omega arith, omega arith)

  Used-if :
      (left : ℕ) (b : Bool) (x y : Reviewed)
      → Used left x.1
      → (b ≡ false → Used left y.1)
      → Used left (if b then x else y).1
  Used-if left true x y h k = h
  Used-if left false x y h k = k refl

  Used-one : (left : ℕ) → Used (suc left) (reviewed ∷ [])
  Used-one left = (omega arith, omega arith, omega arith)

  judge-Used :
      (left i : ℕ) (prev : Option String) (r : ReviewResult) (v : Verdict)
      (next : Option String → String → Reviewed)
      → i + suc left ≡ suc max_rounds
      → ((p : Option String) (l : String) → Used left (next p l).1)
      → Used (suc left) (judge signature_of max_rounds w i prev r v next).1
  unfolding judge
  judge-Used left i prev r approve next e h = Used-one left
  judge-Used left i prev r escalate next e h = Used-one left
  judge-Used left i prev r request_changes next e h =
      Used-if (suc left) (is_known (signature_of r.findings) prev) _ _ (Used-one left) (λ fresh.
        Used-if (suc left) (eqb i max_rounds) _ _ (Used-one left) (λ early.
          after_fix-Used left r.findings (w.reverified i) _ (ground arith)
            (h (some (signature_of r.findings)) r.findings)))

  rounds_from-Used :
      (left i : ℕ) (prev : Option String) (last : String)
      → i + left ≡ suc max_rounds
      → Used left (rounds_from signature_of max_rounds w left i prev last).1
  unfolding rounds_from
  rounds_from-Used zero i prev last e = (omega arith, omega arith, omega arith)
  rounds_from-Used (suc left) i prev last e =
      judge-Used left i prev (w.review i) (w.review i).verdict _ e
        (λ p l. rounds_from-Used left (suc i) p l (omega arith))

  -- Where the limit on the rounds is positive, the reviewer is asked at most as often as it says,
  -- and there are at most as many fixes as reviews, and fewer than the limit.
  pub review_step_spends :
      0 < max_rounds
      → let run = review_step signature_of max_rounds w in
        (reviews run.1 ≤ max_rounds) × (fixes run.1 ≤ reviews run.1) × (fixes run.1 < max_rounds)
  unfolding review_step
  review_step_spends positive =
      let (a, b, c) = rounds_from-Used max_rounds 1 none "" (omega arith) in (a, b, omega arith)
