-- ===== src/MergeGate/Decisions.antt =====
-- src/mergeGate.ts: what a low risk and an automatic merge say of the change.
use jme_loop_public.Prelude.{
  ℕ, ◌≤◌, String, ◌≡◌, refl, ◌↔◌, Bool, false, Option, none, some, List, [], ◌∷◌, ◌++◌, map, keep,
  any, All, Bool-cases, inl, inr, arith,
}
use jme_loop_public.MergeGate.{
  ContentRiskFinding, DiffSummary, GateConfig, low, CiObservation, green, ReviewResult, approve,
  auto_merge, includes_text, hit_protected, protected_reasons, api_reasons, coverage_reasons,
  size_reasons, content_reason, level_of, classify_risk, decide_merge, thin_coverage_threshold,
}

-- A coverage that does not escalate: unmeasured, or at the threshold or above.
abbrev pub IsEnough : Option ℕ → Type 0
IsEnough none = Unit
IsEnough (some c) = thin_coverage_threshold ≤ c

-- What the gate takes for a low risk.
pub record IsLowRisk (diff : DiffSummary) (config : GateConfig) : Type 0 where
  pub unprotected :
      All (λ f. any (λ p. includes_text f p) config.protected_paths ≡ false) diff.changed_files
  pub private_api : diff.touches_public_api ≡ false
  pub covered : IsEnough diff.affected_coverage
  pub small : diff.changed_lines ≤ config.max_auto_merge_diff_lines
  pub clean : diff.content_risks ≡ []

level_of-append :
    (xs ys : List String)
    → (level_of (xs ++ ys) ≡ low) ↔ ((level_of xs ≡ low) × (level_of ys ≡ low))
unfolding level_of
level_of-append [] ys = ((λ h. (refl, h)), (λ h. h.1))
level_of-append (x ∷ xs) ys = ((λ h. ground arith), (λ h. h.0))

keep_empty_iff :
    (p : String → Bool) (xs : List String)
    → (level_of (protected_reasons (keep p xs)) ≡ low) ↔ All (λ x. p x ≡ false) xs
unfolding level_of protected_reasons
keep_empty_iff p [] = ((λ h. tt), (λ h. refl))
keep_empty_iff p (x ∷ xs) =
    let (forth, back) = keep_empty_iff p xs in
    elim (Bool-cases (p x)) [
      | inl e ↦ rw e ((λ h. ground arith), (λ h. ground arith))
      | inr e ↦ rw e ((λ h. (refl, forth h)), (λ h. back h.1))
    ]

api_low_iff : (b : Bool) → (level_of (api_reasons b) ≡ low) ↔ (b ≡ false)
unfolding level_of api_reasons
api_low_iff b = ((λ h. ground arith), (λ h. ground arith))

coverage_low_iff : (c : Option ℕ) → (level_of (coverage_reasons c) ≡ low) ↔ IsEnough c
unfolding level_of coverage_reasons
coverage_low_iff none = ((λ h. tt), (λ h. refl))
coverage_low_iff (some c) = ((λ h. ground arith), (λ h. ground arith))

size_low_iff : (n most : ℕ) → (level_of (size_reasons n most) ≡ low) ↔ (n ≤ most)
unfolding level_of size_reasons
size_low_iff n most = ((λ h. ground arith), (λ h. ground arith))

content_low_iff :
    (fs : List ContentRiskFinding) → (level_of (map content_reason fs) ≡ low) ↔ (fs ≡ [])
unfolding level_of
content_low_iff [] = ((λ h. refl), (λ h. refl))
content_low_iff (f ∷ fs) = ((λ h. cc), (λ h. cc))

-- The risk of a change is low exactly if no changed file's path holds a protected path, no public
-- interface is touched, the coverage is unmeasured or not below the limit for thin coverage, the
-- number of changed lines is within the limit, and no content risk was found. A coverage of just the
-- limit does not escalate, although the comment on the limit in the source says that it does.
pub classify_risk_low_iff :
    (diff : DiffSummary) (config : GateConfig)
    → ((classify_risk diff config).level ≡ low) ↔ IsLowRisk diff config
unfolding classify_risk hit_protected
classify_risk_low_iff diff config = (
  λ h.
      let (protected, h₁) =
        (level_of-append (protected_reasons (hit_protected diff config)) _).0 h in
      let (api, h₂) = (level_of-append (api_reasons diff.touches_public_api) _).0 h₁ in
      let (coverage, h₃) = (level_of-append (coverage_reasons diff.affected_coverage) _).0 h₂ in
      let (size, content) = (level_of-append (size_reasons diff.changed_lines _) _).0 h₃ in
      record {
        unprotected = (keep_empty_iff _ diff.changed_files).0 protected;
        private_api = (api_low_iff _).0 api;
        covered = (coverage_low_iff _).0 coverage;
        small = (size_low_iff _ _).0 size;
        clean = (content_low_iff _).0 content;
      },
  λ r. (level_of-append _ _).1 (
    (keep_empty_iff _ diff.changed_files).1 r.unprotected,
    (level_of-append _ _).1 (
      (api_low_iff _).1 r.private_api,
      (level_of-append _ _).1 (
        (coverage_low_iff _).1 r.covered,
        (level_of-append _ _).1 ((size_low_iff _ _).1 r.small, (content_low_iff _).1 r.clean),
      ),
    ),
  ),
)

-- The gate decides to merge exactly if the checks were observed green, the reviewer approved, and
-- the risk of the change is low; a coverage of just the limit for thin coverage counts as low.
pub decide_merge_iff :
    (ci : CiObservation) (review : ReviewResult) (diff : DiffSummary) (config : GateConfig)
    → ((decide_merge ci review (classify_risk diff config)).action ≡ auto_merge)
      ↔ ((ci.state ≡ green) × (review.verdict ≡ approve) × IsLowRisk diff config)
unfolding decide_merge
decide_merge_iff ci review diff config =
    let (forth, back) = classify_risk_low_iff diff config in
    (
      (λ h. (ground arith, ground arith, forth (ground arith))),
      (λ (g, a, r). ground (arith, back r)),
    )
