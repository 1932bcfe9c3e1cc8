-- ===== src/Ci/Polling.antt =====
-- src/ci.ts, `observeCi`: which poll decides, and when the checks count as green.
use jme_loop_public.Prelude.{
  ℕ, zero, suc, ◌+◌, ◌<◌, ◌≤◌, String, ◌≡◌, refl, ◌≢◌, ◌↔◌, ◌⊎◌, inl, inr, sym, ap, ◌∙◌, subst,
  Bool, true, false, Option, none, some, List, [], ◌∷◌, All, keep, is_empty, Option-cases,
  Bool-cases, arith, is_empty,
}
use mathlib.Core.Option.{some-injective}
use native.Mathlib.Decide.{ℕ_discrete}
use jme_loop_public.Json.{Json}
use jme_loop_public.MergeGate.{CiObservation, green}
use jme_loop_public.Ci.{
  CheckRun, Reading, passing, is_failed, is_pending, read_buckets, reading_of, parse_checks,
  read_output, conclusion, seen_pending, at_deadline, poll_from, max_polls, observe_ci,
}

module _ (timeout_sec : ℕ) (readings : ℕ → Reading) where
  -- Poll `k` is the first, from `i` on, that concludes, and it concludes `o`.
  pub record IsFirst (i k : ℕ) (o : CiObservation) : Type 0 where
    pub from : i ≤ k
    pub concluded : conclusion k (readings k) ≡ some o
    pub earlier : (j : ℕ) → i ≤ j → j < k → conclusion j (readings j) ≡ none

  poll_on :
      (left i : ℕ) (known : Option (List String))
      → conclusion i (readings i) ≡ none
      → poll_from timeout_sec readings (suc left) i known
        ≡ poll_from timeout_sec readings left (suc i) (seen_pending known (readings i))
  unfolding poll_from
  poll_on left i known e = rw (e, poll_from)

  poll_ends :
      (left i : ℕ) (known : Option (List String)) (o : CiObservation)
      → conclusion i (readings i) ≡ some o
      → poll_from timeout_sec readings (suc left) i known ≡ o
  unfolding poll_from
  poll_ends left i known o e = rw (e, poll_from)

  none_from :
      (i k : ℕ)
      → conclusion i (readings i) ≡ none
      → ((j : ℕ) → suc i ≤ j → j < k → conclusion j (readings j) ≡ none)
      → (j : ℕ) → i ≤ j
      → j < k
      → conclusion j (readings j) ≡ none
  none_from i k e later j h lt = elim (ℕ_discrete i j) [
    | yes q ↦ subst (λ n. conclusion n (readings n) ≡ none) q e
    | no q ↦ later j (omega arith) lt
  ]

  -- Either a poll is the first to conclude and decides, or none of the polls concludes and the
  -- deadline decides.
  poll_from_cases :
      (left i : ℕ) (known : Option (List String))
      → ((k : ℕ) × (k < i + left) × IsFirst i k (poll_from timeout_sec readings left i known))
        ⊎ (((j : ℕ) → i ≤ j → j < i + left → conclusion j (readings j) ≡ none)
            × ((last : Option (List String)) × (poll_from timeout_sec readings left i known
                  ≡ at_deadline timeout_sec last)))
  unfolding poll_from
  poll_from_cases zero i known = inr ((λ j h k. absurd (omega arith)), (known, refl))
  poll_from_cases (suc left) i known = elim (Option-cases (conclusion i (readings i))) [
    | inr (o, e) ↦ inl (
      i,
      omega arith,
      record {
        from = omega arith;
        concluded = e ∙ ap some (sym (poll_ends left i known o e));
        earlier = λ j h k. absurd (omega arith);
      },
    )
    | inl e ↦ elim (poll_from_cases left (suc i) (seen_pending known (readings i))) [
      | inl (k, lt, f) ↦ inl (
        k,
        omega arith,
        record {
          from = omega (arith, f.from);
          concluded = f.concluded ∙ ap some (sym (poll_on left i known e));
          earlier = none_from i k e f.earlier;
        },
      )
      | inr (quiet, (last, q)) ↦ inr (
        none_from i (i + suc left) e (λ j h k. quiet j h (omega arith)),
        (last, poll_on left i known e ∙ q),
      )
    ]
  ]

  first_wins :
      (left i k : ℕ) (known : Option (List String)) (o : CiObservation)
      → k < i + left
      → IsFirst i k o
      → poll_from timeout_sec readings left i known ≡ o
  first_wins zero i k known o lt f = absurd (omega (arith, f.from))
  first_wins (suc left) i k known o lt f = elim (ℕ_discrete i k) [
    | yes q ↦
        poll_ends left i known o
          (subst (λ n. conclusion n (readings n) ≡ some o) (sym q) f.concluded)
    | no q ↦
        poll_on left i known (f.earlier i (omega arith) (omega (arith, f.from)))
        ∙ first_wins left (suc i) k _ o (omega arith) (record {
          from = omega (arith, f.from);
          concluded = f.concluded;
          earlier = λ j h. f.earlier j (omega arith);
        })
  ]

at_deadline-not_green :
    (timeout_sec : ℕ) (known : Option (List String)) → (at_deadline timeout_sec known).state ≢ green
unfolding at_deadline
at_deadline-not_green timeout_sec none h = cc
at_deadline-not_green timeout_sec (some ps) h = cc

green_observation : CiObservation
green_observation = record { state = green; detail = none }

conclusion_green :
    (poll : ℕ) (r : Reading) {o : CiObservation}
    → conclusion poll r ≡ some o
    → o.state ≡ green
    → r ≡ passing
unfolding conclusion
conclusion_green poll r h g = ground arith

-- Some checks are reported, and every one of them is neither failed nor cancelled nor pending.
pub record AllPassed (checks : List CheckRun) : Type 0 where
  pub reported : checks ≢ []
  pub passed : All (λ c. (is_failed c ≡ false) × (is_pending c ≡ false)) checks

keep_nil_iff :
    (p : CheckRun → Bool) (cs : List CheckRun)
    → (is_empty (keep p cs) ≡ true) ↔ All (λ c. p c ≡ false) cs
keep_nil_iff p [] = ((λ h. tt), (λ h. refl))
keep_nil_iff p (c ∷ cs) =
    let (forth, back) = keep_nil_iff p cs in
    elim (Bool-cases (p c)) [
      | inl e ↦ rw e ((λ h. ground arith), (λ h. ground arith))
      | inr e ↦ rw e ((λ h. (refl, forth h)), (λ h. back h.1))
    ]

All-and :
    (p q : CheckRun → Bool) (cs : List CheckRun)
    → All (λ c. p c ≡ false) cs
    → All (λ c. q c ≡ false) cs
    → All (λ c. (p c ≡ false) × (q c ≡ false)) cs
All-and p q [] h k = tt
All-and p q (c ∷ cs) (a, h) (b, k) = ((a, b), All-and p q cs h k)

All-parts :
    (p q : CheckRun → Bool) (cs : List CheckRun)
    → All (λ c. (p c ≡ false) × (q c ≡ false)) cs
    → All (λ c. p c ≡ false) cs × All (λ c. q c ≡ false) cs
All-parts p q [] h = (tt, tt)
All-parts p q (c ∷ cs) ((a, b), h) = let (k, l) = All-parts p q cs h in ((a, k), (b, l))

read_buckets_passing :
    (cs : List CheckRun)
    → (read_buckets cs ≡ passing)
      ↔ ((is_empty (keep is_failed cs) ≡ true) × (is_empty (keep is_pending cs) ≡ true))
unfolding read_buckets
read_buckets_passing cs = ((λ h. (ground arith, ground arith)), (λ (a, b). ground arith))

reading_of_passing :
    (no_checks : Bool) (o : Option (List CheckRun))
    → (reading_of no_checks o ≡ passing) ↔ ((cs : List CheckRun) × (o ≡ some cs) × AllPassed cs)
unfolding reading_of
reading_of_passing no_checks none = ((λ h. cc), (λ (cs, e, a). cc))
reading_of_passing no_checks (some []) =
    ((λ h. cc), (λ (cs, e, a). absurd (a.reported (sym (some-injective _ _ e)))))
reading_of_passing no_checks (some (c ∷ cs)) = (
  λ h.
      let (failed, pending) = (read_buckets_passing (c ∷ cs)).0 h in
      (
        c ∷ cs,
        refl,
        record {
          reported = λ e. cc;
          passed =
              All-and is_failed is_pending (c ∷ cs) ((keep_nil_iff is_failed (c ∷ cs)).0 failed)
                ((keep_nil_iff is_pending (c ∷ cs)).0 pending);
        },
      ),
  λ (cs', e, a).
      let (f, p) = All-parts is_failed is_pending (c ∷ cs) (
        subst (All (λ x. (is_failed x ≡ false) × (is_pending x ≡ false)))
          (sym (some-injective _ _ e)) a.passed) in
      (read_buckets_passing (c ∷ cs)).1
        ((keep_nil_iff is_failed (c ∷ cs)).1 f, (keep_nil_iff is_pending (c ∷ cs)).1 p),
)

module _ (parse_json : String → Option Json) (outputs : ℕ → String) (timeout_sec interval : ℕ) where
  reading : ℕ → Reading
  reading n = read_output parse_json (outputs n)

  -- Poll `k` shows checks that all passed, and no poll before it concluded anything.
  pub record PassedAt (k : ℕ) (checks : List CheckRun) : Type 0 where
    pub in_time : k < max_polls timeout_sec interval
    pub shown : parse_checks parse_json (outputs k) ≡ some checks
    pub all_passed : AllPassed checks
    pub earlier : (j : ℕ) → j < k → conclusion j (read_output parse_json (outputs j)) ≡ none

  -- The observation is green exactly if, before the deadline, some poll shows a list of checks that
  -- is not empty and in which none failed, was cancelled or is pending, and no poll before it
  -- concluded anything.
  pub observe_ci_green_iff :
      ((observe_ci parse_json outputs timeout_sec interval).state ≡ green)
      ↔ ((k : ℕ) × (checks : List CheckRun) × PassedAt k checks)
  unfolding observe_ci reading read_output
  observe_ci_green_iff = (
    λ g. elim (poll_from_cases timeout_sec reading (max_polls timeout_sec interval) 0 none) [
      | inr (_, (last, q)) ↦
          absurd (at_deadline-not_green timeout_sec last (ap (λ o. o.state) (sym q) ∙ g))
      | inl (k, lt, f) ↦
          let (checks, shown, passed) =
            (reading_of_passing _ _).0 (conclusion_green k (reading k) f.concluded g) in
          (
            k,
            checks,
            record {
              in_time = omega arith;
              shown = shown;
              all_passed = passed;
              earlier = λ j h. f.earlier j (omega arith) h;
            },
          )
    ],
    λ (k, checks, p).
        let r : reading k ≡ passing = (reading_of_passing _ _).1 (checks, p.shown, p.all_passed) in
        ap (λ o. o.state)
          (first_wins timeout_sec reading (max_polls timeout_sec interval) 0 k none
            green_observation (omega (arith, p.in_time))
            (record {
              from = omega arith;
              concluded = ap (conclusion k) r ∙ (unfold conclusion green_observation in refl);
              earlier = λ j _ h. p.earlier j h;
            }))
        ∙ (unfold green_observation in refl),
  )
