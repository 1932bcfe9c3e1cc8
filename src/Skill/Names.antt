-- ===== src/Skill/Names.antt =====
-- src/skillRunner.ts, `attemptName`: attempts with different numbers have different names.
use jme_loop_public.Prelude.{
  ℕ, ◌+◌, ◌<◌, String, ◌≡◌, refl, ap, ◌∙◌, sym, false, true, Bool-cases, inl, inr, Option, some,
  or_else, List, [], ◌∷◌, ◌++◌, codes, codes-append, is_digit, all, ◌==◌, ◌⊕◌, eq_iff, arith,
  if◌then◌else◌,
}
use jme_loop_public.TicketIds.{digits_value, pad_three}
use jme_loop_public.TicketIds.Reading.{digits_value-IsDecimal, pad_three-IsDecimal}
use jme_loop_public.Skill.{safe_name, attempt_name}

-- The digits that a list starts with.
leading : List ℕ → List ℕ
leading [] = []
leading (c ∷ cs) = if is_digit c then c ∷ leading cs else []

leading-append : (ds rest : List ℕ) → all is_digit ds ≡ true → leading (ds ++ 46 ∷ rest) ≡ ds
unfolding leading is_digit
leading-append [] rest h = refl
leading-append (d ∷ ds) rest h = ground (arith, leading-append ds rest)

-- What follows a list of a known length.
after : List ℕ → List ℕ → List ℕ
after [] cs = cs
after (_ ∷ ps) [] = []
after (_ ∷ ps) (_ ∷ cs) = after ps cs

after-append : (ps cs : List ℕ) → after ps (ps ++ cs) ≡ cs
unfolding after
after-append [] cs = refl
after-append (p ∷ ps) cs = after-append ps cs

module _ (skill_name : String) where
  abbrev number_of : String → Option ℕ
  number_of name = digits_value (
      leading (
        after (codes "-attempt-")
          (after (codes (safe_name skill_name)) (after (codes "skill-") (codes name)))))

  number_of-attempt_name : (i : ℕ) → number_of (attempt_name skill_name i) ≡ some (i + 1)
  unfolding attempt_name after
  number_of-attempt_name i =
      let number = pad_three (i + 1) in
      let h = pad_three-IsDecimal (i + 1) in
      rw
        (
          codes-append "skill-" (safe_name skill_name ⊕ "-attempt-" ⊕ number ⊕ ".txt"),
          codes-append (safe_name skill_name) ("-attempt-" ⊕ number ⊕ ".txt"),
          codes-append "-attempt-" (number ⊕ ".txt"),
          codes-append number ".txt",
          after-append (codes (safe_name skill_name))
              (codes "-attempt-" ++ codes number ++ codes ".txt"),
          leading-append (codes number) (codes "txt") h.digits,
        )
        (digits_value-IsDecimal (i + 1) (codes number) h)

  -- Attempts with different numbers have different names.
  pub attempt_name_apart :
      (i k : ℕ) → i < k → (attempt_name skill_name k == attempt_name skill_name i) ≡ false
  attempt_name_apart i k h =
      elim (Bool-cases (attempt_name skill_name k == attempt_name skill_name i)) [
        | inr e ↦ e
        | inl e ↦
            let same = (eq_iff (attempt_name skill_name k) (attempt_name skill_name i)).0 e in
            let numbers : k + 1 ≡ i + 1 =
              ap (λ o. or_else o 0)
                (sym (number_of-attempt_name k) ∙ ap number_of same ∙ number_of-attempt_name i) in
            absurd (omega (arith, numbers, h))
      ]
