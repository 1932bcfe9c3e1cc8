-- ===== src/Skill/Asking.antt =====
-- src/skill.ts, `extractStructured`: how often the provider is called, with what, and what comes out.
use jme_loop_public.Prelude.{
  ℕ, zero, suc, ◌+◌, ◌≤◌, String, or_else, Option, ◌≡◌, refl, ◌⊎◌, inl, inr, List, [], ◌∷◌, ◌++◌,
  length, length-append, arith,
}
use jme_loop_public.Skill.Judging.{Ends, IsInvalid, judge-IsInvalid, judge-Ends}
use jme_loop_public.Skill.{
  SkillAttempt, output_error, Answer, thrown, Validator, SkillProvider, Call, Turn, finished, retry,
  judge, re_ask, exhausted, call_at, ask, default_max_re_asks, extract_structured,
}

-- What came out is that of the last of some calls.
abbrev pub EndsWith : Answer → List Call → Type 0
EndsWith result [] = ⊥
EndsWith result (c ∷ []) = Ends result c.answer
EndsWith result (_ ∷ c ∷ cs) = EndsWith result (c ∷ cs)

-- The last of some calls gave an invalid output with the attempt.
abbrev pub EndsInvalid : SkillAttempt → List Call → Type 0
EndsInvalid a [] = ⊥
EndsInvalid a (c ∷ []) = IsInvalid a c.answer
EndsInvalid a (_ ∷ c ∷ cs) = EndsInvalid a (c ∷ cs)

module _ (provider : SkillProvider) (schema : Validator) (base_prompt model : String) where
  -- Calls of the provider from the one with a number on, whose first has the prompt, and each of
  -- whose others has the base prompt with the error of the attempt before it.
  abbrev pub IsChain : ℕ → String → List Call → Type 0
  IsChain i prompt [] = ⊥
  IsChain i prompt (c ∷ []) = c ≡ call_at provider schema base_prompt model i prompt
  IsChain i prompt (c ∷ d ∷ cs) =
      (c ≡ call_at provider schema base_prompt model i prompt)
      × (a : SkillAttempt) × IsInvalid a c.answer
      × IsChain (suc i) (re_ask provider schema base_prompt model a.validation_error) (d ∷ cs)

  pub record IsAsked (left i used : ℕ) (prompt : String) (r : Answer × List Call) : Type 0 where
    pub chain : IsChain i prompt r.1
    pub bounded : length r.1 ≤ suc left
    pub outcome :
        EndsWith r.0 r.1
        ⊎ ((length r.1 ≡ suc left)
            × (message : String) × (earlier : List SkillAttempt) × (a : SkillAttempt) × (r.0
                ≡ thrown (output_error message (earlier ++ a ∷ [])))
            × (length earlier ≡ used + left)
            × EndsInvalid a r.1)

  abbrev at : ℕ → String → Call
  at i prompt = call_at provider schema base_prompt model i prompt

  abbrev again : SkillAttempt → String
  again a = re_ask provider schema base_prompt model a.validation_error

  IsChain-cons :
      (i : ℕ) (prompt : String) (a : SkillAttempt) (cs : List Call)
      → judge (at i prompt).answer ≡ retry a
      → IsChain (suc i) (again a) cs
      → IsChain i prompt (at i prompt ∷ cs)
  IsChain-cons i prompt a [] h k = absurd k
  IsChain-cons i prompt a (c ∷ cs) h k = (refl, a, judge-IsInvalid (at i prompt).answer a h, k)

  EndsWith-cons :
      (result : Answer) (c : Call) (cs : List Call) → EndsWith result cs → EndsWith result (c ∷ cs)
  EndsWith-cons result c [] h = absurd h
  EndsWith-cons result c (d ∷ cs) h = h

  EndsInvalid-cons :
      (a : SkillAttempt) (c : Call) (cs : List Call) → EndsInvalid a cs → EndsInvalid a (c ∷ cs)
  EndsInvalid-cons a c [] h = absurd h
  EndsInvalid-cons a c (d ∷ cs) h = h

  module _ (i : ℕ) (prompt : String) (attempts : List SkillAttempt) where
    once :
        (left : ℕ) (result : Answer)
        → judge (at i prompt).answer ≡ finished result
        → IsAsked left i (length attempts) prompt (result, at i prompt ∷ [])
    once left result h = record {
      chain = refl;
      bounded = omega arith;
      outcome = inl (judge-Ends (at i prompt).answer result h);
    }

    given_up :
        (a : SkillAttempt)
        → judge (at i prompt).answer ≡ retry a
        → IsAsked zero i (length attempts) prompt (
          exhausted provider schema base_prompt model (attempts ++ a ∷ []) a.validation_error,
          at i prompt ∷ [],
        )
    given_up a h = record {
      chain = refl;
      bounded = omega arith;
      outcome =
          inr (refl, _, attempts, a, refl, omega arith, judge-IsInvalid (at i prompt).answer a h);
    }

    one_more :
        (left : ℕ) (a : SkillAttempt) (r : Answer × List Call)
        → judge (at i prompt).answer ≡ retry a
        → IsAsked left (suc i) (length (attempts ++ a ∷ [])) (again a) r
        → IsAsked (suc left) i (length attempts) prompt (r.0, at i prompt ∷ r.1)
    one_more left a r h k = record {
      chain = IsChain-cons i prompt a r.1 h k.chain;
      bounded = omega (arith, k.bounded);
      outcome = elim k.outcome [
        | inl e ↦ inl (EndsWith-cons r.0 (at i prompt) r.1 e)
        | inr (n, message, earlier, b, e, m, t) ↦ inr (
          omega (arith, n),
          message,
          earlier,
          b,
          e,
          omega (arith, m, length-append attempts (a ∷ [])),
          EndsInvalid-cons b (at i prompt) r.1 t,
        )
      ];
    }

  module _ (i : ℕ) (prompt : String) (attempts : List SkillAttempt) where
    last_turn :
        (t : Turn)
        → judge (at i prompt).answer ≡ t
        → IsAsked zero i (length attempts) prompt (elim t [
          | finished result ↦ (result, at i prompt ∷ [])
          | retry a ↦ (
            exhausted provider schema base_prompt model (attempts ++ a ∷ []) a.validation_error,
            at i prompt ∷ [],
          )
        ])
    last_turn (finished result) h = once i prompt attempts zero result h
    last_turn (retry a) h = given_up i prompt attempts a h

    a_turn :
        (left : ℕ) (next : SkillAttempt → Answer × List Call)
        → ((a : SkillAttempt)
            → IsAsked left (suc i) (length (attempts ++ a ∷ [])) (again a) (next a))
        → (t : Turn) → judge (at i prompt).answer ≡ t
        → IsAsked (suc left) i (length attempts) prompt (elim t [
          | finished result ↦ (result, at i prompt ∷ [])
          | retry a ↦ ((next a).0, at i prompt ∷ (next a).1)
        ])
    a_turn left next k (finished result) h = once i prompt attempts (suc left) result h
    a_turn left next k (retry a) h = one_more i prompt attempts left a (next a) h (k a)

  ask-IsAsked :
      (left i : ℕ) (prompt : String) (attempts : List SkillAttempt)
      → IsAsked left i
          (length attempts)
          prompt
          (ask provider schema base_prompt model left i prompt attempts)
  unfolding ask
  ask-IsAsked zero i prompt attempts = last_turn i prompt attempts (judge (at i prompt).answer) refl
  ask-IsAsked (suc left) i prompt attempts =
      a_turn i prompt attempts left
        (λ a. ask provider schema base_prompt model left (suc i) (again a) (attempts ++ a ∷ []))
        (λ a. ask-IsAsked left (suc i) (again a) (attempts ++ a ∷ [])) (judge (at i prompt).answer)
        refl

  -- The provider is called at least once and at most once more than the re-asks allowed (two by
  -- default); the first call has the base prompt, each other one the base prompt with the error of
  -- the attempt before it, and only an invalid output is asked again. What comes out is the value
  -- or the other error of the last call (a TypeError for an invalid output without attempts), or,
  -- when all the calls gave an invalid output, an error with an attempt for each of them, whose
  -- last is that of the last call.
  pub extract_structured-IsAsked :
      (max_re_asks : Option ℕ)
      → IsAsked
          (or_else max_re_asks default_max_re_asks)
          0
          0
          base_prompt
          (extract_structured provider schema base_prompt model max_re_asks)
  unfolding extract_structured
  extract_structured-IsAsked max_re_asks =
      ask-IsAsked (or_else max_re_asks default_max_re_asks) 0 base_prompt []
