-- ===== src/Skill/Judging.antt =====
-- src/skill.ts, the handler of `extractStructured`: which answers are asked again, and what ends it.
use jme_loop_public.Prelude.{
  String, or_else, Option, some, none, Option-cases, ◌≡◌, ◌≢◌, refl, ◌∙◌, ap, sym, inl, inr, List,
  [], ◌∷◌, ◌++◌,
}
use jme_loop_public.Skill.{
  SkillAttempt, output_error, provider_error, other_error, Answer, answered, thrown, last, Turn,
  finished, retry, judge,
}

-- An answer that ends the asking, and what comes out of it: a value or another error as it is, and
-- for an invalid output without attempts the TypeError of reading its last one.
abbrev pub Ends : Answer → Answer → Type 0
Ends result (thrown (output_error message [])) =
    result ≡ thrown (other_error "Cannot read properties of undefined (reading 'validationError')")
Ends result (thrown (output_error message (a ∷ found))) = ⊥
Ends result (thrown (provider_error message)) = result ≡ thrown (provider_error message)
Ends result (thrown (other_error message)) = result ≡ thrown (other_error message)
Ends result (answered value) = result ≡ answered value

-- An invalid output, whose last attempt is the given one.
abbrev pub IsInvalid : SkillAttempt → Answer → Type 0
IsInvalid a answer =
    (message : String) × (before : List SkillAttempt) × (answer
      ≡ thrown (output_error message (before ++ a ∷ [])))

abbrev turn_attempt : Turn → SkillAttempt → SkillAttempt
turn_attempt (retry a) d = a
turn_attempt (finished _) d = d

abbrev turn_answer : Turn → Answer → Answer
turn_answer (retry a) d = d
turn_answer (finished x) d = x

last-ends :
    (found : List SkillAttempt) (a : SkillAttempt)
    → last found ≡ some a
    → (before : List SkillAttempt) × (found ≡ before ++ a ∷ [])
unfolding last
last-ends [] a h = cc
last-ends (b ∷ []) a h = ([], ap (λ o. or_else o b ∷ []) h)
last-ends (b ∷ c ∷ cs) a h =
    let (before, e) = last-ends (c ∷ cs) a h in (b ∷ before, ap (λ l. b ∷ l) e)

last_of_cons : (b : SkillAttempt) (cs : List SkillAttempt) → last (b ∷ cs) ≢ none
unfolding last
last_of_cons b [] h = cc
last_of_cons b (c ∷ cs) h = last_of_cons c cs h

pub judge-IsInvalid : (x : Answer) (a : SkillAttempt) → judge x ≡ retry a → IsInvalid a x
unfolding judge
judge-IsInvalid (answered value) a h = cc
judge-IsInvalid (thrown (provider_error m)) a h = cc
judge-IsInvalid (thrown (other_error m)) a h = cc
judge-IsInvalid (thrown (output_error m found)) a h = from_last (last found) refl h
  where
    from_last :
        (o : Option SkillAttempt)
        → last found ≡ o
        → elim o [
          | none ↦ finished (
              thrown
                (other_error "Cannot read properties of undefined (reading 'validationError')"))
          | some attempt ↦ retry attempt
        ]
          ≡ retry a
        → IsInvalid a (thrown (output_error m found))
    from_last none e q = cc
    from_last (some b) e q =
        let (before, same) = last-ends found a (e ∙ ap (λ t. some (turn_attempt t b)) q) in
        (m, before, ap (λ l. thrown (output_error m l)) same)

judge-retry :
    (m : String) (found : List SkillAttempt) (a : SkillAttempt)
    → last found ≡ some a
    → judge (thrown (output_error m found)) ≡ retry a
unfolding judge
judge-retry m found a e = rw (judge, e) refl

pub judge-Ends : (x result : Answer) → judge x ≡ finished result → Ends result x
unfolding judge last
judge-Ends (answered value) result h = sym (ap (λ t. turn_answer t result) h)
judge-Ends (thrown (provider_error m)) result h = sym (ap (λ t. turn_answer t result) h)
judge-Ends (thrown (other_error m)) result h = sym (ap (λ t. turn_answer t result) h)
judge-Ends (thrown (output_error m [])) result h = sym (ap (λ t. turn_answer t result) h)
judge-Ends (thrown (output_error m (b ∷ bs))) result h = elim (Option-cases (last (b ∷ bs))) [
  | inl gone ↦ absurd (last_of_cons b bs gone)
  | inr (a, e) ↦ cc (judge-retry m (b ∷ bs) a e, h)
]
