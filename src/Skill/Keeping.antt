-- ===== src/Skill/Keeping.antt =====
-- src/skillRunner.ts, `invokeSkill`: the attempts that are kept.
use jme_loop_public.Prelude.{
  ℕ, suc, String, ◌≡◌, refl, ap, Option, none, some, List, [], ◌∷◌, map, All, ◌⊕◌, ◌<◌, ◌∙◌, ◌⊎◌,
  inl, inr, get, set, get-set, get-set_self, arith,
}
use jme_loop_public.Json.{Json}
use jme_loop_public.Skill.Names.{attempt_name_apart}
use jme_loop_public.Skill.{
  SkillAttempt, output_error, provider_error, other_error, Answer, answered, thrown, SkillProvider,
  Skill, Validated, valid, invalid, Artifact, attempt_name, written, keep_attempts, after_run,
  invoke_skill,
}

-- The raw outputs of the attempts that an answer carries.
abbrev pub raw_outputs : Answer → List String
raw_outputs (thrown (output_error message attempts)) =
    map (λ (a : SkillAttempt). a.raw_output) attempts
raw_outputs _ = []

abbrev pub contents : List Artifact → List String
contents files = map (λ (f : Artifact). f.content) files

abbrev pub not_registered : String → Answer
not_registered skill_name = thrown (other_error ("no skill registered under '" ⊕ skill_name ⊕ "'"))

module _ (skill_name : String) where
  -- Files hold some texts under the names of the attempts from a number on.
  abbrev pub Hold : List (String × String) → ℕ → List String → Type 0
  Hold files i [] = Unit
  Hold files i (text ∷ texts) =
      (get (attempt_name skill_name i) files ≡ some text) × Hold files (suc i) texts

-- What a call of a skill comes to: the error of a name that no skill has, the error of an input that
-- the skill's schema refuses, or what the skill's run returns or throws.
module _ (skill_name : String) (resolve : String → Option Skill) (input : Json)
    (provider : SkillProvider) (model : String) where
  abbrev pub IsRun : Skill → Answer → Type 0
  IsRun skill answer =
      ((message : String) × (skill.input_schema input ≡ invalid message)
        × (answer ≡ thrown (other_error message)))
      ⊎ ((value : Json) × (skill.input_schema input ≡ valid value)
          × (answer ≡ skill.run value provider model))

  abbrev pub IsCalled : Answer → Type 0
  IsCalled answer =
      ((resolve skill_name ≡ none) × (answer ≡ not_registered skill_name))
      ⊎ ((skill : Skill) × (resolve skill_name ≡ some skill) × IsRun skill answer)

module _ (ticket_id : Option String) (skill_name : String) (write : Artifact → Option String)
    (writes : (f : Artifact) → write f ≡ none) where
  -- The attempts of the answer are the artifacts, all of them the ticket's or the run's, and the
  -- files that are there afterwards hold each of them under a name of its own.
  pub record IsKept (r : Answer × List Artifact) : Type 0 where
    pub files : contents r.1 ≡ raw_outputs r.0
    pub places : All (λ (f : Artifact). f.ticket_id ≡ ticket_id) r.1
    pub held :
        (before : List (String × String)) → Hold skill_name (written before r.1) 0 (raw_outputs r.0)

  abbrev file : ℕ → SkillAttempt → Artifact
  file i a = record {
    ticket_id = ticket_id;
    name = attempt_name skill_name i;
    content = a.raw_output;
  }

  abbrev kept : ℕ → List SkillAttempt → List Artifact
  kept i [] = []
  kept i (a ∷ attempts) = file i a ∷ kept (suc i) attempts

  abbrev raws : List SkillAttempt → List String
  raws attempts = map (λ (a : SkillAttempt). a.raw_output) attempts

  keep_attempts-kept :
      (i : ℕ) (attempts : List SkillAttempt)
      → keep_attempts ticket_id skill_name write i attempts ≡ (none, kept i attempts)
  unfolding keep_attempts
  keep_attempts-kept i [] = refl
  keep_attempts-kept i (a ∷ attempts) =
      rw (keep_attempts, writes (file i a), keep_attempts-kept (suc i) attempts) refl

  contents-kept :
      (i : ℕ) (attempts : List SkillAttempt) → contents (kept i attempts) ≡ raws attempts
  contents-kept i [] = refl
  contents-kept i (a ∷ attempts) = ap (λ l. a.raw_output ∷ l) (contents-kept (suc i) attempts)

  kept-places :
      (i : ℕ) (attempts : List SkillAttempt)
      → All (λ (f : Artifact). f.ticket_id ≡ ticket_id) (kept i attempts)
  kept-places i [] = tt
  kept-places i (a ∷ attempts) = (refl, kept-places (suc i) attempts)

  -- Later attempts leave the file of an earlier one as it is.
  get-written-kept :
      (i k : ℕ) (attempts : List SkillAttempt) (before : List (String × String))
      → i < k
      → get (attempt_name skill_name i) (written before (kept k attempts))
        ≡ get (attempt_name skill_name i) before
  unfolding written
  get-written-kept i k [] before h = refl
  get-written-kept i k (a ∷ attempts) before h =
      let name = attempt_name skill_name k in
      get-written-kept i (suc k) attempts (set name a.raw_output before) (omega (arith, h))
      ∙ get-set (attempt_name skill_name i) name a.raw_output before
      ∙ (rw (attempt_name_apart skill_name i k h) refl)

  kept-Hold :
      (i : ℕ) (attempts : List SkillAttempt) (before : List (String × String))
      → Hold skill_name (written before (kept i attempts)) i (raws attempts)
  unfolding written
  kept-Hold i [] before = tt
  kept-Hold i (a ∷ attempts) before =
      let name = attempt_name skill_name i in
      (
        get-written-kept i (suc i) attempts (set name a.raw_output before) (omega arith)
            ∙ get-set_self name a.raw_output before,
        kept-Hold (suc i) attempts (set name a.raw_output before),
      )

  after_run-IsKept :
      (answer : Answer)
      → IsKept (after_run ticket_id skill_name write answer)
        × ((after_run ticket_id skill_name write answer).0 ≡ answer)
  unfolding after_run
  after_run-IsKept (thrown (output_error message attempts)) =
      let k = keep_attempts-kept 0 attempts in
      rw
        (
          after_run,
          ap (λ (p : Option String × List Artifact). p.0) k,
          ap (λ (p : Option String × List Artifact). p.1) k,
        )
        (
          record {
            files = contents-kept 0 attempts;
            places = kept-places 0 attempts;
            held = λ before. kept-Hold 0 attempts before;
          },
          refl,
        )
  after_run-IsKept (thrown (provider_error message)) =
      (record { files = refl; places = tt; held = λ before. tt }, refl)
  after_run-IsKept (thrown (other_error message)) =
      (record { files = refl; places = tt; held = λ before. tt }, refl)
  after_run-IsKept (answered value) =
      (record { files = refl; places = tt; held = λ before. tt }, refl)

  module _ (resolve : String → Option Skill) (input : Json) (provider : SkillProvider)
      (model : String) where
    abbrev IsKeptRun : Skill → Answer × List Artifact → Type 0
    IsKeptRun skill r = IsKept r × IsRun skill_name resolve input provider model skill r.0

    abbrev IsKeptCall : Answer × List Artifact → Type 0
    IsKeptCall r = IsKept r × IsCalled skill_name resolve input provider model r.0

  -- A call of a skill comes to the error of a name that no skill has, the error of an input that the
  -- skill's schema refuses, or what the skill's run returns or throws. When no write fails, it leaves
  -- for each attempt of an output error that it throws an artifact with the attempt's raw output, in
  -- their order and under the ticket or the run, and no artifact otherwise; and whatever files were
  -- there, each attempt's output is afterwards in the file named for its number.
  pub invoke_skill-IsKept :
      (resolve : String → Option Skill) (input : Json) (provider : SkillProvider) (model : String)
      → IsKept (invoke_skill ticket_id skill_name write resolve input provider model)
        × IsCalled skill_name resolve input provider model
            (invoke_skill ticket_id skill_name write resolve input provider model).0
  unfolding invoke_skill
  invoke_skill-IsKept resolve input provider model = resolved (resolve skill_name) refl
    where
      checked :
          (skill : Skill) (v : Validated)
          → skill.input_schema input ≡ v
          → IsKeptRun resolve input provider model skill (elim v [
            | invalid message ↦ after_run ticket_id skill_name write (thrown (other_error message))
            | valid value ↦ after_run ticket_id skill_name write (skill.run value provider model)
          ])
      checked skill (invalid message) e =
          let (k, same) = after_run-IsKept (thrown (other_error message)) in
          (k, inl (message, e, same))
      checked skill (valid value) e =
          let (k, same) = after_run-IsKept (skill.run value provider model) in
          (k, inr (value, e, same))

      resolved :
          (o : Option Skill)
          → resolve skill_name ≡ o
          → IsKeptCall resolve input provider model (elim o [
            | none ↦ (not_registered skill_name, [])
            | some skill ↦ elim (skill.input_schema input) [
              | invalid message ↦
                  after_run ticket_id skill_name write (thrown (other_error message))
              | valid value ↦ after_run ticket_id skill_name write (skill.run value provider model)
            ]
          ])
      resolved none e = (record { files = refl; places = tt; held = λ before. tt }, inl (e, refl))
      resolved (some skill) e =
          let (k, c) = checked skill (skill.input_schema input) refl in (k, inr (skill, e, c))
