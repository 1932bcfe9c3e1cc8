-- ===== src/Tests/Skills.antt =====
-- Skills that are asked again, kept and registered, at concrete answers.
use jme_loop_public.Prelude.{
  String, ◌≡◌, refl, Option, none, some, List, [], ◌∷◌, ltb, if◌then◌else◌,
}
use jme_loop_public.Json.{null, str}
use jme_loop_public.Skill.{
  SkillAttempt, output_error, answered, thrown, valid, SkillProvider, Skill, Artifact,
  extract_structured, invoke_skill,
}
use jme_loop_public.Skill.Asking.{IsAsked, extract_structured-IsAsked}
use jme_loop_public.Skill.Keeping.{IsKept, IsCalled, invoke_skill-IsKept}
use jme_loop_public.SkillRegistry.{
  Registry, created, ProjectSkillEntry, create_skill_registry, add_base_skills, add_project_skills,
  add_project_skill,
}
use jme_loop_public.SkillRegistry.Shadowing.{IsRegistry, create_skill_registry-IsRegistry}

abbrev attempt : SkillAttempt
attempt = record { raw_output = "{"; validation_error = "output is not valid JSON: end" }

-- Invalid twice, then valid.
abbrev third_time : SkillProvider
third_time = record {
  extract = λ calls prompt schema model.
      if ltb calls 2
      then thrown (output_error attempt.validation_error (attempt ∷ []))
      else answered (str prompt);
}

extract_structured-IsAsked_example :
    IsAsked third_time valid "base" "opus" 2 0 0 "base"
      (extract_structured third_time valid "base" "opus" none)
extract_structured-IsAsked_example = extract_structured-IsAsked third_time valid "base" "opus" none

abbrev skill : String → Skill
skill name = record {
  name = name;
  description = "";
  input_schema = valid;
  output_schema = valid;
  run = λ input provider model. (extract_structured provider valid "base" model (some 1)).0;
}

abbrev resolve : String → Option Skill
resolve name = some (skill name)

abbrev write : Artifact → Option String
write f = none

invoke_skill-IsKept_example :
    IsKept none "core/refine-tickets" write
      (λ f. refl)
      (invoke_skill none "core/refine-tickets" write resolve null third_time "opus")
    × IsCalled "core/refine-tickets" resolve null third_time "opus"
        (invoke_skill none "core/refine-tickets" write resolve null third_time "opus").0
invoke_skill-IsKept_example =
    invoke_skill-IsKept none "core/refine-tickets" write (λ f. refl) resolve null third_time "opus"

abbrev projects : List ProjectSkillEntry
projects = record { skill = skill "acme/plan"; overrides = some "core/write-plan" } ∷ []

abbrev registry : Registry
registry =
    ("core/write-plan", skill "acme/plan") ∷ ("core/run-summary", skill "core/run-summary") ∷ []

abbrev bases : List Skill
bases = skill "core/write-plan" ∷ skill "core/run-summary" ∷ []

registers : create_skill_registry bases projects ≡ created registry
unfolding create_skill_registry add_base_skills add_project_skills add_project_skill
registers = refl

create_skill_registry-IsRegistry_example : IsRegistry bases projects registry
create_skill_registry-IsRegistry_example =
    create_skill_registry-IsRegistry bases projects registry registers
