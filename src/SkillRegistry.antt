-- ===== src/SkillRegistry.antt =====
-- src/skillRegistry.ts, `createSkillRegistry`: the base skills and the project's, by the names under
-- which they are found.
pub mod Entries
pub mod Shadowing
use jme_loop_public.Prelude.{
  String, Option, none, some, is_some, List, [], ◌∷◌, ◌++◌, get, set, includes, not, if◌then◌else◌,
}
use jme_loop_public.Skill.{Skill}

-- The reasons that SkillRegistryError gives.
pub data RegistryError : Type 0 where
  duplicate_base : (skill : String) → RegistryError
  unknown_override : (skill overrides : String) → RegistryError
  overridden_twice : (overrides : String) → RegistryError
  collision : (skill : String) → RegistryError

-- The `Map` by name.
abbrev pub Registry : Type 0
Registry = List (String × Skill)

pub data Created : Type 0 where
  created : Registry → Created
  refused : RegistryError → Created

pub record ProjectSkillEntry : Type 0 where
  pub skill : Skill
  pub overrides : Option String

-- What one entry makes of the overridden names and the registry.
pub data Added : Type 0 where
  added : List String → Registry → Added
  stopped : RegistryError → Added

unfoldable pub add_project_skill : Skill → Option String → List String → Registry → Added
add_project_skill skill none overridden by_name =
    if is_some (get skill.name by_name)
    then stopped (collision skill.name)
    else added overridden (set skill.name skill by_name)
add_project_skill skill (some base) overridden by_name =
    if not (is_some (get base by_name))
    then stopped (unknown_override skill.name base)
    else if includes overridden base
    then stopped (overridden_twice base)
    else added (overridden ++ base ∷ []) (set base skill by_name)

unfoldable pub add_project_skills : List ProjectSkillEntry → List String → Registry → Created
unfolding add_project_skill
add_project_skills [] overridden by_name = created by_name
add_project_skills (entry ∷ entries) overridden by_name =
    elim (add_project_skill entry.skill entry.overrides overridden by_name) [
      | stopped error ↦ refused error
      | added names registry ↦ add_project_skills entries names registry
    ]

unfoldable pub add_base_skills : List Skill → List ProjectSkillEntry → Registry → Created
unfolding add_project_skills
add_base_skills [] projects by_name = add_project_skills projects [] by_name
add_base_skills (skill ∷ skills) projects by_name =
    let rest = add_base_skills skills projects (set skill.name skill by_name) in
    if is_some (get skill.name by_name) then refused (duplicate_base skill.name) else rest

unfoldable pub create_skill_registry : List Skill → List ProjectSkillEntry → Created
unfolding add_base_skills
create_skill_registry base_skills project_skills = add_base_skills base_skills project_skills []
