-- ===== src/SkillRegistry/Shadowing.antt =====
-- src/skillRegistry.ts, `createSkillRegistry`: which skill a name leads to.
use jme_loop_public.Prelude.{
  String, ◌≡◌, refl, sym, ap, subst, Bool, true, false, inl, inr, none, some, is_some, List, [],
  ◌∷◌, get, set, get-set, get-set_self, includes, In, eq_iff, if◌then◌else◌, arith,
}
use jme_loop_public.Skill.{Skill}
use jme_loop_public.SkillRegistry.{
  Registry, RegistryError, Created, created, refused, ProjectSkillEntry, Added, added, stopped,
  add_project_skill, add_project_skills, add_base_skills, create_skill_registry,
}
use jme_loop_public.SkillRegistry.Entries.{
  is_overridden, names_of, registry_of, went_on, entry-keeps, entry-locks, entry-overrides,
  entry-adds,
}

created-injective : (a b : Registry) → created a ≡ created b → a ≡ b
created-injective a b p = ap (λ c. elim c [ created r ↦ r | refused _ ↦ a ]) p

module _ (r : Registry) where
  -- What a step came to, when the whole was created.
  through :
      (entries : List ProjectSkillEntry) (step : Added)
      → elim step [
        | stopped error ↦ refused error
        | added names registry ↦ add_project_skills entries names registry
      ]
        ≡ created r
      → (went_on step ≡ true)
        × (add_project_skills entries (names_of step) (registry_of step) ≡ created r)
  through entries (stopped error) h = cc
  through entries (added names registry) h = (refl, h)

  module _ (name : String) (skill : Skill) where
    keeps :
        (entries : List ProjectSkillEntry) (names : List String) (m : Registry)
        → add_project_skills entries names m ≡ created r
        → is_overridden name entries ≡ false
        → get name m ≡ some skill
        → get name r ≡ some skill
    unfolding add_project_skills
    keeps [] names m h k g = subst (λ x. get name x ≡ some skill) (created-injective m r h) g
    keeps (e ∷ entries) names m h k g =
        let (went, rest) = through entries (add_project_skill e.skill e.overrides names m) h in
        keeps entries _ _ rest (ground (arith, k))
          (entry-keeps e.skill names m name e.overrides skill went (ground (arith, k)) g)

    locked :
        (entries : List ProjectSkillEntry) (names : List String) (m : Registry)
        → add_project_skills entries names m ≡ created r
        → includes names name ≡ true
        → get name m ≡ some skill
        → get name r ≡ some skill
    unfolding add_project_skills
    locked [] names m h k g = subst (λ x. get name x ≡ some skill) (created-injective m r h) g
    locked (e ∷ entries) names m h k g =
        let (went, rest) = through entries (add_project_skill e.skill e.overrides names m) h in
        let (other, still) = entry-locks e.skill names m name e.overrides went k in
        locked entries _ _ rest still
          (entry-keeps e.skill names m name e.overrides skill went other g)

  overrides :
      (entries : List ProjectSkillEntry) (names : List String) (m : Registry) (skill : Skill)
      (base : String)
      → add_project_skills entries names m ≡ created r
      → In (record { skill = skill; overrides = some base }) entries
      → get base r ≡ some skill
  unfolding add_project_skills
  overrides [] names m skill base h k = absurd k
  overrides (e ∷ entries) names m skill base h (inr k) =
      overrides entries _ _ skill base
        (through entries (add_project_skill e.skill e.overrides names m) h).1 k
  overrides (e ∷ entries) names m skill base h (inl p) =
      let (went, rest) = through entries (add_project_skill skill (some base) names m) (
        subst (λ (x : ProjectSkillEntry). add_project_skills (x ∷ entries) names m ≡ created r) p
          h) in
      let (found, lock) = entry-overrides skill names m base went in
      locked base skill entries _ _ rest lock found

  adds :
      (entries : List ProjectSkillEntry) (names : List String) (m : Registry) (skill : Skill)
      → add_project_skills entries names m ≡ created r
      → In (record { skill = skill; overrides = none }) entries
      → is_overridden skill.name entries ≡ false
      → get skill.name r ≡ some skill
  unfolding add_project_skills
  adds [] names m skill h k free = absurd k
  adds (e ∷ entries) names m skill h (inr k) free =
      adds entries _ _ skill (through entries (add_project_skill e.skill e.overrides names m) h).1 k
        (ground (arith, free))
  adds (e ∷ entries) names m skill h (inl p) free =
      let (went, rest) = through entries (add_project_skill skill none names m) (
        subst (λ (x : ProjectSkillEntry). add_project_skills (x ∷ entries) names m ≡ created r) p
          h) in
      keeps skill.name skill entries _ _ rest (ground (arith, free)) (entry-adds skill names m went)

  unless :
      (b : Bool) (error : RegistryError) (x : Created)
      → (if b then refused error else x) ≡ created r
      → (b ≡ false) × (x ≡ created r)
  unless true error x h = cc
  unless false error x h = (refl, h)

  module _ (projects : List ProjectSkillEntry) where
    -- A skill that is there when the base skills from here on are added.
    base-keeps :
        (skills : List Skill) (m : Registry) (name : String) (skill : Skill)
        → add_base_skills skills projects m ≡ created r
        → is_overridden name projects ≡ false
        → get name m ≡ some skill
        → get name r ≡ some skill
    unfolding add_base_skills
    base-keeps [] m name skill h k g = keeps name skill projects [] m h k g
    base-keeps (s ∷ skills) m name skill h k g =
        let (free, rest) = unless (is_some (get s.name m)) _ _ h in
        base-keeps skills (set s.name s m) name skill rest k (
          ground (
            arith,
            free,
            g,
            get-set name s.name s m,
            eq_iff s.name name,
            ap (λ n. get n m) {x = s.name} {y = name},
          ))

    base-adds :
        (skills : List Skill) (m : Registry) (skill : Skill)
        → add_base_skills skills projects m ≡ created r
        → is_overridden skill.name projects ≡ false
        → In skill skills
        → get skill.name r ≡ some skill
    unfolding add_base_skills
    base-adds [] m skill h k g = absurd g
    base-adds (s ∷ skills) m skill h k (inr g) =
        base-adds skills (set s.name s m) skill (unless (is_some (get s.name m)) _ _ h).1 k g
    base-adds (s ∷ skills) m skill h k (inl p) =
        base-keeps skills (set s.name s m) skill.name skill
          (unless (is_some (get s.name m)) _ _ h).1 k
          (subst (λ (x : Skill). get skill.name (set x.name x m) ≡ some skill) (sym p)
            (get-set_self skill.name skill m))

    base-through :
        (skills : List Skill) (m : Registry)
        → add_base_skills skills projects m ≡ created r
        → (n : Registry) × (add_project_skills projects [] n ≡ created r)
    unfolding add_base_skills
    base-through [] m h = (m, h)
    base-through (s ∷ skills) m h =
        base-through skills (set s.name s m) (unless (is_some (get s.name m)) _ _ h).1

-- Which skill each name leads to.
pub record IsRegistry (bases : List Skill) (projects : List ProjectSkillEntry) (r : Registry)
    : Type 0 where
  pub base :
      (skill : Skill)
      → In skill bases
      → is_overridden skill.name projects ≡ false
      → get skill.name r ≡ some skill
  pub override :
      (skill : Skill) (name : String)
      → In (record { skill = skill; overrides = some name }) projects
      → get name r ≡ some skill
  pub project :
      (skill : Skill)
      → In (record { skill = skill; overrides = none }) projects
      → is_overridden skill.name projects ≡ false
      → get skill.name r ≡ some skill

-- When a registry is created, each base skill is found under its name unless a project's skill
-- declares that it overrides that name; a project's skill is found under the name that it
-- overrides, and one that overrides nothing under its own name unless another declares that it
-- overrides that.
pub create_skill_registry-IsRegistry :
    (bases : List Skill) (projects : List ProjectSkillEntry) (r : Registry)
    → create_skill_registry bases projects ≡ created r
    → IsRegistry bases projects r
unfolding create_skill_registry
create_skill_registry-IsRegistry bases projects r h =
    let (n, rest) = base-through r projects bases [] h in
    record {
      base = λ skill there free. base-adds r projects bases [] skill h free there;
      override = λ skill name there. overrides r projects [] n skill name rest there;
      project = λ skill there free. adds r projects [] n skill rest there free;
    }
