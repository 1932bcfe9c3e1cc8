-- ===== src/SkillRegistry/Entries.antt =====
-- src/skillRegistry.ts, `createSkillRegistry`: what one entry of a project's does.
use jme_loop_public.Prelude.{
  String, ◌≡◌, refl, ap, Bool, true, false, Option, none, some, List, [], get, get-set,
  get-set_self, includes, includes-append, any, ◌==◌, eq_iff, eq_refl, arith,
}
use jme_loop_public.Skill.{Skill}
use jme_loop_public.SkillRegistry.{
  Registry, ProjectSkillEntry, Added, added, stopped, add_project_skill,
}

abbrev pub shadows : Option String → String → Bool
shadows none name = false
shadows (some base) name = base == name

-- Some entry declares that it overrides the name.
abbrev pub is_overridden : String → List ProjectSkillEntry → Bool
is_overridden name entries = any (λ (e : ProjectSkillEntry). shadows e.overrides name) entries

-- What came of one entry.
abbrev pub names_of : Added → List String
names_of (added names registry) = names
names_of (stopped error) = []

abbrev pub registry_of : Added → Registry
registry_of (added names registry) = registry
registry_of (stopped error) = []

abbrev pub went_on : Added → Bool
went_on (added names registry) = true
went_on (stopped error) = false

module _ (s : Skill) (names : List String) (m : Registry) (name : String) where
  abbrev result : Option String → Added
  result o = add_project_skill s o names m

  -- A taken name that the entry does not override keeps its skill.
  pub entry-keeps :
      (o : Option String) (skill : Skill)
      → went_on (result o) ≡ true
      → shadows o name ≡ false
      → get name m ≡ some skill
      → get name (registry_of (result o)) ≡ some skill
  unfolding add_project_skill
  entry-keeps none skill h k g = ground (
    arith,
    h,
    g,
    get-set name s.name s m,
    eq_iff s.name name,
    ap (λ n. get n m) {x = s.name} {y = name},
  )
  entry-keeps (some base) skill h k g = ground (arith, h, k, g, get-set name base s m)

  -- A name that was overridden is not overridden again, and stays among the names.
  pub entry-locks :
      (o : Option String)
      → went_on (result o) ≡ true
      → includes names name ≡ true
      → (shadows o name ≡ false) × (includes (names_of (result o)) name ≡ true)
  unfolding add_project_skill
  entry-locks none h k = (refl, ground (arith, h, k))
  entry-locks (some base) h k = (
    ground (arith, h, k, eq_iff base name, ap (includes names) {x = base} {y = name}),
    ground (arith, h, k, includes-append names base name),
  )

pub entry-overrides :
    (s : Skill) (names : List String) (m : Registry) (base : String)
    → went_on (add_project_skill s (some base) names m) ≡ true
    → (get base (registry_of (add_project_skill s (some base) names m)) ≡ some s)
      × (includes (names_of (add_project_skill s (some base) names m)) base ≡ true)
unfolding add_project_skill
entry-overrides s names m base h = (
  ground (arith, h, get-set_self base s m),
  ground (arith, h, includes-append names base base, eq_refl base),
)

pub entry-adds :
    (s : Skill) (names : List String) (m : Registry)
    → went_on (add_project_skill s none names m) ≡ true
    → get s.name (registry_of (add_project_skill s none names m)) ≡ some s
unfolding add_project_skill
entry-adds s names m h = ground (arith, h, get-set_self s.name s m)
