-- ===== src/SkillManifest/Manifests.antt =====
-- src/skillManifest.ts, `parseSkillManifest`: what a manifest that is accepted has.
use jme_loop_public.Prelude.{
  ℕ, String, ◌≡◌, ◌≢◌, subst, true, false, not, ◌&&◌, Option, some, List, [], ◌∷◌, ◌==◌, get, codes,
  eq_iff, both_branches, arith,
}
use jme_loop_public.Json.{Json, str, object, fields}
use jme_loop_public.Checked.{Checked, ok, fails, Sure, then-Sure, next-Sure}
use jme_loop_public.SkillManifest.{
  SkillManifest, is_name_segment, split_at_slashes, is_core, check_name, is_safe_segment,
  name_field, filled_field, version_field, prompt_field, overrides_field, parse_schema_decl,
  parse_skill_manifest,
}

-- A namespace and a name, the namespace not that of the first-party skills.
abbrev pub IsSplit : List ℕ × List (List ℕ) → Type 0
IsSplit (namespace, skill ∷ []) =
    (is_name_segment namespace ≡ true)
    × (is_name_segment skill ≡ true)
    × (is_core namespace ≡ false)
IsSplit _ = ⊥

abbrev pub IsProjectName : String → Type 0
IsProjectName name = IsSplit (split_at_slashes (codes name))

pub record IsManifest (m : SkillManifest) : Type 0 where
  pub name : IsProjectName m.name
  pub description : m.description ≢ ""
  pub model : m.model ≢ ""
  pub prompt_file : is_safe_segment m.prompt_file ≡ true

check_name-Sure : (p : List ℕ × List (List ℕ)) → Sure (λ _. IsSplit p) (check_name p)
unfolding check_name
check_name-Sure (namespace, skill ∷ []) =
    let P : Checked (Unit {0}) → Type 0 = Sure (λ _. IsSplit (namespace, skill ∷ [])) in
    both_branches P (not (is_name_segment namespace && is_name_segment skill)) _ _ (λ _. tt)
      (λ h.
        both_branches P (is_core namespace) _ (ok tt) (λ _. tt)
          (λ k. (ground (arith, h), ground (arith, h), k)))
check_name-Sure _ = tt

name_field-Sure : (v : Option Json) → Sure IsProjectName (name_field v)
unfolding name_field
name_field-Sure (some (str name)) =
    then-Sure (λ _. IsProjectName name) IsProjectName (check_name (split_at_slashes (codes name)))
      (λ _. ok name) (check_name-Sure (split_at_slashes (codes name))) (λ _ h. h)
name_field-Sure _ = tt

filled_field-Sure :
    (v : Option Json) (message : String) → Sure (λ s. s ≢ "") (filled_field v message)
unfolding filled_field
filled_field-Sure (some (str s)) message =
    both_branches (Sure (λ (t : String). t ≢ "")) (s == "") (fails message) (ok s) (λ _. tt)
      (λ h e. ground (arith, h, eq_iff s "", e))
filled_field-Sure _ message = tt

prompt_field-Sure : (v : Option Json) → Sure (λ s. is_safe_segment s ≡ true) (prompt_field v)
unfolding prompt_field
prompt_field-Sure (some (str s)) =
    both_branches (Sure (λ (t : String). is_safe_segment t ≡ true)) (is_safe_segment s) (ok s) _
      (λ h. h) (λ _. tt)
prompt_field-Sure _ = tt

parse_skill_manifest-Sure : (v : Json) → Sure IsManifest (parse_skill_manifest v)
unfolding parse_skill_manifest
parse_skill_manifest-Sure (object ms) =
    let o = fields ms in
    then-Sure IsProjectName IsManifest (name_field (get "name" o)) _
      (name_field-Sure (get "name" o))
      (λ name h.
        then-Sure (λ s. s ≢ "") IsManifest (filled_field (get "description" o) _) _
          (filled_field-Sure (get "description" o) _)
          (λ description d. next-Sure IsManifest (version_field (get "contractVersion" o)) _ (λ _.
            then-Sure (λ s. s ≢ "") IsManifest (filled_field (get "model" o) _) _
              (filled_field-Sure (get "model" o) _)
              (λ model k.
                then-Sure (λ s. is_safe_segment s ≡ true) IsManifest
                  (prompt_field (get "promptFile" o)) _ (prompt_field-Sure (get "promptFile" o))
                  (λ prompt_file p.
                    next-Sure IsManifest (overrides_field (get "overrides" o)) _ (λ overrides.
                      next-Sure IsManifest (parse_schema_decl (get "input" o) "input") _ (λ input.
                        next-Sure IsManifest (parse_schema_decl (get "output" o) "output") _
                          (λ output. record {
                            name = h;
                            description = d;
                            model = k;
                            prompt_file = p;
                          }))))))))
parse_skill_manifest-Sure _ = tt

-- A manifest that is accepted names its skill by a namespace and a name of lowercase letters, digits
-- and hyphens, whose namespace is not that of the first-party skills, has a description and a model,
-- and takes its prompt from a file directly in its directory.
pub parse_skill_manifest-IsManifest :
    (v : Json) (m : SkillManifest) → parse_skill_manifest v ≡ ok m → IsManifest m
parse_skill_manifest-IsManifest v m h = subst (Sure IsManifest) h (parse_skill_manifest-Sure v)
