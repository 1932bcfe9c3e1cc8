-- ===== src/SkillManifest.antt =====
-- src/skillManifest.ts: the manifest of a project's skill, and the validator that a declared schema
-- compiles to. No declared field is named `__proto__`.
pub mod Schemas
pub mod Manifests
use jme_loop_public.Prelude.{
  ℕ, String, Bool, true, false, not, ◌&&◌, ◌||◌, Option, none, some, List, [], ◌∷◌, ◌==◌, ◌⊕◌, get,
  codes, any, all, eqb, leb, includes, int, pos, if◌then◌else◌,
}
use jme_loop_public.Json.{
  Json, null, bool, num, str, array, object, Items, nil, cons, Fields, fields,
}
use jme_loop_public.RunState.{is_string_array}
use jme_loop_public.Checked.{Checked, ok, fails, ◌>>=◌}

pub data FieldType : Type 0 where
  string_type number_type boolean_type strings_type : FieldType

abbrev pub SchemaDecl : Type 0
SchemaDecl = List (String × FieldType)

pub record SkillManifest : Type 0 where
  pub name : String
  pub description : String
  pub model : String
  pub prompt_file : String
  pub input : SchemaDecl
  pub output : SchemaDecl
  pub overrides : Option String

unfoldable pub type_name : FieldType → String
type_name string_type = "string"
type_name number_type = "number"
type_name boolean_type = "boolean"
type_name strings_type = "string[]"

unfoldable pub field_type : Json → Option FieldType
unfolding type_name
field_type (str t) =
    if t == type_name string_type
    then some string_type
    else if t == type_name number_type
    then some number_type
    else if t == type_name boolean_type
    then some boolean_type
    else if t == type_name strings_type
    then some strings_type
    else none
field_type _ = none

unfoldable pub parse_fields : String → Fields → Checked SchemaDecl
unfolding field_type
parse_fields label [] = ok []
parse_fields label ((key, t) ∷ rest) = elim (field_type t) [
  | none ↦ fails (
      "manifest '" ⊕ label ⊕ "." ⊕ key ⊕ "' type must be one of: string, number, boolean, string[]")
  | some type ↦ parse_fields label rest >>= λ decl. ok ((key, type) ∷ decl)
]

abbrev pub is_object_type : Option Json → Bool
is_object_type (some (str t)) = t == "object"
is_object_type _ = false

unfoldable pub decl_of : Bool → Option Json → String → Checked SchemaDecl
unfolding parse_fields
decl_of true (some (object ms)) label = parse_fields label (fields ms)
decl_of _ _ label = fails ("manifest '" ⊕ label ⊕ "' must be { type: \"object\", fields: {...} }")

unfoldable pub parse_schema_decl : Option Json → String → Checked SchemaDecl
unfolding decl_of
parse_schema_decl (some (object ms)) label =
    decl_of (is_object_type (get "type" (fields ms))) (get "fields" (fields ms)) label
parse_schema_decl _ label = decl_of false none label

-- `typeof` and the test of an array of texts.
unfoldable pub fits : FieldType → Option Json → Option Json
fits string_type (some (str s)) = some (str s)
fits number_type (some (num n)) = some (num n)
fits boolean_type (some (bool b)) = some (bool b)
fits strings_type (some (array vs)) = elim (is_string_array (some (array vs))) [
  | none ↦ none
  | some _ ↦ some (array vs)
]
fits _ _ = none

unfoldable pub copy_fields : SchemaDecl → Fields → Checked Fields
unfolding fits type_name
copy_fields [] v = ok []
copy_fields ((key, type) ∷ decl) v = elim (fits type (get key v)) [
  | none ↦ fails ("field '" ⊕ key ⊕ "' must be " ⊕ type_name type)
  | some field ↦ copy_fields decl v >>= λ out. ok ((key, field) ∷ out)
]

-- The validator that a schema compiles to.
unfoldable pub validate : SchemaDecl → Json → Checked Fields
unfolding copy_fields
validate decl (object ms) = copy_fields decl (fields ms)
validate decl _ = fails "value must be an object"

-- `compileSchema`, with the compiled validator applied to a value.
unfoldable pub compile_schema : Option Json → Json → Checked Fields
unfolding parse_schema_decl validate
compile_schema decl v = parse_schema_decl decl "schema" >>= λ schema. validate schema v

-- `/^[a-z0-9][a-z0-9-]*$/` on code points.
abbrev pub is_name_code : ℕ → Bool
is_name_code c = (leb b'a' c && leb c b'z') || (leb b'0' c && leb c b'9')

unfoldable pub is_name_segment : List ℕ → Bool
is_name_segment [] = false
is_name_segment (c ∷ cs) = is_name_code c && all (λ d. is_name_code d || eqb d b'-') cs

-- `split("/")`: the piece that is being read, and the pieces after it.
unfoldable pub split_at_slashes : List ℕ → List ℕ × List (List ℕ)
split_at_slashes [] = ([], [])
split_at_slashes (c ∷ cs) =
    let rest = split_at_slashes cs in
    if eqb c b'/' then ([], rest.0 ∷ rest.1) else (c ∷ rest.0, rest.1)

abbrev pub is_core : List ℕ → Bool
is_core (c ∷ o ∷ r ∷ e ∷ []) = eqb c b'c' && eqb o b'o' && eqb r b'r' && eqb e b'e'
is_core _ = false

unfoldable pub check_name : List ℕ × List (List ℕ) → Checked (Unit {0})
unfolding is_name_segment
check_name (namespace, skill ∷ []) =
    if not (is_name_segment namespace && is_name_segment skill)
    then fails
        "manifest 'name' must be 'namespace/skill' (two lowercase alphanumeric/hyphen segments)"
    else if is_core namespace
    then fails "manifest 'name' may not use the reserved 'core' namespace"
    else ok tt
check_name _ =
    fails "manifest 'name' must be 'namespace/skill' (two lowercase alphanumeric/hyphen segments)"

unfoldable pub is_safe_segment : String → Bool
is_safe_segment value =
    not (value == "")
    && not (value == ".")
    && not (value == "..")
    && not (any (λ c. eqb c b'/') (codes value))
    && not (any (λ c. eqb c b'\\') (codes value))
    && not (any (λ c. eqb c 0) (codes value))

unfoldable pub name_field : Option Json → Checked String
unfolding check_name split_at_slashes
name_field (some (str name)) = check_name (split_at_slashes (codes name)) >>= λ _. ok name
name_field _ = fails "manifest 'name' must be a string"

unfoldable pub filled_field : Option Json → String → Checked String
filled_field (some (str s)) message = if s == "" then fails message else ok s
filled_field _ message = fails message

unfoldable pub version_field : Option Json → Checked (Unit {0})
version_field (some (num (int (pos n)))) =
    if eqb n 1 then ok tt else fails "manifest 'contractVersion' must be 1"
version_field _ = fails "manifest 'contractVersion' must be 1"

unfoldable pub prompt_field : Option Json → Checked String
unfolding is_safe_segment
prompt_field (some (str s)) =
    if is_safe_segment s
    then ok s
    else fails "manifest 'promptFile' must be a safe single path segment"
prompt_field _ = fails "manifest 'promptFile' must be a safe single path segment"

unfoldable pub overrides_field : Option Json → Checked (Option String)
overrides_field (some null) = ok none
overrides_field (some (str s)) = ok (some s)
overrides_field _ = fails "manifest 'overrides' must be a string or null"

unfoldable pub parse_skill_manifest : Json → Checked SkillManifest
unfolding name_field filled_field version_field prompt_field overrides_field parse_schema_decl
parse_skill_manifest (object ms) =
    let o = fields ms in
    name_field (get "name" o) >>= λ name.
    filled_field (get "description" o) "manifest 'description' must be a non-empty string"
    >>= λ description. version_field (get "contractVersion" o) >>= λ _.
        filled_field (get "model" o)
          "manifest 'model' must be a non-empty string (never assume a CLI default)"
        >>= λ model. prompt_field (get "promptFile" o) >>= λ prompt_file.
            overrides_field (get "overrides" o) >>= λ overrides.
            parse_schema_decl (get "input" o) "input" >>= λ input.
            parse_schema_decl (get "output" o) "output" >>= λ output. ok (record {
              name = name;
              description = description;
              model = model;
              prompt_file = prompt_file;
              input = input;
              output = output;
              overrides = overrides;
            })
parse_skill_manifest _ = fails "manifest must be a JSON object"
