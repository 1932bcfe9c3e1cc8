-- ===== src/Tests/Manifests.antt =====
-- The manifest of a skill with one field of input and one of output.
use jme_loop_public.Prelude.{String, ◌≡◌, refl, none, [], ◌∷◌, int, pos}
use jme_loop_public.Json.{Json, null, num, str, object, Members, Fields, fields, of_fields}
use jme_loop_public.Checked.{ok}
use jme_loop_public.SkillManifest.{
  SkillManifest, string_type, strings_type, parse_skill_manifest, name_field, check_name,
  split_at_slashes, is_name_segment, filled_field, version_field, prompt_field, is_safe_segment,
  overrides_field, parse_schema_decl, decl_of, parse_fields, field_type, type_name, validate,
}
use jme_loop_public.SkillManifest.Manifests.{IsManifest, parse_skill_manifest-IsManifest}
use jme_loop_public.SkillManifest.Schemas.{accepts, has_fields, IsCopy, validate-IsCopy}

abbrev schema : String → String → Json
schema key type = object (
    of_fields (("type", str "object") ∷ ("fields", object (of_fields ((key, str type) ∷ []))) ∷ []))

abbrev manifest : Json
manifest = object (
    of_fields (
      ("name", str "acme/plan")
      ∷ ("description", str "plans")
      ∷ ("contractVersion", num (int (pos 1)))
      ∷ ("model", str "opus")
      ∷ ("promptFile", str "plan.prompt")
      ∷ ("overrides", null)
      ∷ ("input", schema "ticket" "string")
      ∷ ("output", schema "files" "string[]")
      ∷ []))

abbrev parsed : SkillManifest
parsed = record {
  name = "acme/plan";
  description = "plans";
  model = "opus";
  prompt_file = "plan.prompt";
  input = ("ticket", string_type) ∷ [];
  output = ("files", strings_type) ∷ [];
  overrides = none;
}

is_parsed : parse_skill_manifest manifest ≡ ok parsed
unfolding parse_skill_manifest name_field check_name split_at_slashes is_name_segment filled_field
    version_field prompt_field is_safe_segment overrides_field parse_schema_decl decl_of
    parse_fields field_type type_name
is_parsed = refl

parse_skill_manifest-IsManifest_example : IsManifest parsed
parse_skill_manifest-IsManifest_example = parse_skill_manifest-IsManifest manifest parsed is_parsed

abbrev value : Members
value = of_fields (("extra", null) ∷ ("ticket", str "TICKET-001") ∷ [])

validate-IsCopy_example :
    (accepts (validate parsed.input (object value)) ≡ has_fields parsed.input (fields value))
    × ((out : Fields)
        → validate parsed.input (object value) ≡ ok out
        → IsCopy parsed.input (fields value) out)
validate-IsCopy_example = validate-IsCopy parsed.input value
