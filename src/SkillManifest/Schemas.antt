-- ===== src/SkillManifest/Schemas.antt =====
-- src/skillManifest.ts, `compileSchema`: what the compiled validator accepts, and what it returns.
use jme_loop_public.Prelude.{
  String, ◌≡◌, refl, ap, ◌∙◌, subst, Bool, true, false, ◌&&◌, Option, none, some, is_some, List, [],
  ◌∷◌, map, get, all, Number,
}
use jme_loop_public.Json.{
  Json, bool, num, str, array, object, Items, items, Members, Fields, fields,
}
use jme_loop_public.RunState.{is_string_array}
use jme_loop_public.RunState.Parsing.{is_string_array-items, all_texts, is_some-is_string_array}
use jme_loop_public.Checked.{Checked, ok, fails, ◌>>=◌}
use jme_loop_public.SkillManifest.{
  FieldType, string_type, number_type, boolean_type, strings_type, SchemaDecl, fits, copy_fields,
  validate,
}

-- A value has a declared type.
abbrev pub HasType : FieldType → Json → Type 0
HasType string_type j = (s : String) × (j ≡ str s)
HasType number_type j = (n : Number) × (j ≡ num n)
HasType boolean_type j = (b : Bool) × (j ≡ bool b)
HasType strings_type j =
    (vs : Items) × (ts : List String) × (j ≡ array vs) × (items vs ≡ map str ts)

-- The declared fields of a value, in their order, each of its declared type, and nothing else.
abbrev pub IsCopy : SchemaDecl → Fields → Fields → Type 0
IsCopy [] v [] = Unit
IsCopy ((key, type) ∷ decl) v ((k, field) ∷ out) =
    (k ≡ key) × (get key v ≡ some field) × HasType type field × IsCopy decl v out
IsCopy _ v _ = ⊥

abbrev pub accepts : Checked Fields → Bool
accepts (ok _) = true
accepts (fails _) = false

texts_type :
    (vs : Items) (o : Option (List String)) (field : Json)
    → is_string_array (some (array vs)) ≡ o
    → elim o [ none ↦ none | some _ ↦ some (array vs) ] ≡ some field
    → HasType strings_type (array vs) × (array vs ≡ field)
texts_type vs none field e h = cc
texts_type vs (some ts) field e h = ((vs, ts, refl, is_string_array-items vs ts e), cc)

fits-HasType :
    (type : FieldType) (o : Option Json) (field : Json)
    → fits type o ≡ some field
    → (o ≡ some field) × HasType type field
unfolding fits
fits-HasType string_type (some (str s)) field h = (h, (s, cc))
fits-HasType number_type (some (num n)) field h = (h, (n, cc))
fits-HasType boolean_type (some (bool b)) field h = (h, (b, cc))
fits-HasType strings_type (some (array vs)) field h =
    let (t, e) = texts_type vs (is_string_array (some (array vs))) field refl h in
    (ap some e, subst (HasType strings_type) e t)
fits-HasType _ _ field h = cc

-- The test of a field: a text, a number, a Boolean, or an array of texts.
abbrev pub has_type : FieldType → Option Json → Bool
has_type string_type (some (str s)) = true
has_type number_type (some (num n)) = true
has_type boolean_type (some (bool b)) = true
has_type strings_type (some (array vs)) = all_texts vs
has_type _ _ = false

is_some-kept :
    (o : Option (List String)) (v : Json)
    → is_some (elim o [ none ↦ none | some _ ↦ some v ]) ≡ is_some o
is_some-kept none v = refl
is_some-kept (some ts) v = refl

fits-has_type : (type : FieldType) (o : Option Json) → is_some (fits type o) ≡ has_type type o
unfolding fits
fits-has_type string_type (some (str s)) = refl
fits-has_type number_type (some (num n)) = refl
fits-has_type boolean_type (some (bool b)) = refl
fits-has_type strings_type (some (array vs)) =
    is_some-kept (is_string_array (some (array vs))) (array vs) ∙ is_some-is_string_array vs
fits-has_type _ _ = refl

-- Each declared field is there with its type.
abbrev pub has_fields : SchemaDecl → Fields → Bool
has_fields decl v = all (λ (f : String × FieldType). has_type f.1 (get f.0 v)) decl

module _ (key : String) (type : FieldType) (decl : SchemaDecl) (v : Fields) (rest : Checked Fields)
    (message : String) where
  abbrev copied : Option Json → Checked Fields
  copied o = elim o [ none ↦ fails message | some field ↦ rest >>= λ out. ok ((key, field) ∷ out) ]

  accepts-copied : (o : Option Json) → accepts (copied o) ≡ (is_some o && accepts rest)
  accepts-copied none = refl
  accepts-copied (some field) = accepts-next rest
    where
      accepts-next :
          (r : Checked Fields) → accepts (r >>= λ out. ok ((key, field) ∷ out)) ≡ accepts r
      accepts-next (ok out) = refl
      accepts-next (fails m) = refl

  copied-IsCopy :
      (o : Option Json) (out : Fields)
      → ((field : Json) → o ≡ some field → (get key v ≡ some field) × HasType type field)
      → ((more : Fields) → rest ≡ ok more → IsCopy decl v more)
      → copied o ≡ ok out
      → IsCopy ((key, type) ∷ decl) v out
  copied-IsCopy none out k l h = cc
  copied-IsCopy (some field) out k l h = next-IsCopy rest refl h
    where
      next-IsCopy :
          (r : Checked Fields)
          → rest ≡ r
          → (r >>= λ more. ok ((key, field) ∷ more)) ≡ ok out
          → IsCopy ((key, type) ∷ decl) v out
      next-IsCopy (fails m) e q = cc
      next-IsCopy (ok more) e q =
          subst (IsCopy ((key, type) ∷ decl) v)
            (ap (λ (r : Checked Fields). elim r [ ok x ↦ x | fails _ ↦ [] ]) q)
            (refl, (k field refl).0, (k field refl).1, l more e)

copy_fields-accepts :
    (decl : SchemaDecl) (v : Fields) → accepts (copy_fields decl v) ≡ has_fields decl v
unfolding copy_fields
copy_fields-accepts [] v = refl
copy_fields-accepts ((key, type) ∷ decl) v =
    accepts-copied key type decl v (copy_fields decl v) _ (fits type (get key v))
    ∙ ap (λ b. is_some (fits type (get key v)) && b) (copy_fields-accepts decl v)
    ∙ ap (λ b. b && has_fields decl v) (fits-has_type type (get key v))

copy_fields-IsCopy :
    (decl : SchemaDecl) (v out : Fields) → copy_fields decl v ≡ ok out → IsCopy decl v out
unfolding copy_fields
copy_fields-IsCopy [] v [] h = tt
copy_fields-IsCopy [] v (f ∷ out) h = cc
copy_fields-IsCopy ((key, type) ∷ decl) v out h =
    copied-IsCopy key type decl v (copy_fields decl v) _ (fits type (get key v)) out
      (λ field e. fits-HasType type (get key v) field e)
      (λ more e. copy_fields-IsCopy decl v more e) h

-- A compiled schema accepts an object exactly when each declared field is there with its declared
-- type, and returns those fields with their values, in the order of the declaration, and no other.
pub validate-IsCopy :
    (decl : SchemaDecl) (ms : Members)
    → (accepts (validate decl (object ms)) ≡ has_fields decl (fields ms))
      × ((out : Fields) → validate decl (object ms) ≡ ok out → IsCopy decl (fields ms) out)
unfolding validate
validate-IsCopy decl ms =
    (copy_fields-accepts decl (fields ms), λ out h. copy_fields-IsCopy decl (fields ms) out h)
