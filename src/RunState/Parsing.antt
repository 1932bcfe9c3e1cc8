-- ===== src/RunState/Parsing.antt =====
-- src/runState.ts: the value that a snapshot is persisted as, and its parsing.
use jme_loop_public.Prelude.{
  map, or_else, ◌∙◌, String, ◌≡◌, refl, ap, ◌≢◌, Option, none, some, List, [], ◌∷◌, eq_iff, arith,
  int, pos, Number, Bool, true, false, ◌&&◌, is_some,
}
use jme_loop_public.Json.{
  Items, nil, cons, items, Members, end, member, Json, null, bool, num, str, array, object, Fields,
  fields, of_fields, of_texts,
}
use jme_loop_public.RunState.{
  RunState, RunQueue, RunStatus, is_nullable_text, is_string_array, is_status, queue_of, running,
  status_name, status_of, texts_of, ok, parse_run_state, is_non_empty_text,
}

nullable : Option String → Json
nullable none = null
nullable (some s) = str s

fields-of_fields : (fs : Fields) → fields (of_fields fs) ≡ fs
fields-of_fields [] = refl
fields-of_fields ((k, v) ∷ fs) = ap (λ l. (k, v) ∷ l) (fields-of_fields fs)

texts_of-of_texts : (ts : List String) → texts_of (of_texts ts) ≡ some ts
unfolding texts_of
texts_of-of_texts [] = refl
texts_of-of_texts (t ∷ ts) = rw (texts_of-of_texts ts)

cons_text :
    (s : String) (vs : List Json) (o : Option (List String)) (ts : List String)
    → ((us : List String) → o ≡ some us → vs ≡ map str us)
    → elim o [ none ↦ none | some us ↦ some (s ∷ us) ] ≡ some ts
    → str s ∷ vs ≡ map str ts
cons_text s vs none ts k h = cc
cons_text s vs (some us) ts k h =
    ap (λ l. str s ∷ l) (k us refl) ∙ ap (λ o. map str (or_else o [])) h

texts_of-items : (vs : Items) (ts : List String) → texts_of vs ≡ some ts → items vs ≡ map str ts
unfolding texts_of
texts_of-items nil ts h = ap (λ o. map str (or_else o [])) h
texts_of-items (cons (str s) vs) ts h =
    cons_text s (items vs) (texts_of vs) ts (λ us k. texts_of-items vs us k) h
texts_of-items (cons v vs) ts h = cc

-- An array that is one of texts has them as its items.
pub is_string_array-items :
    (vs : Items) (ts : List String)
    → is_string_array (some (array vs)) ≡ some ts
    → items vs ≡ map str ts
unfolding is_string_array
is_string_array-items vs ts h = texts_of-items vs ts h

abbrev is_text_value : Json → Bool
is_text_value (str s) = true
is_text_value _ = false

-- Every item is a text.
abbrev pub all_texts : Items → Bool
all_texts nil = true
all_texts (cons v vs) = is_text_value v && all_texts vs

is_some-cons_text :
    (s : String) (o : Option (List String)) (b : Bool)
    → is_some o ≡ b
    → is_some (elim o [ none ↦ none | some us ↦ some (s ∷ us) ]) ≡ b
is_some-cons_text s none b h = h
is_some-cons_text s (some us) b h = h

is_some-texts_of : (vs : Items) → is_some (texts_of vs) ≡ all_texts vs
unfolding texts_of
is_some-texts_of nil = refl
is_some-texts_of (cons (str s) vs) =
    is_some-cons_text s (texts_of vs) (all_texts vs) (is_some-texts_of vs)
is_some-texts_of (cons _ vs) = refl

pub is_some-is_string_array :
    (vs : Items) → is_some (is_string_array (some (array vs))) ≡ all_texts vs
unfolding is_string_array
is_some-is_string_array vs = is_some-texts_of vs

pub is_string_array-of_texts :
    (ts : List String) → is_string_array (some (array (of_texts ts))) ≡ some ts
unfolding is_string_array
is_string_array-of_texts ts = texts_of-of_texts ts

is_nullable_text-nullable : (o : Option String) → is_nullable_text (some (nullable o)) ≡ some o
unfolding is_nullable_text nullable
is_nullable_text-nullable none = refl
is_nullable_text-nullable (some s) = refl

is_status-status_name : (st : RunStatus) → is_status (some (str (status_name st))) ≡ some st
unfolding is_status status_of
is_status-status_name running = refl
is_status-status_name _ = refl

is_non_empty_text_of_ne : (s : String) → s ≢ "" → is_non_empty_text (some (str s)) ≡ some s
unfolding is_non_empty_text
is_non_empty_text_of_ne s h = ground (arith, eq_iff s "")

queue_members : RunQueue → Fields
queue_members q =
    ("processed", array (of_texts q.processed)) ∷ ("remaining", array (of_texts q.remaining)) ∷ []

queue_of-queue_members : (q : RunQueue) → queue_of (queue_members q) ≡ some q
unfolding queue_of queue_members
queue_of-queue_members q =
    ground (arith, texts_of-of_texts q.processed, texts_of-of_texts q.remaining)

unfoldable pub stringified_number : Number → Json
stringified_number (int n) = num (int n)
stringified_number _ = null

-- A value after `JSON.stringify` and `JSON.parse`: NaN and the infinities are null.
unfoldable mutual
  unfolding stringified_number

  pub stringified : Json → Json
  stringified null = null
  stringified (bool b) = bool b
  stringified (num n) = stringified_number n
  stringified (str s) = str s
  stringified (array vs) = array (stringified_items vs)
  stringified (object ms) = object (stringified_members ms)

  stringified_items : Items → Items
  stringified_items nil = nil
  stringified_items (cons v vs) = cons (stringified v) (stringified_items vs)

  stringified_members : Members → Members
  stringified_members end = end
  stringified_members (member k v ms) = member k (stringified v) (stringified_members ms)

-- The value that `JSON.stringify` writes for a snapshot, as `JSON.parse` reads it back.
pub persisted : RunState → Json
unfolding stringified
persisted s = stringified (
    object (
      of_fields (
        ("version", num (int (pos 1)))
        ∷ ("runId", str s.run_id)
        ∷ ("epicId", nullable s.epic_id)
        ∷ ("status", str (status_name s.status))
        ∷ ("startedAt", str s.started_at)
        ∷ ("updatedAt", str s.updated_at)
        ∷ ("currentTicketId", nullable s.current_ticket_id)
        ∷ ("currentPhase", nullable s.current_phase)
        ∷ ("queue", object (of_fields (queue_members s.queue)))
        ∷ ("budget", object (of_fields s.budget))
        ∷ ("noProgress", object (of_fields s.no_progress))
        ∷ [])))

-- The records of a snapshot with null for NaN and the infinities, the rest as it is.
abbrev pub finite : Fields → Fields
finite fs = map (λ (f : String × Json). (f.0, stringified f.1)) fs

stringified_items-of_texts : (ts : List String) → stringified_items (of_texts ts) ≡ of_texts ts
unfolding stringified
stringified_items-of_texts [] = refl
stringified_items-of_texts (t ∷ ts) = ap (λ l. cons (str t) l) (stringified_items-of_texts ts)

fields-stringified_members : (fs : Fields) → fields (stringified_members (of_fields fs)) ≡ finite fs
unfolding stringified
fields-stringified_members [] = refl
fields-stringified_members ((k, v) ∷ fs) =
    ap (λ l. (k, stringified v) ∷ l) (fields-stringified_members fs)

stringified-nullable : (o : Option String) → stringified (nullable o) ≡ nullable o
unfolding stringified nullable
stringified-nullable none = refl
stringified-nullable (some s) = refl

-- A snapshot whose run id is not empty is read back as it was persisted, except that NaN and the
-- infinities in its budget and no-progress records are read back as null.
pub parse_run_state-persisted :
    (s : RunState)
    → s.run_id ≢ ""
    → parse_run_state (persisted s)
      ≡ ok (record s { budget = finite s.budget; no_progress = finite s.no_progress })
unfolding parse_run_state persisted stringified stringified_number queue_members
parse_run_state-persisted s h = simp (
  is_non_empty_text_of_ne s.run_id h,
  is_nullable_text-nullable,
  stringified-nullable,
  stringified_items-of_texts,
  is_status-status_name,
  queue_of-queue_members,
  fields-stringified_members,
)
