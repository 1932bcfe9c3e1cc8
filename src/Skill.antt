-- ===== src/Skill.antt =====
-- src/skill.ts, src/skillProvider.ts and src/skillRunner.ts: a skill is asked for structured output,
-- asked again when the output is invalid, and the attempts that failed are kept as artifacts. A
-- validator is a function of the parsed value; `JSON.parse` and what a provider answers are inputs.
pub mod Asking
pub mod Keeping
pub mod Names
pub mod Judging
use Prim.Native.Char
use Prim.Native.String.{String}
use jme_loop_public.Prelude.{
  ℕ, zero, suc, ◌+◌, Option, none, some, or_else, List, [], ◌∷◌, ◌++◌, ◌⊕◌, eqb, length, decimal,
  set, if◌then◌else◌,
}
use jme_loop_public.Json.{Json}
use jme_loop_public.TicketIds.{pad_three}

pub record SkillAttempt : Type 0 where
  pub raw_output : String
  pub validation_error : String

-- What a call of a skill throws: SkillOutputError, SkillProviderError, or another error.
pub data SkillError : Type 0 where
  output_error : (message : String) → List SkillAttempt → SkillError
  provider_error other_error : (message : String) → SkillError

pub data Answer : Type 0 where
  answered : Json → Answer
  thrown : SkillError → Answer

-- A validator returns the value, or throws with a message.
pub data Validated : Type 0 where
  valid : Json → Validated
  invalid : (message : String) → Validated

abbrev pub Validator : Type 0
Validator = Json → Validated

pub record SkillProvider : Type 0 where
  pub extract : (calls : ℕ) (prompt : String) → Validator → (model : String) → Answer

pub record Skill : Type 0 where
  pub name : String
  pub description : String
  pub input_schema : Validator
  pub output_schema : Validator
  pub run : Json → SkillProvider → (model : String) → Answer

failed_attempt : String → String → Answer
failed_attempt raw message =
    thrown (output_error message (record { raw_output = raw; validation_error = message } ∷ []))

-- `json` is `JSON.parse`, with the message of its error.
module _ (json : String → Validated) where
  unfoldable pub parse_and_validate : String → Validator → Answer
  unfolding failed_attempt
  parse_and_validate raw output_schema = elim (json raw) [
    | invalid message ↦ failed_attempt raw ("output is not valid JSON: " ⊕ message)
    | valid parsed ↦ elim (output_schema parsed) [
      | invalid message ↦ failed_attempt raw ("output failed schema validation: " ⊕ message)
      | valid value ↦ answered value
    ]
  ]

  -- The completion of the call with a number: its output, or none when the call failed.
  unfoldable pub create_cli_skill_provider :
      ((calls : ℕ) (prompt model : String) → Option String) → SkillProvider
  unfolding parse_and_validate
  create_cli_skill_provider complete = record {
    extract = λ calls prompt schema model. elim (complete calls prompt model) [
      | none ↦ thrown (provider_error ("provider call failed (model=" ⊕ model ⊕ ")"))
      | some output ↦ parse_and_validate output schema
    ];
  }

last : List SkillAttempt → Option SkillAttempt
last [] = none
last (a ∷ []) = some a
last (_ ∷ b ∷ bs) = last (b ∷ bs)

-- A call of the provider, and what it returned or threw.
pub record Call : Type 0 where
  pub prompt : String
  pub answer : Answer

abbrev pub default_max_re_asks : ℕ
default_max_re_asks = 2

-- What the handler makes of an answer: the end, or another question after an attempt. An error
-- without attempts has no last one, and reading its field throws a TypeError.
pub data Turn : Type 0 where
  finished : Answer → Turn
  retry : SkillAttempt → Turn

unfoldable pub judge : Answer → Turn
unfolding last
judge (thrown (output_error message found)) = elim (last found) [
  | none ↦
      finished
        (thrown (other_error "Cannot read properties of undefined (reading 'validationError')"))
  | some attempt ↦ retry attempt
]
judge answer = finished answer

module _ (provider : SkillProvider) (schema : Validator) (base_prompt model : String) where
  abbrev pub re_ask : String → String
  re_ask message =
      base_prompt ⊕ "\n\nYour previous output failed validation: " ⊕ message
      ⊕ "\nReturn ONLY valid JSON matching the required schema."

  abbrev pub exhausted : List SkillAttempt → String → Answer
  exhausted attempts message = thrown (
      output_error
        ("skill output invalid after " ⊕ decimal (length attempts) ⊕ " attempt(s): " ⊕ message)
        attempts)

  abbrev pub call_at : ℕ → String → Call
  call_at i prompt = record { prompt = prompt; answer = provider.extract i prompt schema model }

  -- The calls from the one with the number `i` on, when so many may follow it.
  unfoldable pub ask : (left i : ℕ) (prompt : String) → List SkillAttempt → Answer × List Call
  unfolding judge
  ask zero i prompt attempts =
      let call = call_at i prompt in
      elim (judge call.answer) [
        | finished result ↦ (result, call ∷ [])
        | retry a ↦ (exhausted (attempts ++ a ∷ []) a.validation_error, call ∷ [])
      ]
  ask (suc left) i prompt attempts =
      let call = call_at i prompt in
      elim (judge call.answer) [
        | finished result ↦ (result, call ∷ [])
        | retry a ↦
            let rest = ask left (suc i) (re_ask a.validation_error) (attempts ++ a ∷ []) in
            (rest.0, call ∷ rest.1)
      ]

  unfoldable pub extract_structured : Option ℕ → Answer × List Call
  unfolding ask
  extract_structured max_re_asks = ask (or_else max_re_asks default_max_re_asks) 0 base_prompt []

-- `replaceAll("/", "_")`.
safe_name : String → String
safe_name String.[] = ""
safe_name (String.◌∷◌ c s) =
    let rest = safe_name s in
    if eqb (Prim.Native.Char.code c) b'/' then "_" ⊕ rest else String.◌∷◌ c rest

unfoldable pub attempt_name : String → ℕ → String
unfolding safe_name
attempt_name skill_name index =
    "skill-" ⊕ safe_name skill_name ⊕ "-attempt-" ⊕ pad_three (index + 1) ⊕ ".txt"

-- A file written for a ticket, or at the run's root.
pub record Artifact : Type 0 where
  pub ticket_id : Option String
  pub name : String
  pub content : String

-- The files of one place, by name, after some artifacts are written there: one whose name is there
-- already overwrites it.
unfoldable pub written : List (String × String) → List Artifact → List (String × String)
written files [] = files
written files (a ∷ artifacts) = written (set a.name a.content files) artifacts

module _ (ticket_id : Option String) (skill_name : String) (write : Artifact → Option String) where
  -- The attempts from the one with the number `i` on; a write that throws ends them with its message.
  unfoldable pub keep_attempts : ℕ → List SkillAttempt → Option String × List Artifact
  unfolding attempt_name
  keep_attempts i [] = (none, [])
  keep_attempts i (a ∷ attempts) =
      let file : Artifact = record {
        ticket_id = ticket_id;
        name = attempt_name skill_name i;
        content = a.raw_output;
      } in
      let rest = keep_attempts (suc i) attempts in
      elim (write file) [ some message ↦ (some message, []) | none ↦ (rest.0, file ∷ rest.1) ]

  -- The handler around a skill's run: what it throws, and the artifacts.
  unfoldable pub after_run : Answer → Answer × List Artifact
  unfolding keep_attempts
  after_run (thrown (output_error message attempts)) =
      let kept = keep_attempts 0 attempts in
      elim kept.0 [
        | some failure ↦ (thrown (other_error failure), kept.1)
        | none ↦ (thrown (output_error message attempts), kept.1)
      ]
  after_run answer = (answer, [])

  unfoldable pub invoke_skill :
      (String → Option Skill) → Json → SkillProvider → (model : String) → Answer × List Artifact
  unfolding after_run
  invoke_skill resolve input provider model = elim (resolve skill_name) [
    | none ↦ (thrown (other_error ("no skill registered under '" ⊕ skill_name ⊕ "'")), [])
    | some skill ↦ elim (skill.input_schema input) [
      | invalid message ↦ after_run (thrown (other_error message))
      | valid value ↦ after_run (skill.run value provider model)
    ]
  ]
