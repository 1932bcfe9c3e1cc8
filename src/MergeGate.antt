-- ===== src/MergeGate.antt =====
-- The risk-based merge gate (src/mergeGate.ts) and the data that it decides on (src/types.ts,
-- src/diff.ts, src/contentRisk.ts). A measured coverage is a fraction of ten thousand; the source's
-- is a number between 0 and 1.
pub mod Decisions
use jme_loop_public.Prelude.{
  ℕ, ◌+◌, ◌/◌, String, Bool, true, false, Option, none, some, List, [], ◌∷◌, ◌++◌, map, keep, any,
  ltb, is_some, or_else, if◌then◌else◌, ◌⊕◌, decimal, join, is_empty,
}
use text.Mathlib.Text.{find?}

pub data Detector : Type 0 where
  secrets destructive_migration license autonomy_key : Detector

unfoldable pub detector_name : Detector → String
detector_name secrets = "secrets"
detector_name destructive_migration = "destructive-migration"
detector_name license = "license"
detector_name autonomy_key = "autonomy-key"

pub record ContentRiskFinding : Type 0 where
  pub detector : Detector
  pub file : String
  pub rule : String
  pub evidence : String

pub record DiffSummary : Type 0 where
  pub changed_files : List String
  pub changed_lines : ℕ
  pub touches_public_api : Bool
  pub affected_coverage : Option ℕ
  pub content_risks : List ContentRiskFinding

pub data CiSignalState : Type 0 where
  green red pending_timeout no_signal : CiSignalState

pub record CiObservation : Type 0 where
  pub state : CiSignalState
  pub detail : Option String

pub data Verdict : Type 0 where
  approve request_changes escalate : Verdict

pub record ReviewResult : Type 0 where
  pub verdict : Verdict
  pub findings : String

pub data RiskLevel : Type 0 where
  low high : RiskLevel

pub record RiskAssessment : Type 0 where
  pub level : RiskLevel
  pub reasons : List String

pub data Action : Type 0 where
  auto_merge open_pr : Action

pub record MergeDecision : Type 0 where
  pub action : Action
  pub reason : String

-- The part of the loop's configuration that the gate reads.
pub record GateConfig : Type 0 where
  pub protected_paths : List String
  pub max_auto_merge_diff_lines : ℕ

-- 0.4, in ten thousandths.
abbrev pub thin_coverage_threshold : ℕ
thin_coverage_threshold = 4000

-- `text.includes(part)`.
abbrev pub includes_text : String → String → Bool
includes_text text part = is_some (find? text part)

unfoldable pub hit_protected : DiffSummary → GateConfig → List String
hit_protected diff config =
    keep (λ f. any (λ p. includes_text f p) config.protected_paths) diff.changed_files

protected_reasons : List String → List String
protected_reasons [] = []
protected_reasons (f ∷ fs) = ("touches protected paths: " ⊕ join ", " (f ∷ fs)) ∷ []

api_reasons : Bool → List String
api_reasons true = "changes a public API / contract" ∷ []
api_reasons false = []

-- The percentage is rounded to the nearest.
coverage_reasons : Option ℕ → List String
coverage_reasons none = []
coverage_reasons (some c) =
    if ltb c thin_coverage_threshold
    then ("thin test coverage (" ⊕ decimal ((c + 50) / 100) ⊕ "%)") ∷ []
    else []

size_reasons : ℕ → ℕ → List String
size_reasons lines most =
    if ltb most lines then ("large diff (" ⊕ decimal lines ⊕ " lines)") ∷ [] else []

content_reason : ContentRiskFinding → String
unfolding detector_name
content_reason f =
    "content risk ["
    ⊕ detector_name f.detector
    ⊕ "] in "
    ⊕ f.file
    ⊕ ": "
    ⊕ f.rule
    ⊕ " — "
    ⊕ f.evidence

level_of : List String → RiskLevel
level_of [] = low
level_of (_ ∷ _) = high

unfoldable pub classify_risk : DiffSummary → GateConfig → RiskAssessment
unfolding hit_protected protected_reasons api_reasons coverage_reasons size_reasons level_of
    content_reason
classify_risk diff config =
    let reasons =
      protected_reasons (hit_protected diff config)
      ++ (api_reasons diff.touches_public_api
          ++ (coverage_reasons diff.affected_coverage
              ++ (size_reasons diff.changed_lines config.max_auto_merge_diff_lines
                  ++ map content_reason diff.content_risks))) in
    record { level = level_of reasons; reasons = reasons }

open_pr_because : String → MergeDecision
open_pr_because reason = record { action = open_pr; reason = reason }

-- After a green observation.
decide_green : ReviewResult → RiskAssessment → MergeDecision
unfolding open_pr_because
decide_green review risk = elim review.verdict [
  | escalate ↦ open_pr_because ("escalated for human judgment: " ⊕ review.findings)
  | request_changes ↦ open_pr_because ("reviewer requested changes:\n" ⊕ review.findings)
  | approve ↦ elim risk.level [
    | high ↦ open_pr_because ("escalated as high-risk:\n- " ⊕ join "\n- " risk.reasons)
    | low ↦ record { action = auto_merge; reason = "green + approved + low-risk" }
  ]
]

unfoldable pub decide_merge : CiObservation → ReviewResult → RiskAssessment → MergeDecision
unfolding decide_green
decide_merge ci review risk = elim ci.state [
  | red ↦ open_pr_because ("CI red: " ⊕ or_else ci.detail "checks failed")
  | pending_timeout ↦
      open_pr_because
        ("CI still pending: " ⊕ or_else ci.detail "deadline reached" ⊕ " — not assuming green")
  | no_signal ↦
      open_pr_because
        "no CI signal (no checks configured, or checks unobservable) — not assuming green"
  | green ↦ decide_green review risk
]
