-- ===== src/Autonomy.antt =====
-- The project's and the epics' autonomy policy (src/autonomy.ts), and the validation of its
-- configuration at the launch (src/config.ts).
pub mod Policy
use jme_loop_public.Prelude.{
  ℕ, String, Bool, true, false, Option, none, some, ◌==◌, ltb, if◌then◌else◌, ◌⊕◌,
}
use jme_loop_public.MergeGate.{MergeDecision, Action, auto_merge, open_pr}

pub data AutonomyMode : Type 0 where
  review autopilot : AutonomyMode

pub record AutonomyConfig : Type 0 where
  pub default : AutonomyMode
  pub ceiling : AutonomyMode

pub data Source : Type 0 where
  default epic : Source

pub record EffectiveAutonomy : Type 0 where
  pub mode : AutonomyMode
  pub source : Source
  pub clamped : Bool
  pub invalid_request : Bool

unfoldable pub autonomy_rank : AutonomyMode → ℕ
autonomy_rank autopilot = 1
autonomy_rank review = 0

-- The mode that a text names.
unfoldable pub mode_of : String → Option AutonomyMode
mode_of s = if s == "review" then some review else if s == "autopilot" then some autopilot else none

-- A request that names a mode.
honour : AutonomyConfig → AutonomyMode → EffectiveAutonomy
unfolding autonomy_rank
honour config request =
    if ltb (autonomy_rank config.ceiling) (autonomy_rank request)
    then record { mode = config.ceiling; source = epic; clamped = true; invalid_request = false }
    else record { mode = request; source = epic; clamped = false; invalid_request = false }

unfoldable pub resolve_autonomy : AutonomyConfig → Option String → EffectiveAutonomy
unfolding honour mode_of
resolve_autonomy config none = record {
  mode = config.default;
  source = default;
  clamped = false;
  invalid_request = false;
}
resolve_autonomy config (some request) = elim (mode_of request) [
  | none ↦ record { mode = review; source = epic; clamped = false; invalid_request = true }
  | some mode ↦ honour config mode
]

unfoldable pub may_auto_merge : AutonomyMode → Bool
may_auto_merge autopilot = true
may_auto_merge review = false

unfoldable pub may_edit_planning : AutonomyMode → Bool
may_edit_planning autopilot = true
may_edit_planning review = false

review_only : MergeDecision → Action → MergeDecision
review_only decision auto_merge = record {
  action = open_pr;
  reason = "autonomy: review mode — auto-merge disabled (was: " ⊕ decision.reason ⊕ ")";
}
review_only decision open_pr = decision

unfoldable pub apply_autonomy : MergeDecision → AutonomyMode → MergeDecision
unfolding review_only
apply_autonomy decision autopilot = decision
apply_autonomy decision review = review_only decision decision.action

-- A mode given on the command line; the default of the launch is `review`. An unknown text throws.
flag_mode : Option String → Option AutonomyMode
unfolding mode_of
flag_mode none = some review
flag_mode (some value) = mode_of value

-- `none` is the refusal to launch.
unfoldable pub resolve_autonomy_config : Option String → Option String → Option AutonomyConfig
unfolding flag_mode autonomy_rank
resolve_autonomy_config default_flag ceiling_flag = elim (flag_mode default_flag) [
  | none ↦ none
  | some def ↦ elim (flag_mode ceiling_flag) [
    | none ↦ none
    | some ceiling ↦
        if ltb (autonomy_rank ceiling) (autonomy_rank def)
        then none
        else some (record { default = def; ceiling = ceiling })
  ]
]
