-- ===== src/Autonomy/Policy.antt =====
-- src/autonomy.ts: the effective mode, and what a policy makes of a decision.
use jme_loop_public.Prelude.{String, ◌≡◌, refl, ◌↔◌, true, Option, none, some, arith, min}
use jme_loop_public.MergeGate.{MergeDecision, auto_merge}
use jme_loop_public.Autonomy.{
  AutonomyMode, review, autopilot, AutonomyConfig, autonomy_rank, mode_of, honour, resolve_autonomy,
  resolve_autonomy_config, may_auto_merge, apply_autonomy,
}

-- The mode that is asked for: the default without a request, `review` if the request is no mode.
abbrev pub asked : AutonomyConfig → Option String → AutonomyMode
asked config none = config.default
asked config (some request) = elim (mode_of request) [ none ↦ review | some mode ↦ mode ]

honour_rank :
    (config : AutonomyConfig) (m : AutonomyMode)
    → autonomy_rank (honour config m).mode ≡ min (autonomy_rank m) (autonomy_rank config.ceiling)
unfolding honour autonomy_rank
honour_rank config m = ground arith

-- Under a configuration that the launch accepts, the effective autonomy is the lesser of what is
-- asked for and the ceiling; an epic's request that is no mode gives `review`.
pub resolve_autonomy_rank :
    (default_flag ceiling_flag request : Option String) {config : AutonomyConfig}
    → resolve_autonomy_config default_flag ceiling_flag ≡ some config
    → autonomy_rank (resolve_autonomy config request).mode
      ≡ min (autonomy_rank (asked config request)) (autonomy_rank config.ceiling)
unfolding resolve_autonomy_config resolve_autonomy
resolve_autonomy_rank default_flag ceiling_flag request h = ground arith

-- A policy lets an automatic merge through exactly in `autopilot`, and makes none of a decision to
-- open a pull request.
pub apply_autonomy_restricts :
    (d : MergeDecision) (mode : AutonomyMode)
    → ((apply_autonomy d mode).action ≡ auto_merge)
      ↔ ((d.action ≡ auto_merge) × (may_auto_merge mode ≡ true))
unfolding apply_autonomy may_auto_merge
apply_autonomy_restricts d review = ((λ h. ground arith), (λ h. ground arith))
apply_autonomy_restricts d autopilot = ((λ h. (h, refl)), (λ h. h.0))
