-- ===== src/Tests/Interrupted.antt =====
-- The resume point of a run that was interrupted while its plan was executed.
use jme_loop_public.Prelude.{String, Bool, ◌≡◌, refl, true, none, some, [], ◌∷◌}
use jme_loop_public.Json.{str}
use jme_loop_public.RunState.{RunState, RunEvent, running}
use jme_loop_public.RunStore.{RunStore, read_events, latest_resumable_run}
use jme_loop_public.RunStore.Resumable.{IsResumable}
use jme_loop_public.Resume.{
  ResumePoint, is_resume_phase, is_terminal_event, string_field, is_start_of, find_last,
  resolve_resume_point,
}
use jme_loop_public.Resume.Points.{IsInterrupted, resolve_resume_point-IsInterrupted}

abbrev executing : RunState
executing = record {
  run_id = "EPIC-1-20260612T120000-1";
  epic_id = some "EPIC-1";
  status = running;
  started_at = "2026-06-12T12:00:00.000Z";
  updated_at = "2026-06-12T12:05:00.000Z";
  current_ticket_id = some "TICKET-001";
  current_phase = some "ExecutePlan";
  queue = record { processed = []; remaining = [] };
  budget = [];
  no_progress = [];
}

abbrev runner_started : String → RunEvent
runner_started session = record {
  ts = "2026-06-12T12:01:00.000Z";
  type = "runner.started";
  ticket_id = some "TICKET-001";
  phase = none;
  data_fields =
      some (("phase", str "ExecutePlan") ∷ ("sessionId", str session) ∷ ("cwd", str "/tmp/w") ∷ []);
}

abbrev interrupted : RunStore
interrupted = record {
  states = (executing.run_id, executing) ∷ [];
  events = (executing.run_id, runner_started "s1" ∷ runner_started "s2" ∷ []) ∷ [];
  artifacts = [];
  seq = 1;
}

abbrev same_start : String → String → Bool
same_start a b = true

-- The last start of the phase counts.
abbrev point : ResumePoint
point = record {
  run_id = "EPIC-1-20260612T120000-1";
  ticket_id = "TICKET-001";
  phase = "ExecutePlan";
  session_id = "s2";
  cwd = "/tmp/w";
}

resolves : resolve_resume_point same_start interrupted ≡ some point
unfolding resolve_resume_point latest_resumable_run read_events is_resume_phase is_terminal_event
    string_field find_last is_start_of
resolves = refl

resolve_resume_point-IsInterrupted_example :
    (state : RunState) × (latest_resumable_run same_start interrupted ≡ some state)
    × IsResumable interrupted.states state
    × IsInterrupted (read_events state.run_id interrupted) state point
resolve_resume_point-IsInterrupted_example =
    resolve_resume_point-IsInterrupted same_start interrupted point resolves
