-- ===== src/Resume.antt =====
-- src/resume.ts, `resolveResumePoint`: the point at which an interrupted run is taken up again.
pub mod Points
use jme_loop_public.Prelude.{
  String, Bool, true, false, ◌&&◌, ◌||◌, Option, none, some, or_else, List, [], ◌∷◌, ◌==◌, any, get,
  if◌then◌else◌,
}
use jme_loop_public.Json.{Json, str, Fields}
use jme_loop_public.RunState.{RunState, RunEvent}
use jme_loop_public.RunStore.{RunStore, read_events, latest_resumable_run}

pub record ResumePoint : Type 0 where
  pub run_id : String
  pub ticket_id : String
  pub phase : String
  pub session_id : String
  pub cwd : String

unfoldable pub is_resume_phase : String → Bool
is_resume_phase phase = phase == "ExecutePlan" || phase == "Review"

unfoldable pub is_terminal_event : RunEvent → Bool
is_terminal_event e = e.type == "run.completed" || e.type == "run.stopped" || e.type == "run.failed"

as_text : Option Json → Option String
as_text (some (str s)) = some s
as_text _ = none

-- A text field that is not empty.
unfoldable pub string_field : Fields → String → Option String
unfolding as_text
string_field data_fields key = elim (as_text (get key data_fields)) [
  | none ↦ none
  | some s ↦ if s == "" then none else some s
]

-- `(event.x ?? event.data?.x) === value`.
names_value : Option String → Option Json → String → Bool
unfolding as_text
names_value (some s) field value = s == value
names_value none field value = elim (as_text field) [ none ↦ false | some s ↦ s == value ]

unfoldable pub is_start_of : String → String → RunEvent → Bool
unfolding names_value
is_start_of phase ticket_id e =
    let data_fields = or_else e.data_fields [] in
    e.type == "runner.started"
    && names_value e.phase (get "phase" data_fields) phase
    && names_value e.ticket_id (get "ticketId" data_fields) ticket_id

-- The last event that passes.
unfoldable pub find_last : (RunEvent → Bool) → Option RunEvent → List RunEvent → Option RunEvent
find_last p found [] = found
find_last p found (e ∷ es) = find_last p (if p e then some e else found) es

data_of : Option RunEvent → Fields
data_of none = []
data_of (some e) = or_else e.data_fields []

-- The point, if the session and its directory are known.
point_of : String → String → String → Option String → Option String → Option ResumePoint
point_of run_id ticket_id phase (some session) (some cwd) = some (record {
  run_id = run_id;
  ticket_id = ticket_id;
  phase = phase;
  session_id = session;
  cwd = cwd;
})
point_of run_id ticket_id phase _ _ = none

-- A run that is in a phase and works on a ticket.
point_at : List RunEvent → RunState → Option String → Option String → Option ResumePoint
unfolding data_of point_of
point_at events state (some phase) (some ticket_id) =
    let started = data_of (find_last (is_start_of phase ticket_id) none events) in
    if is_resume_phase phase
    then if any is_terminal_event events
      then none
      else point_of state.run_id ticket_id phase (string_field started "sessionId")
          (string_field started "cwd")
    else none
point_at events state _ _ = none

unfoldable pub resolve_resume_point : (String → String → Bool) → RunStore → Option ResumePoint
unfolding point_at
resolve_resume_point before store = elim (latest_resumable_run before store) [
  | none ↦ none
  | some state ↦
      point_at (read_events state.run_id store) state state.current_phase state.current_ticket_id
]
