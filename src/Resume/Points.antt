-- ===== src/Resume/Points.antt =====
-- src/resume.ts: the run that a resume point belongs to.
use jme_loop_public.Prelude.{
  String, ◌≡◌, refl, sym, Bool, true, false, Option, none, some, List, any, Bool-cases,
  Option-cases, inl, inr, arith,
}
use jme_loop_public.RunState.{RunState, RunEvent}
use jme_loop_public.RunStore.{RunStore, read_events, latest_resumable_run}
use jme_loop_public.RunStore.Resumable.{IsResumable, latest_resumable_run-IsResumable}
use jme_loop_public.Resume.{
  ResumePoint, is_resume_phase, is_terminal_event, string_field, is_start_of, find_last, data_of,
  point_of, point_at, resolve_resume_point,
}

-- The run stands in a builder's phase with the point's ticket, and its log does not end it.
pub record IsInterrupted (events : List RunEvent) (state : RunState) (p : ResumePoint)
    : Type 0 where
  pub run_id : state.run_id ≡ p.run_id
  pub ticket : state.current_ticket_id ≡ some p.ticket_id
  pub phase : state.current_phase ≡ some p.phase
  pub builder : is_resume_phase p.phase ≡ true
  pub unfinished : any is_terminal_event events ≡ false

point_of_fields :
    (r t f : String) (s c : Option String) (p : ResumePoint)
    → point_of r t f s c ≡ some p
    → (r ≡ p.run_id) × (t ≡ p.ticket_id) × (f ≡ p.phase)
unfolding point_of
point_of_fields r t f none c p h = cc
point_of_fields r t f (some s) none p h = cc
point_of_fields r t f (some s) (some c) p h = ground arith

point_at-IsInterrupted :
    (events : List RunEvent) (state : RunState) (phase ticket : Option String) (p : ResumePoint)
    → state.current_phase ≡ phase
    → state.current_ticket_id ≡ ticket
    → point_at events state phase ticket ≡ some p
    → IsInterrupted events state p
unfolding point_at
point_at-IsInterrupted events state none ticket p a b h = cc
point_at-IsInterrupted events state (some f) none p a b h = cc
point_at-IsInterrupted events state (some f) (some t) p a b h =
    elim (Bool-cases (is_resume_phase f)) [
      | inr other ↦ absurd (ground (arith, h, other))
      | inl builder ↦ elim (Bool-cases (any is_terminal_event events)) [
        | inl over ↦ absurd (ground (arith, h, builder, over))
        | inr unended ↦
            let begun = data_of (find_last (is_start_of f t) none events) in
            let (r, i, k) =
              point_of_fields state.run_id t f (string_field begun "sessionId")
                (string_field begun "cwd") p (ground (arith, h, builder, unended)) in
            record {
              run_id = r;
              ticket = rw (b, i) refl;
              phase = rw (a, k) refl;
              builder = rw (sym k) builder;
              unfinished = unended;
            }
      ]
    ]

-- A resume point belongs to the run that the store gives as the latest to resume, which is one of
-- the store's and has the status `running`: it stands in the point's phase, which is a builder's
-- phase, works on the point's ticket, and has no event in its log that ends it.
pub resolve_resume_point-IsInterrupted :
    (before : String → String → Bool) (store : RunStore) (p : ResumePoint)
    → resolve_resume_point before store ≡ some p
    → (state : RunState) × (latest_resumable_run before store ≡ some state)
      × IsResumable store.states state
      × IsInterrupted (read_events state.run_id store) state p
unfolding resolve_resume_point
resolve_resume_point-IsInterrupted before store p h =
    elim (Option-cases (latest_resumable_run before store)) [
      | inl gone ↦ absurd (ground (arith, h, gone))
      | inr (state, found) ↦ (
        state,
        found,
        latest_resumable_run-IsResumable before store state found,
        point_at-IsInterrupted (read_events state.run_id store) state state.current_phase
            state.current_ticket_id p refl refl (ground (arith, h, found)),
      )
    ]
