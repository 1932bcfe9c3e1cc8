-- ===== src/LoopKernel/Histories.antt =====
-- src/loopKernel.ts: a run that the driver moves, over any sequence of calls, and the history that
-- its log tells.
use jme_loop_public.Prelude.{
  String, ◌≡◌, refl, subst, ◌≢◌, inl, inr, ap, sym, ◌∙◌, true, false, Option, some, List, [], ◌∷◌,
  ◌++◌, ◌==◌, or_else, if◌then◌else◌, arith, Bool-cases,
}
use mathlib.Core.Path.{ap₂}
use mathlib.Core.List.{append_assoc}
use jme_loop_public.LoopState.{
  LoopState, idle, merge_gate, state_name, is_terminal, parse_loop_state,
}
use jme_loop_public.LoopState.Vocabulary.{parse-state_name}
use jme_loop_public.LoopState.Paths.{Run, here, next, terminal_stays}
use jme_loop_public.LoopState.Gates.{Run-to_merge_gate}
use jme_loop_public.RunState.{RunState, RunEvent}
use jme_loop_public.RunStore.{RunStore, Date, ok, create_run, read_state, read_events}
use jme_loop_public.RunStore.Laws.{IsKeyed, create_run-IsKeyed, create_run_reads}
use jme_loop_public.LoopKernel.{TransitionGuard, AdvanceOptions, moved, transition_event, advance}
use jme_loop_public.LoopKernel.Advance.{MayMove, advance_cases, advance_effect}

-- One call of `advance`.
pub record Attempt : Type 0 where
  pub now : Date
  pub to : LoopState
  pub opts : AdvanceOptions

-- The phases of the transition events of a log, in their order.
unfoldable pub logged : List RunEvent → List String
logged [] = []
logged (e ∷ es) = if e.type == "loop.transition" then or_else e.phase "" ∷ logged es else logged es

logged-append : (xs ys : List RunEvent) → logged (xs ++ ys) ≡ logged xs ++ logged ys
unfolding logged
logged-append [] ys = refl
logged-append (x ∷ xs) ys = ground (arith, logged-append xs ys)

-- The names of the states that a run entered, in their order.
unfoldable pub entered : List LoopState → LoopState → List String
entered [] u = []
entered (t ∷ left) u = entered left t ++ state_name u ∷ []

-- The run's snapshot stands in `u`, and its log tells a legal run from `Idle` to `u`.
pub record IsHistory (run_id : String) (left : List LoopState) (u : LoopState) (store : RunStore)
    : Type 0 where
  pub state : RunState
  pub stored : read_state run_id store ≡ ok state
  pub stands : parse_loop_state state.current_phase ≡ some u
  pub legal : Run idle left u
  pub told : logged (read_events run_id store) ≡ entered left u
  pub keyed : IsKeyed store

abbrev pub HasHistory : String → RunStore → Type 0
HasHistory run_id store = (left : List LoopState) × (u : LoopState) × IsHistory run_id left u store

pub parse-moved :
    (to : LoopState) (opts : AdvanceOptions) (state : RunState)
    → parse_loop_state (moved to opts state).current_phase ≡ some to
unfolding moved
parse-moved to opts state = elim (Bool-cases (is_terminal to)) [
  | inl e ↦ rw e (parse-state_name to)
  | inr e ↦ rw e (parse-state_name to)
]

logged-transition_event :
    (now : Date) (from to : LoopState) (opts : AdvanceOptions)
    → logged (record (transition_event from to opts) { ts = now.iso } ∷ []) ≡ state_name to ∷ []
unfolding logged transition_event
logged-transition_event now from to opts = refl

true-ne-false : true ≢ false
true-ne-false h = cc

-- Two readings of one run stand in one state.
same_stand :
    (run_id : String) (store : RunStore) (s s' : RunState) {u u' : LoopState}
    → read_state run_id store ≡ ok s
    → read_state run_id store ≡ ok s'
    → parse_loop_state s.current_phase ≡ some u
    → parse_loop_state s'.current_phase ≡ some u'
    → u ≡ u'
same_stand run_id store s s' r r' p p' =
    let e : s ≡ s' = cc in cc (ap (λ (x : RunState). parse_loop_state x.current_phase) e)

IsHistory-after :
    (now : Date) (guards : List TransitionGuard) (run_id : String) (to : LoopState)
    (opts : AdvanceOptions) (store : RunStore) (state : RunState) (from : LoopState)
    (left : List LoopState)
    → IsHistory run_id left from store
    → MayMove now guards run_id to store state from
    → IsHistory run_id (from ∷ left) to (advance now guards run_id to opts store).1
unfolding entered
IsHistory-after now guards run_id to opts store state from left h m =
    let (stored, events, keyed) = advance_effect now guards run_id to opts h.keyed m in
    record {
      state = record (moved to opts state) { updated_at = now.iso };
      stored = stored;
      stands = parse-moved to opts state;
      legal = next h.legal m.legal;
      told =
          ap logged events
          ∙ logged-append (read_events run_id store) _
          ∙ ap₂ ◌++◌ h.told (logged-transition_event now from to opts);
      keyed = keyed;
    }

module _ (guards : List TransitionGuard) (run_id : String) where
  -- The calls in turn; one that throws has left the store as it was.
  unfoldable pub drive : List Attempt → RunStore → RunStore
  drive [] store = store
  drive (a ∷ calls) store = drive calls (advance a.now guards run_id a.to a.opts store).1

  advance_history :
      (a : Attempt) (store : RunStore)
      → HasHistory run_id store
      → HasHistory run_id (advance a.now guards run_id a.to a.opts store).1
  advance_history a store (left, u, h) =
      elim (advance_cases a.now guards run_id a.to a.opts store) [
        | inr (e, q) ↦ (left, u, subst (IsHistory run_id left u) (sym (ap (λ r. r.1) q)) h)
        | inl (state, from, m) ↦
            let e = same_stand run_id store h.state state h.stored m.stored h.stands m.stands in
            (
              from ∷ left,
              a.to,
              IsHistory-after a.now guards run_id a.to a.opts store state from left
                  (subst (λ v. IsHistory run_id left v store) e h) m,
            )
      ]

  -- Whatever calls of `advance` are made, the log goes on telling a legal run to the persisted
  -- phase.
  pub drive_history :
      (calls : List Attempt) (store : RunStore)
      → HasHistory run_id store
      → HasHistory run_id (drive calls store)
  unfolding drive
  drive_history [] store h = h
  drive_history (a ∷ calls) store h =
      drive_history calls (advance a.now guards run_id a.to a.opts store).1
        (advance_history a store h)

  stuck_at_terminal :
      (a : Attempt) (store : RunStore) (state : RunState) (u : LoopState)
      → read_state run_id store ≡ ok state
      → parse_loop_state state.current_phase ≡ some u
      → is_terminal u ≡ true
      → (advance a.now guards run_id a.to a.opts store).1 ≡ store
  stuck_at_terminal a store state u r p t =
      elim (advance_cases a.now guards run_id a.to a.opts store) [
        | inr (e, q) ↦ ap (λ x. x.1) q
        | inl (state', from, m) ↦
            let e = same_stand run_id store state state' r m.stored p m.stands in
            absurd (
              true-ne-false
                (sym m.legal ∙ terminal_stays from a.to (subst (λ v. is_terminal v ≡ true) e t)))
      ]

  -- Once a run stands in a terminal state, no call of `advance` changes the store.
  pub drive_at_terminal :
      (calls : List Attempt) (store : RunStore) (state : RunState) (u : LoopState)
      → read_state run_id store ≡ ok state
      → parse_loop_state state.current_phase ≡ some u
      → is_terminal u ≡ true
      → drive calls store ≡ store
  unfolding drive
  drive_at_terminal [] store state u r p t = refl
  drive_at_terminal (a ∷ calls) store state u r p t =
      ap (drive calls) (stuck_at_terminal a store state u r p t)
      ∙ drive_at_terminal calls store state u r p t

  -- A run whose log tells its history stands in `MergeGate` only if the log ends with the moves to
  -- `ExecutePlan`, `Review`, `Close` and `MergeGate`.
  log_at_merge_gate :
      (store : RunStore) (state : RunState)
      → HasHistory run_id store
      → read_state run_id store ≡ ok state
      → state.current_phase ≡ some (state_name merge_gate)
      → (earlier : List String) × (logged (read_events run_id store)
          ≡ earlier ++ "ExecutePlan" ∷ "Review" ∷ "Close" ∷ "MergeGate" ∷ [])
  unfolding entered state_name
  log_at_merge_gate store state (left, u, h) r p =
      let stands : parse_loop_state state.current_phase ≡ some merge_gate =
        ap parse_loop_state p ∙ parse-state_name merge_gate in
      let e = same_stand run_id store h.state state h.stored r h.stands stands in
      let (t, rest, q) = Run-to_merge_gate (subst (Run idle left) e h.legal) in
      (entered rest t, h.told ∙ ap₂ entered q e ∙ (simp append_assoc))

-- A fresh run, driven by whatever calls of `advance`, stands in `MergeGate` only if the transition
-- events of its log end with the moves to `ExecutePlan`, `Review`, `Close` and `MergeGate`.
pub created_run_at_merge_gate :
    (now : Date) (epic_id : Option String) (queue : List String) (store : RunStore) (s : RunState)
    (guards : List TransitionGuard) (calls : List Attempt) (state : RunState)
    → IsKeyed store
    → (create_run now epic_id queue store).0 ≡ ok s
    → read_state s.run_id (drive guards s.run_id calls (create_run now epic_id queue store).1)
      ≡ ok state
    → state.current_phase ≡ some (state_name merge_gate)
    → (earlier : List String) × (logged (
          read_events s.run_id (drive guards s.run_id calls (create_run now epic_id queue store).1))
        ≡ earlier ++ "ExecutePlan" ∷ "Review" ∷ "Close" ∷ "MergeGate" ∷ [])
created_run_at_merge_gate now epic_id queue store s guards calls state keyed c r p =
    let (stored, no_events, phase) = create_run_reads now epic_id queue store s c in
    let start : HasHistory s.run_id (create_run now epic_id queue store).1 = (
      [],
      idle,
      record {
        state = s;
        stored = stored;
        stands = unfold parse_loop_state in ap parse_loop_state phase;
        legal = here;
        told = unfold logged entered in ap logged no_events;
        keyed = create_run-IsKeyed now epic_id queue store keyed;
      },
    ) in
    log_at_merge_gate guards s.run_id _ state (drive_history guards s.run_id calls _ start) r p
