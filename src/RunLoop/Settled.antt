-- ===== src/RunLoop/Settled.antt =====
-- src/orchestrator.ts, `runLoop`: a run that the loop returns from has ended.
use jme_loop_public.Prelude.{
  String, ◌≡◌, refl, sym, ap, ◌∙◌, subst, ◌⊎◌, inl, inr, Bool, true, false, ◌||◌, List, [], ◌∷◌,
  ◌++◌, ◌==◌, ends, if◌then◌else◌,
}
use jme_loop_public.LoopState.{LoopState, done, same_state, is_terminal}
use jme_loop_public.RunState.{RunState, RunEvent, RunStatus, completed, stopped}
use jme_loop_public.RunStore.{
  RunStore, Date, Stored, ok, err, read_state, write_state, read_events, append_event,
}
use jme_loop_public.RunStore.Laws.{
  IsKeyed, read_state-write_state_of_run_id, read_events-append_event,
}
use jme_loop_public.LoopKernel.{TransitionGuard, return, AdvanceOptions, no_options, advance, moved}
use jme_loop_public.LoopKernel.Advance.{
  advance_cases, advance_effect, moved_at_terminal, return-ne-throw,
}

-- The events that end a run's log.
abbrev pub is_final : RunEvent → Bool
is_final e = e.type == "run.completed" || e.type == "run.stopped"

-- The run's snapshot says that it ended, and its log ends with the event that says so.
pub record HasEnded (run_id : String) (store : RunStore) : Type 0 where
  pub session : RunState
  pub stored : read_state run_id store ≡ ok session
  pub status : (session.status ≡ completed) ⊎ (session.status ≡ stopped)
  pub last : ends is_final (read_events run_id store) ≡ true

pub ends-append {ℓ} :
    {A : Type ℓ} (p : A → Bool) (xs : List A) (x : A) → ends p (xs ++ x ∷ []) ≡ p x
ends-append p [] x = refl
ends-append p (y ∷ []) x = refl
ends-append p (y ∷ z ∷ xs) x = ends-append p (z ∷ xs) x

-- The event is written to a store whose snapshot has ended.
pub append_event-HasEnded :
    (now : Date) (run_id : String) (e : RunEvent) (store : RunStore) (session : RunState)
    → read_state run_id store ≡ ok session
    → (session.status ≡ completed) ⊎ (session.status ≡ stopped)
    → is_final e ≡ true
    → HasEnded run_id (append_event now run_id e store)
unfolding append_event read_state
append_event-HasEnded now run_id e store session r s f = record {
  session = session;
  stored = r;
  status = s;
  last =
      rw (read_events-append_event now run_id e store)
        (ends-append is_final (read_events run_id store) (record e { ts = now.iso }) ∙ f);
}

-- A snapshot that ended is written, and then the event.
pub write_state-HasEnded :
    (now : Date) (run_id : String) (e : RunEvent) (session : RunState) (store : RunStore)
    → session.run_id ≡ run_id
    → (session.status ≡ completed) ⊎ (session.status ≡ stopped)
    → is_final e ≡ true
    → HasEnded run_id (append_event now run_id e (write_state now session store).1)
write_state-HasEnded now run_id e session store k s f =
    append_event-HasEnded now run_id e (write_state now session store).1
      (record session { updated_at = now.iso })
      (read_state-write_state_of_run_id now session run_id store k) s f

ok-injective : (a b : RunState) → Stored.ok a ≡ ok b → a ≡ b
ok-injective a b p = ap (λ (x : Stored RunState). elim x [ ok s ↦ s | err _ ↦ a ]) p

ended :
    {status : RunStatus} (b : Bool)
    → status ≡ (if b then completed else stopped)
    → (status ≡ completed) ⊎ (status ≡ stopped)
ended true h = inl h
ended false h = inr h

module _ (now : Date) (guards : List TransitionGuard) (run_id : String) where
  pub advance-IsKeyed :
      (to : LoopState) (opts : AdvanceOptions) (store : RunStore)
      → IsKeyed store
      → IsKeyed (advance now guards run_id to opts store).1
  advance-IsKeyed to opts store k = elim (advance_cases now guards run_id to opts store) [
    | inl (state, from, m) ↦ (advance_effect now guards run_id to opts k m).2
    | inr (e, q) ↦ subst IsKeyed (sym (ap (λ r. r.1) q)) k
  ]

  -- Where a move to a terminal state is made, the snapshot has ended.
  pub advance_to_terminal :
      (to s : LoopState) (opts : AdvanceOptions) (store : RunStore)
      → IsKeyed store
      → is_terminal to ≡ true
      → (advance now guards run_id to opts store).0 ≡ return s
      → (session : RunState) × (read_state run_id (advance now guards run_id to opts store).1
          ≡ ok session)
        × ((session.status ≡ completed) ⊎ (session.status ≡ stopped))
  advance_to_terminal to s opts store k t h = elim (advance_cases now guards run_id to opts store) [
    | inr (e, q) ↦ absurd (return-ne-throw (sym h ∙ ap (λ r. r.0) q))
    | inl (state, from, m) ↦ (
      record (moved to opts state) { updated_at = now.iso },
      (advance_effect now guards run_id to opts k m).0,
      ended (same_state to done) (moved_at_terminal to opts state t).0,
    )
  ]

  -- A move to `Done` completes the run, whose queue stays.
  pub advance_to_done :
      (s : LoopState) (store : RunStore) (state : RunState)
      → IsKeyed store
      → read_state run_id store ≡ ok state
      → (advance now guards run_id done no_options store).0 ≡ return s
      → (session : RunState) × (read_state run_id
            (advance now guards run_id done no_options store).1
          ≡ ok session)
        × (session.status ≡ completed)
        × (session.queue ≡ state.queue)
  unfolding moved is_terminal
  advance_to_done s store state k r h =
      elim (advance_cases now guards run_id done no_options store) [
        | inr (e, q) ↦ absurd (return-ne-throw (sym h ∙ ap (λ r. r.0) q))
        | inl (before, from, m) ↦ (
          record (moved done no_options before) { updated_at = now.iso },
          (advance_effect now guards run_id done no_options k m).0,
          refl,
          ap (λ (x : RunState). x.queue) (ok-injective before state (sym m.stored ∙ r)),
        )
      ]
