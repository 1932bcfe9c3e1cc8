-- ===== src/RunStore/Resumable.antt =====
-- src/runStore.ts, `latestResumableRun`: which run is taken up again.
use jme_loop_public.Prelude.{
  String, ◌≡◌, refl, Bool, true, false, none, some, List, [], ◌∷◌, In, inl, inr, arith,
  if◌then◌else◌, subst, ◌==◌,
}
use jme_loop_public.RunState.{RunState, RunStatus, running, completed, stopped, failed, status_name}
use jme_loop_public.RunStore.{RunStore, is_running, running_states, latest, latest_resumable_run}

-- A run that goes on, and that the table of runs has under some key.
pub record IsResumable (m : List (String × RunState)) (state : RunState) : Type 0 where
  pub status : state.status ≡ running
  pub key : String
  pub stored : In (key, state) m

runs : (st : RunStatus) → (status_name st == "running") ≡ true → st ≡ running
unfolding status_name
runs running h = refl
runs completed h = absurd (ground (arith, h))
runs stopped h = absurd (ground (arith, h))
runs failed h = absurd (ground (arith, h))

IsResumable-later :
    (e : String × RunState) {m : List (String × RunState)} {s : RunState}
    → IsResumable m s
    → IsResumable (e ∷ m) s
IsResumable-later e r = record { status = r.status; key = r.key; stored = inr r.stored }

running_states-if :
    (k : String) (t : RunState) (m : List (String × RunState)) (s : RunState)
    → ((s : RunState) → In s (running_states m) → IsResumable m s)
    → (b : Bool) → (b ≡ true → t.status ≡ running)
    → In s (if b then t ∷ running_states m else running_states m)
    → IsResumable ((k, t) ∷ m) s
running_states-if k t m s rest false w i = IsResumable-later (k, t) (rest s i)
running_states-if k t m s rest true w (inr i) = IsResumable-later (k, t) (rest s i)
running_states-if k t m s rest true w (inl e) =
    subst (IsResumable ((k, t) ∷ m)) e (record { status = w refl; key = k; stored = inl refl })

running_states-IsResumable :
    (m : List (String × RunState)) (s : RunState) → In s (running_states m) → IsResumable m s
unfolding running_states is_running
running_states-IsResumable [] s i = elim i [ ]
running_states-IsResumable ((k, t) ∷ m) s i =
    running_states-if k t m s (running_states-IsResumable m) (status_name t.status == "running")
      (runs t.status) i

latest-if :
    (before : String → String → Bool) (best s : RunState) (ss : List RunState) (b : Bool)
    → In (latest before (if b then best else s) ss) ((if b then best else s) ∷ ss)
    → In (latest before (if b then best else s) ss) (best ∷ s ∷ ss)
latest-if before best s ss true (inl e) = inl e
latest-if before best s ss true (inr i) = inr (inr i)
latest-if before best s ss false i = inr i

latest-In :
    (before : String → String → Bool) (best : RunState) (ss : List RunState)
    → In (latest before best ss) (best ∷ ss)
unfolding latest
latest-In before best [] = inl refl
latest-In before best (s ∷ ss) =
    latest-if before best s ss (before s.started_at best.started_at)
      (latest-In before (if before s.started_at best.started_at then best else s) ss)

of_states :
    (before : String → String → Bool) (m : List (String × RunState)) (found : List RunState)
    → ((s : RunState) → In s found → IsResumable m s)
    → {state : RunState}
    → (elim found [ [] ↦ none | s ∷ ss ↦ some (latest before s ss) ]) ≡ some state
    → IsResumable m state
of_states before m [] all h = cc
of_states before m (s ∷ ss) all h =
    subst (IsResumable m) (cc h) (all (latest before s ss) (latest-In before s ss))

-- The run to resume is one of the store's, and its status is `running`.
pub latest_resumable_run-IsResumable :
    (before : String → String → Bool) (store : RunStore) (state : RunState)
    → latest_resumable_run before store ≡ some state
    → IsResumable store.states state
unfolding latest_resumable_run
latest_resumable_run-IsResumable before store state h =
    of_states before store.states (running_states store.states)
      (running_states-IsResumable store.states) h
