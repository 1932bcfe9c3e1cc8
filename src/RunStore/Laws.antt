-- ===== src/RunStore/Laws.antt =====
-- src/runStore.ts: what a client reads after it wrote.
use jme_loop_public.Prelude.{
  String, ◌≡◌, refl, subst, Option, none, some, List, [], ◌∷◌, ◌++◌, eq_iff, get, set, get-set_self,
  ◌⊎◌, inl, inr, All, Bool-cases, ◌+◌, arith,
}
use jme_loop_public.RunState.{RunState, RunEvent}
use jme_loop_public.RunStore.{
  RunStore, Date, Stored, StoreError, ok, err, create_run, fresh_state, new_run_id, is_safe_epic,
  read_state, write_state, read_events, append_event,
}

-- Every snapshot is kept under its own run id.
abbrev pub IsKeyed : RunStore → Type 0
IsKeyed store = All (λ kv. kv.1.run_id ≡ kv.0) store.states

-- A snapshot that was written is read back, with the time of the write.
pub read_state-write_state :
    (now : Date) (s : RunState) (store : RunStore)
    → read_state s.run_id (write_state now s store).1 ≡ ok (record s { updated_at = now.iso })
unfolding read_state write_state
read_state-write_state now s store =
    rw (get-set_self s.run_id (record s { updated_at = now.iso }) store.states, read_state)

pub read_state-write_state_of_run_id :
    (now : Date) (s : RunState) (k : String) (store : RunStore)
    → s.run_id ≡ k
    → read_state k (write_state now s store).1 ≡ ok (record s { updated_at = now.iso })
read_state-write_state_of_run_id now s k store e =
    subst (λ j. read_state j (write_state now s store).1 ≡ ok (record s { updated_at = now.iso })) e
      (read_state-write_state now s store)

pub append_event-IsKeyed :
    (now : Date) (run_id : String) (e : RunEvent) (store : RunStore)
    → IsKeyed store
    → IsKeyed (append_event now run_id e store)
unfolding append_event
append_event-IsKeyed now run_id e store h = h

pub read_state-append_event :
    (now : Date) (run_id k : String) (e : RunEvent) (store : RunStore)
    → read_state k (append_event now run_id e store) ≡ read_state k store
unfolding read_state append_event
read_state-append_event now run_id k e store = refl

pub read_events-append_event :
    (now : Date) (run_id : String) (e : RunEvent) (store : RunStore)
    → read_events run_id (append_event now run_id e store)
      ≡ read_events run_id store ++ record e { ts = now.iso } ∷ []
unfolding read_events append_event
read_events-append_event now run_id e store = simp get-set_self

pub read_events-write_state :
    (now : Date) (s : RunState) (k : String) (store : RunStore)
    → read_events k (write_state now s store).1 ≡ read_events k store
unfolding read_events write_state
read_events-write_state now s k store = refl

All-set :
    (s : RunState) (m : List (String × RunState))
    → All (λ kv. kv.1.run_id ≡ kv.0) m
    → All (λ kv. kv.1.run_id ≡ kv.0) (set s.run_id s m)
All-set s [] h = (refl, tt)
All-set s ((j, w) ∷ m) (p, h) = ground (arith, All-set s m h)

pub write_state-IsKeyed :
    (now : Date) (s : RunState) (store : RunStore)
    → IsKeyed store
    → IsKeyed (write_state now s store).1
unfolding write_state
write_state-IsKeyed now s store h = All-set (record s { updated_at = now.iso }) store.states h

-- Creating a run keeps the snapshots under their run ids.
pub create_run-IsKeyed :
    (now : Date) (epic_id : Option String) (queue : List String) (store : RunStore)
    → IsKeyed store
    → IsKeyed (create_run now epic_id queue store).1
unfolding create_run
create_run-IsKeyed now epic_id queue store h = elim (Bool-cases (is_safe_epic epic_id)) [
  | inl safe ↦ rw safe (
      All-set (fresh_state (new_run_id epic_id now (store.seq + 1)) epic_id queue now) store.states
        h)
  | inr unsafe ↦ rw unsafe h
]

get-IsKeyed :
    (k : String) (m : List (String × RunState)) (s : RunState)
    → All (λ kv. kv.1.run_id ≡ kv.0) m
    → get k m ≡ some s
    → s.run_id ≡ k
get-IsKeyed k [] s h e = cc
get-IsKeyed k ((j, w) ∷ m) s (p, h) e = ground (arith, eq_iff j k, get-IsKeyed k m s h)

pub read_state-IsKeyed :
    (k : String) (store : RunStore) (s : RunState)
    → IsKeyed store
    → read_state k store ≡ ok s
    → s.run_id ≡ k
unfolding read_state
read_state-IsKeyed k store s h e = ground (arith, get-IsKeyed k store.states s h)

pub Stored-cases {ℓ} :
    {A : Type ℓ} (r : Stored A) → ((a : A) × (r ≡ ok a)) ⊎ ((e : StoreError) × (r ≡ err e))
Stored-cases (ok a) = inl (a, refl)
Stored-cases (err e) = inr (e, refl)

-- A run that was created is read back as it was returned, and its log is empty.
pub create_run_reads :
    (now : Date) (epic_id : Option String) (queue : List String) (store : RunStore) (s : RunState)
    → (create_run now epic_id queue store).0 ≡ ok s
    → let after = (create_run now epic_id queue store).1 in
      (read_state s.run_id after ≡ ok s)
      × (read_events s.run_id after ≡ [])
      × (s.current_phase ≡ none)
unfolding create_run read_state read_events
create_run_reads now epic_id queue store s h =
    let n = store.seq + 1 in
    let id = new_run_id epic_id now n in
    elim (Bool-cases (is_safe_epic epic_id)) [
      | inr unsafe ↦ ground (arith, unsafe)
      | inl safe ↦ ground (
        arith,
        safe,
        get-set_self id (fresh_state id epic_id queue now) store.states,
        get-set_self id [] store.events,
      )
    ]
