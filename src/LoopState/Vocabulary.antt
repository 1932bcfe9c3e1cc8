-- ===== src/LoopState/Vocabulary.antt =====
-- src/loopState.ts: the states against their persisted names.
use jme_loop_public.Prelude.{
  String, ◌≡◌, refl, ◌↔◌, Option, none, some, List, [], ◌∷◌, inl, inr, subst, ◌==◌, eq_iff, arith,
  Bool-cases,
}
use jme_loop_public.LoopState.{
  LoopState, idle, state_name, all_states, find_state, parse_loop_state,
}

-- Every state is read back from the name under which the store keeps it.
pub parse-state_name : (s : LoopState) → parse_loop_state (some (state_name s)) ≡ some s
unfolding parse_loop_state
parse-state_name idle = refl
parse-state_name _ = refl

find_state_sound :
    (value : String) (ss : List LoopState) {s : LoopState}
    → find_state value ss ≡ some s
    → state_name s ≡ value
unfolding find_state
find_state_sound value [] h = cc
find_state_sound value (t ∷ ss) {s} h = elim (Bool-cases (state_name t == value)) [
  | inl e ↦ ground (arith, eq_iff (state_name t) value)
  | inr e ↦ find_state_sound value ss (rw e at h)
]

-- The state that an optional name stands for: `Idle` if there is no name.
abbrev pub StandsFor : Option String → LoopState → Type 0
StandsFor none s = idle ≡ s
StandsFor (some name) s = state_name s ≡ name

-- A persisted phase parses to a state exactly if it is that state's name, or is absent and the
-- state is `Idle`.
pub parse_loop_state_iff :
    (value : Option String) (s : LoopState) → (parse_loop_state value ≡ some s) ↔ StandsFor value s
unfolding parse_loop_state
parse_loop_state_iff none s = ((λ e. ground arith), (λ e. ground arith))
parse_loop_state_iff (some name) s = (
  find_state_sound name all_states,
  λ e. subst (λ v. parse_loop_state (some v) ≡ some s) e (parse-state_name s),
)
