-- ===== src/LoopState/Paths.antt =====
-- src/loopState.ts: what the table of legal moves allows in several steps.
use jme_loop_public.Prelude.{◌≡◌, refl, subst, true, false, Option, some, List, [], ◌∷◌}
use mathlib.Core.Option.{some-injective}
use jme_loop_public.LoopState.{
  LoopState, idle, select_ticket, refine_backlog, start_ticket, execute_plan, plan_ticket, review,
  close, merge_gate, done, blocked, needs_human, verification_failed, review_rejected,
  budget_exceeded, no_progress, can_transition, is_terminal, failure_route,
}

-- A run of the machine: the states that it left, the last one first, and the one it is in.
pub data Run (s : LoopState) : List LoopState → LoopState → Type 0 where
  here : Run s [] s
  next :
      {left : List LoopState} {t u : LoopState}
      → Run s left t
      → can_transition t u ≡ true
      → Run s (t ∷ left) u

pub Run-last :
    {s u : LoopState} {left : List LoopState}
    → Run s left u
    → (s ≡ u → ⊥)
    → (t : LoopState) × (rest : List LoopState) × (left ≡ t ∷ rest)
      × Run s rest t
      × (can_transition t u ≡ true)
Run-last here h = absurd (h refl)
Run-last (next {left} {t} r legal) h = (t, left, refl, r, legal)

-- One legal move after another, without the history.
infix 40 ◌⟶*◌
pub data ◌⟶*◌ : LoopState → LoopState → Type 0 where
  stay : {s : LoopState} → s ⟶* s
  move : {s t u : LoopState} → can_transition s t ≡ true → t ⟶* u → s ⟶* u

trans : {s t u : LoopState} → s ⟶* t → t ⟶* u → s ⟶* u
trans stay q = q
trans (move legal p) q = move legal (trans p q)

select-done : select_ticket ⟶* done
unfolding can_transition
select-done = move refl stay

-- From every state that is not terminal the run can still end as completed.
pub can_finish : (s : LoopState) → is_terminal s ≡ false → s ⟶* done
unfolding can_transition is_terminal
can_finish idle h = move {t = select_ticket} refl select-done
can_finish select_ticket h = select-done
can_finish refine_backlog h = move {t = select_ticket} refl select-done
can_finish start_ticket h = move {t = blocked} refl (move {t = select_ticket} refl select-done)
can_finish execute_plan h = move {t = plan_ticket} refl (move {t = select_ticket} refl select-done)
can_finish plan_ticket h = move {t = select_ticket} refl select-done
can_finish review h = move {t = review_rejected} refl (move {t = select_ticket} refl select-done)
can_finish close h = move {t = select_ticket} refl select-done
can_finish merge_gate h = move {t = select_ticket} refl select-done
can_finish blocked h = move {t = select_ticket} refl select-done
can_finish verification_failed h = move {t = select_ticket} refl select-done
can_finish review_rejected h = move {t = select_ticket} refl select-done
can_finish _ h = cc

-- A terminal state is left by no move.
pub terminal_stays : (s t : LoopState) → is_terminal s ≡ true → can_transition s t ≡ false
unfolding can_transition is_terminal
terminal_stays done t h = refl
terminal_stays needs_human t h = refl
terminal_stays budget_exceeded t h = refl
terminal_stays no_progress t h = refl
terminal_stays _ t h = cc

-- No state is reached from a terminal one but itself.
pub terminal_absorbs : {s t : LoopState} → is_terminal s ≡ true → s ⟶* t → s ≡ t
terminal_absorbs h stay = refl
terminal_absorbs {s} h (move {t = u} legal p) = cc (terminal_stays s u h)

-- A legal way from `s` through `f`, which is not terminal, to `SelectTicket`.
abbrev pub Detour : LoopState → LoopState → Type 0
Detour s f =
    (can_transition s f ≡ true) × (can_transition f select_ticket ≡ true) × (is_terminal f ≡ false)

Detour-to :
    (s : LoopState) {f g : LoopState}
    → Detour s f
    → Path (Option LoopState) (some f) (some g)
    → Detour s g
Detour-to s d e = subst (Detour s) (some-injective _ _ e) d

-- The failure state of an active state is entered legally, is not terminal, and leads back to
-- `SelectTicket` by one legal move.
pub failure_route_sound : (s : LoopState) {f : LoopState} → failure_route s ≡ some f → Detour s f
unfolding can_transition is_terminal failure_route
failure_route_sound start_ticket h = Detour-to start_ticket {f = blocked} (refl, refl, refl) h
failure_route_sound execute_plan h =
    Detour-to execute_plan {f = verification_failed} (refl, refl, refl) h
failure_route_sound review h = Detour-to review {f = review_rejected} (refl, refl, refl) h
failure_route_sound _ h = cc
