-- ===== src/LoopState/Returns.antt =====
-- src/loopState.ts: how a state leads back to `SelectTicket`.
use jme_loop_public.Prelude.{◌≡◌, refl, subst, ◌⊎◌, inl, inr, true, false, none, some, arith}
use jme_loop_public.LoopState.{
  LoopState, idle, select_ticket, refine_backlog, start_ticket, execute_plan, plan_ticket, review,
  close, merge_gate, done, blocked, needs_human, verification_failed, review_rejected,
  budget_exceeded, no_progress, state_name, same_state, failure_route, is_terminal, can_transition,
}

select_or_not : (u : LoopState) → (u ≡ select_ticket) ⊎ (same_state u select_ticket ≡ false)
unfolding same_state state_name
select_or_not idle = inr refl
select_or_not select_ticket = inl refl
select_or_not refine_backlog = inr refl
select_or_not start_ticket = inr refl
select_or_not execute_plan = inr refl
select_or_not plan_ticket = inr refl
select_or_not review = inr refl
select_or_not close = inr refl
select_or_not merge_gate = inr refl
select_or_not done = inr refl
select_or_not blocked = inr refl
select_or_not needs_human = inr refl
select_or_not verification_failed = inr refl
select_or_not review_rejected = inr refl
select_or_not budget_exceeded = inr refl
select_or_not no_progress = inr refl

pub same_select : (u : LoopState) → same_state u select_ticket ≡ true → u ≡ select_ticket
same_select u h = elim (select_or_not u) [ inl e ↦ e | inr no_it ↦ absurd (ground arith) ]

-- Out of a state that is not terminal and has no failure state, `SelectTicket` is entered directly.
pub direct_return :
    (u : LoopState)
    → is_terminal u ≡ false
    → failure_route u ≡ none
    → same_state u select_ticket ≡ false
    → can_transition u select_ticket ≡ true
unfolding is_terminal failure_route same_state can_transition state_name
direct_return idle h k l = refl
direct_return select_ticket h k l = absurd (ground (arith, l))
direct_return refine_backlog h k l = refl
direct_return start_ticket h k l = absurd (ground (arith, k))
direct_return execute_plan h k l = absurd (ground (arith, k))
direct_return plan_ticket h k l = refl
direct_return review h k l = absurd (ground (arith, k))
direct_return close h k l = refl
direct_return merge_gate h k l = refl
direct_return done h k l = absurd (ground (arith, h))
direct_return blocked h k l = refl
direct_return needs_human h k l = absurd (ground (arith, h))
direct_return verification_failed h k l = refl
direct_return review_rejected h k l = refl
direct_return budget_exceeded h k l = absurd (ground (arith, h))
direct_return no_progress h k l = absurd (ground (arith, h))

pub no_detour :
    (u f : LoopState)
    → failure_route u ≡ some f
    → same_state u select_ticket ≡ true
    → f ≡ select_ticket
unfolding failure_route
no_detour u f h k =
    let e : failure_route select_ticket ≡ some f =
      subst (λ s. failure_route s ≡ some f) (same_select u k) h in
    absurd (ground arith)
