-- ===== src/TicketOutcomes/Shipping.antt =====
-- src/ticketOutcomes.ts: when a ticket counts as merged.
use jme_loop_public.Prelude.{
  ℕ, suc, ◌+◌, String, ◌≡◌, refl, sym, ap, ◌∙◌, subst, ◌≢◌, Bool, true, false, not, ◌&&◌, ◌||◌,
  Option, none, some, List, [], ◌∷◌, ◌++◌, ◌==◌, any, length, or_else, Option-cases, inl, inr, In,
  arith,
}
use jme_loop_public.RunState.{RunEvent}
use jme_loop_public.TicketOutcomes.{
  TicketOutcome, Acc, no_acc, obj, as_str, Anchor, started, built_ticket, verification, decision,
  closed_ticket, flagged, absorb, accumulate, is_later, outcome_of, derive_ticket_outcomes,
}
use jme_loop_public.TicketOutcomes.Folding.{
  about, apply, follow_ticket, is_decision, decides, flags_ticket, Kept, accumulate-Unique, In-get,
  In-map, accumulate-acc, follow_ticket-append, follow_ticket-Before, follow_ticket-Kept,
}

-- What an outcome says after a decision for the action, when the ticket was flagged since or not.
abbrev pub Shipped : String → Bool → TicketOutcome → Type 0
Shipped action flag o =
    (o.pr_opened ≡ some true)
    × (o.merged ≡ (action == "auto-merge" && not flag))
    × (o.cleanup_pending ≡ flag)
    × (o.shipping_uncertain ≡ flag)

not-not : (b : Bool) → not (not b) ≡ b
not-not b = ground arith

outcome_of-Shipped :
    (id action : String) (m : ℕ) (flag : Bool) (a : Acc)
    → a.merge_index ≡ some m
    → a.merge_action ≡ some action
    → any (is_later m) a.flags ≡ flag
    → Shipped action flag (outcome_of (id, a))
unfolding outcome_of
outcome_of-Shipped id action m flag a i c f = rw (i, c, f) (refl, refl, not-not flag, refl)

is_the_decision : (t : Anchor) → is_decision (some t) ≡ true → t ≡ decision
is_the_decision t h = ground arith

about-decides : (id : String) (e : RunEvent) → decides id e ≡ true → about id e ≡ some decision
about-decides id e h = elim (Option-cases (about id e)) [
  | inl gone ↦ absurd (ground arith)
  | inr (t, is) ↦ is ∙ ap some (is_the_decision t (ground arith))
]

follow_ticket-decision :
    (id : String) (i : ℕ) (before after : List RunEvent) (e : RunEvent) (a : Acc)
    → about id e ≡ some decision
    → follow_ticket id i (before ++ e ∷ after) a
      ≡ follow_ticket id
          (suc (i + length before))
          after
          (absorb (i + length before) e decision (follow_ticket id i before a))
follow_ticket-decision id i before after e a h =
    follow_ticket-append id i before (e ∷ after) a
    ∙ ap
        (λ t.
          follow_ticket id (suc (i + length before)) after
            (apply (i + length before) e t (follow_ticket id i before a)))
        h

decided-Acc :
    (id : String) (before after : List RunEvent) (e : RunEvent)
    → decides id e ≡ true
    → any (decides id) after ≡ false
    → (m : ℕ) × ((follow_ticket id 0 (before ++ e ∷ after) no_acc).merge_index ≡ some m)
      × ((follow_ticket id 0 (before ++ e ∷ after) no_acc).merge_action
          ≡ some (as_str (obj e) "action"))
      × (any (is_later m) (follow_ticket id 0 (before ++ e ∷ after) no_acc).flags
          ≡ any (flags_ticket id) after)
unfolding absorb
decided-Acc id before after e d none_later =
    let m : ℕ = 0 + length before in
    let b : Acc = follow_ticket id 0 before no_acc in
    let quiet : any (is_later m) b.flags ≡ false =
      follow_ticket-Before id 0 before no_acc (λ n le. refl) m (omega arith) in
    let kept : Kept m (any (flags_ticket id) after) (absorb m e decision b)
        (follow_ticket id (suc m) after (absorb m e decision b)) =
      follow_ticket-Kept id m (suc m) after (absorb m e decision b) (omega arith) none_later in
    rw (follow_ticket-decision id 0 before after e no_acc (about-decides id e d))
      (m, kept.0, kept.1, kept.2 ∙ ap (λ x. x || any (flags_ticket id) after) quiet)

outcome-acc :
    (events : List RunEvent) (o : TicketOutcome)
    → In o (derive_ticket_outcomes events)
    → outcome_of (o.ticket_id, follow_ticket o.ticket_id 0 events no_acc) ≡ o
unfolding derive_ticket_outcomes
outcome-acc events o h =
    let (p, at, same) = In-map o (accumulate 0 events []) h in
    let found = In-get p (accumulate 0 events []) (accumulate-Unique 0 events [] tt) at in
    let folded : p.1 ≡ follow_ticket p.0 0 events no_acc =
      sym (ap (λ a. or_else a no_acc) found) ∙ accumulate-acc p.0 0 events [] in
    let key : p.0 ≡ o.ticket_id = unfold outcome_of in ap (λ x. x.ticket_id) same in
    ap (λ k. outcome_of (k, follow_ticket k 0 events no_acc)) (sym key)
    ∙ (ap (λ a. outcome_of (p.0, a)) (sym folded) ∙ same)

-- After its last merge decision a ticket's pull request counts as opened, the ticket counts as merged
-- exactly if the decision was to merge and no flag of the ticket follows, and a flag that follows
-- leaves the clean-up pending and the shipping uncertain.
pub outcome_after_decision :
    (before after : List RunEvent) (e : RunEvent) (o : TicketOutcome)
    → decides o.ticket_id e ≡ true
    → any (decides o.ticket_id) after ≡ false
    → In o (derive_ticket_outcomes (before ++ e ∷ after))
    → Shipped (as_str (obj e) "action") (any (flags_ticket o.ticket_id) after) o
outcome_after_decision before after e o d later h =
    let id = o.ticket_id in
    let (m, i, c, f) = decided-Acc id before after e d later in
    subst (λ x. Shipped (as_str (obj e) "action") (any (flags_ticket id) after) x)
      (outcome-acc (before ++ e ∷ after) o h)
      (outcome_of-Shipped id (as_str (obj e) "action") m (any (flags_ticket id) after)
        (follow_ticket id 0 (before ++ e ∷ after) no_acc) i c f)

apply-undecided :
    (i : ℕ) (e : RunEvent) (t : Option Anchor) (a : Acc)
    → is_decision t ≡ false
    → (apply i e t a).merge_index ≡ a.merge_index
unfolding absorb
apply-undecided i e none a h = refl
apply-undecided i e (some started) a h = refl
apply-undecided i e (some built_ticket) a h = refl
apply-undecided i e (some verification) a h = refl
apply-undecided i e (some decision) a h = absurd (ground arith)
apply-undecided i e (some closed_ticket) a h = refl
apply-undecided i e (some flagged) a h = refl

follow_ticket-undecided :
    (id : String) (i : ℕ) (es : List RunEvent) (a : Acc)
    → any (decides id) es ≡ false
    → (follow_ticket id i es a).merge_index ≡ a.merge_index
follow_ticket-undecided id i [] a h = refl
follow_ticket-undecided id i (e ∷ es) a h =
    follow_ticket-undecided id (suc i) es (apply i e (about id e) a) (ground arith)
    ∙ apply-undecided i e (about id e) a (ground arith)

-- Nothing was shipped: the pull request is not known to be open, and the clean-up is pending.
abbrev pub Unshipped : TicketOutcome → Type 0
Unshipped o =
    (o.merged ≡ false)
    × (o.pr_opened ≢ some true)
    × (o.cleanup_pending ≡ true)
    × (o.shipping_uncertain ≡ false)

outcome_of-Unshipped :
    (id : String) (a : Acc) → a.merge_index ≡ none → Unshipped (outcome_of (id, a))
unfolding outcome_of
outcome_of-Unshipped id a h = rw h (ground arith, ground arith, refl, refl)

-- A ticket without a merge decision in the log is not reported as merged, nor its pull request as
-- opened, and its clean-up is pending.
pub outcome_without_decision :
    (events : List RunEvent) (o : TicketOutcome)
    → any (decides o.ticket_id) events ≡ false
    → In o (derive_ticket_outcomes events)
    → Unshipped o
outcome_without_decision events o none_decides h =
    subst (λ x. Unshipped x) (outcome-acc events o h)
      (outcome_of-Unshipped o.ticket_id (follow_ticket o.ticket_id 0 events no_acc)
        (follow_ticket-undecided o.ticket_id 0 events no_acc none_decides))
