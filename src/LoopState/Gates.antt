-- ===== src/LoopState/Gates.antt =====
-- src/loopState.ts: the order of the gates that a ticket passes.
use jme_loop_public.Prelude.{◌≡◌, subst, true, List, ◌∷◌, arith}
use jme_loop_public.LoopState.{
  LoopState, idle, execute_plan, review, close, merge_gate, can_transition,
}
use jme_loop_public.LoopState.Paths.{Run, Run-last}

before_merge_gate : (t : LoopState) → can_transition t merge_gate ≡ true → t ≡ close
unfolding can_transition
before_merge_gate t h = ground arith

before_close : (t : LoopState) → can_transition t close ≡ true → t ≡ review
unfolding can_transition
before_close t h = ground arith

before_review : (t : LoopState) → can_transition t review ≡ true → t ≡ execute_plan
unfolding can_transition
before_review t h = ground arith

Run-to_execute_plan :
    {left : List LoopState}
    → Run idle left execute_plan
    → (t : LoopState) × (rest : List LoopState) × (left ≡ t ∷ rest)
Run-to_execute_plan r = let (t, rest, e, _, _) = Run-last r (λ p. cc) in (t, rest, e)

Run-to_review :
    {left : List LoopState}
    → Run idle left review
    → (t : LoopState) × (rest : List LoopState) × (left ≡ execute_plan ∷ t ∷ rest)
Run-to_review r =
    let (x, rest, e, r', legal) = Run-last r (λ p. cc) in
    let x_execute = before_review x legal in
    let (t, rest', e') = Run-to_execute_plan (subst (Run idle rest) x_execute r') in (t, rest', cc)

Run-to_close :
    {left : List LoopState}
    → Run idle left close
    → (t : LoopState) × (rest : List LoopState) × (left ≡ review ∷ execute_plan ∷ t ∷ rest)
Run-to_close r =
    let (x, rest, e, r', legal) = Run-last r (λ p. cc) in
    let x_review = before_close x legal in
    let (t, rest', e') = Run-to_review (subst (Run idle rest) x_review r') in (t, rest', cc)

-- A run that started at `Idle` and stands at `MergeGate` left some state, `ExecutePlan`, `Review`
-- and `Close` last, in this order.
pub Run-to_merge_gate :
    {left : List LoopState}
    → Run idle left merge_gate
    → (t : LoopState) × (rest : List LoopState) × (left ≡ close ∷ review ∷ execute_plan ∷ t ∷ rest)
Run-to_merge_gate r =
    let (x, rest, e, r', legal) = Run-last r (λ p. cc) in
    let x_close = before_merge_gate x legal in
    let (t, rest', e') = Run-to_close (subst (Run idle rest) x_close r') in (t, rest', cc)
