-- ===== src/TicketOutcomes/Folding.antt =====
-- src/ticketOutcomes.ts: the fold over the events, one ticket at a time.
use jme_loop_public.Prelude.{
  ℕ, suc, ◌+◌, ◌<◌, ◌≤◌, String, ◌≡◌, refl, sym, ap, ◌∙◌, Bool, true, false, ◌||◌, Option, none,
  some, List, [], ◌∷◌, ◌++◌, map, ◌==◌, eq_iff, eq_refl, eq_to_path, get, set, get-set, any, length,
  or_else, if◌then◌else◌, Bool-cases, inl, inr, In, arith,
}
use jme_loop_public.RunState.{RunEvent}
use jme_loop_public.TicketOutcomes.{
  TicketOutcome, Acc, no_acc, obj, as_str, Anchor, started, built_ticket, verification, decision,
  closed_ticket, flagged, anchor_of, absorb, ticket_of, Accs, absorb_for, accumulate, is_later,
  outcome_of,
}

-- What the fold gathers for one ticket.
abbrev pub acc_for : String → Accs → Acc
acc_for id accs = or_else (get id accs) no_acc

-- Keys occur once.
abbrev pub Unique : Accs → Type 0
Unique [] = Unit
Unique (e ∷ es) = (get e.0 es ≡ none) × Unique es

set-Unique : (k : String) (a : Acc) (accs : Accs) → Unique accs → Unique (set k a accs)
set-Unique k a [] h = (refl, tt)
set-Unique k a (e ∷ es) (f, h) =
    ground (arith, get-set e.0 k a es, eq_iff e.0 k, eq_iff k e.0, set-Unique k a es)

absorb_for-Unique :
    (i : ℕ) (e : RunEvent) (t : Option Anchor) (id : Option String) (accs : Accs)
    → Unique accs
    → Unique (absorb_for i e t id accs)
unfolding absorb_for
absorb_for-Unique i e none id accs h = h
absorb_for-Unique i e (some t) none accs h = h
absorb_for-Unique i e (some t) (some id) accs h = set-Unique id _ accs h

pub accumulate-Unique :
    (i : ℕ) (es : List RunEvent) (accs : Accs) → Unique accs → Unique (accumulate i es accs)
unfolding accumulate
accumulate-Unique i [] accs h = h
accumulate-Unique i (e ∷ es) accs h =
    accumulate-Unique (suc i) es _ (absorb_for-Unique i e (anchor_of e.type) (ticket_of e) accs h)

pub In-get : (p : String × Acc) (accs : Accs) → Unique accs → In p accs → get p.0 accs ≡ some p.1
In-get p [] u h = absurd h
In-get p (e ∷ es) (f, u) (inl h) = rw (sym h) (ground (arith, eq_refl e.0))
In-get p (e ∷ es) (f, u) (inr h) = ground (arith, eq_iff e.0 p.0, In-get p es u h)

pub In-map :
    (o : TicketOutcome) (accs : Accs)
    → In o (map outcome_of accs)
    → (p : String × Acc) × In p accs × (outcome_of p ≡ o)
In-map o [] h = absurd h
In-map o (e ∷ es) (inl h) = (e, inl refl, h)
In-map o (e ∷ es) (inr h) = let (p, k, q) = In-map o es h in (p, inr k, q)

-- The anchor of an event that is about the ticket.
abbrev pub about : String → RunEvent → Option Anchor
about id e = elim (ticket_of e) [
  | none ↦ none
  | some t ↦ if t == id then anchor_of e.type else none
]

abbrev pub apply : ℕ → RunEvent → Option Anchor → Acc → Acc
apply i e none a = a
apply i e (some t) a = absorb i e t a

-- The fold over the events of one ticket.
abbrev pub follow_ticket : String → ℕ → List RunEvent → Acc → Acc
follow_ticket id i [] a = a
follow_ticket id i (e ∷ es) a = follow_ticket id (suc i) es (apply i e (about id e) a)

absorb_for-acc :
    (id : String) (i : ℕ) (e : RunEvent) (t : Option Anchor) (at : Option String) (accs : Accs)
    → acc_for id (absorb_for i e t at accs)
      ≡ apply i e (elim at [ none ↦ none | some k ↦ if k == id then t else none ]) (acc_for id accs)
unfolding absorb_for
absorb_for-acc id i e none none accs = refl
absorb_for-acc id i e none (some k) accs = elim (Bool-cases (k == id)) [
  | inl same ↦ rw same refl
  | inr other ↦ rw other refl
]
absorb_for-acc id i e (some t) none accs = refl
absorb_for-acc id i e (some t) (some k) accs = elim (Bool-cases (k == id)) [
  | inl same ↦
      let eq = eq_to_path k id same in
      rw (get-set id k (absorb i e t (or_else (get k accs) no_acc)) accs, same) (rw eq refl)
  | inr other ↦ rw (get-set id k (absorb i e t (or_else (get k accs) no_acc)) accs, other) refl
]

pub accumulate-acc :
    (id : String) (i : ℕ) (es : List RunEvent) (accs : Accs)
    → acc_for id (accumulate i es accs) ≡ follow_ticket id i es (acc_for id accs)
unfolding accumulate
accumulate-acc id i [] accs = refl
accumulate-acc id i (e ∷ es) accs =
    accumulate-acc id (suc i) es (absorb_for i e (anchor_of e.type) (ticket_of e) accs)
    ∙ ap (λ a. follow_ticket id (suc i) es a)
        (absorb_for-acc id i e (anchor_of e.type) (ticket_of e) accs)

abbrev pub is_decision : Option Anchor → Bool
is_decision (some decision) = true
is_decision _ = false

abbrev pub is_flag : Option Anchor → Bool
is_flag (some flagged) = true
is_flag _ = false

abbrev pub decides : String → RunEvent → Bool
decides id e = is_decision (about id e)

abbrev pub flags_ticket : String → RunEvent → Bool
flags_ticket id e = is_flag (about id e)

pub follow_ticket-append :
    (id : String) (i : ℕ) (xs ys : List RunEvent) (a : Acc)
    → follow_ticket id i (xs ++ ys) a
      ≡ follow_ticket id (i + length xs) ys (follow_ticket id i xs a)
follow_ticket-append id i [] ys a = ap (λ n. follow_ticket id n ys a) (omega arith)
follow_ticket-append id i (x ∷ xs) ys a =
    follow_ticket-append id (suc i) xs ys (apply i x (about id x) a)
    ∙ ap (λ n. follow_ticket id n ys (follow_ticket id (suc i) xs (apply i x (about id x) a)))
        (omega arith)

any-append :
    (p : ℕ × String → Bool) (xs ys : List (ℕ × String)) → any p (xs ++ ys) ≡ (any p xs || any p ys)
any-append p [] ys = refl
any-append p (x ∷ xs) ys = ground (arith, any-append p xs ys)

-- No flag stands at the index or after it.
abbrev pub Before : ℕ → Acc → Type 0
Before i a = (m : ℕ) → i ≤ suc m → any (is_later m) a.flags ≡ false

apply-Before :
    (i : ℕ) (e : RunEvent) (t : Option Anchor) (a : Acc)
    → Before i a
    → Before (suc i) (apply i e t a)
unfolding absorb
apply-Before i e none a h m le = h m (omega arith)
apply-Before i e (some started) a h m le = h m (omega arith)
apply-Before i e (some built_ticket) a h m le = h m (omega arith)
apply-Before i e (some verification) a h m le = h m (omega arith)
apply-Before i e (some decision) a h m le = h m (omega arith)
apply-Before i e (some closed_ticket) a h m le = h m (omega arith)
apply-Before i e (some flagged) a h m le = ground (
  arith,
  any-append (is_later m) a.flags ((i, or_else e.phase (as_str (obj e) "phase")) ∷ []),
  h m (omega arith),
)

pub follow_ticket-Before :
    (id : String) (i : ℕ) (es : List RunEvent) (a : Acc)
    → Before i a
    → Before (i + length es) (follow_ticket id i es a)
follow_ticket-Before id i [] a h m le = h m (omega arith)
follow_ticket-Before id i (e ∷ es) a h m le =
    follow_ticket-Before id (suc i) es (apply i e (about id e) a)
      (apply-Before i e (about id e) a h) m (omega arith)

-- What later events without a decision leave of one.
abbrev pub Kept : ℕ → Bool → Acc → Acc → Type 0
Kept m more a b =
    (b.merge_index ≡ a.merge_index)
    × (b.merge_action ≡ a.merge_action)
    × (any (is_later m) b.flags ≡ (any (is_later m) a.flags || more))

apply-Kept :
    (m i : ℕ) (e : RunEvent) (t : Option Anchor) (a : Acc)
    → m < i
    → is_decision t ≡ false
    → Kept m (is_flag t) a (apply i e t a)
unfolding absorb
apply-Kept m i e none a lt h = (refl, refl, ground arith)
apply-Kept m i e (some started) a lt h = (refl, refl, ground arith)
apply-Kept m i e (some built_ticket) a lt h = (refl, refl, ground arith)
apply-Kept m i e (some verification) a lt h = (refl, refl, ground arith)
apply-Kept m i e (some decision) a lt h = absurd (ground arith)
apply-Kept m i e (some closed_ticket) a lt h = (refl, refl, ground arith)
apply-Kept m i e (some flagged) a lt h = (
  refl,
  refl,
  ground
      (arith, any-append (is_later m) a.flags ((i, or_else e.phase (as_str (obj e) "phase")) ∷ [])),
)

pub follow_ticket-Kept :
    (id : String) (m i : ℕ) (es : List RunEvent) (a : Acc)
    → m < i
    → any (decides id) es ≡ false
    → Kept m (any (flags_ticket id) es) a (follow_ticket id i es a)
follow_ticket-Kept id m i [] a lt h = (refl, refl, ground arith)
follow_ticket-Kept id m i (e ∷ es) a lt h =
    let (x, y, z) = apply-Kept m i e (about id e) a lt (ground arith) in
    let (u, v, w) =
      follow_ticket-Kept id m (suc i) es (apply i e (about id e) a) (omega arith) (ground arith) in
    (u ∙ x, v ∙ y, ground arith)
