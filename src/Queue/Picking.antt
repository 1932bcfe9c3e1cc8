-- ===== src/Queue/Picking.antt =====
-- src/scanTickets.ts: the ready tickets, and the one that is taken next.
use jme_loop_public.Prelude.{
  String, ◌≡◌, refl, ◌↔◌, ◌⊎◌, inl, inr, subst, Bool, true, false, Option, none, some, List, [],
  ◌∷◌, all, keep, get, set, get-set, eq_to_path, ◌==◌, In, Bool-cases, if◌then◌else◌, arith,
}
use mathlib.Core.Option.{some-injective}
use jme_loop_public.Queue.{
  Ticket, TicketStatus, done, is_startable, is_done, is_released, is_prepared, is_there, loop_ready,
  status_by_id, is_unblocked, least, first, pick_next,
}

pub In-keep :
    (p : Ticket → Bool) (t : Ticket) (ts : List Ticket) → In t (keep p ts) → In t ts × (p t ≡ true)
In-keep p t [] h = absurd h
In-keep p t (x ∷ xs) h = ground (arith, In-keep p t xs)

keep-In :
    (p : Ticket → Bool) (t : Ticket) (ts : List Ticket) → In t ts → p t ≡ true → In t (keep p ts)
keep-In p t [] h e = h
keep-In p t (x ∷ xs) h e = ground (arith, keep-In p t xs)

-- A ticket that was released and may be started.
abbrev pub IsReleased : Ticket → Type 0
IsReleased t = (is_startable t.status ≡ true) × (t.loop ≡ true)

module _ (exists : String → Bool) where
  -- Its specification and its plan are named and exist.
  abbrev pub IsPrepared : Ticket → Type 0
  IsPrepared t = (is_there exists t.spec ≡ true) × (is_there exists t.plan ≡ true)

  -- A ticket is ready for the loop exactly if it is one of the scanned tickets, was released in a
  -- state in which it may be started, and has a specification and a plan that exist.
  pub loop_ready_iff :
      (t : Ticket) (tickets : List Ticket)
      → In t (loop_ready exists tickets) ↔ (In t tickets × IsReleased t × IsPrepared t)
  unfolding loop_ready is_prepared
  loop_ready_iff t tickets = (
    (λ h.
        let (k, prepared) = In-keep (is_prepared exists) t (keep (is_released exists) tickets) h in
        let (at, released) = In-keep (is_released exists) t tickets k in
        (at, ground arith, ground arith)),
    (λ (at, released, prepared).
        keep-In (is_prepared exists) t (keep (is_released exists) tickets)
          (keep-In (is_released exists) t tickets at (ground arith)) (ground arith)),
  )

-- What the order of the ids has to be.
pub record IsOrder (precedes : String → String → Bool) : Type 0 where
  pub irreflexive : (a : String) → precedes a a ≡ false
  pub transitive :
      (a b c : String) → precedes a b ≡ true → precedes b c ≡ true → precedes a c ≡ true

module _ (precedes : String → String → Bool) where
  In-if :
      (b : Bool) (best t u : Ticket) (ts : List Ticket)
      → In u ((if b then t else best) ∷ ts)
      → In u (best ∷ t ∷ ts)
  In-if true best t u ts (inl e) = inr (inl e)
  In-if false best t u ts (inl e) = inl e
  In-if b best t u ts (inr h) = inr (inr h)

  least-In : (best : Ticket) (ts : List Ticket) → In (least precedes best ts) (best ∷ ts)
  unfolding least
  least-In best [] = inl refl
  least-In best (t ∷ ts) =
      In-if (precedes t.id best.id) best t _ ts
        (least-In (if precedes t.id best.id then t else best) ts)

  first-In : (ts : List Ticket) (t : Ticket) → first precedes ts ≡ some t → In t ts
  unfolding first
  first-In [] t h = cc
  first-In (x ∷ xs) t h = subst (λ v. In v (x ∷ xs)) (some-injective _ _ h) (least-In x xs)

  pub pick_next_unblocked :
      (ready all_tickets : List Ticket) (t : Ticket)
      → pick_next precedes ready all_tickets ≡ some t
      → In t ready × (is_unblocked all_tickets t ≡ true)
  unfolding pick_next
  pick_next_unblocked ready all_tickets t h =
      In-keep (is_unblocked all_tickets) t ready
        (first-In (keep (is_unblocked all_tickets) ready) t h)

module _ (precedes : String → String → Bool) (order : IsOrder precedes) where
  replaced :
      (b : Bool) (best t u : Ticket)
      → precedes t.id best.id ≡ b
      → precedes u.id best.id ≡ false
      → precedes u.id (if b then t else best).id ≡ false
  replaced false best t u e h = h
  replaced true best t u e h = elim (Bool-cases (precedes u.id t.id)) [
    | inr later ↦ later
    | inl earlier ↦ absurd (ground (arith, order.transitive u.id t.id best.id earlier e))
  ]

  least_keeps :
      (u best : Ticket) (ts : List Ticket)
      → precedes u.id best.id ≡ false
      → precedes u.id (least precedes best ts).id ≡ false
  unfolding least
  least_keeps u best [] h = h
  least_keeps u best (t ∷ ts) h =
      least_keeps u (if precedes t.id best.id then t else best) ts
        (replaced (precedes t.id best.id) best t u refl h)

  settled :
      (b : Bool) (best t : Ticket)
      → precedes t.id best.id ≡ b
      → precedes t.id (if b then t else best).id ≡ false
  settled false best t e = e
  settled true best t e = order.irreflexive t.id

  least_first :
      (u best : Ticket) (ts : List Ticket)
      → In u (best ∷ ts)
      → precedes u.id (least precedes best ts).id ≡ false
  unfolding least
  least_first u best ts (inl e) = least_keeps u best ts (rw e (order.irreflexive u.id))
  least_first u best [] (inr h) = absurd h
  least_first u best (t ∷ ts) (inr (inl e)) =
      least_keeps u (if precedes t.id best.id then t else best) ts (
        subst (λ (v : Ticket). precedes v.id (if precedes t.id best.id then t else best).id ≡ false)
          e (settled (precedes t.id best.id) best t refl))
  least_first u best (t ∷ ts) (inr (inr h)) =
      least_first u (if precedes t.id best.id then t else best) ts (inr h)

  first_least :
      (ts : List Ticket) (t u : Ticket)
      → first precedes ts ≡ some t
      → In u ts
      → precedes u.id t.id ≡ false
  unfolding first
  first_least [] t u h k = absurd k
  first_least (x ∷ xs) t u h k =
      subst (λ (v : Ticket). precedes u.id v.id ≡ false) (some-injective _ _ h)
        (least_first u x xs k)

  -- No ready ticket whose dependencies are done precedes the ticket that is taken next.
  pub pick_next_least :
      (ready all_tickets : List Ticket) (t u : Ticket)
      → pick_next precedes ready all_tickets ≡ some t
      → In u ready
      → is_unblocked all_tickets u ≡ true
      → precedes u.id t.id ≡ false
  unfolding pick_next
  pick_next_least ready all_tickets t u h m e =
      first_least (keep (is_unblocked all_tickets) ready) t u h
        (keep-In (is_unblocked all_tickets) u ready m e)

-- The ticket that is taken next out of the scanned ones was released in a state in which it may be
-- started, and has a specification and a plan that exist.
pub pick_next_eligible :
    (precedes : String → String → Bool) (exists : String → Bool) (tickets : List Ticket)
    (t : Ticket)
    → pick_next precedes (loop_ready exists tickets) tickets ≡ some t
    → In t tickets × IsReleased t × IsPrepared exists t
pick_next_eligible precedes exists tickets t h =
    (loop_ready_iff exists t tickets).0
      (pick_next_unblocked precedes (loop_ready exists tickets) tickets t h).0

first-none :
    (precedes : String → String → Bool) (ts : List Ticket) → first precedes ts ≡ none → ts ≡ []
unfolding first
first-none precedes [] h = refl
first-none precedes (t ∷ ts) h = cc

keep_none :
    (p : Ticket → Bool) (ts : List Ticket) → ((u : Ticket) → In u ts → p u ≡ false) → keep p ts ≡ []
keep_none p [] h = refl
keep_none p (t ∷ ts) h = rw (h t (inl refl)) (keep_none p ts (λ u k. h u (inr k)))

-- No ticket is taken exactly if each ready one depends on a ticket that is not done.
pub pick_next-none_iff :
    (precedes : String → String → Bool) (ready all_tickets : List Ticket)
    → (pick_next precedes ready all_tickets ≡ none)
      ↔ ((u : Ticket) → In u ready → is_unblocked all_tickets u ≡ false)
unfolding pick_next first
pick_next-none_iff precedes ready all_tickets =
    let p : Ticket → Bool = is_unblocked all_tickets in
    (
      (λ h u k. elim (Bool-cases (is_unblocked all_tickets u)) [
        | inr blocked ↦ blocked
        | inl free ↦
            absurd (
              subst (λ l. In u l) (first-none precedes (keep p ready) h) (keep-In p u ready k free))
      ]),
      (λ h. rw (keep_none p ready h) refl),
    )

all-In :
    (p : String → Bool) (x : String) (xs : List String) → all p xs ≡ true → In x xs → p x ≡ true
all-In p x [] h k = absurd k
all-In p x (y ∷ ys) h k = ground (arith, all-In p x ys)

-- A scanned ticket with the id and the status.
abbrev pub Scanned : List Ticket → String → TicketStatus → Type 0
Scanned tickets id status = (u : Ticket) × In u tickets × (u.id ≡ id) × (u.status ≡ status)

found_status :
    (t : Ticket) (dep : String) (s : TicketStatus) (m : List (String × TicketStatus))
    → get dep (set t.id t.status m) ≡ some s
    → ((t.id ≡ dep) × (t.status ≡ s)) ⊎ (get dep m ≡ some s)
found_status t dep s m h = elim (Bool-cases (t.id == dep)) [
  | inl same ↦ inl (eq_to_path t.id dep same, ground (arith, get-set dep t.id t.status m, same))
  | inr other ↦ inr (ground (arith, get-set dep t.id t.status m, other))
]

status_by_id-Scanned :
    (dep : String) (s : TicketStatus) (m : List (String × TicketStatus)) (ts : List Ticket)
    → get dep (status_by_id m ts) ≡ some s
    → Scanned ts dep s ⊎ (get dep m ≡ some s)
unfolding status_by_id
status_by_id-Scanned dep s m [] h = inr h
status_by_id-Scanned dep s m (t ∷ ts) h =
    elim (status_by_id-Scanned dep s (set t.id t.status m) ts h) [
      | inl (u, at, id, st) ↦ inl (u, inr at, id, st)
      | inr k ↦ elim (found_status t dep s m k) [
        | inl (id, st) ↦ inl (t, inl refl, id, st)
        | inr old ↦ inr old
      ]
    ]

done_of : (o : Option TicketStatus) → is_done o ≡ true → o ≡ some done
done_of o h = ground arith

-- Whatever the ticket that is taken next depends on is a scanned ticket that is done: a dependency
-- that was not found holds a ticket back.
pub pick_next_dependencies :
    (precedes : String → String → Bool) (ready all_tickets : List Ticket) (t : Ticket)
    (dep : String)
    → pick_next precedes ready all_tickets ≡ some t
    → In dep t.depends_on
    → Scanned all_tickets dep done
unfolding is_unblocked
pick_next_dependencies precedes ready all_tickets t dep h k =
    let (_, free) = pick_next_unblocked precedes ready all_tickets t h in
    let found =
      done_of (get dep (status_by_id [] all_tickets))
        (all-In (λ d. is_done (get d (status_by_id [] all_tickets))) dep t.depends_on free k) in
    elim (status_by_id-Scanned dep done [] all_tickets found) [
      | inl there ↦ there
      | inr gone ↦ absurd (ground (arith, gone))
    ]
