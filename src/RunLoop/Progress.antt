-- ===== src/RunLoop/Progress.antt =====
-- src/orchestrator.ts, the `while` loop of `runLoop`: a flagged ticket is not taken again, and the
-- loop ends.
use jme_loop_public.Prelude.{
  ℕ, suc, ◌+◌, ◌≤◌, ◌<◌, String, ◌≡◌, refl, ap, subst, ◌∙◌, ◌≢◌, inl, inr, Bool, true, false, List,
  [], ◌∷◌, length, includes, any, drop, eq_refl, eqb, ltb, Number, Bool-cases, if◌then◌else◌, arith,
}
use jme_loop_public.LoopKernel.{TransitionGuard}
use jme_loop_public.RunStore.{RunStore, read_events}
use jme_loop_public.Budget.{BudgetConfig}
use jme_loop_public.Queue.{Ticket}
use jme_loop_public.RunLoop.Round.{
  Scan, scanned, unreadable, Round, Loop, RoundEnd, next, idles, leaves, stops, throws, Runner,
  is_flag_of, round, rounds, on_end,
}
use jme_loop_public.RunLoop.Tickets.{MayTake, Processed, Leads, round-Leads}

includes-if :
    (b : Bool) (id other : String) (ids : List String)
    → includes ids id ≡ true
    → includes (if b then other ∷ ids else ids) id ≡ true
includes-if true id other ids h = ground (arith, h)
includes-if false id other ids h = h

taken_afresh :
    (s : Scan) (skipped : List String) (t : Ticket)
    → MayTake skipped s t
    → includes skipped t.id ≡ false
taken_afresh (unreadable why) skipped t m = elim m [ ]
taken_afresh (scanned exists tickets) skipped t m = m.2

module _ (guards : List TransitionGuard) (run_id : String) (parse : String → Number)
    (precedes : String → String → Bool) (budget : BudgetConfig) (max_tickets : ℕ)
    (run_ticket : Runner) where
  -- The loop comes from `l` to its second place by rounds that process a ticket or pause.
  pub data Reaches (l : Loop) : Loop → Type 0 where
    here : Reaches l l
    after_ticket :
        {m n : Loop} (r : Round)
        → Reaches l m
        → round guards run_id parse precedes budget max_tickets run_ticket r m ≡ next n
        → Reaches l n
    after_pause :
        {m n : Loop} (r : Round)
        → Reaches l m
        → round guards run_id parse precedes budget max_tickets run_ticket r m ≡ idles n
        → Reaches l n

  next_leads :
      (r : Round) (m n : Loop)
      → round guards run_id parse precedes budget max_tickets run_ticket r m ≡ next n
      → (t : Ticket) × MayTake m.skipped r.scan t
        × Processed guards run_id parse precedes budget max_tickets run_ticket r m.processed
            m.skipped n t
  next_leads r m n h =
      subst
        (Leads guards run_id parse precedes budget max_tickets run_ticket r m.processed m.skipped) h
        (round-Leads guards run_id parse precedes budget max_tickets run_ticket r m)

  idle_leads :
      (r : Round) (m n : Loop)
      → round guards run_id parse precedes budget max_tickets run_ticket r m ≡ idles n
      → (n.processed ≡ m.processed) × (n.skipped ≡ m.skipped) × (eqb max_tickets 1 ≡ false)
  idle_leads r m n h =
      subst
        (Leads guards run_id parse precedes budget max_tickets run_ticket r m.processed m.skipped) h
        (round-Leads guards run_id parse precedes budget max_tickets run_ticket r m)

  stays_skipped :
      {l m : Loop} (id : String)
      → Reaches l m
      → includes l.skipped id ≡ true
      → includes m.skipped id ≡ true
  stays_skipped id here h = h
  stays_skipped id (after_ticket {m} {n} r way q) h =
      let (t, _, done) = next_leads r m n q in
      rw (done.marked) (includes-if _ id t.id m.skipped (stays_skipped id way h))
  stays_skipped id (after_pause {m} {n} r way q) h =
      rw ((idle_leads r m n q).1) (stays_skipped id way h)

  -- A ticket that the events of its run flag is processed by no later round: the ticket that a later
  -- round processes is another one.
  pub flagged_not_taken :
      (r : Round) (k l m n : Loop) (t : Ticket)
      (p : Processed guards run_id parse precedes budget max_tickets run_ticket r k.processed
        k.skipped l t)
      → any (is_flag_of t.id) (
          drop
            (length (read_events run_id p.booked))
            (read_events run_id (run_ticket r.now t p.booked).1))
        ≡ true
      → Reaches l m
      → (later : Round)
      → round guards run_id parse precedes budget max_tickets run_ticket later m ≡ next n
      → (u : Ticket) × (u.id ≢ t.id)
        × MayTake m.skipped later.scan u
        × Processed guards run_id parse precedes budget max_tickets run_ticket later m.processed
            m.skipped n u
  flagged_not_taken r k l m n t p f way later q =
      let (u, may, done) = next_leads later m n q in
      let added : l.skipped ≡ t.id ∷ k.skipped =
        p.marked ∙ ap (λ b. if b then t.id ∷ k.skipped else k.skipped) f in
      let kept : includes m.skipped t.id ≡ true =
        stays_skipped t.id way (rw added (ground (arith, eq_refl t.id))) in
      let fresh = taken_afresh later.scan m.skipped u may in
      (u, (λ e. cc (kept, fresh, ap (includes m.skipped) e)), may, done)

  pauses_from : RoundEnd → (Loop → ℕ) → ℕ
  pauses_from (next l) rest = rest l
  pauses_from (idles l) rest = suc (rest l)
  pauses_from _ rest = 0

  -- How many of the rounds end by a pause.
  unfoldable pub pauses : List Round → Loop → ℕ
  unfolding pauses_from
  pauses [] l = 0
  pauses (r ∷ rs) l =
      if ltb l.processed max_tickets
      then pauses_from (round guards run_id parse precedes budget max_tickets run_ticket r l)
          (pauses rs)
      else 0

  rounds_after :
      (r : Round) (rs : List Round) (l : Loop) (e : RoundEnd) (w : Loop)
      → Leads guards run_id parse precedes budget max_tickets run_ticket r l.processed l.skipped e
      → ((m : Loop)
          → rounds guards run_id parse precedes budget max_tickets run_ticket rs m ≡ idles w
          → length rs + m.processed < pauses rs m + max_tickets)
      → on_end guards run_id parse precedes budget max_tickets run_ticket e
          (rounds guards run_id parse precedes budget max_tickets run_ticket rs)
        ≡ idles w
      → suc (length rs) + l.processed < pauses_from e (pauses rs) + max_tickets
  unfolding pauses_from on_end
  rounds_after r rs l (next m) w (t, may, done) ih q = omega (arith, ih m q, done.counted)
  rounds_after r rs l (idles m) w (same, _, _) ih q = omega (arith, ih m q)
  rounds_after r rs l (leaves m) w h ih q = cc
  rounds_after r rs l (stops m) w h ih q = cc
  rounds_after r rs l (throws e m) w h ih q = cc

  -- The loop that still waits has met fewer rounds than the limit on the tickets, those in which it
  -- pauses apart.
  rounds_waiting :
      (rs : List Round) (l w : Loop)
      → rounds guards run_id parse precedes budget max_tickets run_ticket rs l ≡ idles w
      → length rs + l.processed < pauses rs l + max_tickets
  unfolding rounds pauses
  rounds_waiting [] l w q = ground (arith, q)
  rounds_waiting (r ∷ rs) l w q = elim (Bool-cases (ltb l.processed max_tickets)) [
    | inr e ↦ absurd (ground (arith, e, q))
    | inl e ↦ rw e (
        rounds_after r rs l (round guards run_id parse precedes budget max_tickets run_ticket r l) w
          (round-Leads guards run_id parse precedes budget max_tickets run_ticket r l)
          (λ m. rounds_waiting rs m w) (rw e at q))
  ]

  -- The loop ends: after as many rounds as the limit on the tickets, those in which it pauses apart,
  -- it waits for none.
  pub rounds_end :
      (rs : List Round) (store : RunStore) (w : Loop)
      → pauses rs (record { store = store; processed = 0; skipped = [] }) + max_tickets ≤ length rs
      → rounds guards run_id parse precedes budget max_tickets run_ticket rs
          (record { store = store; processed = 0; skipped = [] })
        ≢ idles w
  rounds_end rs store w h q = absurd (omega (arith, rounds_waiting rs _ w q))

  pauses_from_once :
      (r : Round) (l : Loop) (e : RoundEnd) (rest : Loop → ℕ)
      → Leads guards run_id parse precedes budget max_tickets run_ticket r l.processed l.skipped e
      → max_tickets ≡ 1
      → ((m : Loop) → rest m ≡ 0)
      → pauses_from e rest ≡ 0
  unfolding pauses_from
  pauses_from_once r l (next m) rest h one z = z m
  pauses_from_once r l (idles m) rest (_, _, more) one z = absurd (ground (arith, more, one))
  pauses_from_once r l (leaves m) rest h one z = refl
  pauses_from_once r l (stops m) rest h one z = refl
  pauses_from_once r l (throws e m) rest h one z = refl

  pauses_once : (rs : List Round) (l : Loop) → max_tickets ≡ 1 → pauses rs l ≡ 0
  unfolding pauses
  pauses_once [] l one = refl
  pauses_once (r ∷ rs) l one = elim (Bool-cases (ltb l.processed max_tickets)) [
    | inr e ↦ rw e refl
    | inl e ↦ rw e (
        pauses_from_once r l (round guards run_id parse precedes budget max_tickets run_ticket r l)
          (pauses rs) (round-Leads guards run_id parse precedes budget max_tickets run_ticket r l)
          one (λ m. pauses_once rs m one))
  ]

  -- A run of one ticket ends with its first round.
  pub rounds_once :
      (r : Round) (rs : List Round) (store : RunStore) (w : Loop)
      → max_tickets ≡ 1
      → rounds guards run_id parse precedes budget max_tickets run_ticket
          (r ∷ rs)
          (record { store = store; processed = 0; skipped = [] })
        ≢ idles w
  rounds_once r rs store w one =
      rounds_end (r ∷ rs) store w (omega (arith, one, pauses_once (r ∷ rs) _ one))
