-- ===== src/Coverage/Covers.antt =====
-- src/coverage.ts: the report against what the tickets claim.
use jme_loop_public.Prelude.{
  ◌+◌, String, ◌≡◌, refl, ap, Bool, true, false, not, ◌&&◌, ◌||◌, List, [], ◌∷◌, ◌++◌, set, get-set,
  includes, includes-append, is_empty, any, keep, length-keep-le, ◌==◌, eq_iff, if◌then◌else◌,
  arith,
}
use jme_loop_public.Coverage.{
  TicketCovers, Orphan, CoverageReport, Tally, tickets_at, no_tickets, tally_cover, tally_covers,
  tally, compute_coverage,
}

-- A ticket with the id claims the behaviour; some ticket claims it.
abbrev pub claims : List TicketCovers → String → String → Bool
claims tickets id b = any (λ (t : TicketCovers). t.id == id && includes t.covers b) tickets

abbrev pub is_claimed : List TicketCovers → String → Bool
is_claimed tickets b = any (λ (t : TicketCovers). includes t.covers b) tickets

abbrev pub is_orphan : String → String → List Orphan → Bool
is_orphan id b os = any (λ (o : Orphan). o.ticket == id && o.behavior == b) os

is_orphan-append :
    (id b : String) (os : List Orphan) (o : Orphan)
    → is_orphan id b (os ++ o ∷ []) ≡ (is_orphan id b os || (o.ticket == id && o.behavior == b))
is_orphan-append id b [] o = ground arith
is_orphan-append id b (p ∷ os) o = ground (arith, is_orphan-append id b os o)

tickets_at-set :
    (at b : String) (ids : List String) (m : List (String × List String))
    → tickets_at at (set b ids m) ≡ (if b == at then ids else tickets_at at m)
unfolding tickets_at
tickets_at-set at b ids m = ground (arith, get-set at b ids m)

module _ (known : List String) (id at : String) where
  -- One claim of the ticket `c`, seen at the behaviour `b`.
  tally_cover-tickets :
      (c b : String) (t : Tally)
      → includes (tickets_at at (tally_cover known c t b).map) id
        ≡ (includes (tickets_at at t.map) id || (c == id && b == at && includes known at))
  unfolding tally_cover
  tally_cover-tickets c b t = ground (
    arith,
    tickets_at-set at b (tickets_at b t.map ++ c ∷ []) t.map,
    includes-append (tickets_at b t.map) c id,
    eq_iff b at,
    eq_iff c id,
    ap (includes known) {x = b} {y = at},
    ap (includes (tickets_at b t.map)) {x = c} {y = id},
    ap (λ k. includes (tickets_at k t.map) id) {x = b} {y = at},
  )

  tally_cover-orphans :
      (c b : String) (t : Tally)
      → is_orphan id at (tally_cover known c t b).orphans
        ≡ (is_orphan id at t.orphans || (c == id && b == at && not (includes known at)))
  unfolding tally_cover
  tally_cover-orphans c b t = ground (
    arith,
    is_orphan-append id at t.orphans (record { ticket = c; behavior = b }),
    eq_iff b at,
    ap (includes known) {x = b} {y = at},
  )

  tally_covers-tickets :
      (c : String) (bs : List String) (t : Tally)
      → includes (tickets_at at (tally_covers known c bs t).map) id
        ≡ (includes (tickets_at at t.map) id || (c == id && includes bs at && includes known at))
  unfolding tally_covers
  tally_covers-tickets c [] t = ground arith
  tally_covers-tickets c (b ∷ bs) t =
      ground (arith, tally_covers-tickets c bs (tally_cover known c t b), tally_cover-tickets c b t)

  tally_covers-orphans :
      (c : String) (bs : List String) (t : Tally)
      → is_orphan id at (tally_covers known c bs t).orphans
        ≡ (is_orphan id at t.orphans || (c == id && includes bs at && not (includes known at)))
  unfolding tally_covers
  tally_covers-orphans c [] t = ground arith
  tally_covers-orphans c (b ∷ bs) t =
      ground (arith, tally_covers-orphans c bs (tally_cover known c t b), tally_cover-orphans c b t)

  tally-tickets :
      (cs : List TicketCovers) (t : Tally)
      → includes (tickets_at at (tally known cs t).map) id
        ≡ (includes (tickets_at at t.map) id || (claims cs id at && includes known at))
  unfolding tally
  tally-tickets [] t = ground arith
  tally-tickets (c ∷ cs) t = ground (
    arith,
    tally-tickets cs (tally_covers known c.id c.covers t),
    tally_covers-tickets c.id c.covers t,
  )

  tally-orphans :
      (cs : List TicketCovers) (t : Tally)
      → is_orphan id at (tally known cs t).orphans
        ≡ (is_orphan id at t.orphans || (claims cs id at && not (includes known at)))
  unfolding tally
  tally-orphans [] t = ground arith
  tally-orphans (c ∷ cs) t = ground (
    arith,
    tally-orphans cs (tally_covers known c.id c.covers t),
    tally_covers-orphans c.id c.covers t,
  )

is_empty-append : (xs : List String) (y : String) → is_empty (xs ++ y ∷ []) ≡ false
is_empty-append [] y = refl
is_empty-append (x ∷ xs) y = refl

not_empty : (xs : List String) (s : String) → includes xs s ≡ true → is_empty xs ≡ false
not_empty [] s h = cc
not_empty (x ∷ xs) s h = refl

module _ (known : List String) (at : String) where
  tally_cover-empty :
      (c b : String) (t : Tally)
      → is_empty (tickets_at at (tally_cover known c t b).map)
        ≡ (is_empty (tickets_at at t.map) && not (b == at && includes known at))
  unfolding tally_cover
  tally_cover-empty c b t = ground (
    arith,
    tickets_at-set at b (tickets_at b t.map ++ c ∷ []) t.map,
    is_empty-append (tickets_at b t.map) c,
    not_empty (tickets_at b t.map) c,
    eq_iff b at,
    ap (includes known) {x = b} {y = at},
    ap (λ k. is_empty (tickets_at k t.map)) {x = b} {y = at},
  )

  tally_covers-empty :
      (c : String) (bs : List String) (t : Tally)
      → is_empty (tickets_at at (tally_covers known c bs t).map)
        ≡ (is_empty (tickets_at at t.map) && not (includes bs at && includes known at))
  unfolding tally_covers
  tally_covers-empty c [] t = ground arith
  tally_covers-empty c (b ∷ bs) t =
      ground (arith, tally_covers-empty c bs (tally_cover known c t b), tally_cover-empty c b t)

  tally-empty :
      (cs : List TicketCovers) (t : Tally)
      → is_empty (tickets_at at (tally known cs t).map)
        ≡ (is_empty (tickets_at at t.map) && not (is_claimed cs at && includes known at))
  unfolding tally
  tally-empty [] t = ground arith
  tally-empty (c ∷ cs) t = ground (
    arith,
    tally-empty cs (tally_covers known c.id c.covers t),
    tally_covers-empty c.id c.covers t,
  )

no_tickets-empty :
    (at : String) (bs : List String) (m : List (String × List String))
    → tickets_at at m ≡ []
    → tickets_at at (no_tickets bs m) ≡ []
unfolding no_tickets
no_tickets-empty at [] m h = h
no_tickets-empty at (b ∷ bs) m h =
    no_tickets-empty at bs (set b [] m) (ground (arith, tickets_at-set at b [] m, h))

includes-keep :
    (p : String → Bool) (xs : List String) (s : String)
    → includes (keep p xs) s ≡ (includes xs s && p s)
includes-keep p [] s = refl
includes-keep p (x ∷ xs) s = ground (arith, includes-keep p xs s, eq_iff x s, ap p {x = x} {y = s})

-- What the report says against what the tickets claim.
pub record IsReport (behaviors : List String) (tickets : List TicketCovers) (r : CoverageReport)
    : Type 0 where
  pub lists :
      (id b : String)
      → includes (tickets_at b r.map) id ≡ (claims tickets id b && includes behaviors b)
  pub orphaned :
      (id b : String)
      → is_orphan id b r.orphans ≡ (claims tickets id b && not (includes behaviors b))
  pub gaps : (b : String) → includes r.gaps b ≡ (includes behaviors b && not (is_claimed tickets b))
  pub total : r.covered + r.uncovered ≡ r.behaviors

-- A report lists under each behaviour of the epic the tickets that claim it and no other, names as an
-- orphan each claim of a behaviour that the epic does not have, has as gaps the behaviours that no
-- ticket claims, and its counts add up.
pub compute_coverage-IsReport :
    (behaviors : List String) (tickets : List TicketCovers)
    → IsReport behaviors tickets (compute_coverage behaviors tickets)
unfolding compute_coverage
compute_coverage-IsReport behaviors tickets =
    let empty : Tally = record { map = no_tickets behaviors []; orphans = [] } in
    let t = tally behaviors tickets empty in
    let p : String → Bool = λ b. is_empty (tickets_at b t.map) in
    record {
      lists = λ id b. ground (
        arith,
        tally-tickets behaviors id b tickets empty,
        no_tickets-empty b behaviors [] (unfold tickets_at in refl),
        ap (λ (l : List String). includes l id) {x = tickets_at b empty.map} {y = []},
      );
      orphaned = λ id b. tally-orphans behaviors id b tickets empty;
      gaps = λ b. ground (
        arith,
        includes-keep p behaviors b,
        tally-empty behaviors b tickets empty,
        no_tickets-empty b behaviors [] (unfold tickets_at in refl),
        ap (λ (l : List String). is_empty l) {x = tickets_at b empty.map} {y = []},
      );
      total = omega (arith, length-keep-le p behaviors);
    }
