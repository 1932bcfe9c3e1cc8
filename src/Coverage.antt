-- ===== src/Coverage.antt =====
-- src/coverage.ts, `computeCoverage`: which tickets cover which behaviours of an epic. A
-- behaviour's id is no integer, so that an object keeps its keys in the order of insertion.
pub mod Covers
use jme_loop_public.Prelude.{
  ℕ, ◌-◌, String, Bool, true, false, not, List, [], ◌∷◌, ◌++◌, or_else, get, set, includes,
  is_empty, keep, length, if◌then◌else◌,
}

pub record TicketCovers : Type 0 where
  pub id : String
  pub covers : List String

pub record Orphan : Type 0 where
  pub ticket : String
  pub behavior : String

pub record CoverageReport : Type 0 where
  pub map : List (String × List String)
  pub gaps : List String
  pub orphans : List Orphan
  pub behaviors : ℕ
  pub covered : ℕ
  pub uncovered : ℕ

-- The two collections that the loop fills.
pub record Tally : Type 0 where
  pub map : List (String × List String)
  pub orphans : List Orphan

-- `map[b]` of a key that is there.
unfoldable pub tickets_at : String → List (String × List String) → List String
tickets_at b m = or_else (get b m) []

unfoldable pub no_tickets : List String → List (String × List String) → List (String × List String)
no_tickets [] m = m
no_tickets (b ∷ bs) m = no_tickets bs (set b [] m)

unfoldable pub tally_cover : List String → String → Tally → String → Tally
unfolding tickets_at
tally_cover known id t b =
    if includes known b
    then if includes (tickets_at b t.map) id
      then t
      else record t { map = set b (tickets_at b t.map ++ id ∷ []) t.map }
    else record t { orphans = t.orphans ++ record { ticket = id; behavior = b } ∷ [] }

unfoldable pub tally_covers : List String → String → List String → Tally → Tally
tally_covers known id [] t = t
tally_covers known id (b ∷ bs) t = tally_covers known id bs (tally_cover known id t b)

unfoldable pub tally : List String → List TicketCovers → Tally → Tally
unfolding tally_covers
tally known [] t = t
tally known (c ∷ cs) t = tally known cs (tally_covers known c.id c.covers t)

unfoldable pub compute_coverage : List String → List TicketCovers → CoverageReport
unfolding tally tickets_at no_tickets
compute_coverage behaviors tickets =
    let t = tally behaviors tickets (record { map = no_tickets behaviors []; orphans = [] }) in
    let gaps = keep (λ b. is_empty (tickets_at b t.map)) behaviors in
    record {
      map = t.map;
      gaps = gaps;
      orphans = t.orphans;
      behaviors = length behaviors;
      covered = length behaviors - length gaps;
      uncovered = length gaps;
    }
