-- ===== src/Tests/Graph.antt =====
-- The graph of tickets and the coverage of behaviours at concrete epics.
use jme_loop_public.Prelude.{String, ◌≡◌, refl, Bool, true, false, not, some, List, [], ◌∷◌, eqb}
use jme_loop_public.Coverage.{TicketCovers, compute_coverage}
use jme_loop_public.Coverage.Covers.{IsReport, compute_coverage-IsReport}
use jme_loop_public.StructuralIntegrity.{
  StructuralTicket, EpicEntry, collect_structural_integrity_report,
}
use jme_loop_public.StructuralIntegrity.Stops.{is_broken, stop_count_iff}

abbrev behaviors : List String
behaviors = "B1" ∷ "B2" ∷ []

abbrev tickets : List TicketCovers
tickets =
    record { id = "TICKET-001"; covers = "B1" ∷ "B9" ∷ "B1" ∷ [] }
    ∷ record { id = "TICKET-002"; covers = "B1" ∷ [] }
    ∷ []

compute_coverage-IsReport_example : IsReport behaviors tickets (compute_coverage behaviors tickets)
compute_coverage-IsReport_example = compute_coverage-IsReport behaviors tickets

abbrev ticket : String → List String → StructuralTicket
ticket id depends_on = record {
  id = id;
  declared_id = some id;
  filename_id = some id;
  rel_path = id;
  epic_dir = "EPIC-001";
  status = some "planned";
  depends_on = depends_on;
  impacts = [];
}

abbrev graph : List StructuralTicket
graph = ticket "TICKET-001" [] ∷ ticket "TICKET-002" ("TICKET-001" ∷ "TICKET-003" ∷ []) ∷ []

abbrev epics : List EpicEntry
epics =
    record {
      epic_dir = "EPIC-001";
      epic_rel_path = "docs/epics/EPIC-001";
      listed_tickets = "TICKET-001" ∷ [];
    }
    ∷ []

abbrev precedes : String → String → Bool
precedes a b = false

dangling : is_broken graph ≡ true
dangling = refl

stop_count_iff_example :
    eqb (collect_structural_integrity_report precedes "/repo" graph epics).stop_count 0
    ≡ not (is_broken graph)
stop_count_iff_example = stop_count_iff precedes "/repo" graph epics
