-- ===== src/StructuralRefinement.antt =====
-- src/structuralRefinement.ts: the names and the texts of the stubs of tickets that the loop makes of
-- a proposal, and the item that asks a human to wire them (src/triageInbox.ts). The ids are those of
-- TicketAllocation. A title is ASCII here: `toLowerCase` changes the letters from A to Z.
use jme_loop_public.Prelude.{String, List, [], ◌∷◌, join, ◌⊕◌}
use jme_loop_public.Json.{str, Fields}

pub record TriageItem : Type 0 where
  pub ticket_id : String
  pub kind : String
  pub summary : String
  pub detail : String
  pub source : String

unfoldable pub triage_item_to_event_data : TriageItem → Fields
triage_item_to_event_data item =
    ("ticketId", str item.ticket_id)
    ∷ ("kind", str item.kind)
    ∷ ("summary", str item.summary)
    ∷ ("detail", str item.detail)
    ∷ ("source", str item.source)
    ∷ []

unfoldable pub build_needs_epic_wiring_triage : String → String → String → TriageItem
build_needs_epic_wiring_triage ticket_id summary detail = record {
  ticket_id = ticket_id;
  kind = "needs-epic-wiring";
  summary = summary;
  detail = detail;
  source = "backlog.refinement.apply";
}

unfoldable pub fm_array : List String → String
fm_array values = "[" ⊕ join ", " values ⊕ "]"

-- The frontmatter that both kinds of stub start with: not released, with no specification or plan.
unfoldable pub stub_frontmatter : String → String → List String → String
unfolding fm_array
stub_frontmatter id title depends_on =
    "---\nid: "
    ⊕ id
    ⊕ "\ntitle: "
    ⊕ title
    ⊕ "\nstatus: sketched\nspec:\nplan:\nloop: false\ndepends-on: "
    ⊕ fm_array depends_on
    ⊕ "\n---\n\n# "
    ⊕ id
    ⊕ " - "
    ⊕ title
    ⊕ "\n\n"

provenance : String → String → String
provenance kind run_id =
    "> Autogenerated by TICKET-031 from a RefineBacklog `" ⊕ kind ⊕ "` proposal in `" ⊕ run_id
    ⊕ "`. This is not loop-ready until a human wires it into `epic.md`, authors spec/plan, and flips `loop: true`.\n\n"

unfoldable pub render_derived_ticket_stub :
    (id title rationale : String) → List String → (run_id : String) → String
unfolding stub_frontmatter provenance fm_array
render_derived_ticket_stub id title rationale depends_on run_id =
    stub_frontmatter id title depends_on
    ⊕ provenance "derive-ticket" run_id
    ⊕ "## Sketch\n\n"
    ⊕ rationale
    ⊕ "\n\n## Human wiring needed\n\n- Add `"
    ⊕ id
    ⊕ "` to `epic.md` `tickets:`.\n- Add a dependency-table row with `depends-on: "
    ⊕ fm_array depends_on
    ⊕ "`.\n- Decide whether this ticket should be released to the loop.\n"

unfoldable pub render_split_ticket_stub :
    (id title rationale source_ticket_id : String) → List String → (run_id : String) → String
unfolding stub_frontmatter provenance fm_array
render_split_ticket_stub id title rationale source_ticket_id inherited run_id =
    stub_frontmatter id title inherited
    ⊕ provenance "split-ticket" run_id
    ⊕ "## Sketch\n\nSource ticket: `"
    ⊕ source_ticket_id
    ⊕ "`\n\n"
    ⊕ rationale
    ⊕ "\n\n## Human wiring needed\n\n- Decide whether `"
    ⊕ source_ticket_id
    ⊕ "` should be superseded or kept active.\n- Add `"
    ⊕ id
    ⊕ "` to `epic.md` `tickets:` if accepted.\n- Add a dependency-table row with inherited `depends-on: "
    ⊕ fm_array inherited
    ⊕ "`.\n- Rewire dependents only after human review.\n"
