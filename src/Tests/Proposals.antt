-- ===== src/Tests/Proposals.antt =====
-- A proposal of two edits, written and read back.
use jme_loop_public.Prelude.{◌≡◌, refl, [], ◌∷◌}
use jme_loop_public.Checked.{ok}
use jme_loop_public.RefineTickets.{
  RefineTicketsProposal, split_ticket, add_dependency, parse_refine_tickets_proposal,
  render_proposal, rendered_lines, render_edit,
}
use jme_loop_public.RefineTickets.Proposals.{
  IsProposal, written, parse_refine_tickets_proposal-IsProposal,
  parse_refine_tickets_proposal-written,
}

abbrev proposal : RefineTicketsProposal
proposal = record {
  summary = "split the parser";
  edits =
      split_ticket "TICKET-004" (record { title = "Lexer"; rationale = "it stands alone" } ∷ [])
      ∷ add_dependency "TICKET-005" "TICKET-004" "it needs the tokens"
      ∷ [];
}

proposal-IsProposal : IsProposal proposal
proposal-IsProposal = record { summary = λ h. cc; edits = (tt, (tt, tt)) }

rendered :
    render_proposal proposal
    ≡ "# Backlog refinement proposal\n\nsplit the parser\n\n## Edits\n- **split-ticket** — TICKET-004\n  - → Lexer: it stands alone\n- **add-dependency** — TICKET-005 → TICKET-004\n  - rationale: it needs the tokens\n"
unfolding render_proposal rendered_lines render_edit
rendered = refl

parse_refine_tickets_proposal-written_example :
    parse_refine_tickets_proposal (written proposal) ≡ ok proposal
parse_refine_tickets_proposal-written_example =
    parse_refine_tickets_proposal-written proposal proposal-IsProposal

parse_refine_tickets_proposal-IsProposal_example : IsProposal proposal
parse_refine_tickets_proposal-IsProposal_example =
    parse_refine_tickets_proposal-IsProposal (written proposal) proposal
      (parse_refine_tickets_proposal-written proposal proposal-IsProposal)
