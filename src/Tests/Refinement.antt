-- ===== src/Tests/Refinement.antt =====
-- The edits of a proposal at a concrete epic.
use jme_loop_public.Prelude.{
  String, ◌≡◌, refl, true, false, ◌⊎◌, none, some, List, [], ◌∷◌, ◌⊕◌, Number, int, pos, decimal,
  rounded,
}
use jme_loop_public.Budget.{BudgetVerdict, clear}
use jme_loop_public.Budget.Verdicts.{trip}
use jme_loop_public.Autonomy.{autopilot, may_edit_planning}
use jme_loop_public.Queue.{sketched}
use jme_loop_public.TicketIds.{parse_ticket_number, ticket_id_from_number}
use jme_loop_public.TicketAllocation.{allocate_ticket_ids, ids_after, ids_from, max_of_ids}
use jme_loop_public.ApplyRefinement.{
  Edit, add_dependency, derive_ticket, EpicTicket, Texts, no_edits, apply_edits, sketched_paths,
  next_ids,
}
use jme_loop_public.ApplyRefinement.Commit.{Outside, wrote, run_apply_refinement}
use jme_loop_public.ApplyRefinement.Structural.{IsSound}
use jme_loop_public.ApplyRefinement.Edits.{apply_edits-IsSound}
use jme_loop_public.ApplyRefinement.Atomic.{
  IsMade, IsUndone, made, lost, run_apply_refinement_atomic,
}

abbrev texts : Texts
texts = record {
  add_dependency = λ content dep. content ⊕ dep;
  sharpen = λ content criteria. content;
  slug = λ title fallback. fallback;
  join_path = λ dir name. dir ⊕ "/" ⊕ name;
  read_error = λ path. "ENOENT";
}

abbrev ticket : EpicTicket
ticket = record {
  ticket = record {
    id = "TICKET-001";
    epic_id = "EPIC-001";
    title = "A change";
    status = sketched;
    spec = none;
    plan = none;
    loop = false;
    depends_on = [];
  };
  file_path = "e/TICKET-001.md";
}

abbrev disk : List (String × String)
disk = ("e/TICKET-001.md", "depends-on: ") ∷ []

abbrev edits : List Edit
edits =
    add_dependency "TICKET-001" "TICKET-000"
    ∷ derive_ticket "A part" "why" []
    ∷ derive_ticket "A part" "why" []
    ∷ derive_ticket "One too many" "why" []
    ∷ []

-- The commit fails.
abbrev outside : Outside
outside = record {
  writes = λ n. wrote;
  commits = false;
  restores = λ n. true;
  error = "hook declined";
  restore_error = "";
}

abbrev zero_number : Number
zero_number = int (pos 0)

abbrev verdict : BudgetVerdict
verdict = clear (record {
  iterations_used = zero_number;
  max_iterations = zero_number;
  elapsed_ms = zero_number;
  max_wall_clock_ms = zero_number;
  iterations_since_progress = zero_number;
  max_no_progress_iterations = zero_number;
  ms_since_progress = zero_number;
  max_no_progress_ms = zero_number;
  last_progress_at = none;
  token_ceiling = none;
  dollar_ceiling = none;
})

apply_edits-IsSound_example :
    IsSound disk (apply_edits texts "run-1" "EPIC-001" (ticket ∷ []) disk (some "e") edits no_edits)
apply_edits-IsSound_example =
    apply_edits-IsSound texts "run-1" "EPIC-001" (ticket ∷ []) disk (some "e") edits

is_undone :
    (run_apply_refinement outside texts "run-1" "EPIC-001"
      (ticket ∷ [])
      (some "e")
      autopilot
      false
      verdict
      edits
      disk).thrown
    ≡ none
unfolding run_apply_refinement apply_edits may_edit_planning sketched_paths next_ids
    allocate_ticket_ids ids_after ids_from rounded ticket_id_from_number decimal max_of_ids
    parse_ticket_number
is_undone = refl

run_apply_refinement_atomic_example :
    ((autopilot ≡ autopilot)
      × (false ≡ false)
      × (trip verdict ≡ none)
      × IsMade outside
          (made outside texts "run-1" "EPIC-001" (ticket ∷ []) (some "e") edits disk)
          disk
          (run_apply_refinement outside texts "run-1" "EPIC-001"
            (ticket ∷ [])
            (some "e")
            autopilot
            false
            verdict
            edits
            disk))
    ⊎ IsUndone (lost outside texts "run-1" "EPIC-001" (ticket ∷ []) (some "e") edits disk) disk (
        run_apply_refinement outside texts "run-1" "EPIC-001"
          (ticket ∷ [])
          (some "e")
          autopilot
          false
          verdict
          edits
          disk)
run_apply_refinement_atomic_example =
    run_apply_refinement_atomic outside texts "run-1" "EPIC-001" (ticket ∷ []) (some "e") autopilot
      false verdict edits disk is_undone
