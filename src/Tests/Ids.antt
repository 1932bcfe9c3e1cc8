-- ===== src/Tests/Ids.antt =====
-- The allocation of ids at concrete files.
use jme_loop_public.Prelude.{
  ℕ, ◌+◌, ◌≡◌, refl, none, [], ◌∷◌, ◌++◌, All, length, includes, false, arith, exact, rounded,
}
use jme_loop_public.Json.{str}
use jme_loop_public.Queue.{trim, text_field}
use jme_loop_public.TicketIds.{parse_ticket_number, is_ticket_file_path}
use jme_loop_public.TicketAllocation.{
  records_of, record_from_ticket_file, id_of_file, TicketFile, GitResult, RemoteAnswers, RemoteScan,
  ok, scan_remote, scan_local, TicketIdAllocation, allocate_next_ticket_id_block,
  allocate_ticket_ids, remote_fallback_warning, resolve_remote_ref,
}
use jme_loop_public.TicketAllocation.Numbers.{LeavesRoom, Consecutive}
use jme_loop_public.TicketAllocation.Fresh.{IsNewBlock, allocate_fresh}
use jme_loop_public.TicketAllocation.Epic.{NumberLeavesRoom, allocate_ticket_ids_fresh}

abbrev file : TicketFile
file = record {
  path = "/repo/docs/epics/EPIC-001/tickets/TICKET-007-a.md";
  base = "TICKET-007-a.md";
  frontmatter = ("id", str "TICKET-007") ∷ [];
}

abbrev failing : GitResult
failing = record { code = 1; stdout = ""; stderr = "offline" }

abbrev answers : RemoteAnswers
answers = record {
  head = failing;
  fetch = failing;
  listed = failing;
  paths = [];
  show = λ p. failing;
  file = λ p. file;
}

abbrev offline : RemoteScan
offline = record {
  records = [];
  checked = false;
  warnings =
      "WARNING: git fetch origin failed; origin/master was not checked for existing TICKET IDs. Falling back to local docs/epics scan only; allocation may collide with remote-only work. git stderr: offline"
      ∷ [];
}

falls_back : scan_remote none answers ≡ ok offline
unfolding scan_remote remote_fallback_warning resolve_remote_ref trim
falls_back = refl

leaves_room : All (LeavesRoom 2) (scan_local (file ∷ []) ++ [])
unfolding scan_local records_of record_from_ticket_file id_of_file is_ticket_file_path
    parse_ticket_number rounded text_field
leaves_room = (omega arith, tt)

-- Between 2^53 and the next double, a sum stays where it is.
stays : (rounded (exact + 1) ≡ exact) × (rounded (exact + 3) ≡ exact + 4)
unfolding rounded
stays = (refl, refl)

allocate_fresh_example :
    (made : TicketIdAllocation) × (allocate_next_ticket_id_block 2 (file ∷ []) none answers
      ≡ ok made)
    × IsNewBlock 2 (scan_local (file ∷ []) ++ []) made.ids
allocate_fresh_example =
    allocate_fresh 2 (file ∷ []) none answers offline (omega arith) (omega arith) falls_back
      leaves_room

numbers_leave_room :
    All (λ id. NumberLeavesRoom 2 (parse_ticket_number id)) ("TICKET-007" ∷ "draft" ∷ [])
unfolding parse_ticket_number rounded
numbers_leave_room = (omega arith, (tt, tt))

allocate_ticket_ids_fresh_example :
    (length (allocate_ticket_ids ("TICKET-007" ∷ "draft" ∷ []) 2) ≡ 2)
    × ((top : ℕ) × Consecutive top (allocate_ticket_ids ("TICKET-007" ∷ "draft" ∷ []) 2))
    × All
        (λ id. includes (allocate_ticket_ids ("TICKET-007" ∷ "draft" ∷ []) 2) id ≡ false)
        ("TICKET-007" ∷ "draft" ∷ [])
allocate_ticket_ids_fresh_example =
    allocate_ticket_ids_fresh ("TICKET-007" ∷ "draft" ∷ []) 2 (omega arith) numbers_leave_room
