-- ===== src/TicketAllocation.antt =====
-- src/ticketAllocation.ts: the next ids of tickets, after those of the local files and of the
-- remote branch; and `allocateTicketIds` of src/structuralRefinement.ts, for one epic. A file is
-- given by its path and the record that the frontmatter parser makes of it; what git answers is an
-- input.
pub mod Numbers
pub mod Fresh
pub mod Epic
use jme_loop_public.Prelude.{
  ℕ, zero, suc, ◌+◌, max, String, Bool, true, false, not, Option, none, some, or_else, List, [],
  ◌∷◌, ◌++◌, ◌==◌, eqb, keep, get, set, join, decimal, map, rounded, ◌⊕◌, if◌then◌else◌,
}
use jme_loop_public.Json.{Json, Fields}
use jme_loop_public.Queue.{text_field, trim}
use jme_loop_public.TicketIds.{
  parse_ticket_number, ticket_id_from_number, is_ticket_file_path, find_marked, strip,
}

pub data Source : Type 0 where
  local remote : Source

pub record TicketIdRecord : Type 0 where
  pub id : String
  pub number : ℕ
  pub epic_id : String
  pub file_path : String
  pub source : Source

-- A file: its path, its base name, and its frontmatter.
pub record TicketFile : Type 0 where
  pub path : String
  pub base : String
  pub frontmatter : Fields

-- The id of the frontmatter if it is a text that is not empty, and else that of the file's name.
unfoldable pub id_of_file : TicketFile → String
id_of_file f =
    let id = text_field (get "id" f.frontmatter) in
    if id == "" then or_else (find_marked "TICKET-" f.base) "" else id

record_of : String → TicketFile → Source → Option ℕ → Option TicketIdRecord
record_of id f source none = none
record_of id f source (some number) = some (record {
  id = id;
  number = number;
  epic_id = or_else (find_marked "EPIC-" f.path) "";
  file_path = f.path;
  source = source;
})

-- A file without an id, or whose id has no number, gives no record.
unfoldable pub record_from_ticket_file : TicketFile → Source → Option TicketIdRecord
unfolding record_of
record_from_ticket_file f source =
    let id = id_of_file f in
    if id == "" then none else record_of id f source (parse_ticket_number id)

cons_some : Option TicketIdRecord → List TicketIdRecord → List TicketIdRecord
cons_some none rs = rs
cons_some (some r) rs = r ∷ rs

unfoldable pub records_of : Source → List TicketFile → List TicketIdRecord
unfolding cons_some
records_of source [] = []
records_of source (f ∷ fs) = cons_some (record_from_ticket_file f source) (records_of source fs)

unfoldable pub scan_local : List TicketFile → List TicketIdRecord
scan_local files = records_of local (keep (λ (f : TicketFile). is_ticket_file_path f.path) files)

pub record GitResult : Type 0 where
  pub code : ℕ
  pub stdout : String
  pub stderr : String

-- The remote's default branch, or `origin/master`.
unfoldable pub resolve_remote_ref : GitResult → String
resolve_remote_ref head =
    let name = trim head.stdout in
    let ref = or_else (strip "refs/remotes/" name) name in
    if eqb head.code 0 then if ref == "" then "origin/master" else ref else "origin/master"

unfoldable pub remote_fallback_warning : String → String → String
remote_fallback_warning reason detail = join " " (
    keep (λ s. not (s == ""))
      (("WARNING: " ⊕ reason)
        ∷ "Falling back to local docs/epics scan only; allocation may collide with remote-only work."
        ∷ (if detail == "" then "" else "git stderr: " ⊕ detail)
        ∷ []))

-- What git answers: the fetch, the listing of the remote branch with the paths of its lines, and for
-- each of its ticket files the answer of `git show` with the file that the output holds.
pub record RemoteAnswers : Type 0 where
  pub head : GitResult
  pub fetch : GitResult
  pub listed : GitResult
  pub paths : List String
  pub show : String → GitResult
  pub file : String → TicketFile

pub record RemoteScan : Type 0 where
  pub records : List TicketIdRecord
  pub checked : Bool
  pub warnings : List String

abbrev pub fallback : String → RemoteScan
fallback warning = record { records = []; checked = false; warnings = warning ∷ [] }

unfoldable pub text_or : String → String → String
text_or s t = if s == "" then t else s

-- The files that `git show` gives, or the error of the first that it does not.
unfoldable pub show_all : RemoteAnswers → String → List String → Option String × List TicketFile
show_all a ref [] = (none, [])
show_all a ref (p ∷ ps) =
    let rest = show_all a ref ps in
    let shown = a.show p in
    if eqb shown.code 0 then (rest.0, a.file p ∷ rest.1) else (
      some (
          "Failed to read "
          ⊕ p
          ⊕ " from "
          ⊕ ref
          ⊕ ": "
          ⊕ text_or (trim shown.stderr) (trim shown.stdout)),
      [],
    )

pub data Result {ℓ} (A : Type ℓ) : Type ℓ where
  ok : A → Result A
  err : String → Result A

shown_records : Option String × List TicketFile → Result RemoteScan
shown_records (some message, files) = err message
shown_records (none, files) =
    ok (record { records = records_of remote files; checked = true; warnings = [] })

-- The scan of the remote: where git cannot fetch or list, the local ids stand alone, with a warning.
unfoldable pub scan_remote : Option String → RemoteAnswers → Result RemoteScan
unfolding shown_records
scan_remote remote_ref a =
    let ref = or_else remote_ref (resolve_remote_ref a.head) in
    if not (eqb a.fetch.code 0)
    then ok (
        fallback (
          remote_fallback_warning
            ("git fetch origin failed; " ⊕ ref ⊕ " was not checked for existing TICKET IDs.")
            (trim a.fetch.stderr)))
    else if not (eqb a.listed.code 0)
    then ok (
        fallback (
          remote_fallback_warning
            (ref ⊕ " was not found on origin; it was not checked for existing TICKET IDs.")
            (text_or (trim a.listed.stderr) (trim a.listed.stdout))))
    else shown_records (show_all a ref (keep is_ticket_file_path (map trim a.paths)))

-- `reduce((max, record) => Math.max(max, record.number), m)`.
unfoldable pub max_number : ℕ → List TicketIdRecord → ℕ
max_number m [] = m
max_number m (r ∷ rs) = max_number (max m r.number) rs

-- `Array.from({ length: count }, (_, i) => ticketIdFromNumber(m + i + 1))`, from an index on. The
-- sums are doubles.
unfoldable pub ids_from : (m i count : ℕ) → List String
ids_from m i zero = []
ids_from m i (suc count) =
    ticket_id_from_number (rounded (rounded (m + i) + 1)) ∷ ids_from m (suc i) count

-- The ids of `count` numbers from the one after `m` on.
unfoldable pub ids_after : ℕ → ℕ → List String
unfolding ids_from
ids_after m count = ids_from m 0 count

-- `new Map(existing.map((record) => [record.id, record]))`.
unfoldable pub by_id :
    List (String × TicketIdRecord) → List TicketIdRecord → List (String × TicketIdRecord)
by_id m [] = m
by_id m (r ∷ rs) = by_id (set r.id r m) rs

unfoldable pub first_known : List (String × TicketIdRecord) → List String → Option TicketIdRecord
first_known m [] = none
first_known m (id ∷ ids) = elim (get id m) [ none ↦ first_known m ids | some r ↦ some r ]

source_name : Source → String
source_name local = "local"
source_name remote = "remote"

refusal : TicketIdRecord → String
unfolding source_name text_or
refusal r =
    let place = if r.file_path == "" then "" else " at " ⊕ r.file_path in
    "Refusing to allocate "
    ⊕ r.id
    ⊕ ": already exists in "
    ⊕ text_or r.epic_id "an unknown epic"
    ⊕ place
    ⊕ " ("
    ⊕ source_name r.source
    ⊕ ")."

-- The message of the error that `assertNoAllocatedTicketIdCollisions` throws, if it does.
unfoldable pub collision : List String → List TicketIdRecord → Option String
unfolding refusal
collision ids existing = elim (first_known (by_id [] existing) ids) [
  | none ↦ none
  | some r ↦ some (refusal r)
]

pub record TicketIdAllocation : Type 0 where
  pub ids : List String
  pub global_max : ℕ
  pub remote_checked : Bool
  pub warnings : List String
  pub existing : List TicketIdRecord

checked_block :
    List String → ℕ → RemoteScan → List TicketIdRecord → Option String → Result TicketIdAllocation
checked_block ids most scan existing (some message) = err message
checked_block ids most scan existing none = ok (record {
  ids = ids;
  global_max = most;
  remote_checked = scan.checked;
  warnings = scan.warnings;
  existing = existing;
})

block_after : ℕ → List TicketIdRecord → Result RemoteScan → Result TicketIdAllocation
unfolding checked_block
block_after count found (err message) = err message
block_after count found (ok scan) =
    let existing = found ++ scan.records in
    let most = max_number 0 existing in
    let ids = ids_after most count in checked_block ids most scan existing (collision ids existing)

unfoldable pub allocate_next_ticket_id_block :
    ℕ → List TicketFile → Option String → RemoteAnswers → Result TicketIdAllocation
unfolding block_after
allocate_next_ticket_id_block count files remote_ref a =
    if eqb count 0
    then err ("Ticket allocation count must be a positive integer; got " ⊕ decimal count ⊕ ".")
    else block_after count (scan_local files) (scan_remote remote_ref a)

number_or : ℕ → Option ℕ → ℕ
number_or m none = m
number_or m (some n) = max m n

unfoldable pub max_of_ids : ℕ → List String → ℕ
unfolding number_or
max_of_ids m [] = m
max_of_ids m (id ∷ ids) = max_of_ids (number_or m (parse_ticket_number id)) ids

-- `allocateTicketIds`: the ids after those of one epic's tickets.
unfoldable pub allocate_ticket_ids : List String → ℕ → List String
allocate_ticket_ids existing count = ids_after (max_of_ids 0 existing) count
