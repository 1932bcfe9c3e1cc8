-- ===== src/StructuralIntegrity.antt =====
-- src/structuralIntegrity.ts, `collectStructuralIntegrityReport`: the checks of the graph of tickets,
-- over the tickets and the epics that were read; `precedes a b` is `a.localeCompare(b) < 0`.
pub mod Groups
pub mod Stops
use jme_loop_public.Prelude.{
  ℕ, String, Bool, true, false, not, ◌&&◌, ◌||◌, Option, none, some, or_else, List, [], ◌∷◌, ◌++◌,
  ◌==◌, get, set, includes, is_empty, keep, length, ltb, map, join, sort_texts, ◌⊕◌, if◌then◌else◌,
}

pub data CheckStatus : Type 0 where
  pass warn stop : CheckStatus

pub record StructuralCheck : Type 0 where
  pub status : CheckStatus
  pub code : String
  pub message : String

pub record StructuralTicket : Type 0 where
  pub id : String
  pub declared_id : Option String
  pub filename_id : Option String
  pub rel_path : String
  pub epic_dir : String
  pub status : Option String
  pub depends_on : List String
  pub impacts : List String

pub record EpicEntry : Type 0 where
  pub epic_dir : String
  pub epic_rel_path : String
  pub listed_tickets : List String

abbrev pub check : CheckStatus → String → String → StructuralCheck
check status code message = record { status = status; code = code; message = message }

abbrev pub Groups : Type 0
Groups = List (String × List StructuralTicket)

-- The tickets with an id.
unfoldable pub with_id : String → Groups → List StructuralTicket
with_id id m = or_else (get id m) []

unfoldable pub group : List StructuralTicket → Groups → Groups
unfolding with_id
group [] m = m
group (t ∷ ts) m = group ts (set t.id (with_id t.id m ++ t ∷ []) m)

unfoldable pub paths : List StructuralTicket → String
paths ts = join ", " (map (λ (t : StructuralTicket). t.rel_path) ts)

abbrev pub several : List StructuralTicket → Bool
several ts = ltb 1 (length ts)

module _ (precedes : String → String → Bool) where
  unfoldable pub insert_group : String × List StructuralTicket → Groups → Groups
  insert_group g [] = g ∷ []
  insert_group g (h ∷ gs) = if precedes h.0 g.0 then h ∷ insert_group g gs else g ∷ h ∷ gs

  unfoldable pub sort_groups : Groups → Groups
  unfolding insert_group
  sort_groups [] = []
  sort_groups (g ∷ gs) = insert_group g (sort_groups gs)

unfoldable pub duplicate_checks : Groups → List StructuralCheck
unfolding paths
duplicate_checks [] = []
duplicate_checks (g ∷ gs) =
    if several g.1
    then check stop "structural-duplicate-id"
        ("Duplicate ticket id " ⊕ g.0 ⊕ " declared by " ⊕ paths g.1 ⊕ ".")
      ∷ duplicate_checks gs
    else duplicate_checks gs

abbrev pub is_missing : Option String → Bool
is_missing none = true
is_missing (some id) = id == ""

unfoldable pub missing_checks : List StructuralTicket → List StructuralCheck
missing_checks [] = []
missing_checks (t ∷ ts) =
    if is_missing t.declared_id
    then check stop "structural-missing-id" (t.rel_path ⊕ " is missing frontmatter id.")
      ∷ missing_checks ts
    else missing_checks ts

-- The file's name and the frontmatter declare different ids.
abbrev pub disagrees : StructuralTicket → Bool
disagrees t =
    not (is_missing t.declared_id)
    && not (is_missing t.filename_id)
    && not (or_else t.declared_id "" == or_else t.filename_id "")

unfoldable pub mismatch_checks : List StructuralTicket → List StructuralCheck
mismatch_checks [] = []
mismatch_checks (t ∷ ts) =
    if disagrees t
    then check stop "structural-filename-id-mismatch" (
        t.rel_path
        ⊕ " filename declares "
        ⊕ or_else t.filename_id ""
        ⊕ " but frontmatter id is "
        ⊕ or_else t.declared_id ""
        ⊕ ".")
      ∷ mismatch_checks ts
    else mismatch_checks ts

unfoldable pub edge_checks : Groups → StructuralTicket → String → List String → List StructuralCheck
unfolding with_id paths
edge_checks m t field [] = []
edge_checks m t field (id ∷ ids) =
    let rest = edge_checks m t field ids in
    let found = with_id id m in
    if is_empty found
    then check stop "structural-dangling-edge"
        (t.id ⊕ " " ⊕ field ⊕ " points at missing " ⊕ id ⊕ " (" ⊕ t.rel_path ⊕ ").")
      ∷ rest
    else if several found
    then check stop "structural-ambiguous-edge"
        (t.id ⊕ " " ⊕ field ⊕ " points at ambiguous " ⊕ id ⊕ "; matches " ⊕ paths found ⊕ ".")
      ∷ rest
    else rest

unfoldable pub all_edge_checks : Groups → List StructuralTicket → List StructuralCheck
unfolding edge_checks
all_edge_checks m [] = []
all_edge_checks m (t ∷ ts) =
    edge_checks m t "depends-on" t.depends_on
    ++ (edge_checks m t "impacts" t.impacts ++ all_edge_checks m ts)

abbrev pub valid_statuses : List String
valid_statuses =
    "sketched" ∷ "planned" ∷ "in-progress" ∷ "scope-changed" ∷ "done" ∷ "dropped" ∷ "superseded"
    ∷ []

malformed_text : Option String → String
malformed_text none = ""
malformed_text (some s) = if s == "" then "" else " \"" ⊕ s ⊕ "\""

unfoldable pub is_malformed : Option String → Bool
is_malformed status = is_missing status || not (includes valid_statuses (or_else status ""))

unfoldable pub malformed_check : StructuralTicket → StructuralCheck
unfolding malformed_text
malformed_check t =
    check warn "structural-malformed-status"
      (t.id ⊕ " has malformed status" ⊕ malformed_text t.status ⊕ " (" ⊕ t.rel_path ⊕ ").")

unfoldable pub status_checks : List StructuralTicket → List StructuralCheck
unfolding is_malformed malformed_check
status_checks [] = []
status_checks (t ∷ ts) =
    if is_malformed t.status then malformed_check t ∷ status_checks ts else status_checks ts

-- The distinct ones of some texts, in the order of their first places.
distinct : List String → List String → List String
distinct seen [] = seen
distinct seen (x ∷ xs) = distinct (if includes seen x then seen else seen ++ x ∷ []) xs

part : String → List String → List String
part label [] = []
part label (x ∷ xs) = (label ⊕ join ", " (x ∷ xs)) ∷ []

unfoldable pub drift : String → List String → List StructuralCheck
drift rel_path [] = []
drift rel_path (p ∷ ps) =
    check warn "structural-epic-ticket-list-drift"
      (rel_path ⊕ "/epic.md tickets drift: " ⊕ join "; " (p ∷ ps) ⊕ ".")
    ∷ []

-- How an epic's list of tickets and the tickets in its directory differ.
unfoldable pub drift_parts : List StructuralTicket → EpicEntry → List String
unfolding distinct part
drift_parts ts e =
    let listed = distinct [] e.listed_tickets in
    let actual = distinct [] (
      map (λ (t : StructuralTicket). t.id)
        (keep (λ (t : StructuralTicket). t.epic_dir == e.epic_dir) ts)) in
    let lost = sort_texts (keep (λ id. not (includes actual id)) listed) in
    let unenrolled = sort_texts (keep (λ id. not (includes listed id)) actual) in
    part "listed without file: " lost ++ part "file not listed: " unenrolled

unfoldable pub epic_checks : List StructuralTicket → List EpicEntry → List StructuralCheck
unfolding drift_parts drift
epic_checks ts [] = []
epic_checks ts (e ∷ es) =
    let rest = epic_checks ts es in
    if is_empty e.listed_tickets then rest else drift e.epic_rel_path (drift_parts ts e) ++ rest

unfoldable pub or_pass : List StructuralCheck → List StructuralCheck
or_pass [] =
    check pass "structural-integrity" "Ticket graph structure is internally consistent." ∷ []
or_pass (c ∷ cs) = c ∷ cs

abbrev pub is_stop : StructuralCheck → Bool
is_stop c = elim c.status [ stop ↦ true | _ ↦ false ]

abbrev pub is_warn : StructuralCheck → Bool
is_warn c = elim c.status [ warn ↦ true | _ ↦ false ]

pub record StructuralIntegrityReport : Type 0 where
  pub repo_root : String
  pub checks : List StructuralCheck
  pub stop_count : ℕ
  pub warn_count : ℕ

module _ (precedes : String → String → Bool) where
  unfoldable pub structural_checks : List StructuralTicket → List EpicEntry → List StructuralCheck
  unfolding group duplicate_checks missing_checks mismatch_checks all_edge_checks status_checks
      epic_checks
  structural_checks ts es =
      let m = group ts [] in
      duplicate_checks (sort_groups precedes m)
      ++ (missing_checks ts
          ++ (mismatch_checks ts
              ++ (all_edge_checks m ts ++ (status_checks ts ++ epic_checks ts es))))

  unfoldable pub collect_structural_integrity_report :
      String → List StructuralTicket → List EpicEntry → StructuralIntegrityReport
  unfolding or_pass
  collect_structural_integrity_report repo_root ts es =
      let checks = or_pass (structural_checks ts es) in
      record {
        repo_root = repo_root;
        checks = checks;
        stop_count = length (keep is_stop checks);
        warn_count = length (keep is_warn checks);
      }
