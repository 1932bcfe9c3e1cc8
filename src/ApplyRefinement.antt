-- ===== src/ApplyRefinement.antt =====
-- src/applyRefinement.ts, `runApplyRefinement`: the edits of a proposal are made on the epic's
-- files and committed, or undone. The disk is the map of the files that exist. The text transforms,
-- the slug of a title and Node's path functions are parameters; whether a write and the commit
-- succeed is an input.
pub mod Commit
pub mod Disk
pub mod Structural
pub mod Edits
pub mod Atomic
use jme_loop_public.Prelude.{
  ℕ, zero, suc, ◌+◌, String, Bool, true, false, not, Option, none, some, is_some, List, [], ◌∷◌,
  ◌++◌, ◌==◌, leb, any, keep, drop, length, map, get, set, join, decimal, int, pos, ◌⊕◌, is_empty,
  if◌then◌else◌,
}
use jme_loop_public.Queue.{Ticket, TicketStatus, sketched}
use jme_loop_public.TicketAllocation.{allocate_ticket_ids}
use jme_loop_public.StructuralRefinement.{
  TriageItem, triage_item_to_event_data, build_needs_epic_wiring_triage, render_derived_ticket_stub,
  render_split_ticket_stub,
}

pub data Edit : Type 0 where
  add_dependency : (ticket_id depends_on : String) → Edit
  sharpen_criteria : (ticket_id : String) → List String → Edit
  derive_ticket : (title rationale : String) → List String → Edit
  split_ticket : (ticket_id : String) → List (String × String) → Edit

pub record EpicTicket : Type 0 where
  pub ticket : Ticket
  pub file_path : String

-- What a file held before the pass, if it existed, and what it is to hold.
pub record FileState : Type 0 where
  pub original : Option String
  pub current : String

pub record EditRecord : Type 0 where
  pub kind : String
  pub ticket_id : String
  pub child_ids : Option (List String)
  pub reason : Option String
  pub error : Option String

-- The variables of the pass.
pub record Pass : Type 0 where
  pub files : List (String × FileState)
  pub applied : List EditRecord
  pub skipped : List EditRecord
  pub triage : List TriageItem
  pub allocated : ℕ
  pub structural : ℕ

abbrev pub no_edits : Pass
no_edits = record {
  files = [];
  applied = [];
  skipped = [];
  triage = [];
  allocated = 0;
  structural = 0;
}

abbrev pub structural_cap : ℕ
structural_cap = 2

unfoldable pub skip_edit : String → String → String → Option String → Pass → Pass
skip_edit kind ticket_id reason error p = record p {
  skipped =
      p.skipped
      ++ record {
        kind = kind;
        ticket_id = ticket_id;
        child_ids = none;
        reason = some reason;
        error = error;
      }
        ∷ [];
}

abbrev pub applied_edit : String → String → Option (List String) → EditRecord
applied_edit kind ticket_id child_ids = record {
  kind = kind;
  ticket_id = ticket_id;
  child_ids = child_ids;
  reason = none;
  error = none;
}

-- The paths of the sketched tickets with an id, and the tickets with an id.
unfoldable pub sketched_paths : String → List EpicTicket → List String
sketched_paths id [] = []
sketched_paths id (t ∷ ts) =
    let rest = sketched_paths id ts in
    elim t.ticket.status [
      | sketched ↦ (if t.ticket.id == id then t.file_path ∷ rest else rest)
      | _ ↦ rest
    ]

unfoldable pub tickets_of : String → List EpicTicket → List EpicTicket
tickets_of id ts = keep (λ (t : EpicTicket). t.ticket.id == id) ts

-- What the transforms and Node's path functions are.
pub record Texts : Type 0 where
  pub add_dependency : (content depends_on : String) → String
  pub sharpen : (content : String) → List String → String
  pub slug : (title fallback : String) → String
  pub join_path : (dir name : String) → String
  pub read_error : (path : String) → String

module _ (t : Texts) (run_id epic_id : String) (tickets : List EpicTicket)
    (disk : List (String × String)) where
  unfoldable pub exists : String → Bool
  exists path = is_some (get path disk)

  unfoldable pub next_ids : ℕ → Pass → List String
  next_ids n p =
      drop p.allocated
        (allocate_ticket_ids (map (λ (e : EpicTicket). e.ticket.id) tickets) (p.allocated + n))

  unfoldable pub stub_path : String → String → String → String → String
  stub_path dir id title fallback = t.join_path dir (id ⊕ "-" ⊕ t.slug title fallback ⊕ ".md")

  unfoldable pub create : String → String → Pass → Pass
  create path content p = record p {
    files = set path (record { original = none; current = content }) p.files;
  }

  unfoldable pub derive_at : String → String → String → String → List String → Pass → Pass
  unfolding skip_edit create exists
  derive_at path id title rationale depends_on p =
      if exists path
      then skip_edit "derive-ticket" id "id-collision" none p
      else record (create path (render_derived_ticket_stub id title rationale depends_on run_id)
          p) {
            applied = p.applied ++ applied_edit "derive-ticket" id none ∷ [];
            triage =
                p.triage
                ++ build_needs_epic_wiring_triage id
                    ("Wire derived ticket " ⊕ id ⊕ " into " ⊕ epic_id)
                    ("Autopilot derived " ⊕ id ⊕ " (\"" ⊕ title ⊕ "\"). Add it to " ⊕ epic_id
                      ⊕ " epic.md tickets:/dependency table and decide whether to release it.")
                  ∷ [];
            structural = p.structural + 1;
          }

  unfoldable pub derive_with : String → String → String → List String → List String → Pass → Pass
  unfolding derive_at stub_path
  derive_with dir title rationale depends_on [] p = p
  derive_with dir title rationale depends_on (id ∷ _) p =
      derive_at (stub_path dir id title "derived-ticket") id title rationale depends_on p

  unfoldable pub derive : String → String → String → List String → Pass → Pass
  unfolding derive_with
  derive dir title rationale depends_on p =
      derive_with dir title rationale depends_on (next_ids 1 p)
        (record p { allocated = p.allocated + 1 })

  -- The children of a split with their ids and paths.
  unfoldable pub children :
      String → List String → List (String × String) → List (String × String × String × String)
  unfolding stub_path
  children dir (id ∷ ids) ((title, rationale) ∷ into) =
      (stub_path dir id title "split-ticket", id, title, rationale) ∷ children dir ids into
  children dir _ _ = []

  unfoldable pub create_children :
      String → List String → List (String × String × String × String) → Pass → Pass
  unfolding create
  create_children source inherited [] p = p
  create_children source inherited ((path, id, title, rationale) ∷ cs) p =
      create_children source inherited cs
        (create path (render_split_ticket_stub id title rationale source inherited run_id) p)

  unfoldable pub split_into :
      String → List String → List String → List (String × String × String × String) → Pass → Pass
  unfolding skip_edit create_children exists
  split_into source inherited ids cs p =
      if any (λ (c : String × String × String × String). exists c.0) cs
      then skip_edit "split-ticket" source "id-collision" none p
      else let created = create_children source inherited cs p in
        record created {
          applied = p.applied ++ applied_edit "split-ticket" source (some ids) ∷ [];
          triage =
              p.triage
              ++ build_needs_epic_wiring_triage source
                  ("Wire "
                    ⊕ decimal (length ids)
                    ⊕ " split children of "
                    ⊕ source
                    ⊕ " into "
                    ⊕ epic_id)
                  ("Autopilot split "
                    ⊕ source
                    ⊕ " into "
                    ⊕ join ", " ids
                    ⊕ ". Decide whether to supersede "
                    ⊕ source
                    ⊕ ", add the children to "
                    ⊕ epic_id
                    ⊕ " epic.md, and rewire dependents.")
                ∷ [];
          structural = p.structural + 1;
        }

  unfoldable pub split_of : String → String → List (String × String) → List EpicTicket → Pass → Pass
  unfolding split_into children skip_edit
  split_of dir source into (e ∷ []) p =
      let ids = next_ids (length into) p in
      split_into source e.ticket.depends_on ids (children dir ids into)
        (record p { allocated = p.allocated + length into })
  split_of dir source into _ p = skip_edit "split-ticket" source "unknown-ticket" none p

  unfoldable pub split : String → String → List (String × String) → Pass → Pass
  unfolding split_of
  split dir source into p = split_of dir source into (tickets_of source tickets) p

  -- A structural edit, within the cap, where the epic has a directory of tickets.
  unfoldable pub structural_edit :
      String → String → Option String → (String → Pass → Pass) → Pass → Pass
  unfolding skip_edit
  structural_edit kind label dir make p =
      if leb structural_cap p.structural
      then skip_edit kind label "structural-cap" none p
      else elim dir [ none ↦ skip_edit kind label "unknown-ticket" none p | some d ↦ make d p ]

  unfoldable pub change : String → String → String → FileState → (String → String) → Pass → Pass
  unfolding skip_edit
  change kind ticket_id path st transform p =
      if transform st.current == st.current
      then skip_edit kind ticket_id "noop" none (record p { files = set path st p.files })
      else record p {
        files = set path (record st { current = transform st.current }) p.files;
        applied = p.applied ++ applied_edit kind ticket_id none ∷ [];
      }

  -- The file of an edit: as the pass has it so far, or as it is read from the disk.
  unfoldable pub file_state : String → Pass → Option FileState
  file_state path p = elim (get path p.files) [
    | some st ↦ some st
    | none ↦ elim (get path disk) [
      | none ↦ none
      | some content ↦ some (record { original = some content; current = content })
    ]
  ]

  unfoldable pub safe_at :
      String → String → String → (String → String) → Option FileState → Pass → Pass
  unfolding change skip_edit
  safe_at kind ticket_id path transform none p =
      skip_edit kind ticket_id "read-failed" (some (t.read_error path)) p
  safe_at kind ticket_id path transform (some st) p = change kind ticket_id path st transform p

  unfoldable pub safe_of : String → String → (String → String) → List String → Pass → Pass
  unfolding safe_at file_state skip_edit
  safe_of kind ticket_id transform (path ∷ []) p =
      safe_at kind ticket_id path transform (file_state path p) p
  safe_of kind ticket_id transform _ p = skip_edit kind ticket_id "unknown-ticket" none p

  unfoldable pub safe_edit : String → String → (String → String) → Pass → Pass
  unfolding safe_of
  safe_edit kind ticket_id transform p =
      safe_of kind ticket_id transform (sketched_paths ticket_id tickets) p

  module _ (dir : Option String) where
    unfoldable pub apply_edit : Edit → Pass → Pass
    unfolding structural_edit derive split safe_edit
    apply_edit (derive_ticket title rationale depends_on) p =
        structural_edit "derive-ticket" ("(new) " ⊕ title) dir
          (λ d q. derive d title rationale depends_on q) p
    apply_edit (split_ticket ticket_id into) p =
        structural_edit "split-ticket" ticket_id dir (λ d q. split d ticket_id into q) p
    apply_edit (add_dependency ticket_id depends_on) p =
        safe_edit "add-dependency" ticket_id (λ content. t.add_dependency content depends_on) p
    apply_edit (sharpen_criteria ticket_id criteria) p =
        safe_edit "sharpen-criteria" ticket_id (λ content. t.sharpen content criteria) p

    unfoldable pub apply_edits : List Edit → Pass → Pass
    unfolding apply_edit
    apply_edits [] p = p
    apply_edits (e ∷ es) p = apply_edits es (apply_edit e p)
