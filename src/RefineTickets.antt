-- ===== src/RefineTickets.antt =====
-- src/skills/refineTickets.ts: the validators of the input and of the proposal of a backlog
-- refinement, and its rendering. An array is a list of JSON values; a check that fails throws with
-- its message.
pub mod Proposals
use jme_loop_public.Prelude.{
  String, Option, none, some, List, [], ◌∷◌, ◌==◌, ◌⊕◌, get, join, map, is_empty, if◌then◌else◌,
}
use jme_loop_public.Json.{Json, str, array, object, Items, nil, cons, Fields, fields}
use jme_loop_public.RunState.{is_string_array}
use jme_loop_public.Checked.{Checked, ok, fails, ◌>>=◌}

pub record RefineTicketsInput : Type 0 where
  pub epic_id : String
  pub epic_summary : String
  pub tickets : String

pub record SplitTarget : Type 0 where
  pub title : String
  pub rationale : String

pub data RefineEdit : Type 0 where
  derive_ticket : (title rationale : String) → List String → RefineEdit
  split_ticket : (ticket_id : String) → List SplitTarget → RefineEdit
  add_dependency : (ticket_id depends_on rationale : String) → RefineEdit
  sharpen_criteria : (ticket_id : String) → List String → (rationale : String) → RefineEdit

pub record RefineTicketsProposal : Type 0 where
  pub summary : String
  pub edits : List RefineEdit

unfoldable pub as_object : Json → String → Checked Fields
as_object (object ms) label = ok (fields ms)
as_object _ label = fails (label ⊕ " must be an object")

unfoldable pub str_of : Option Json → String → String → Checked String
str_of (some (str s)) k label = ok s
str_of _ k label = fails (label ⊕ " '" ⊕ k ⊕ "' must be a string")

unfoldable pub str_field : Fields → String → String → Checked String
unfolding str_of
str_field o k label = str_of (get k o) k label

unfoldable pub texts_or_fail : Option (List String) → String → String → Checked (List String)
texts_or_fail none k label = fails (label ⊕ " '" ⊕ k ⊕ "' must be string[]")
texts_or_fail (some texts) k label = ok texts

unfoldable pub str_array : Fields → String → String → Checked (List String)
unfolding texts_or_fail
str_array o k label = texts_or_fail (is_string_array (get k o)) k label

unfoldable pub parse_refine_tickets_input : Json → Checked RefineTicketsInput
unfolding as_object str_field
parse_refine_tickets_input v = as_object v "refine-tickets input" >>= λ o.
    str_field o "epicId" "refine-tickets input" >>= λ epic_id.
    str_field o "epicSummary" "refine-tickets input" >>= λ epic_summary.
    str_field o "tickets" "refine-tickets input" >>= λ tickets.
    ok (record { epic_id = epic_id; epic_summary = epic_summary; tickets = tickets })

unfoldable pub parse_target : Json → Checked SplitTarget
unfolding as_object str_field
parse_target t = as_object t "split-ticket 'into' entry" >>= λ to.
    str_field to "title" "split-ticket into" >>= λ title.
    str_field to "rationale" "split-ticket into" >>= λ rationale.
    ok (record { title = title; rationale = rationale })

unfoldable pub parse_targets : Items → Checked (List SplitTarget)
unfolding parse_target
parse_targets nil = ok []
parse_targets (cons t ts) =
    parse_target t >>= λ target. parse_targets ts >>= λ targets. ok (target ∷ targets)

unfoldable pub parse_into : Option Json → Checked (List SplitTarget)
unfolding parse_targets
parse_into (some (array (cons t ts))) = parse_targets (cons t ts)
parse_into _ = fails "split-ticket 'into' must be a non-empty array"

unfoldable pub parse_derive : Fields → Checked RefineEdit
unfolding str_field str_array
parse_derive o = str_field o "title" "derive-ticket" >>= λ title.
    str_field o "rationale" "derive-ticket" >>= λ rationale.
    str_array o "dependsOn" "derive-ticket" >>= λ depends_on.
    ok (derive_ticket title rationale depends_on)

unfoldable pub parse_split : Fields → Checked RefineEdit
unfolding parse_into str_field
parse_split o = parse_into (get "into" o) >>= λ into.
    str_field o "ticketId" "split-ticket" >>= λ ticket_id. ok (split_ticket ticket_id into)

unfoldable pub parse_dependency : Fields → Checked RefineEdit
unfolding str_field
parse_dependency o = str_field o "ticketId" "add-dependency" >>= λ ticket_id.
    str_field o "dependsOn" "add-dependency" >>= λ depends_on.
    str_field o "rationale" "add-dependency" >>= λ rationale.
    ok (add_dependency ticket_id depends_on rationale)

unfoldable pub not_empty : List String → Checked (List String)
not_empty [] = fails "sharpen-criteria 'criteria' must be a non-empty array"
not_empty (c ∷ cs) = ok (c ∷ cs)

unfoldable pub parse_criteria : Fields → Checked RefineEdit
unfolding str_field str_array not_empty
parse_criteria o = str_array o "criteria" "sharpen-criteria" >>= λ texts.
    not_empty texts >>= λ criteria. str_field o "ticketId" "sharpen-criteria" >>= λ ticket_id.
    str_field o "rationale" "sharpen-criteria" >>= λ rationale.
    ok (sharpen_criteria ticket_id criteria rationale)

unfoldable pub wrong_kind : String
wrong_kind =
    "refine-tickets edit 'kind' must be one of: derive-ticket, split-ticket, add-dependency, sharpen-criteria"

unfoldable pub parse_kind : Option Json → Fields → Checked RefineEdit
unfolding parse_derive parse_split parse_dependency parse_criteria wrong_kind
parse_kind (some (str kind)) o =
    if kind == "derive-ticket"
    then parse_derive o
    else if kind == "split-ticket"
    then parse_split o
    else if kind == "add-dependency"
    then parse_dependency o
    else if kind == "sharpen-criteria"
    then parse_criteria o
    else fails wrong_kind
parse_kind _ o = fails wrong_kind

unfoldable pub parse_edit : Json → Checked RefineEdit
unfolding as_object parse_kind
parse_edit v = as_object v "refine-tickets edit" >>= λ o. parse_kind (get "kind" o) o

unfoldable pub parse_edits : Items → Checked (List RefineEdit)
unfolding parse_edit
parse_edits nil = ok []
parse_edits (cons v vs) = parse_edit v >>= λ edit. parse_edits vs >>= λ edits. ok (edit ∷ edits)

unfoldable pub edits_field : Option Json → Checked (List RefineEdit)
unfolding parse_edits
edits_field (some (array vs)) = parse_edits vs
edits_field _ = fails "refine-tickets output 'edits' must be an array"

unfoldable pub summary_field : Option Json → Checked String
summary_field (some (str s)) =
    if s == "" then fails "refine-tickets output 'summary' must be a non-empty string" else ok s
summary_field _ = fails "refine-tickets output 'summary' must be a non-empty string"

unfoldable pub parse_refine_tickets_proposal : Json → Checked RefineTicketsProposal
unfolding as_object summary_field edits_field
parse_refine_tickets_proposal v = as_object v "refine-tickets output" >>= λ o.
    summary_field (get "summary" o) >>= λ summary.
    edits_field (get "edits" o) >>= λ edits. ok (record { summary = summary; edits = edits })

unfoldable pub render_edit : RefineEdit → String
render_edit (derive_ticket title rationale depends_on) =
    "- **derive-ticket** — "
    ⊕ title
    ⊕ "\n  - rationale: "
    ⊕ rationale
    ⊕ "\n  - depends-on: "
    ⊕ (if is_empty depends_on then "(none)" else join ", " depends_on)
render_edit (split_ticket ticket_id into) =
    "- **split-ticket** — "
    ⊕ ticket_id
    ⊕ "\n"
    ⊕ join "\n" (map (λ (t : SplitTarget). "  - → " ⊕ t.title ⊕ ": " ⊕ t.rationale) into)
render_edit (add_dependency ticket_id depends_on rationale) =
    "- **add-dependency** — " ⊕ ticket_id ⊕ " → " ⊕ depends_on ⊕ "\n  - rationale: " ⊕ rationale
render_edit (sharpen_criteria ticket_id criteria rationale) =
    "- **sharpen-criteria** — "
    ⊕ ticket_id
    ⊕ "\n"
    ⊕ join "\n" (map (λ (c : String). "  - " ⊕ c) criteria)
    ⊕ "\n  - rationale: "
    ⊕ rationale

unfoldable pub rendered_lines : List RefineEdit → String
unfolding render_edit
rendered_lines [] = "- (none)"
rendered_lines (e ∷ es) = join "\n" (map render_edit (e ∷ es))

-- The body of refine-backlog/proposal.md.
unfoldable pub render_proposal : RefineTicketsProposal → String
unfolding rendered_lines
render_proposal p =
    "# Backlog refinement proposal\n\n"
    ⊕ p.summary
    ⊕ "\n\n## Edits\n"
    ⊕ rendered_lines p.edits
    ⊕ "\n"
