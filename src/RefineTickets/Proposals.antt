-- ===== src/RefineTickets/Proposals.antt =====
-- src/skills/refineTickets.ts: what `parseRefineTicketsProposal` accepts, and reads back.
use jme_loop_public.Prelude.{
  String, ◌≡◌, ◌≢◌, refl, ap, subst, both_branches, get, ◌==◌, Option, some, List, [], ◌∷◌, map,
  All, eq_iff, arith,
}
use jme_loop_public.Json.{Json, str, array, object, Items, nil, cons, Fields, of_fields, of_texts}
use jme_loop_public.RunState.Parsing.{is_string_array-of_texts}
use jme_loop_public.Checked.{Checked, ok, fails, ◌>>=◌, Sure, then-Sure, next-Sure}
use jme_loop_public.RefineTickets.{
  SplitTarget, RefineEdit, derive_ticket, split_ticket, add_dependency, sharpen_criteria,
  RefineTicketsProposal, as_object, str_of, str_field, texts_or_fail, str_array, parse_target,
  parse_targets, parse_into, parse_derive, parse_split, parse_dependency, parse_criteria, not_empty,
  wrong_kind, parse_kind, parse_edit, parse_edits, edits_field, summary_field,
  parse_refine_tickets_proposal,
}

items_of : List Json → Items
items_of [] = nil
items_of (v ∷ vs) = cons v (items_of vs)

abbrev written_target : SplitTarget → Json
written_target t = object (of_fields (("title", str t.title) ∷ ("rationale", str t.rationale) ∷ []))

edit_fields : RefineEdit → Fields
unfolding items_of
edit_fields (derive_ticket title rationale depends_on) =
    ("kind", str "derive-ticket")
    ∷ ("title", str title)
    ∷ ("rationale", str rationale)
    ∷ ("dependsOn", array (of_texts depends_on))
    ∷ []
edit_fields (split_ticket ticket_id into) =
    ("kind", str "split-ticket")
    ∷ ("ticketId", str ticket_id)
    ∷ ("into", array (items_of (map written_target into)))
    ∷ []
edit_fields (add_dependency ticket_id depends_on rationale) =
    ("kind", str "add-dependency")
    ∷ ("ticketId", str ticket_id)
    ∷ ("dependsOn", str depends_on)
    ∷ ("rationale", str rationale)
    ∷ []
edit_fields (sharpen_criteria ticket_id criteria rationale) =
    ("kind", str "sharpen-criteria")
    ∷ ("ticketId", str ticket_id)
    ∷ ("criteria", array (of_texts criteria))
    ∷ ("rationale", str rationale)
    ∷ []

written_edit : RefineEdit → Json
unfolding edit_fields
written_edit e = object (of_fields (edit_fields e))

-- The value that a proposal is written as.
unfoldable pub written : RefineTicketsProposal → Json
unfolding items_of written_edit
written p = object (
    of_fields
      (("summary", str p.summary) ∷ ("edits", array (items_of (map written_edit p.edits))) ∷ []))

-- A split has targets, a sharpening has criteria.
abbrev pub IsEdit : RefineEdit → Type 0
IsEdit (split_ticket ticket_id []) = ⊥
IsEdit (sharpen_criteria ticket_id [] rationale) = ⊥
IsEdit _ = Unit

parse_target-written : (t : SplitTarget) → parse_target (written_target t) ≡ ok t
unfolding parse_target as_object str_field
parse_target-written t = refl

parse_targets-written :
    (ts : List SplitTarget) → parse_targets (items_of (map written_target ts)) ≡ ok ts
unfolding parse_targets items_of
parse_targets-written [] = refl
parse_targets-written (t ∷ ts) = simp (parse_targets-written ts)

parse_edit-written : (e : RefineEdit) → IsEdit e → parse_edit (written_edit e) ≡ ok e
unfolding parse_edit parse_kind as_object parse_derive parse_split parse_dependency parse_criteria
    str_field str_of str_array texts_or_fail written_edit edit_fields items_of parse_into
    parse_targets not_empty
parse_edit-written (derive_ticket title rationale depends_on) h =
    ap
      (λ r.
        texts_or_fail r "dependsOn" "derive-ticket" >>= λ ts. ok (derive_ticket title rationale ts))
      (is_string_array-of_texts depends_on)
parse_edit-written (split_ticket ticket_id []) h = absurd h
parse_edit-written (split_ticket ticket_id (t ∷ ts)) h = simp (parse_targets-written ts)
parse_edit-written (add_dependency ticket_id depends_on rationale) h = refl
parse_edit-written (sharpen_criteria ticket_id [] rationale) h = absurd h
parse_edit-written (sharpen_criteria ticket_id (c ∷ cs) rationale) h =
    ap
      (λ r. texts_or_fail r "criteria" "sharpen-criteria" >>= λ ts.
        not_empty ts >>= λ found. ok (sharpen_criteria ticket_id found rationale))
      (is_string_array-of_texts (c ∷ cs))

parse_edits-written :
    (es : List RefineEdit) → All IsEdit es → parse_edits (items_of (map written_edit es)) ≡ ok es
unfolding parse_edits items_of
parse_edits-written [] h = refl
parse_edits-written (e ∷ es) (p, h) = simp (parse_edit-written e p, parse_edits-written es h)

abbrev HasTargets : List SplitTarget → Type 0
HasTargets [] = ⊥
HasTargets (_ ∷ _) = Unit

parse_into-Sure : (v : Option Json) → Sure HasTargets (parse_into v)
unfolding parse_into parse_targets
parse_into-Sure (some (array (cons t ts))) =
    next-Sure HasTargets (parse_target t) _
      (λ target. next-Sure HasTargets (parse_targets ts) _ (λ targets. tt))
parse_into-Sure _ = tt

parse_derive-Sure : (o : Fields) → Sure IsEdit (parse_derive o)
unfolding parse_derive
parse_derive-Sure o = next-Sure IsEdit (str_field o "title" "derive-ticket") _ (λ title.
    next-Sure IsEdit (str_field o "rationale" "derive-ticket") _ (λ rationale.
      next-Sure IsEdit (str_array o "dependsOn" "derive-ticket") _ (λ depends_on. tt)))

parse_split-Sure : (o : Fields) → Sure IsEdit (parse_split o)
unfolding parse_split
parse_split-Sure o =
    then-Sure HasTargets IsEdit (parse_into (get "into" o)) _ (parse_into-Sure (get "into" o))
      (λ into h.
        next-Sure IsEdit (str_field o "ticketId" "split-ticket") _
          (λ ticket_id. split_targets ticket_id into h))
  where
    split_targets :
        (ticket_id : String) (into : List SplitTarget)
        → HasTargets into
        → IsEdit (split_ticket ticket_id into)
    split_targets ticket_id [] h = h
    split_targets ticket_id (t ∷ ts) h = tt

parse_dependency-Sure : (o : Fields) → Sure IsEdit (parse_dependency o)
unfolding parse_dependency
parse_dependency-Sure o = next-Sure IsEdit (str_field o "ticketId" "add-dependency") _ (λ ticket_id.
    next-Sure IsEdit (str_field o "dependsOn" "add-dependency") _ (λ depends_on.
      next-Sure IsEdit (str_field o "rationale" "add-dependency") _ (λ rationale. tt)))

HasCriteria : List String → Type 0
HasCriteria cs = (ticket_id rationale : String) → IsEdit (sharpen_criteria ticket_id cs rationale)

not_empty-Sure : (cs : List String) → Sure HasCriteria (not_empty cs)
unfolding not_empty HasCriteria
not_empty-Sure [] = tt
not_empty-Sure (c ∷ cs) = λ ticket_id rationale. tt

parse_criteria-Sure : (o : Fields) → Sure IsEdit (parse_criteria o)
unfolding parse_criteria HasCriteria
parse_criteria-Sure o = next-Sure IsEdit (str_array o "criteria" "sharpen-criteria") _ (λ texts.
    then-Sure HasCriteria IsEdit (not_empty texts) _ (not_empty-Sure texts) (λ cs h.
      next-Sure IsEdit (str_field o "ticketId" "sharpen-criteria") _ (λ ticket_id.
        next-Sure IsEdit (str_field o "rationale" "sharpen-criteria") _
          (λ rationale. h ticket_id rationale))))

parse_kind-Sure : (v : Option Json) (o : Fields) → Sure IsEdit (parse_kind v o)
unfolding parse_kind
parse_kind-Sure (some (str kind)) o =
    let P : Checked RefineEdit → Type 0 = Sure IsEdit in
    both_branches P (kind == "derive-ticket") (parse_derive o) _ (λ _. parse_derive-Sure o)
      (λ _.
        both_branches P (kind == "split-ticket") (parse_split o) _ (λ _. parse_split-Sure o)
          (λ _.
            both_branches P (kind == "add-dependency") (parse_dependency o) _
              (λ _. parse_dependency-Sure o)
              (λ _.
                both_branches P (kind == "sharpen-criteria") (parse_criteria o) (fails wrong_kind)
                  (λ _. parse_criteria-Sure o) (λ _. tt))))
parse_kind-Sure _ o = tt

parse_edits-Sure : (vs : Items) → Sure (All IsEdit) (parse_edits vs)
unfolding parse_edits parse_edit
parse_edits-Sure nil = tt
parse_edits-Sure (cons v vs) =
    then-Sure IsEdit (All IsEdit) (parse_edit v) _
      (next-Sure IsEdit (as_object v "refine-tickets edit") _
        (λ o. parse_kind-Sure (get "kind" o) o))
      (λ e h.
        then-Sure (All IsEdit) (All IsEdit) (parse_edits vs) _ (parse_edits-Sure vs)
          (λ es k. (h, k)))

edits_field-Sure : (v : Option Json) → Sure (All IsEdit) (edits_field v)
unfolding edits_field
edits_field-Sure (some (array vs)) = parse_edits-Sure vs
edits_field-Sure _ = tt

summary_field-Sure : (v : Option Json) → Sure (λ s. s ≢ "") (summary_field v)
unfolding summary_field
summary_field-Sure (some (str s)) =
    both_branches (Sure (λ (t : String). t ≢ "")) (s == "") _ (ok s) (λ _. tt)
      (λ h e. ground (arith, h, eq_iff s "", e))
summary_field-Sure _ = tt

-- The summary is not empty, and each edit has what its kind needs.
pub record IsProposal (p : RefineTicketsProposal) : Type 0 where
  pub summary : p.summary ≢ ""
  pub edits : All IsEdit p.edits

parse-Sure : (v : Json) → Sure IsProposal (parse_refine_tickets_proposal v)
unfolding parse_refine_tickets_proposal
parse-Sure v = next-Sure IsProposal (as_object v "refine-tickets output") _ (λ o.
    then-Sure (λ s. s ≢ "") IsProposal (summary_field (get "summary" o)) _
      (summary_field-Sure (get "summary" o))
      (λ summary h.
        then-Sure (All IsEdit) IsProposal (edits_field (get "edits" o)) _
          (edits_field-Sure (get "edits" o)) (λ edits k. record { summary = h; edits = k })))

summary_of : (s : String) → s ≢ "" → summary_field (some (str s)) ≡ ok s
unfolding summary_field
summary_of s h = ground (arith, eq_iff s "", h)

-- Whatever a model's output holds, a proposal that is accepted has a summary, targets for each split
-- and criteria for each sharpening.
pub parse_refine_tickets_proposal-IsProposal :
    (v : Json) (p : RefineTicketsProposal) → parse_refine_tickets_proposal v ≡ ok p → IsProposal p
parse_refine_tickets_proposal-IsProposal v p h = subst (Sure IsProposal) h (parse-Sure v)

-- A proposal that has a summary, targets for each split and criteria for each sharpening is read back
-- from the value that it is written as.
pub parse_refine_tickets_proposal-written :
    (p : RefineTicketsProposal) → IsProposal p → parse_refine_tickets_proposal (written p) ≡ ok p
unfolding parse_refine_tickets_proposal written as_object edits_field
parse_refine_tickets_proposal-written p h =
    simp (summary_of p.summary h.summary, parse_edits-written p.edits h.edits)
