-- ===== src/Queue/Reading.antt =====
-- src/scanTickets.ts, `readTicketFile`: what a ticket file has to hold.
use jme_loop_public.Prelude.{
  String, ◌≡◌, true, Option, none, some, List, all, get, Bool-cases, Option-cases, inl, inr, arith,
}
use jme_loop_public.Json.{Json, str, array, Items, nil, cons, Fields}
use jme_loop_public.Queue.{
  Ticket, status_of, trim, is_ticket_id, text_field, loop_field, ticket_ids, depends_field,
  ticket_from, read_ticket,
}

-- What holds of a ticket that was read.
pub record IsRead (epic : Option String) (fm : Fields) (t : Ticket) : Type 0 where
  pub id : is_ticket_id t.id ≡ true
  pub epic_id : epic ≡ some t.epic_id
  pub status : status_of (trim (text_field (get "status" fm))) ≡ some t.status
  pub loop : loop_field (get "loop" fm) ≡ some t.loop
  pub depends_on : all is_ticket_id t.depends_on ≡ true

ticket_ids-all :
    (vs : Items) (ids : List String) → ticket_ids vs ≡ some ids → all is_ticket_id ids ≡ true
unfolding ticket_ids
ticket_ids-all nil ids h = ground arith
ticket_ids-all (cons (str s) vs) ids h = elim (Option-cases (ticket_ids vs)) [
  | inl gone ↦ ground (arith, gone)
  | inr (rest, found) ↦ (let k = ticket_ids-all vs rest found in ground (arith, found, k))
]
ticket_ids-all (cons _ vs) ids h = cc

depends_field-all :
    (o : Option Json) (ids : List String) → depends_field o ≡ some ids → all is_ticket_id ids ≡ true
unfolding depends_field
depends_field-all none ids h = ground arith
depends_field-all (some (array vs)) ids h = ticket_ids-all vs ids h
depends_field-all (some _) ids h = cc

ticket_from-IsRead :
    (i : String) (epic : Option String) (fm : Fields) (t : Ticket)
    → is_ticket_id i ≡ true
    → ticket_from i epic fm ≡ some t
    → IsRead epic fm t
unfolding ticket_from
ticket_from-IsRead i none fm t v h = cc
ticket_from-IsRead i (some e) fm t v h =
    elim (Option-cases (status_of (trim (text_field (get "status" fm))))) [
      | inl gone ↦ ground (arith, gone)
      | inr (s, found) ↦ elim (Option-cases (loop_field (get "loop" fm))) [
        | inl gone ↦ ground (arith, found, gone)
        | inr (l, looped) ↦ elim (Option-cases (depends_field (get "depends-on" fm))) [
          | inl gone ↦ ground (arith, found, looped, gone)
          | inr (ds, deps) ↦
              let k = depends_field-all (get "depends-on" fm) ds deps in
              record {
                id = ground (arith, found, looped, deps);
                epic_id = ground (arith, found, looped, deps);
                status = ground (arith, found, looped, deps);
                loop = ground (arith, found, looped, deps);
                depends_on = ground (arith, found, looped, deps, k);
              }
        ]
      ]
    ]

-- A ticket that is read from a file has a valid id, the epic of the file's directory, the status and
-- the release marker that the frontmatter states in a valid form, and only valid ids as
-- dependencies.
pub read_ticket-IsRead :
    (epic : Option String) (fm : Fields) (t : Ticket)
    → read_ticket epic fm ≡ some t
    → IsRead epic fm t
unfolding read_ticket
read_ticket-IsRead epic fm t h = elim (Bool-cases (is_ticket_id (text_field (get "id" fm)))) [
  | inl valid ↦
      ticket_from-IsRead (text_field (get "id" fm)) epic fm t valid (ground (arith, valid))
  | inr invalid ↦ absurd (ground (arith, invalid))
]
