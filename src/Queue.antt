-- ===== src/Queue.antt =====
-- src/scanTickets.ts: which tickets the loop may take, and which one it takes next. A ticket file
-- is read from the record that the frontmatter parser gives, and from the name of its epic's
-- directory; `exists` tells which of the repository's files exist, and `precedes a b` is
-- `a.localeCompare(b) < 0`.
pub mod Picking
pub mod Reading
use Prim.Native.Char.{code}
use jme_loop_public.Prelude.{
  ℕ, String, Bool, true, false, ◌&&◌, ◌||◌, not, Option, none, some, is_some, or_else, List, [],
  ◌∷◌, ◌==◌, eqb, leb, all, keep, get, set, codes, join, map, is_digit, if◌then◌else◌,
}
use jme_loop_public.Json.{Json, bool, str, array, Items, items, nil, cons, Fields}

pub data TicketStatus : Type 0 where
  sketched planned in_progress scope_changed done dropped : TicketStatus

pub record Ticket : Type 0 where
  pub id : String
  pub epic_id : String
  pub title : String
  pub status : TicketStatus
  pub spec : Option String
  pub plan : Option String
  pub loop : Bool
  pub depends_on : List String

unfoldable pub status_of : String → Option TicketStatus
status_of s =
    if s == "sketched"
    then some sketched
    else if s == "planned"
    then some planned
    else if s == "in-progress"
    then some in_progress
    else if s == "scope-changed"
    then some scope_changed
    else if s == "done"
    then some done
    else if s == "dropped"
    then some dropped
    else none

-- White space, as `trim` takes it, among the ASCII characters and the no-break space.
is_space : ℕ → Bool
is_space c = eqb c 32 || leb 9 c && leb c 13 || eqb c 160

trim_start : String → String
unfolding is_space
trim_start String.[] = ""
trim_start (String.◌∷◌ c s) =
    let rest = trim_start s in if is_space (code c) then rest else String.◌∷◌ c s

trim_end : String → String
unfolding is_space
trim_end String.[] = ""
trim_end (String.◌∷◌ c s) =
    let rest = trim_end s in if rest == "" && is_space (code c) then "" else String.◌∷◌ c rest

unfoldable pub trim : String → String
unfolding trim_start trim_end
trim s = trim_end (trim_start s)

is_letter : ℕ → Bool
is_letter c = leb 65 c && leb c 90 || leb 97 c && leb c 122

-- What may follow the three digits of a ticket's id.
is_suffix : List ℕ → Bool
unfolding is_letter
is_suffix [] = true
is_suffix (c ∷ []) = is_letter c
is_suffix _ = false

-- Three digits, and a rest that passes.
digits_then : (List ℕ → Bool) → List ℕ → Bool
unfolding is_digit
digits_then p (a ∷ b ∷ c ∷ rest) = is_digit a && is_digit b && is_digit c && p rest
digits_then p _ = false

-- The code points after a literal prefix.
unfoldable pub after_prefix : List ℕ → List ℕ → Option (List ℕ)
after_prefix [] cs = some cs
after_prefix (p ∷ ps) [] = none
after_prefix (p ∷ ps) (c ∷ cs) = if eqb p c then after_prefix ps cs else none

-- `/^TICKET-\d{3}[A-Za-z]?$/`.
unfoldable pub is_ticket_id : String → Bool
unfolding after_prefix digits_then is_suffix
is_ticket_id s = elim (after_prefix (codes "TICKET-") (codes s)) [
  | none ↦ false
  | some rest ↦ digits_then is_suffix rest
]

unfoldable pub text_field : Option Json → String
text_field (some (str s)) = s
text_field _ = ""

-- A text that is not blank, trimmed.
filled : Option Json → Option String
unfolding trim
filled (some (str s)) = let t = trim s in if t == "" then none else some t
filled _ = none

-- `loop`: absent, or a boolean.
unfoldable pub loop_field : Option Json → Option Bool
loop_field none = some false
loop_field (some (bool b)) = some b
loop_field (some _) = none

-- The ids that a list of values holds, if each is a ticket's id.
ticket_ids : Items → Option (List String)
unfolding is_ticket_id
ticket_ids nil = some []
ticket_ids (cons (str s) vs) =
    if is_ticket_id s
    then elim (ticket_ids vs) [ none ↦ none | some ids ↦ some (s ∷ ids) ]
    else none
ticket_ids (cons _ vs) = none

-- `depends-on`: absent, or a list of ids.
depends_field : Option Json → Option (List String)
unfolding ticket_ids
depends_field none = some []
depends_field (some (array vs)) = ticket_ids vs
depends_field (some _) = none

title_field : String → Option Json → String
unfolding text_field
title_field id (some (str s)) = s
title_field id (some (bool true)) = "true"
title_field id (some (bool false)) = "false"
title_field id (some (array vs)) = join "," (map (λ v. text_field (some v)) (items vs))
title_field id _ = id

infixl 5 ◌>>=◌
abbrev ◌>>=◌ {ℓ κ} : {A : Type ℓ} {B : Type κ} → Option A → (A → Option B) → Option B
none >>= f = none
some a >>= f = f a

-- A ticket with a valid id, from the other fields, each of which may refuse the file.
ticket_from : String → Option String → Fields → Option Ticket
unfolding text_field filled loop_field depends_field title_field
ticket_from id epic fm = do
  epic_id ← epic
  status ← status_of (trim (text_field (get "status" fm)))
  loop ← loop_field (get "loop" fm)
  depends_on ← depends_field (get "depends-on" fm)
  some (record {
    id = id;
    epic_id = epic_id;
    title = title_field id (get "title" fm);
    status = status;
    spec = filled (get "spec" fm);
    plan = filled (get "plan" fm);
    loop = loop;
    depends_on = depends_on;
  })

-- `readTicketFile`, with the epic's id of the path, if there is one.
unfoldable pub read_ticket : Option String → Fields → Option Ticket
unfolding ticket_from
read_ticket epic fm =
    let id = text_field (get "id" fm) in if is_ticket_id id then ticket_from id epic fm else none

abbrev pub is_startable : TicketStatus → Bool
is_startable sketched = true
is_startable planned = true
is_startable _ = false

abbrev pub is_done : Option TicketStatus → Bool
is_done (some done) = true
is_done _ = false

module _ (exists : String → Bool) where
  unfoldable pub is_there : Option String → Bool
  is_there none = false
  is_there (some path) = exists path

  abbrev pub is_released : Ticket → Bool
  is_released t = is_startable t.status && t.loop

  unfoldable pub is_prepared : Ticket → Bool
  unfolding is_there
  is_prepared t = is_there t.spec && is_there t.plan

  -- The two lists of `scanTickets`.
  unfoldable pub loop_ready : List Ticket → List Ticket
  unfolding is_prepared
  loop_ready tickets = keep is_prepared (keep is_released tickets)

  unfoldable pub needs_planning : List Ticket → List Ticket
  unfolding is_prepared
  needs_planning tickets = keep (λ t. not (is_prepared t)) (keep is_released tickets)

-- `new Map(allTickets.map((t) => [t.id, t.status]))`: a later ticket replaces an earlier one.
unfoldable pub status_by_id :
    List (String × TicketStatus) → List Ticket → List (String × TicketStatus)
status_by_id m [] = m
status_by_id m (t ∷ ts) = status_by_id (set t.id t.status m) ts

unfoldable pub is_unblocked : List Ticket → Ticket → Bool
unfolding status_by_id
is_unblocked all_tickets t =
    all (λ dep. is_done (get dep (status_by_id [] all_tickets))) t.depends_on

module _ (precedes : String → String → Bool) where
  -- The head of a stable sort by id: the first of the least.
  unfoldable pub least : Ticket → List Ticket → Ticket
  least best [] = best
  least best (t ∷ ts) = least (if precedes t.id best.id then t else best) ts

  first : List Ticket → Option Ticket
  unfolding least
  first [] = none
  first (t ∷ ts) = some (least t ts)

  unfoldable pub pick_next : List Ticket → List Ticket → Option Ticket
  unfolding first is_unblocked
  pick_next ready all_tickets = first (keep (is_unblocked all_tickets) ready)
