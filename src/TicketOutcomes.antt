-- ===== src/TicketOutcomes.antt =====
-- src/ticketOutcomes.ts, `deriveTicketOutcomes`: what became of each ticket, read from the events of
-- a run. The source's list `order` holds the keys of its map in the order of their insertion, which
-- is the order of the association list here.
pub mod Folding
pub mod Shipping
use jme_loop_public.Prelude.{
  ℕ, suc, String, Bool, true, false, not, ◌&&◌, ◌||◌, Option, none, some, List, [], ◌∷◌, ◌++◌, map,
  ◌==◌, Number, int, pos, get, set, any, ltb, length, is_some, or_else, if◌then◌else◌,
}
use jme_loop_public.Json.{Json, bool, num, str, Fields}
use jme_loop_public.RunState.{RunEvent, is_string_array}

pub record TicketOutcome : Type 0 where
  pub ticket_id : String
  pub built : Option Bool
  pub changed_files : Option Number
  pub verified : Option (String × Bool)
  pub pr_opened : Option Bool
  pub merged : Bool
  pub closed : Bool
  pub cleanup_pending : Bool
  pub shipping_uncertain : Bool

-- The substantive flag and the number of files of a build; the command and the result of a
-- verification; the index and the phase of a flag.
pub record Acc : Type 0 where
  pub built : Option (Bool × Number)
  pub verified : Option (String × Bool)
  pub merge_index : Option ℕ
  pub merge_action : Option String
  pub closed : Bool
  pub flags : List (ℕ × String)

abbrev pub no_acc : Acc
no_acc = record {
  built = none;
  verified = none;
  merge_index = none;
  merge_action = none;
  closed = false;
  flags = [];
}

unfoldable pub obj : RunEvent → Fields
obj e = or_else e.data_fields []

true_of : Option Json → Bool
true_of (some (bool b)) = b
true_of _ = false

number_of : Option Json → Number
number_of (some (num n)) = n
number_of _ = int (pos 0)

-- A text that is not empty, or `(unknown)`.
text_or_unknown : Option Json → String
text_or_unknown (some (str s)) = if s == "" then "(unknown)" else s
text_or_unknown _ = "(unknown)"

unfoldable pub as_bool : Fields → String → Bool
unfolding true_of
as_bool o k = true_of (get k o)

unfoldable pub as_num : Fields → String → Number
unfolding number_of
as_num o k = number_of (get k o)

unfoldable pub as_str : Fields → String → String
unfolding text_or_unknown
as_str o k = text_or_unknown (get k o)

unfoldable pub changed_file_count : Fields → Number
unfolding as_num
changed_file_count o = elim (is_string_array (get "changedFiles" o)) [
  | some files ↦ int (pos (length files))
  | none ↦ as_num o "changedFiles"
]

-- The anchor types.
pub data Anchor : Type 0 where
  started built_ticket verification decision closed_ticket flagged : Anchor

unfoldable pub anchor_of : String → Option Anchor
anchor_of t =
    if t == "ticket.started"
    then some started
    else if t == "ticket.built"
    then some built_ticket
    else if t == "verification.result"
    then some verification
    else if t == "merge.decision"
    then some decision
    else if t == "ticket.closed"
    then some closed_ticket
    else if t == "ticket.flagged"
    then some flagged
    else none

-- The switch on the event's type.
unfoldable pub absorb : ℕ → RunEvent → Anchor → Acc → Acc
unfolding obj as_bool as_str changed_file_count
absorb index e started a = a
absorb index e built_ticket a = record a {
  built = some (as_bool (obj e) "substantive", changed_file_count (obj e));
}
absorb index e verification a = record a {
  verified = some (as_str (obj e) "command", as_bool (obj e) "passed");
}
absorb index e decision a = record a {
  merge_index = some index;
  merge_action = some (as_str (obj e) "action");
}
absorb index e closed_ticket a = record a { closed = true }
absorb index e flagged a = record a {
  flags = a.flags ++ (index, or_else e.phase (as_str (obj e) "phase")) ∷ [];
}

-- The ticket of an event; an empty id is none.
unfoldable pub ticket_of : RunEvent → Option String
ticket_of e = elim e.ticket_id [ none ↦ none | some id ↦ if id == "" then none else some id ]

abbrev pub Accs : Type 0
Accs = List (String × Acc)

unfoldable pub absorb_for : ℕ → RunEvent → Option Anchor → Option String → Accs → Accs
unfolding absorb
absorb_for index e none id accs = accs
absorb_for index e (some anchor) none accs = accs
absorb_for index e (some anchor) (some id) accs =
    set id (absorb index e anchor (or_else (get id accs) no_acc)) accs

-- The loop over the events, from an index on.
unfoldable pub accumulate : ℕ → List RunEvent → Accs → Accs
unfolding absorb_for anchor_of ticket_of
accumulate index [] accs = accs
accumulate index (e ∷ es) accs =
    accumulate (suc index) es (absorb_for index e (anchor_of e.type) (ticket_of e) accs)

abbrev pub is_later : ℕ → ℕ × String → Bool
is_later index f = ltb index f.0

abbrev pub flagged_after : Option ℕ → List (ℕ × String) → Bool
flagged_after none flags = false
flagged_after (some index) flags = any (is_later index) flags

-- The pull request was opened, was not, or may have been.
abbrev pub opened : Bool → Bool → Option Bool
opened true gate = some true
opened false true = none
opened false false = some false

unfoldable pub outcome_of : String × Acc → TicketOutcome
outcome_of (id, a) =
    let uncertain = flagged_after a.merge_index a.flags in
    let clean = is_some a.merge_index && not uncertain in
    record {
      ticket_id = id;
      built = elim a.built [ none ↦ none | some b ↦ some b.0 ];
      changed_files = elim a.built [ none ↦ none | some b ↦ some b.1 ];
      verified = a.verified;
      pr_opened = opened (is_some a.merge_index) (any (λ f. f.1 == "MergeGate") a.flags);
      merged = elim a.merge_action [ none ↦ false | some action ↦ action == "auto-merge" ] && clean;
      closed = a.closed;
      cleanup_pending = not clean;
      shipping_uncertain = uncertain;
    }

unfoldable pub derive_ticket_outcomes : List RunEvent → List TicketOutcome
unfolding accumulate outcome_of
derive_ticket_outcomes events = map outcome_of (accumulate 0 events [])
