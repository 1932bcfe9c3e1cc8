-- ===== src/TicketIds.antt =====
-- The ids of tickets as texts and as numbers (src/ticketAllocation.ts, `parseTicketNumber`,
-- `ticketIdFromNumber`, `isTicketFilePath` and the searches for an id in a path). The number of an
-- id is the double nearest to its digits. `String(n)` has an exponent from 10^21 on, which
-- `decimal` has not.
pub mod Reading
use Prim.Native.Char.{code}
use jme_loop_public.Prelude.{
  ℕ, String, Bool, true, false, ◌&&◌, ◌||◌, Option, none, some, List, [], ◌∷◌, ◌==◌, eqb, ltb, all,
  codes, decimal, is_digit, is_empty, length, rounded, value_from, ◌⊕◌, if◌then◌else◌,
}
use jme_loop_public.Queue.{after_prefix}

-- The number of a run of digits that is not empty.
pub digits_value : List ℕ → Option ℕ
unfolding is_digit value_from
digits_value [] = none
digits_value (c ∷ cs) = if all is_digit (c ∷ cs) then some (value_from 0 (c ∷ cs)) else none

digits_of : Option (List ℕ) → Option ℕ
unfolding digits_value
digits_of none = none
digits_of (some cs) = digits_value cs

as_double : Option ℕ → Option ℕ
as_double none = none
as_double (some n) = some (rounded n)

-- `/^TICKET-(\d+)$/`.
unfoldable pub parse_ticket_number : String → Option ℕ
unfolding digits_of as_double after_prefix
parse_ticket_number id = as_double (digits_of (after_prefix (codes "TICKET-") (codes id)))

-- `String(n).padStart(3, "0")`.
unfoldable pub pad_three : ℕ → String
pad_three n =
    let text = decimal n in
    if eqb (length (codes text)) 1
    then "00" ⊕ text
    else if eqb (length (codes text)) 2
    then "0" ⊕ text
    else text

unfoldable pub ticket_id_from_number : ℕ → String
unfolding pad_three
ticket_id_from_number n = "TICKET-" ⊕ pad_three n

any_suffix : (List ℕ → Bool) → List ℕ → Bool
any_suffix p [] = p []
any_suffix p (c ∷ cs) = p (c ∷ cs) || any_suffix p cs

is_exactly : List ℕ → List ℕ → Bool
is_exactly [] [] = true
is_exactly (a ∷ as') (b ∷ bs) = eqb a b && is_exactly as' bs
is_exactly _ _ = false

-- A digit, and a rest that ends with `.md`.
numbered : List ℕ → Bool
unfolding any_suffix is_exactly is_digit
numbered [] = false
numbered (d ∷ rest) = is_digit d && any_suffix (is_exactly (codes ".md")) rest

at_tickets : List ℕ → Bool
unfolding numbered
at_tickets cs = elim (after_prefix (codes "/tickets/TICKET-") cs) [
  | none ↦ false
  | some rest ↦ numbered rest
]

after_epic : List ℕ → Bool
unfolding at_tickets any_suffix
after_epic [] = false
after_epic (_ ∷ rest) = any_suffix at_tickets rest

at_docs : List ℕ → Bool
unfolding after_epic
at_docs cs = elim (after_prefix (codes "docs/epics/") cs) [
  | none ↦ false
  | some rest ↦ after_epic rest
]

after_slash : List ℕ → Bool
unfolding at_docs
after_slash [] = false
after_slash (c ∷ cs) = eqb c b'/' && at_docs cs

-- `/(^|\/)docs\/epics\/.+\/tickets\/TICKET-\d+.*\.md$/` on a path with slashes and no line break.
unfoldable pub is_ticket_file_path : String → Bool
unfolding at_docs after_slash any_suffix after_prefix
is_ticket_file_path path = at_docs (codes path) || any_suffix after_slash (codes path)

-- The text after a literal prefix.
unfoldable pub strip : String → String → Option String
strip String.[] s = some s
strip (String.◌∷◌ p ps) String.[] = none
strip (String.◌∷◌ p ps) (String.◌∷◌ c cs) = if eqb (code p) (code c) then strip ps cs else none

leading_digits : String → String
unfolding is_digit
leading_digits String.[] = ""
leading_digits (String.◌∷◌ c cs) =
    let rest = leading_digits cs in if is_digit (code c) then String.◌∷◌ c rest else ""

-- A mark with digits after it, at the start of a text.
marked_here : String → String → Option String
unfolding strip leading_digits
marked_here mark s = elim (strip mark s) [
  | none ↦ none
  | some rest ↦
      let digits = leading_digits rest in if digits == "" then none else some (mark ⊕ digits)
]

-- `/(TICKET-\d+)/` and `/(EPIC-\d+)/`: the first place where the mark and digits stand.
unfoldable pub find_marked : String → String → Option String
unfolding marked_here
find_marked mark String.[] = none
find_marked mark (String.◌∷◌ c cs) =
    let later = find_marked mark cs in
    elim (marked_here mark (String.◌∷◌ c cs)) [ none ↦ later | some id ↦ some id ]
