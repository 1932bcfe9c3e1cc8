-- ===== src/TicketIds/Reading.antt =====
-- src/ticketAllocation.ts: the id that is made of a number is read back as that number, up to 2^53.
use jme_loop_public.Prelude.{
  ℕ, ◌≡◌, ap, some, List, [], ◌∷◌, codes, codes-append, decimal, decimal-IsDecimal, IsDecimal,
  is_digit, length, value_from, Bool-cases, inl, inr, eqb, arith, ◌≤◌, exact, rounded_small,
}
use jme_loop_public.Queue.{after_prefix}
use jme_loop_public.TicketIds.{digits_value, parse_ticket_number, pad_three, ticket_id_from_number}

-- Digits with zeros before them stand for the same number.
IsDecimal-zero : (n : ℕ) (cs : List ℕ) → IsDecimal n cs → IsDecimal n (48 ∷ cs)
unfolding value_from is_digit
IsDecimal-zero n cs h = record {
  digits = h.digits;
  some_digit = omega arith;
  stands_for = h.stands_for;
}

pub pad_three-IsDecimal : (n : ℕ) → IsDecimal n (codes (pad_three n))
unfolding pad_three
pad_three-IsDecimal n =
    let h = decimal-IsDecimal n in
    elim (Bool-cases (eqb (length (codes (decimal n))) 1)) [
      | inl one ↦
          rw (one, codes-append "00" (decimal n)) (IsDecimal-zero n _ (IsDecimal-zero n _ h))
      | inr more ↦ elim (Bool-cases (eqb (length (codes (decimal n))) 2)) [
        | inl two ↦ rw (more, two, codes-append "0" (decimal n)) (IsDecimal-zero n _ h)
        | inr long ↦ rw (more, long) h
      ]
    ]

pub digits_value-IsDecimal : (n : ℕ) (cs : List ℕ) → IsDecimal n cs → digits_value cs ≡ some n
unfolding digits_value
digits_value-IsDecimal n [] h = absurd (omega (arith, h.some_digit))
digits_value-IsDecimal n (c ∷ cs) h = rw h.digits (ap (λ m. some m) h.stands_for)

-- The id that is made of a number is read back as that number, as far as numbers are exact.
pub parse-ticket_id_from_number :
    (n : ℕ) → n ≤ exact → parse_ticket_number (ticket_id_from_number n) ≡ some n
unfolding parse_ticket_number ticket_id_from_number after_prefix
parse-ticket_id_from_number n h =
    rw
      (
        codes-append "TICKET-" (pad_three n),
        digits_value-IsDecimal n (codes (pad_three n)) (pad_three-IsDecimal n),
      )
      (ap (λ m. some m) (rounded_small n h))
