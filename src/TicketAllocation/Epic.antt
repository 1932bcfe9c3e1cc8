-- ===== src/TicketAllocation/Epic.antt =====
-- src/structuralRefinement.ts, `allocateTicketIds`: the ids for one epic.
use native.Mathlib.Nat.{le-max_left, le-max_right}
use jme_loop_public.Prelude.{
  ℕ, ◌+◌, ◌≤◌, String, ◌≡◌, refl, ap, false, Option, none, some, List, [], ◌∷◌, All, includes,
  length, eq_iff, arith, exact,
}
use jme_loop_public.TicketIds.{parse_ticket_number}
use jme_loop_public.TicketAllocation.{number_or, max_of_ids, ids_after, allocate_ticket_ids}
use jme_loop_public.TicketAllocation.Numbers.{Consecutive, ids_after-Consecutive, length-ids_after}
use jme_loop_public.TicketAllocation.Fresh.{not_among}

-- The id's number, if it has one, is at most `k`.
abbrev pub NumberAtMost : ℕ → Option ℕ → Type 0
NumberAtMost k none = Unit
NumberAtMost k (some n) = n ≤ k

number_or-NumberAtMost :
    (m : ℕ) (o : Option ℕ) → (m ≤ number_or m o) × NumberAtMost (number_or m o) o
unfolding number_or
number_or-NumberAtMost m none = (omega arith, tt)
number_or-NumberAtMost m (some n) = (le-max_left m n, le-max_right m n)

NumberAtMost-mono : (k l : ℕ) (o : Option ℕ) → k ≤ l → NumberAtMost k o → NumberAtMost l o
NumberAtMost-mono k l none h b = tt
NumberAtMost-mono k l (some n) h b = omega (arith, h, b)

max_of_ids-NumberAtMost :
    (m : ℕ) (ids : List String)
    → (m ≤ max_of_ids m ids)
      × All (λ id. NumberAtMost (max_of_ids m ids) (parse_ticket_number id)) ids
unfolding max_of_ids
max_of_ids-NumberAtMost m [] = (omega arith, tt)
max_of_ids-NumberAtMost m (id ∷ ids) =
    let o = parse_ticket_number id in
    let (grows, here) = number_or-NumberAtMost m o in
    let (base, rest) = max_of_ids-NumberAtMost (number_or m o) ids in
    (
      omega (arith, grows, base),
      (NumberAtMost-mono (number_or m o) (max_of_ids (number_or m o) ids) o base here, rest),
    )

no_number :
    (m : ℕ) (id : String) (ids : List String)
    → Consecutive m ids
    → parse_ticket_number id ≡ none
    → includes ids id ≡ false
no_number m id [] c p = refl
no_number m id (i ∷ ids) (q, c) p =
    ground
      (arith, eq_iff i id, ap parse_ticket_number {x = i} {y = id}, no_number (m + 1) id ids c p)

unlisted :
    (k : ℕ) (id : String) (ids : List String) (o : Option ℕ)
    → Consecutive k ids
    → parse_ticket_number id ≡ o
    → NumberAtMost k o
    → includes ids id ≡ false
unlisted k id ids none c p b = no_number k id ids c p
unlisted k id ids (some n) c p b = not_among k k n id ids c p b (omega arith)

none_listed :
    (k : ℕ) (ids existing : List String)
    → Consecutive k ids
    → All (λ id. NumberAtMost k (parse_ticket_number id)) existing
    → All (λ id. includes ids id ≡ false) existing
none_listed k ids [] c h = tt
none_listed k ids (id ∷ existing) c (b, h) =
    (unlisted k id ids (parse_ticket_number id) c refl b, none_listed k ids existing c h)

-- The id's number, if it has one, leaves room for as many exact numbers after it.
abbrev pub NumberLeavesRoom : ℕ → Option ℕ → Type 0
NumberLeavesRoom count none = Unit
NumberLeavesRoom count (some n) = n + count ≤ exact

number_or_room :
    (count m : ℕ) (o : Option ℕ)
    → m + count ≤ exact
    → NumberLeavesRoom count o
    → number_or m o + count ≤ exact
unfolding number_or
number_or_room count m none h b = h
number_or_room count m (some n) h b = ground (arith, h, b)

max_of_ids_room :
    (count m : ℕ) (ids : List String)
    → m + count ≤ exact
    → All (λ id. NumberLeavesRoom count (parse_ticket_number id)) ids
    → max_of_ids m ids + count ≤ exact
unfolding max_of_ids
max_of_ids_room count m [] h k = h
max_of_ids_room count m (id ∷ ids) h (b, k) =
    let o = parse_ticket_number id in
    max_of_ids_room count (number_or m o) ids (number_or_room count m o h b) k

-- Where every number of an id and the count leave the new numbers exact (2^53 at most),
-- `allocateTicketIds` gives as many ids as it is asked for, with consecutive numbers, and none of the
-- epic's tickets has one of them, whatever the form of its id.
pub allocate_ticket_ids_fresh :
    (existing : List String) (count : ℕ)
    → count ≤ exact
    → All (λ id. NumberLeavesRoom count (parse_ticket_number id)) existing
    → (length (allocate_ticket_ids existing count) ≡ count)
      × ((top : ℕ) × Consecutive top (allocate_ticket_ids existing count))
      × All (λ id. includes (allocate_ticket_ids existing count) id ≡ false) existing
unfolding allocate_ticket_ids
allocate_ticket_ids_fresh existing count few room =
    let top = max_of_ids 0 existing in
    let consecutive =
      ids_after-Consecutive top count
        (max_of_ids_room count 0 existing (omega (arith, few)) room) in
    (
      length-ids_after top count,
      (top, consecutive),
      none_listed top (ids_after top count) existing consecutive
          (max_of_ids-NumberAtMost 0 existing).1,
    )
