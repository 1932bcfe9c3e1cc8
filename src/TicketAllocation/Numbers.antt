-- ===== src/TicketAllocation/Numbers.antt =====
-- src/ticketAllocation.ts: the greatest known number, and the numbers of the ids that follow it.
use native.Mathlib.Nat.{le-max_left, le-max_right}
use jme_loop_public.Prelude.{
  ℕ, zero, suc, ◌+◌, max, ◌≤◌, String, ◌≡◌, refl, ap, some, List, [], ◌∷◌, All, length, arith,
  exact, rounded_small,
}
use jme_loop_public.TicketIds.{parse_ticket_number}
use jme_loop_public.TicketIds.Reading.{parse-ticket_id_from_number}
use jme_loop_public.TicketAllocation.{TicketIdRecord, max_number, ids_from, ids_after}

-- No number exceeds `k`.
abbrev pub AtMost : ℕ → TicketIdRecord → Type 0
AtMost k r = r.number ≤ k

pub max_number-AtMost :
    (m : ℕ) (rs : List TicketIdRecord) → (m ≤ max_number m rs) × All (AtMost (max_number m rs)) rs
unfolding max_number
max_number-AtMost m [] = (omega arith, tt)
max_number-AtMost m (r ∷ rs) =
    let (base, rest) = max_number-AtMost (max m r.number) rs in
    (
      omega (arith, base, le-max_left m r.number),
      (omega (arith, base, le-max_right m r.number), rest),
    )

-- A record's number leaves room for as many exact numbers after it.
abbrev pub LeavesRoom : ℕ → TicketIdRecord → Type 0
LeavesRoom count r = r.number + count ≤ exact

pub max_number_room :
    (count m : ℕ) (rs : List TicketIdRecord)
    → m + count ≤ exact
    → All (LeavesRoom count) rs
    → max_number m rs + count ≤ exact
unfolding max_number
max_number_room count m [] h k = h
max_number_room count m (r ∷ rs) h (b, k) =
    max_number_room count (max m r.number) rs (ground (arith, h, b)) k

-- The ids have the numbers from the one after `m` on.
abbrev pub Consecutive : ℕ → List String → Type 0
Consecutive m [] = Unit
Consecutive m (id ∷ ids) = (parse_ticket_number id ≡ some (m + 1)) × Consecutive (m + 1) ids

ids_from-Consecutive :
    (m i count k : ℕ) → m + i ≡ k → k + count ≤ exact → Consecutive k (ids_from m i count)
unfolding ids_from
ids_from-Consecutive m i zero k e h = tt
ids_from-Consecutive m i (suc count) k e h =
    rw (e, rounded_small k (omega (arith, h)), rounded_small (k + 1) (omega (arith, h)))
      (
        parse-ticket_id_from_number (k + 1) (omega (arith, h)),
        ids_from-Consecutive m (suc i) count (k + 1) (omega (arith, e)) (omega (arith, h)),
      )

pub ids_after-Consecutive : (m count : ℕ) → m + count ≤ exact → Consecutive m (ids_after m count)
unfolding ids_after
ids_after-Consecutive m count h = ids_from-Consecutive m 0 count m (omega arith) h

length-ids_from : (m i count : ℕ) → length (ids_from m i count) ≡ count
unfolding ids_from
length-ids_from m i zero = refl
length-ids_from m i (suc count) = ap suc (length-ids_from m (suc i) count)

pub length-ids_after : (m count : ℕ) → length (ids_after m count) ≡ count
unfolding ids_after
length-ids_after m count = length-ids_from m 0 count
