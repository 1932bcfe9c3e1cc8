-- ===== src/Prelude/Double.antt =====
-- The numbers of JavaScript on naturals: doubles, which are exact up to 2^53 and stand farther
-- apart from there on. A natural that is no double is rounded to the nearest, between two to the
-- even one. A sum of two doubles is rounded once. Naturals from 2^1024 on, infinity as doubles, are
-- left as they are.
use Prim.Native.Nat.{ℕ, zero, suc, ◌+◌, ◌*◌, ◌/◌, ◌%◌, ◌≤◌}
use mathlib.Core.Path.{◌≡◌}
use mathlib.Core.Bool.{true, false}
use native.Mathlib.Omega.{arith}
use jme_loop_public.Prelude.Tests.{leb, ltb, eqb, if◌then◌else◌}

-- 2^53.
abbrev pub exact : ℕ
exact = 9007199254740992

-- The multiple of a unit that is nearest, between two that of an even number.
to_unit : ℕ → ℕ → ℕ
to_unit u n =
    let q = n / u in
    let twice = 2 * (n % u) in
    if ltb twice u
    then q * u
    else if ltb u twice
    then (q + 1) * u
    else if eqb (q % 2) 0
    then q * u
    else (q + 1) * u

-- The unit doubles until there are fewer than 2^53 of it; a double has at most 971 doublings.
round_from : ℕ → ℕ → ℕ → ℕ
unfolding to_unit
round_from zero u n = n
round_from (suc fuel) u n = elim (ltb n (u * exact)) [
  | true ↦ to_unit u n
  | false ↦ round_from fuel (2 * u) n
]

-- The double nearest to a natural number.
unfoldable pub rounded : ℕ → ℕ
unfolding round_from
rounded n = if leb n exact then n else round_from 971 2 n

-- Up to 2^53 a number is exact.
pub rounded_small : (n : ℕ) → n ≤ exact → rounded n ≡ n
unfolding rounded
rounded_small n h = ground (arith, h)
