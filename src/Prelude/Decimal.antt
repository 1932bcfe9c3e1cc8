-- ===== src/Prelude/Decimal.antt =====
-- Decimal text of a natural number, `String(n)` in the source's language for n < 10^21, and its
-- reading back, `Number(s)` of a run of digits. Texts are read through their code points.
use Prim.Native.Nat.{ℕ, zero, suc, ◌+◌, ◌-◌, ◌*◌, ◌/◌, ◌%◌, ◌<◌}
use Prim.Native.Char.{code}
use Prim.Native.String.{String}
use mathlib.Core.Path.{◌≡◌, refl, ap, subst, ◌∙◌}
use mathlib.Core.Logic.{inl, inr}
use mathlib.Core.Bool.{Bool, true, ◌&&◌}
use mathlib.Core.List.{List, [], ◌∷◌, ◌++◌}
use native.Mathlib.Omega.{arith}
use text.Mathlib.TextLemmas.{nil-append, cons-append}
use jme_loop_public.Prelude.Tests.{leb, ltb, if◌then◌else◌, Bool-cases}
use jme_loop_public.Prelude.Int.{Number, nan, infinity, minus_infinity, int, pos, negsuc}
use jme_loop_public.Prelude.Lists.{all, length, length-append}

infixr 66 ◌⊕◌
-- `+` on texts.
abbrev pub ◌⊕◌ : String → String → String
s ⊕ t = Prim.Native.String.◌++◌ s t

-- The code points of a text.
abbrev pub codes : String → List ℕ
codes String.[] = []
codes (String.◌∷◌ c s) = code c ∷ codes s

pub codes-append : (s t : String) → codes (s ⊕ t) ≡ codes s ++ codes t
codes-append String.[] t = ap codes (nil-append t)
codes-append (String.◌∷◌ c s) t =
    ap codes (cons-append c s t) ∙ ap (λ l. code c ∷ l) (codes-append s t)

unfoldable pub digit_text : ℕ → String
digit_text zero = "0"
digit_text (suc zero) = "1"
digit_text (suc (suc zero)) = "2"
digit_text (suc (suc (suc zero))) = "3"
digit_text (suc (suc (suc (suc zero)))) = "4"
digit_text (suc (suc (suc (suc (suc zero))))) = "5"
digit_text (suc (suc (suc (suc (suc (suc zero)))))) = "6"
digit_text (suc (suc (suc (suc (suc (suc (suc zero))))))) = "7"
digit_text (suc (suc (suc (suc (suc (suc (suc (suc zero)))))))) = "8"
digit_text _ = "9"

pub codes-digit_text : (d : ℕ) → d < 10 → codes (digit_text d) ≡ (48 + d) ∷ []
unfolding digit_text
codes-digit_text zero h = refl
codes-digit_text (suc zero) h = refl
codes-digit_text (suc (suc zero)) h = refl
codes-digit_text (suc (suc (suc zero))) h = refl
codes-digit_text (suc (suc (suc (suc zero)))) h = refl
codes-digit_text (suc (suc (suc (suc (suc zero))))) h = refl
codes-digit_text (suc (suc (suc (suc (suc (suc zero)))))) h = refl
codes-digit_text (suc (suc (suc (suc (suc (suc (suc zero))))))) h = refl
codes-digit_text (suc (suc (suc (suc (suc (suc (suc (suc zero)))))))) h = refl
codes-digit_text (suc (suc (suc (suc (suc (suc (suc (suc (suc zero))))))))) h = refl
codes-digit_text (suc (suc (suc (suc (suc (suc (suc (suc (suc (suc n)))))))))) h =
    absurd (omega arith)

-- The decimal text, on fuel; `suc n` is enough for `n`.
decimal_from : ℕ → ℕ → String
decimal_from zero n = ""
decimal_from (suc f) n =
    let higher = decimal_from f (n / 10) in
    if ltb n 10 then digit_text n else higher ⊕ digit_text (n % 10)

unfoldable pub decimal : ℕ → String
unfolding decimal_from digit_text
decimal n = decimal_from (suc n) n

-- The value of a run of digits.
unfoldable pub value_from : ℕ → List ℕ → ℕ
value_from acc [] = acc
value_from acc (c ∷ cs) = value_from (acc * 10 + (c - 48)) cs

unfoldable pub is_digit : ℕ → Bool
is_digit c = leb 48 c && leb c 57

pub value_from-append :
    (acc : ℕ) (xs ys : List ℕ) → value_from acc (xs ++ ys) ≡ value_from (value_from acc xs) ys
unfolding value_from
value_from-append acc [] ys = refl
value_from-append acc (x ∷ xs) ys = value_from-append (acc * 10 + (x - 48)) xs ys

-- A text of one or more digits that stands for the number `n`.
pub record IsDecimal (n : ℕ) (cs : List ℕ) : Type 0 where
  pub digits : all is_digit cs ≡ true
  pub some_digit : 0 < length cs
  pub stands_for : value_from 0 cs ≡ n

pub all-append :
    (p : ℕ → Bool) (xs ys : List ℕ) → all p xs ≡ true → all p ys ≡ true → all p (xs ++ ys) ≡ true
all-append p [] ys h k = k
all-append p (x ∷ xs) ys h k = ground (arith, all-append p xs ys)

IsDecimal-digit : (d : ℕ) → d < 10 → IsDecimal d (codes (digit_text d))
unfolding value_from is_digit
IsDecimal-digit d h = rw (codes-digit_text d h) (ground arith)

IsDecimal-snoc :
    (m d : ℕ) (cs : List ℕ) → IsDecimal m cs → d < 10 → IsDecimal (m * 10 + d) (cs ++ (48 + d) ∷ [])
IsDecimal-snoc m d cs h lt = record {
  digits = all-append is_digit cs ((48 + d) ∷ []) h.digits (unfold is_digit in ground arith);
  some_digit = omega (arith, length-append cs ((48 + d) ∷ []));
  stands_for =
      value_from-append 0 cs ((48 + d) ∷ []) ∙ (rw h.stands_for (unfold value_from in omega arith));
}

decimal_from-IsDecimal : (f n : ℕ) → n < f → IsDecimal n (codes (decimal_from f n))
unfolding decimal_from
decimal_from-IsDecimal zero n h = absurd (omega arith)
decimal_from-IsDecimal (suc f) n h = elim (Bool-cases (ltb n 10)) [
  | inl small ↦ rw small (IsDecimal-digit n (ground arith))
  | inr large ↦
      rw (large, codes-append (decimal_from f (n / 10)) (digit_text (n % 10)))
        (rw (codes-digit_text (n % 10) (omega arith)) (
          subst (λ m. IsDecimal m (codes (decimal_from f (n / 10)) ++ (48 + n % 10) ∷ []))
            (omega arith)
            (IsDecimal-snoc (n / 10) (n % 10) _ (decimal_from-IsDecimal f (n / 10) (ground arith))
              (omega arith))))
]

-- The decimal text of a number is a run of digits that stands for it.
pub decimal-IsDecimal : (n : ℕ) → IsDecimal n (codes (decimal n))
unfolding decimal
decimal-IsDecimal n = decimal_from-IsDecimal (suc n) n (omega arith)

-- The text of a number in a template.
unfoldable pub number_text : Number → String
unfolding decimal
number_text nan = "NaN"
number_text infinity = "Infinity"
number_text minus_infinity = "-Infinity"
number_text (int (pos n)) = decimal n
number_text (int (negsuc n)) = "-" ⊕ decimal (suc n)
