-- ===== src/Prelude/Lists.antt =====
-- Lists measured and indexed by native numbers, with Boolean searches that run in a test.
use Prim.Native.Nat.{ℕ, zero, suc, ◌+◌, ◌≤◌}
use Prim.Native.String.{String}
use mathlib.Core.Path.{◌≡◌, refl}
use mathlib.Core.Logic.{◌⊎◌, inl, inr}
use mathlib.Core.Bool.{Bool, true, false, ◌&&◌, ◌||◌}
use mathlib.Core.List.{List, [], ◌∷◌, ◌++◌}
use mathlib.Core.Option.{Option, none, some}
use native.Mathlib.Omega.{arith}
use text.Mathlib.Text.{◌==◌}
use text.Mathlib.TextEquality.{eq_iff}
use text.Mathlib.TextPositions.{eq_refl}
use jme_loop_public.Prelude.Tests.{if◌then◌else◌}

module _ {ℓ} {A : Type ℓ} where
  abbrev pub length : List A → ℕ
  length [] = 0
  length (x ∷ xs) = suc (length xs)

  abbrev pub get_elem? : List A → ℕ → Option A
  get_elem? [] i = none
  get_elem? (x ∷ xs) zero = some x
  get_elem? (x ∷ xs) (suc i) = get_elem? xs i

  pub length-append : (xs ys : List A) → length (xs ++ ys) ≡ length xs + length ys
  length-append [] ys = omega arith
  length-append (x ∷ xs) ys = omega (arith, length-append xs ys)

  abbrev pub drop : ℕ → List A → List A
  drop zero xs = xs
  drop (suc n) [] = []
  drop (suc n) (x ∷ xs) = drop n xs

  pub drop-append : (xs ys : List A) → drop (length xs) (xs ++ ys) ≡ ys
  drop-append [] ys = refl
  drop-append (x ∷ xs) ys = drop-append xs ys

  pub get_elem?-append :
      (xs : List A) (y : A) (ys : List A) → get_elem? (xs ++ y ∷ ys) (length xs) ≡ some y
  get_elem?-append [] y ys = refl
  get_elem?-append (x ∷ xs) y ys = get_elem?-append xs y ys

  -- `filter`, `some` and `every` of the array prototype.
  abbrev pub keep : (A → Bool) → List A → List A
  keep p [] = []
  keep p (x ∷ xs) = if p x then x ∷ keep p xs else keep p xs

  abbrev pub any : (A → Bool) → List A → Bool
  any p [] = false
  any p (x ∷ xs) = p x || any p xs

  abbrev pub all : (A → Bool) → List A → Bool
  all p [] = true
  all p (x ∷ xs) = p x && all p xs

  pub keep-append : (p : A → Bool) (xs ys : List A) → keep p (xs ++ ys) ≡ keep p xs ++ keep p ys
  keep-append p [] ys = refl
  keep-append p (x ∷ xs) ys = ground (arith, keep-append p xs ys)

  -- The last element passes.
  abbrev pub ends : (A → Bool) → List A → Bool
  ends p [] = false
  ends p (x ∷ []) = p x
  ends p (_ ∷ y ∷ ys) = ends p (y ∷ ys)

  pub ends-cons : (p : A → Bool) (x : A) (xs : List A) → ends p xs ≡ true → ends p (x ∷ xs) ≡ true
  ends-cons p x [] h = absurd (ground arith)
  ends-cons p x (y ∷ ys) h = h

  pub length-keep-le : (p : A → Bool) (xs : List A) → length (keep p xs) ≤ length xs
  length-keep-le p [] = omega arith
  length-keep-le p (x ∷ xs) = ground (arith, length-keep-le p xs)

  abbrev pub is_empty : List A → Bool
  is_empty [] = true
  is_empty (_ ∷ _) = false

-- Membership by recursion, which the tactics take apart.
abbrev pub In : {A : Type 0} → A → List A → Type 0
In a [] = ⊥
In a (x ∷ xs) = (x ≡ a) ⊎ In a xs

module _ {ℓ κ} {A : Type ℓ} (P : A → Type κ) where
  abbrev pub All : List A → Type κ
  All [] = Unit
  All (x ∷ xs) = P x × All xs

  pub All-append : (xs ys : List A) → All xs → All ys → All (xs ++ ys)
  All-append [] ys h k = k
  All-append (x ∷ xs) ys (p, h) k = (p, All-append xs ys h k)

pub In-left : {A : Type 0} (a : A) (xs ys : List A) → In a xs → In a (xs ++ ys)
In-left a [] ys h = absurd h
In-left a (x ∷ xs) ys (inl p) = inl p
In-left a (x ∷ xs) ys (inr h) = inr (In-left a xs ys h)

pub In-last : {A : Type 0} (a : A) (xs : List A) → In a (xs ++ a ∷ [])
In-last a [] = inl refl
In-last a (x ∷ xs) = inr (In-last a xs)

-- `includes` on an array of texts.
abbrev pub includes : List String → String → Bool
includes [] s = false
includes (x ∷ xs) s = x == s || includes xs s

pub includes-append :
    (xs : List String) (y s : String) → includes (xs ++ y ∷ []) s ≡ (includes xs s || y == s)
includes-append [] y s = ground arith
includes-append (x ∷ xs) y s = ground (arith, includes-append xs y s)

-- No text stands twice.
abbrev pub Distinct : List String → Type 0
Distinct [] = Unit
Distinct (x ∷ xs) = (includes xs x ≡ false) × Distinct xs

-- A `Map` with text keys, and a plain object, as its entries in the order of insertion.
module _ {ℓ} {V : Type ℓ} where
  abbrev pub get : String → List (String × V) → Option V
  get key [] = none
  get key (e ∷ entries) = if e.0 == key then some e.1 else get key entries

  abbrev pub set : String → V → List (String × V) → List (String × V)
  set key value [] = (key, value) ∷ []
  set key value (e ∷ entries) =
      if e.0 == key then (key, value) ∷ entries else e ∷ set key value entries

  -- What was set is found under its key, and every other key finds what it found before.
  pub get-set :
      (at key : String) (value : V) (entries : List (String × V))
      → get at (set key value entries) ≡ (if key == at then some value else get at entries)
  get-set at key value [] = refl
  get-set at key value (e ∷ entries) =
      ground (arith, get-set at key value entries, eq_iff key at, eq_iff e.0 at, eq_iff e.0 key)

  pub get-set_self :
      (key : String) (value : V) (entries : List (String × V))
      → get key (set key value entries) ≡ some value
  get-set_self key value entries = ground (arith, eq_refl key, get-set key key value entries)

-- The texts of a list, with a separator between them.
abbrev pub join : String → List String → String
join sep [] = ""
join sep (x ∷ []) = x
join sep (x ∷ xs) = Prim.Native.String.◌++◌ x (Prim.Native.String.◌++◌ sep (join sep xs))
