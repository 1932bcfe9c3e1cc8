-- ===== src/Checked.antt =====
-- The result of a validator over JSON values, which throws with a message (src/skillManifest.ts,
-- src/skills/refineTickets.ts), and what follows for a result from its parts.
use Prim.Native.String.{String}

pub data Checked {ℓ} (A : Type ℓ) : Type ℓ where
  ok : A → Checked A
  fails : (message : String) → Checked A

infixl 5 ◌>>=◌
abbrev pub ◌>>=◌ {ℓ κ} : {A : Type ℓ} {B : Type κ} → Checked A → (A → Checked B) → Checked B
ok a >>= f = f a
fails message >>= f = fails message

-- What was accepted satisfies a predicate.
abbrev pub Sure {ℓ} : {A : Type ℓ} → (A → Type 0) → Checked A → Type 0
Sure P (ok a) = P a
Sure P (fails message) = Unit

pub then-Sure {ℓ κ} :
    {A : Type ℓ} {B : Type κ} (Q : A → Type 0) (P : B → Type 0) (m : Checked A) (f : A → Checked B)
    → Sure Q m
    → ((a : A) → Q a → Sure P (f a))
    → Sure P (m >>= f)
then-Sure Q P (ok a) f h k = k a h
then-Sure Q P (fails message) f h k = tt

anything {ℓ} : {A : Type ℓ} (m : Checked A) → Sure (λ _. Unit) m
anything (ok a) = tt
anything (fails message) = tt

pub next-Sure {ℓ κ} :
    {A : Type ℓ} {B : Type κ} (P : B → Type 0) (m : Checked A) (f : A → Checked B)
    → ((a : A) → Sure P (f a))
    → Sure P (m >>= f)
next-Sure P m f k = then-Sure (λ _. Unit) P m f (anything m) (λ a _. k a)
