-- ===== src/ApplyRefinement/Disk.antt =====
-- src/applyRefinement.ts: the writes, and the way back from them.
use jme_loop_public.Prelude.{
  ℕ, suc, String, ◌≡◌, refl, ap, ◌∙◌, ◌⊎◌, Bool, true, false, ◌||◌, Option, none, some, List, [],
  ◌∷◌, ◌==◌, eq_iff, All, get, set, get-set, keep, Bool-cases, inl, inr, if◌then◌else◌, arith,
}
use jme_loop_public.ApplyRefinement.{FileState}
use jme_loop_public.ApplyRefinement.Commit.{
  Write, wrote, untouched, torn, write_all, remove, restore, roll_back,
}

-- Each file's original is what the disk has of it.
abbrev pub IsOriginal : List (String × String) → List (String × FileState) → Type 0
IsOriginal disk files = All (λ f. f.1.original ≡ get f.0 disk) files

-- The path is that of one of the files.
abbrev names : List (String × FileState) → String → Bool
names [] path = false
names (f ∷ fs) path = f.0 == path || names fs path

get-remove :
    (at path : String) (disk : List (String × String))
    → get at (remove path disk) ≡ (if path == at then none else get at disk)
unfolding remove
get-remove at path [] = ground arith
get-remove at path (e ∷ es) =
    ground (arith, get-remove at path es, eq_iff path at, eq_iff e.0 at, eq_iff e.0 path)

get-restore :
    (at path : String) (content : Option String) (disk : List (String × String))
    → get at (restore path content disk) ≡ (if path == at then content else get at disk)
unfolding restore
get-restore at path none disk = get-remove at path disk
get-restore at path (some content) disk = get-set at path content disk

-- A write was broken off in the middle of the file with the path.
abbrev pub is_torn : (ℕ → Write) → ℕ → List (String × FileState) → String → Bool
is_torn writes n [] path = false
is_torn writes n (f ∷ fs) path =
    let rest = is_torn writes (suc n) fs path in
    elim (writes n) [ wrote ↦ rest | untouched ↦ false | torn content ↦ f.0 == path ]

-- Every write was made.
abbrev pub AllWrote : (ℕ → Write) → ℕ → List (String × FileState) → Type 0
AllWrote writes n [] = Unit
AllWrote writes n (f ∷ fs) = (writes n ≡ wrote) × AllWrote writes (suc n) fs

-- The disk with the new contents of all the files.
abbrev pub put_all : List (String × FileState) → List (String × String) → List (String × String)
put_all [] disk = disk
put_all (f ∷ fs) disk = put_all fs (set f.0 f.1.current disk)

Write-cases : (w : Write) → (w ≡ wrote) ⊎ ((w ≡ untouched) ⊎ ((c : String) × (w ≡ torn c)))
Write-cases wrote = inl refl
Write-cases untouched = inr (inl refl)
Write-cases (torn c) = inr (inr (c, refl))

-- Outside the files that were written and the one that is torn, the disk is as it was.
write_all-elsewhere :
    (writes : ℕ → Write) (n : ℕ) (fs : List (String × FileState)) (disk : List (String × String))
    (path : String)
    → is_torn writes n fs path ≡ false
    → names (write_all writes n fs disk).0 path ≡ false
    → get path (write_all writes n fs disk).1 ≡ get path disk
unfolding write_all
write_all-elsewhere writes n [] disk path t h = refl
write_all-elsewhere writes n (f ∷ fs) disk path t h = elim (Write-cases (writes n)) [
  | inr (inl fails) ↦ rw (write_all, fails) refl
  | inr (inr (c, fails)) ↦
      let t' : (f.0 == path) ≡ false = rw (is_torn, fails) at t in
      rw (write_all, fails) (get-set path f.0 c disk ∙ ground (arith, t'))
  | inl goes ↦
      let k : (f.0 == path || names (write_all writes (suc n) fs (set f.0 f.1.current disk)).0 path)
          ≡ false =
        rw (write_all, goes) at h in
      rw (write_all, goes)
        (write_all-elsewhere writes (suc n) fs (set f.0 f.1.current disk) path
            (rw (is_torn, goes) at t) (ground (arith, k))
          ∙ (get-set path f.0 f.1.current disk ∙ ground (arith, k)))
]

-- Only files that were to be written are written.
write_all-IsOriginal :
    (writes : ℕ → Write) (n : ℕ) (fs : List (String × FileState))
    (disk base : List (String × String))
    → IsOriginal base fs
    → IsOriginal base (write_all writes n fs disk).0
unfolding write_all
write_all-IsOriginal writes n [] disk base h = tt
write_all-IsOriginal writes n (f ∷ fs) disk base (p, h) = elim (Write-cases (writes n)) [
  | inr (inl fails) ↦ rw (write_all, fails) tt
  | inr (inr (c, fails)) ↦ rw (write_all, fails) tt
  | inl goes ↦
      rw (write_all, goes)
        (p, write_all-IsOriginal writes (suc n) fs (set f.0 f.1.current disk) base h)
]

-- Where all the files were written, each write was made, and the disk has their contents.
pub write_all-wrote :
    (writes : ℕ → Write) (n : ℕ) (fs : List (String × FileState)) (disk : List (String × String))
    → (write_all writes n fs disk).2 ≡ true
    → AllWrote writes n fs × ((write_all writes n fs disk).1 ≡ put_all fs disk)
unfolding write_all
write_all-wrote writes n [] disk h = (tt, refl)
write_all-wrote writes n (f ∷ fs) disk h = elim (Write-cases (writes n)) [
  | inr (inl fails) ↦ absurd (ground (arith, (rw (write_all, fails) at h)))
  | inr (inr (c, fails)) ↦ absurd (ground (arith, (rw (write_all, fails) at h)))
  | inl goes ↦
      let (all, same) =
        write_all-wrote writes (suc n) fs (set f.0 f.1.current disk) (rw (write_all, goes) at h) in
      rw (write_all, goes) ((refl, all), same)
]

-- A way back that is not broken off gives each file what it held.
roll_back-elsewhere :
    (restores : ℕ → Bool) (n : ℕ) (fs : List (String × FileState))
    (disk base : List (String × String)) (lost : String → Bool)
    → IsOriginal base fs
    → ((path : String) → lost path ≡ false → names fs path ≡ false → get path disk ≡ get path base)
    → (roll_back restores n fs disk).1 ≡ true
    → (path : String) → lost path ≡ false
    → get path (roll_back restores n fs disk).0 ≡ get path base
unfolding roll_back
roll_back-elsewhere restores n [] disk base lost h k done = λ path l. k path l refl
roll_back-elsewhere restores n (f ∷ fs) disk base lost (p, h) k done =
    elim (Bool-cases (restores n)) [
      | inr fails ↦ absurd (ground (arith, fails, done))
      | inl goes ↦ rw goes (
          roll_back-elsewhere restores (suc n) fs (restore f.0 f.1.original disk) base lost h
            (λ path l away. ground (
              arith,
              get-restore path f.0 f.1.original disk,
              k path l,
              away,
              p,
              eq_iff f.0 path,
              ap (λ q. get q base) {x = f.0} {y = path},
            ))
            (rw goes at done))
    ]

-- Files that were written, and then given back what they held, leave the disk as it was, but for a
-- file whose write was broken off.
pub undone-elsewhere :
    (writes : ℕ → Write) (restores : ℕ → Bool) (fs : List (String × FileState))
    (disk : List (String × String))
    → IsOriginal disk fs
    → let run = write_all writes 0 fs disk in
      (roll_back restores 0 run.0 run.1).1 ≡ true
      → (path : String) → is_torn writes 0 fs path ≡ false
      → get path (roll_back restores 0 run.0 run.1).0 ≡ get path disk
undone-elsewhere writes restores fs disk h done =
    roll_back-elsewhere restores 0 (write_all writes 0 fs disk).0 (write_all writes 0 fs disk).1
      disk (is_torn writes 0 fs) (write_all-IsOriginal writes 0 fs disk disk h)
      (λ path t away. write_all-elsewhere writes 0 fs disk path t away) done

pub keep-IsOriginal :
    (p : String × FileState → Bool) (base : List (String × String)) (fs : List (String × FileState))
    → IsOriginal base fs
    → IsOriginal base (keep p fs)
keep-IsOriginal p base [] h = tt
keep-IsOriginal p base (f ∷ fs) (q, h) = elim (Bool-cases (p f)) [
  | inl e ↦ rw e (q, keep-IsOriginal p base fs h)
  | inr e ↦ rw e (keep-IsOriginal p base fs h)
]
