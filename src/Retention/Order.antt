-- ===== src/Retention/Order.antt =====
-- src/retention.ts, `runRetention`: the directories from the newest to the oldest.
use jme_loop_public.Prelude.{
  ℕ, suc, ◌+◌, ◌≤◌, ◌<◌, refl, sym, subst, Bool, inl, inr, List, [], ◌∷◌, keep, length, ltb, leb,
  In, Bool-cases, if◌then◌else◌, arith,
}
use jme_loop_public.Retention.{RunDirEntry, insert_dir, sort_dirs}

-- How many directories are at least as new.
abbrev pub newer : ℕ → List RunDirEntry → ℕ
newer at dirs = length (keep (λ (d : RunDirEntry). leb at d.mtime_ms) dirs)

newer_antitone : (a b : ℕ) (dirs : List RunDirEntry) → a ≤ b → newer b dirs ≤ newer a dirs
newer_antitone a b [] h = omega arith
newer_antitone a b (d ∷ dirs) h = ground (arith, newer_antitone a b dirs h)

-- From the place `i` on, each directory is one of `dirs`, is no newer than the one before it, and has
-- more than its place of directories that are at least as new.
abbrev pub Ranked : List RunDirEntry → ℕ → ℕ → List RunDirEntry → Type 0
Ranked dirs i top [] = Unit
Ranked dirs i top (d ∷ ds) =
    In d dirs × (d.mtime_ms ≤ top) × (i < newer d.mtime_ms dirs) × Ranked dirs (suc i) d.mtime_ms ds

lower :
    (dirs : List RunDirEntry) (i top more : ℕ) (ds : List RunDirEntry)
    → top ≤ more
    → Ranked dirs i top ds
    → Ranked dirs i more ds
lower dirs i top more [] h r = tt
lower dirs i top more (d ∷ ds) h (there, below, before, r) =
    (there, omega (arith, h, below), before, r)

-- A newer directory before them moves them on by one place.
shift :
    (e : RunDirEntry) (dirs : List RunDirEntry) (i top : ℕ) (ds : List RunDirEntry)
    → top ≤ e.mtime_ms
    → Ranked dirs i top ds
    → Ranked (e ∷ dirs) (suc i) top ds
shift e dirs i top [] h r = tt
shift e dirs i top (d ∷ ds) h (there, below, before, r) = (
  inr there,
  below,
  ground (arith, below, before, h),
  shift e dirs (suc i) d.mtime_ms ds (omega (arith, h, below)) r,
)

insert_dir-Ranked :
    (e : RunDirEntry) (dirs : List RunDirEntry) (i top : ℕ) (ds : List RunDirEntry)
    → e.mtime_ms ≤ top
    → i ≤ newer e.mtime_ms dirs
    → Ranked dirs i top ds
    → Ranked (e ∷ dirs) i top (insert_dir e ds)
unfolding insert_dir
insert_dir-Ranked e dirs i top [] h k r = (inl refl, h, ground (arith, k), tt)
insert_dir-Ranked e dirs i top (d ∷ ds) h k (there, below, before, r) =
    let Goal : Bool → Type 0 =
      λ b. Ranked (e ∷ dirs) i top (if b then d ∷ insert_dir e ds else e ∷ d ∷ ds) in
    elim (Bool-cases (ltb e.mtime_ms d.mtime_ms)) [
      | inl p ↦ subst Goal (sym p) (
        inr there,
        below,
        ground (arith, before),
        insert_dir-Ranked e dirs (suc i) d.mtime_ms ds (ground (arith, p))
            (omega (arith, before, newer_antitone e.mtime_ms d.mtime_ms dirs (ground (arith, p))))
            r,
      )
      | inr p ↦ subst Goal (sym p) (
        inl refl,
        h,
        ground (arith, k),
        shift e dirs i e.mtime_ms (d ∷ ds) (omega arith) (there, ground (arith, p), before, r),
      )
    ]

pub sort_dirs-Ranked : (dirs : List RunDirEntry) → (top : ℕ) × Ranked dirs 0 top (sort_dirs dirs)
unfolding sort_dirs
sort_dirs-Ranked [] = (0, tt)
sort_dirs-Ranked (e ∷ dirs) =
    let (top, r) = sort_dirs-Ranked dirs in
    (
      top + e.mtime_ms,
      insert_dir-Ranked e dirs 0 (top + e.mtime_ms) (sort_dirs dirs) (omega arith) (omega arith)
          (lower dirs 0 top (top + e.mtime_ms) (sort_dirs dirs) (omega arith) r),
    )
