-- ===== src/Retention/Prunes.antt =====
-- src/retention.ts, `runRetention`: what is deleted, and what is not.
use jme_loop_public.Prelude.{
  ℕ, suc, ◌+◌, ◌*◌, ◌<◌, String, ◌≡◌, refl, Bool, true, false, not, ◌||◌, Option, none, some,
  is_some, List, [], ◌∷◌, ◌++◌, codes, ◌==◌, In, All, All-append, both_branches, if◌then◌else◌,
  arith,
}
use jme_loop_public.Json.{Json, str}
use jme_loop_public.Queue.{after_prefix}
use jme_loop_public.Retention.{
  ms_per_day, RetentionPolicy, Paths, validate_preserved_worktree_path, RunDirEntry, Effect,
  cleaned_worktree, removed_run, Listing, listed, absent, unreadable, Outside, RetentionDeps,
  sort_dirs, run_dirs, names_of, preserved_path, valid_path, clean_worktree, clean_ticket,
  clean_tickets, prune_run, is_candidate, prune_from, retain,
}
use jme_loop_public.Retention.Order.{newer, Ranked, sort_dirs-Ranked}

module _ (path : Paths) (deps : RetentionDeps) (o : Outside) (policy : RetentionPolicy) where
  -- The path is absolute and inside the repository's `.worktrees`.
  abbrev pub IsContained : String → Type 0
  IsContained dir =
      let rel = path.relative (path.join deps.repo_root ".worktrees") dir in
      (path.is_absolute dir ≡ true)
      × (is_some (after_prefix (codes "..") (codes rel)) ≡ false)
      × (path.is_absolute rel ≡ false)

  -- A directory of the runs, that is not the current run's, is older than the policy's age and not
  -- among the newest that the policy keeps.
  pub record IsPrunable (p : String) : Type 0 where
    pub names : List String
    pub entry : RunDirEntry
    pub lists : o.runs ≡ listed names
    pub stands : In entry (run_dirs path deps o names)
    pub location : entry.full_path ≡ p
    pub other : (entry.name == deps.exclude_run_id) ≡ false
    pub old : entry.mtime_ms + policy.max_age_days * ms_per_day < deps.now_ms
    pub beyond : policy.max_dirs < newer entry.mtime_ms (run_dirs path deps o names)

  abbrev pub IsAllowed : Effect → Type 0
  IsAllowed (cleaned_worktree dir) = IsContained dir
  IsAllowed (removed_run p) = IsPrunable p

  add :
      (e : Effect) (done : List Effect)
      → All IsAllowed done
      → IsAllowed e
      → All IsAllowed (done ++ e ∷ [])
  add e done h p = All-append IsAllowed done (e ∷ []) h (p, tt)

  validate-IsContained :
      (dir : String)
      → validate_preserved_worktree_path path deps.repo_root (some (str dir)) ≡ true
      → IsContained dir
  unfolding validate_preserved_worktree_path
  validate-IsContained dir h = (ground (arith, h), ground (arith, h), ground (arith, h))

  -- Of what a call returns, the effects.
  abbrev Allowed : Bool × List Effect → Type 0
  Allowed r = All IsAllowed r.1

  clean_worktree-Allowed :
      (dir : String) (done : List Effect)
      → All IsAllowed done
      → IsContained dir
      → Allowed (clean_worktree path deps o dir done)
  unfolding clean_worktree
  clean_worktree-Allowed dir done h p =
      let cleaned = done ++ cleaned_worktree dir ∷ [] in
      let fails = o.cleanup_fails done dir in
      both_branches Allowed (not (o.exists done dir)) (false, done)
        (if fails then (true, done) else (false, cleaned)) (λ _. h)
        (λ _.
          both_branches Allowed fails (true, done) (false, cleaned) (λ _. h)
            (λ _. add (cleaned_worktree dir) done h p))

  abbrev Valid : Option String → Type 0
  Valid none = Unit
  Valid (some dir) = IsContained dir

  valid_path-Valid : (v : Option Json) → Valid (valid_path path deps o v)
  valid_path-Valid (some (str p)) =
      let b = validate_preserved_worktree_path path deps.repo_root (some (str p)) in
      both_branches Valid b (some p) none (validate-IsContained p) (λ _. tt)
  valid_path-Valid _ = tt

  clean-Valid :
      (v : Option String) (done : List Effect)
      → Valid v
      → All IsAllowed done
      → Allowed (elim v [ none ↦ (false, done) | some dir ↦ clean_worktree path deps o dir done ])
  clean-Valid none done p h = h
  clean-Valid (some dir) done p h = clean_worktree-Allowed dir done h p

  clean_ticket-Allowed :
      (tickets_dir id : String) (done : List Effect)
      → All IsAllowed done
      → Allowed (clean_ticket path deps o tickets_dir id done)
  unfolding clean_ticket
  clean_ticket-Allowed tickets_dir id done h =
      let file = path.join (path.join tickets_dir id) "worktree.json" in
      let v = preserved_path path deps o (o.worktree_file done file) in
      clean-Valid (valid_path path deps o v) done (valid_path-Valid v) h

  clean_tickets-Allowed :
      (tickets_dir : String) (ids : List String) (done : List Effect)
      → All IsAllowed done
      → Allowed (clean_tickets path deps o tickets_dir ids done)
  unfolding clean_tickets
  clean_tickets-Allowed tickets_dir [] done h = h
  clean_tickets-Allowed tickets_dir (id ∷ ids) done h =
      let r = clean_ticket path deps o tickets_dir id done in
      let k = clean_ticket-Allowed tickets_dir id done h in
      both_branches Allowed r.0 r (clean_tickets path deps o tickets_dir ids r.1) (λ _. k)
        (λ _. clean_tickets-Allowed tickets_dir ids r.1 k)

  prune_run-All :
      (entry : RunDirEntry) (done : List Effect)
      → All IsAllowed done
      → IsPrunable entry.full_path
      → All IsAllowed (prune_run path deps o entry done)
  unfolding prune_run
  prune_run-All entry done h p =
      let tickets_dir = path.join entry.full_path "tickets" in
      let ids = names_of path deps o (o.tickets done tickets_dir) in
      let r = clean_tickets path deps o tickets_dir ids done in
      let k = clean_tickets-Allowed tickets_dir ids done h in
      both_branches (All IsAllowed) (r.0 || o.rm_fails r.1 entry.full_path) r.1
        (r.1 ++ removed_run entry.full_path ∷ []) (λ _. k)
        (λ _. add (removed_run entry.full_path) r.1 k p)

  module _ (names : List String) (l : o.runs ≡ listed names) where
    abbrev dirs : List RunDirEntry
    dirs = run_dirs path deps o names

    is_candidate-IsPrunable :
        (i : ℕ) (entry : RunDirEntry)
        → In entry dirs
        → i < newer entry.mtime_ms dirs
        → is_candidate path deps o policy i entry ≡ true
        → IsPrunable entry.full_path
    unfolding is_candidate
    is_candidate-IsPrunable i entry there before h = record {
      names = names;
      entry = entry;
      lists = l;
      stands = there;
      location = refl;
      other = ground (arith, h);
      old = ground (arith, h);
      beyond = ground (arith, h, before);
    }

    prune_from-All :
        (i top : ℕ) (ds : List RunDirEntry) (done : List Effect)
        → Ranked dirs i top ds
        → All IsAllowed done
        → All IsAllowed (prune_from path deps o policy i ds done)
    unfolding prune_from
    prune_from-All i top [] done r h = h
    prune_from-All i top (d ∷ ds) done (there, below, before, r) h =
        prune_from-All (suc i) d.mtime_ms ds _ r (
          both_branches (All IsAllowed) (is_candidate path deps o policy i d)
            (prune_run path deps o d done) done
            (λ c. prune_run-All d done h (is_candidate-IsPrunable i d there before c)) (λ _. h))

  listed-All :
      (runs : Listing)
      → o.runs ≡ runs
      → All IsAllowed (elim runs [
        | listed names ↦ prune_from path deps o policy 0 (sort_dirs (run_dirs path deps o names)) []
        | _ ↦ []
      ])
  listed-All (listed names) l =
      let (top, r) = sort_dirs-Ranked (run_dirs path deps o names) in
      prune_from-All names l 0 top (sort_dirs (run_dirs path deps o names)) [] r tt
  listed-All absent l = tt
  listed-All unreadable l = tt

  -- Whatever the file system answers, and whichever calls fail: a run directory is deleted only if it
  -- is one of the runs', not the current run's, older than the policy's age, and has at least as many
  -- directories besides it that are as new or newer as the policy keeps; and a worktree is cleaned up
  -- only at an absolute path inside the repository's `.worktrees`.
  pub retain-IsAllowed : All IsAllowed (retain path deps o policy)
  unfolding retain
  retain-IsAllowed = listed-All o.runs refl
