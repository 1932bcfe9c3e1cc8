-- ===== src/Retention/Reach.antt =====
-- src/retention.ts, `runRetention`: what is deleted when no call fails.
use jme_loop_public.Prelude.{
  ℕ, zero, suc, ◌+◌, ◌*◌, ◌≤◌, ◌<◌, String, ◌≡◌, refl, sym, subst, Bool, true, false, not, ◌||◌,
  Option, none, some, List, [], ◌∷◌, ◌++◌, ◌==◌, drop, In, In-left, In-last, inl, inr,
  both_branches, if◌then◌else◌, arith,
}
use jme_loop_public.Retention.{
  ms_per_day, RetentionPolicy, Paths, RunDirEntry, Effect, cleaned_worktree, removed_run, listed,
  Outside, RetentionDeps, sort_dirs, run_dirs, names_of, preserved_path, valid_path, clean_worktree,
  clean_ticket, clean_tickets, prune_run, is_candidate, prune_from, retain,
}

module _ (path : Paths) (deps : RetentionDeps) (o : Outside) where
  -- No cleanup and no deletion throws.
  abbrev pub NothingFails : Type 0
  NothingFails =
      ((done : List Effect) (p : String) → o.cleanup_fails done p ≡ false)
      × ((done : List Effect) (p : String) → o.rm_fails done p ≡ false)

  -- A call that did not throw, with all that was done before it among what is done after it.
  abbrev Keeps : List Effect → Bool × List Effect → Type 0
  Keeps done r = (r.0 ≡ false) × ((e : Effect) → In e done → In e r.1)

  module _ (fine : NothingFails) where
    clean_worktree-Keeps :
        (dir : String) (done : List Effect) → Keeps done (clean_worktree path deps o dir done)
    unfolding clean_worktree
    clean_worktree-Keeps dir done =
        let cleaned = done ++ cleaned_worktree dir ∷ [] in
        let fails = o.cleanup_fails done dir in
        both_branches (Keeps done) (not (o.exists done dir)) (false, done)
          (if fails then (true, done) else (false, cleaned)) (λ _. (refl, λ e h. h))
          (λ _.
            both_branches (Keeps done) fails (true, done) (false, cleaned)
              (λ k. absurd (ground (arith, k, fine.0 done dir)))
              (λ _. (refl, λ e h. In-left e done (cleaned_worktree dir ∷ []) h)))

    clean_valid-Keeps :
        (v : Option String) (done : List Effect)
        → Keeps done
            (elim v [ none ↦ (false, done) | some dir ↦ clean_worktree path deps o dir done ])
    clean_valid-Keeps none done = (refl, λ e h. h)
    clean_valid-Keeps (some dir) done = clean_worktree-Keeps dir done

    clean_ticket-Keeps :
        (tickets_dir id : String) (done : List Effect)
        → Keeps done (clean_ticket path deps o tickets_dir id done)
    unfolding clean_ticket
    clean_ticket-Keeps tickets_dir id done =
        let file = path.join (path.join tickets_dir id) "worktree.json" in
        let v = preserved_path path deps o (o.worktree_file done file) in
        clean_valid-Keeps (valid_path path deps o v) done

    clean_tickets-Keeps :
        (tickets_dir : String) (ids : List String) (done : List Effect)
        → Keeps done (clean_tickets path deps o tickets_dir ids done)
    unfolding clean_tickets
    clean_tickets-Keeps tickets_dir [] done = (refl, λ e h. h)
    clean_tickets-Keeps tickets_dir (id ∷ ids) done =
        let r = clean_ticket path deps o tickets_dir id done in
        let k = clean_ticket-Keeps tickets_dir id done in
        let l = clean_tickets-Keeps tickets_dir ids r.1 in
        both_branches (Keeps done) r.0 r (clean_tickets path deps o tickets_dir ids r.1) (λ _. k)
          (λ _. (l.0, λ e h. l.1 e (k.1 e h)))

    -- A pruned run's directory is deleted, and nothing that was done is undone.
    prune_run-removes :
        (entry : RunDirEntry) (done : List Effect)
        → In (removed_run entry.full_path) (prune_run path deps o entry done)
          × ((e : Effect) → In e done → In e (prune_run path deps o entry done))
    unfolding prune_run
    prune_run-removes entry done =
        let tickets_dir = path.join entry.full_path "tickets" in
        let ids = names_of path deps o (o.tickets done tickets_dir) in
        let r = clean_tickets path deps o tickets_dir ids done in
        let k = clean_tickets-Keeps tickets_dir ids done in
        let removed = removed_run entry.full_path in
        let P : List Effect → Type 0 = λ es. In removed es × ((e : Effect) → In e done → In e es) in
        both_branches P (r.0 || o.rm_fails r.1 entry.full_path) r.1 (r.1 ++ removed ∷ [])
          (λ b. absurd (ground (arith, b, k.0, fine.1 r.1 entry.full_path)))
          (λ _. (In-last removed r.1, λ e h. In-left e r.1 (removed ∷ []) (k.1 e h)))

    module _ (policy : RetentionPolicy) where
      -- One turn of the loop.
      abbrev turn : ℕ → RunDirEntry → List Effect → List Effect
      turn i d done =
          if is_candidate path deps o policy i d then prune_run path deps o d done else done

      turn-keeps :
          (i : ℕ) (d : RunDirEntry) (done : List Effect) (e : Effect)
          → In e done
          → In e (turn i d done)
      turn-keeps i d done e h =
          both_branches (In e) (is_candidate path deps o policy i d) (prune_run path deps o d done)
            done (λ _. (prune_run-removes d done).1 e h) (λ _. h)

      prune_from-keeps :
          (i : ℕ) (ds : List RunDirEntry) (done : List Effect) (e : Effect)
          → In e done
          → In e (prune_from path deps o policy i ds done)
      unfolding prune_from
      prune_from-keeps i [] done e h = h
      prune_from-keeps i (d ∷ ds) done e h =
          prune_from-keeps (suc i) ds (turn i d done) e (turn-keeps i d done e h)

      module _ (d : RunDirEntry) (other : (d.name == deps.exclude_run_id) ≡ false)
          (old : d.mtime_ms + policy.max_age_days * ms_per_day < deps.now_ms) where
        turn-removes :
            (i : ℕ) (done : List Effect)
            → policy.max_dirs ≤ i
            → In (removed_run d.full_path) (turn i d done)
        unfolding is_candidate
        turn-removes i done h =
            both_branches (In (removed_run d.full_path)) (is_candidate path deps o policy i d)
              (prune_run path deps o d done) done (λ _. (prune_run-removes d done).0)
              (λ k. absurd (ground (arith, k, h, other, old)))

        prune_from-removes :
            (n i : ℕ) (ds : List RunDirEntry) (done : List Effect)
            → policy.max_dirs ≤ i + n
            → In d (drop n ds)
            → In (removed_run d.full_path) (prune_from path deps o policy i ds done)
        unfolding prune_from
        prune_from-removes zero i [] done h k = absurd k
        prune_from-removes zero i (x ∷ ds) done h (inl p) =
            prune_from-keeps (suc i) ds (turn i x done) (removed_run d.full_path) (
              subst (λ y. In (removed_run d.full_path) (turn i y done)) (sym p)
                (turn-removes i done (omega (arith, h))))
        prune_from-removes zero i (x ∷ ds) done h (inr k) =
            prune_from-removes zero (suc i) ds (turn i x done) (omega (arith, h)) k
        prune_from-removes (suc n) i [] done h k = absurd k
        prune_from-removes (suc n) i (x ∷ ds) done h k =
            prune_from-removes n (suc i) ds (turn i x done) (omega (arith, h)) k

  -- When no cleanup and no deletion fails, every run directory is deleted that comes after the
  -- number of newest ones that the policy keeps, is older than the policy's age and is not the
  -- current run's.
  pub retain-removes :
      (policy : RetentionPolicy) (names : List String) (d : RunDirEntry)
      → NothingFails
      → o.runs ≡ listed names
      → In d (drop policy.max_dirs (sort_dirs (run_dirs path deps o names)))
      → (d.name == deps.exclude_run_id) ≡ false
      → d.mtime_ms + policy.max_age_days * ms_per_day < deps.now_ms
      → In (removed_run d.full_path) (retain path deps o policy)
  unfolding retain
  retain-removes policy names d fine l there other old =
      let dirs = sort_dirs (run_dirs path deps o names) in
      rw l
        (prune_from-removes fine policy d other old policy.max_dirs 0 dirs [] (omega arith) there)
