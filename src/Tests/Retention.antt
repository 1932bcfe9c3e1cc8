-- ===== src/Tests/Retention.antt =====
-- The retention of three old runs, of which the policy keeps one.
use jme_loop_public.Prelude.{
  ◌≡◌, refl, true, false, [], ◌∷◌, ◌==◌, ◌⊕◌, All, In, inl, if◌then◌else◌, arith,
}
use jme_loop_public.Json.{str, object, member, end}
use jme_loop_public.Retention.{
  RetentionPolicy, Paths, RunDirEntry, cleaned_worktree, removed_run, listed, directory, parsed,
  Outside, RetentionDeps, insert_dir, sort_dirs, run_dirs, retain, validate_preserved_worktree_path,
  clean_worktree, clean_ticket, clean_tickets, prune_run, is_candidate, prune_from,
}
use jme_loop_public.Retention.Prunes.{IsAllowed, retain-IsAllowed}
use jme_loop_public.Retention.Reach.{retain-removes}

abbrev path : Paths
path = record {
  join = λ a b. a ⊕ "/" ⊕ b;
  relative = λ a b. "wt";
  is_absolute = λ p. p == "/repo/.worktrees/wt";
}

abbrev deps : RetentionDeps
deps = record { runs_dir = "runs"; repo_root = "/repo"; now_ms = 10000000000; exclude_run_id = "b" }

abbrev outside : Outside
outside = record {
  runs = listed ("a" ∷ "b" ∷ "c" ∷ []);
  lstat = λ p. directory (if p == "runs/c" then 3000 else 1000);
  tickets = λ done p. listed ("TICKET-001" ∷ []);
  worktree_file =
      λ done p. parsed (object (member "preservedWorktreePath" (str "/repo/.worktrees/wt") end));
  exists = λ done p. true;
  cleanup_fails = λ done p. false;
  rm_fails = λ done p. false;
}

abbrev policy : RetentionPolicy
policy = record { max_dirs = 1; max_age_days = 30 }

abbrev oldest : RunDirEntry
oldest = record { name = "a"; full_path = "runs/a"; mtime_ms = 1000 }

retained :
    retain path deps outside policy
    ≡ cleaned_worktree "/repo/.worktrees/wt" ∷ removed_run "runs/a" ∷ []
unfolding retain run_dirs sort_dirs insert_dir prune_from is_candidate prune_run clean_tickets
    clean_ticket clean_worktree validate_preserved_worktree_path
retained = refl

retain-IsAllowed_example :
    All (IsAllowed path deps outside policy) (retain path deps outside policy)
retain-IsAllowed_example = retain-IsAllowed path deps outside policy

retain-removes_example : In (removed_run "runs/a") (retain path deps outside policy)
unfolding sort_dirs insert_dir run_dirs
retain-removes_example =
    retain-removes path deps outside policy ("a" ∷ "b" ∷ "c" ∷ []) oldest
      (λ done p. refl, λ done p. refl) refl (inl refl) refl (omega arith)
