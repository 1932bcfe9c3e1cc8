-- ===== src/Retention.antt =====
-- src/retention.ts: which run directories are deleted at the start of a loop, with the worktrees that
-- their runs preserved. Times are in milliseconds, as natural numbers; the comparison of the age in
-- days is multiplied out. The answers of the file system may depend on what was done before.
pub mod Order
pub mod Prunes
pub mod Reach
use jme_loop_public.Prelude.{
  ℕ, suc, ◌+◌, ◌*◌, String, Bool, true, false, not, ◌&&◌, ◌||◌, Option, none, some, List, [], ◌∷◌,
  ◌++◌, get, is_some, is_empty, codes, ltb, leb, ◌==◌, if◌then◌else◌, Number, int, pos,
}
use jme_loop_public.Json.{Json, str, object, fields}
use jme_loop_public.Queue.{after_prefix, trim}

abbrev pub default_max_dirs : ℕ
default_max_dirs = 50

abbrev pub default_max_age_days : ℕ
default_max_age_days = 30

abbrev pub ms_per_day : ℕ
ms_per_day = 24 * 60 * 60 * 1000

pub record RetentionPolicy : Type 0 where
  pub max_dirs : ℕ
  pub max_age_days : ℕ

abbrev whole : Number → Option ℕ
whole (int (pos n)) = some n
whole _ = none

-- `to_number` is `Number` of a text; a fraction counts as NaN, since it is no integer either.
module _ (to_number : String → Number) where
  unfoldable pub parse_non_neg_int : Option String → Option ℕ
  unfolding trim
  parse_non_neg_int none = none
  parse_non_neg_int (some raw) = if trim raw == "" then none else whole (to_number (trim raw))

  unfoldable pub resolve_field : Option String → ℕ → ℕ
  unfolding parse_non_neg_int
  resolve_field none fallback = fallback
  resolve_field (some raw) fallback = elim (parse_non_neg_int (some raw)) [
    | none ↦ fallback
    | some n ↦ n
  ]

  unfoldable pub resolve_retention_policy : (String → Option String) → RetentionPolicy
  unfolding resolve_field
  resolve_retention_policy env = record {
    max_dirs = resolve_field (env "AGENT_RUNS_MAX") default_max_dirs;
    max_age_days = resolve_field (env "AGENT_RUNS_MAX_AGE_DAYS") default_max_age_days;
  }

-- What of `node:path` is used.
pub record Paths : Type 0 where
  pub join : String → String → String
  pub relative : String → String → String
  pub is_absolute : String → Bool

module _ (path : Paths) where
  unfoldable pub validate_preserved_worktree_path : String → Option Json → Bool
  unfolding after_prefix
  validate_preserved_worktree_path repo_root (some (str p)) =
      let rel = path.relative (path.join repo_root ".worktrees") p in
      if p == ""
      then false
      else if not (path.is_absolute p)
      then false
      else not (is_some (after_prefix (codes "..") (codes rel))) && not (path.is_absolute rel)
  validate_preserved_worktree_path repo_root _ = false

-- The times are in whole milliseconds.
pub record RunDirEntry : Type 0 where
  pub name : String
  pub full_path : String
  pub mtime_ms : ℕ

pub data Effect : Type 0 where
  cleaned_worktree : String → Effect
  removed_run : String → Effect

-- `readdir`, `lstat`, and `readFile` with `JSON.parse`.
pub data Listing : Type 0 where
  listed : List String → Listing
  absent unreadable : Listing

pub data Lstat : Type 0 where
  directory : ℕ → Lstat
  other unknown : Lstat

pub data WorktreeFile : Type 0 where
  parsed : Json → WorktreeFile
  missing malformed : WorktreeFile

pub record Outside : Type 0 where
  pub runs : Listing
  pub lstat : String → Lstat
  pub tickets : List Effect → String → Listing
  pub worktree_file : List Effect → String → WorktreeFile
  pub exists : List Effect → String → Bool
  pub cleanup_fails : List Effect → String → Bool
  pub rm_fails : List Effect → String → Bool

pub record RetentionDeps : Type 0 where
  pub runs_dir : String
  pub repo_root : String
  pub now_ms : ℕ
  pub exclude_run_id : String

-- Newest first; directories of the same time keep their order.
unfoldable pub insert_dir : RunDirEntry → List RunDirEntry → List RunDirEntry
insert_dir d [] = d ∷ []
insert_dir d (e ∷ es) = if ltb d.mtime_ms e.mtime_ms then e ∷ insert_dir d es else d ∷ e ∷ es

unfoldable pub sort_dirs : List RunDirEntry → List RunDirEntry
unfolding insert_dir
sort_dirs [] = []
sort_dirs (d ∷ ds) = insert_dir d (sort_dirs ds)

module _ (path : Paths) (deps : RetentionDeps) (o : Outside) where
  unfoldable pub run_dirs : List String → List RunDirEntry
  run_dirs [] = []
  run_dirs (name ∷ names) =
      let full_path = path.join deps.runs_dir name in
      let rest = run_dirs names in
      elim (o.lstat full_path) [
        | directory mtime_ms ↦
            record { name = name; full_path = full_path; mtime_ms = mtime_ms } ∷ rest
        | _ ↦ rest
      ]

  abbrev names_of : Listing → List String
  names_of (listed names) = names
  names_of _ = []

  -- The field `preservedWorktreePath` of a file; without an object, the file is skipped.
  abbrev preserved_path : WorktreeFile → Option Json
  preserved_path (parsed (object ms)) = get "preservedWorktreePath" (fields ms)
  preserved_path _ = none

  abbrev valid_path : Option Json → Option String
  valid_path (some (str p)) =
      if validate_preserved_worktree_path path deps.repo_root (some (str p)) then some p else none
  valid_path _ = none

  -- What was done, and whether a call threw.
  unfoldable pub clean_worktree : String → List Effect → Bool × List Effect
  clean_worktree dir done =
      if not (o.exists done dir)
      then (false, done)
      else if o.cleanup_fails done dir
      then (true, done)
      else (false, done ++ cleaned_worktree dir ∷ [])

  unfoldable pub clean_ticket : String → String → List Effect → Bool × List Effect
  unfolding clean_worktree validate_preserved_worktree_path
  clean_ticket tickets_dir id done =
      let file = path.join (path.join tickets_dir id) "worktree.json" in
      elim (valid_path (preserved_path (o.worktree_file done file))) [
        | none ↦ (false, done)
        | some dir ↦ clean_worktree dir done
      ]

  unfoldable pub clean_tickets : String → List String → List Effect → Bool × List Effect
  unfolding clean_ticket
  clean_tickets tickets_dir [] done = (false, done)
  clean_tickets tickets_dir (id ∷ ids) done =
      let r = clean_ticket tickets_dir id done in
      let rest = clean_tickets tickets_dir ids r.1 in if r.0 then r else rest

  unfoldable pub prune_run : RunDirEntry → List Effect → List Effect
  unfolding clean_tickets
  prune_run entry done =
      let tickets_dir = path.join entry.full_path "tickets" in
      let r = clean_tickets tickets_dir (names_of (o.tickets done tickets_dir)) done in
      if r.0 || o.rm_fails r.1 entry.full_path then r.1 else r.1 ++ removed_run entry.full_path ∷ []

  unfoldable pub is_candidate : RetentionPolicy → ℕ → RunDirEntry → Bool
  is_candidate policy i entry =
      not (entry.name == deps.exclude_run_id)
      && leb policy.max_dirs i
      && ltb (entry.mtime_ms + policy.max_age_days * ms_per_day) deps.now_ms

  unfoldable pub prune_from : RetentionPolicy → ℕ → List RunDirEntry → List Effect → List Effect
  unfolding prune_run is_candidate
  prune_from policy i [] done = done
  prune_from policy i (entry ∷ dirs) done =
      prune_from policy (suc i) dirs
        (if is_candidate policy i entry then prune_run entry done else done)

  unfoldable pub retain : RetentionPolicy → List Effect
  unfolding run_dirs sort_dirs prune_from
  retain policy = elim o.runs [
    | listed names ↦ prune_from policy 0 (sort_dirs (run_dirs names)) []
    | _ ↦ []
  ]

  unfoldable pub run_retention : (String → Number) → (String → Option String) → List Effect
  unfolding resolve_retention_policy retain
  run_retention to_number env = retain (resolve_retention_policy to_number env)
