-- ===== src/ApplyRefinement/Commit.antt =====
-- src/applyRefinement.ts, `runApplyRefinement`: its gates, and the writes with the commit, which
-- are undone where one of them fails. A write that fails may leave its file as it was, or with
-- other content.
use jme_loop_public.Prelude.{
  ℕ, suc, String, Bool, true, false, not, Option, none, some, List, [], ◌∷◌, ◌++◌, ◌==◌, ◌&&◌, ◌⊕◌,
  keep, length, map, set, int, pos, if◌then◌else◌,
}
use jme_loop_public.Json.{str, num, array, of_texts, Fields}
use jme_loop_public.LoopState.{no_progress, same_state}
use jme_loop_public.RunState.{RunEvent}
use jme_loop_public.Budget.{BudgetVerdict, clear, tripped}
use jme_loop_public.Autonomy.{AutonomyMode, autopilot, review, may_edit_planning}
use jme_loop_public.StructuralRefinement.{TriageItem, triage_item_to_event_data}
use jme_loop_public.ApplyRefinement.{
  Edit, EpicTicket, FileState, EditRecord, Pass, no_edits, Texts, apply_edits,
}

unfoldable pub mode_text : AutonomyMode → String
mode_text autopilot = "autopilot"
mode_text review = "review"

unfoldable pub ev : String → Fields → RunEvent
ev type fields = record {
  ts = "";
  type = type;
  ticket_id = none;
  phase = none;
  data_fields = some fields;
}

-- What a pass comes to: its events, the disk, and the message of the error that it throws.
pub record Applied : Type 0 where
  pub events : List RunEvent
  pub disk : List (String × String)
  pub thrown : Option String

-- Why the pass is not made, if it is not.
unfoldable pub gate : AutonomyMode → Bool → BudgetVerdict → Option String
gate mode killed verdict =
    if not (may_edit_planning mode)
    then some "review-mode"
    else if killed
    then some "kill-switch"
    else elim verdict [
      | clear m ↦ none
      | tripped state arm reason m ↦
          some (if same_state state no_progress then "no-progress" else "budget")
    ]

unfoldable pub changed : List (String × FileState) → List (String × FileState)
changed files =
    keep
      (λ (f : String × FileState). elim f.1.original [
        | none ↦ true
        | some o ↦ not (f.1.current == o)
      ])
      files

-- What a `writeFile` comes to: the file is written, or the call throws and the file is as it was, or
-- has some other content, since the call truncates it first.
pub data Write : Type 0 where
  wrote untouched : Write
  torn : (content : String) → Write

-- `writeFile` of each file in turn: those that were written, the disk, and whether all were. The
-- n-th write comes to `writes n`.
unfoldable pub write_all :
    (ℕ → Write)
    → ℕ
    → List (String × FileState)
    → List (String × String)
    → List (String × FileState) × List (String × String) × Bool
write_all writes n [] disk = ([], disk, true)
write_all writes n (f ∷ fs) disk =
    let rest = write_all writes (suc n) fs (set f.0 f.1.current disk) in
    elim (writes n) [
      | wrote ↦ (f ∷ rest.0, rest.1, rest.2)
      | untouched ↦ ([], disk, false)
      | torn content ↦ ([], set f.0 content disk, false)
    ]

unfoldable pub remove : String → List (String × String) → List (String × String)
remove path [] = []
remove path (e ∷ es) = if e.0 == path then remove path es else e ∷ remove path es

unfoldable pub restore : String → Option String → List (String × String) → List (String × String)
unfolding remove
restore path none disk = remove path disk
restore path (some content) disk = set path content disk

-- The files that were written get back what they held, or are deleted; `none` where that fails.
unfoldable pub roll_back :
    (ℕ → Bool)
    → ℕ
    → List (String × FileState)
    → List (String × String)
    → List (String × String) × Bool
unfolding restore
roll_back restores n [] disk = (disk, true)
roll_back restores n (f ∷ fs) disk =
    let rest = roll_back restores (suc n) fs (restore f.0 f.1.original disk) in
    if restores n then rest else (disk, false)

unfoldable pub optional : String → Option String → Fields
optional key none = []
optional key (some s) = (key, str s) ∷ []

unfoldable pub skipped_event : EditRecord → RunEvent
unfolding optional ev
skipped_event r = ev "backlog.refinement.edit-skipped" (
    ("kind", str r.kind) ∷ ("ticketId", str r.ticket_id) ∷ optional "reason" r.reason
    ++ optional "error" r.error)

unfoldable pub applied_event : EditRecord → RunEvent
unfolding ev
applied_event r = ev "backlog.refinement.edit-applied" (
    ("kind", str r.kind)
    ∷ ("ticketId", str r.ticket_id)
    ∷ (elim r.child_ids [ none ↦ [] | some ids ↦ ("childIds", array (of_texts ids)) ∷ [] ]))

unfoldable pub triage_event : TriageItem → RunEvent
unfolding ev
triage_event item = ev "triage.item" (triage_item_to_event_data item)

unfoldable pub summary : ℕ → ℕ → RunEvent
unfolding ev
summary applied skipped =
    ev "backlog.refinement.apply-summary"
      (("applied", num (int (pos applied))) ∷ ("skipped", num (int (pos skipped))) ∷ [])

-- What the pass meets: what each write comes to, the restoring writes that succeed, the error of
-- the failing write or of the commit, and the error of the failing restoring write.
pub record Outside : Type 0 where
  pub writes : ℕ → Write
  pub commits : Bool
  pub restores : ℕ → Bool
  pub error : String
  pub restore_error : String

module _ (o : Outside) where
  unfoldable pub undone : List RunEvent → List String → List (String × String) × Bool → Applied
  unfolding ev
  undone events paths (disk, true) = record {
    events =
        events
        ++ ev "backlog.refinement.apply-failed"
            (("error", str o.error) ∷ ("changedPaths", array (of_texts paths)) ∷ [])
          ∷ [];
    disk = disk;
    thrown = none;
  }
  undone events paths (disk, false) = record {
    events =
        events
        ++ ev "run.stopped" (
            ("reason", str "apply-rollback-failed")
            ∷ ("changedPaths", array (of_texts paths))
            ∷ ("error", str o.restore_error)
            ∷ [])
          ∷ [];
    disk = disk;
    thrown = some ("apply rollback failed: " ⊕ o.restore_error);
  }

  -- After the writes: the records of the applied edits and of the triage, or the way back.
  unfoldable pub after_writes :
      Pass
      → List RunEvent
      → List String
      → List (String × FileState) × List (String × String) × Bool
      → Bool
      → Applied
  unfolding undone applied_event triage_event summary roll_back
  after_writes p events paths (written, disk, _) true = record {
    events =
        events
        ++ map applied_event p.applied
        ++ map triage_event p.triage
        ++ summary (length p.applied) (length p.skipped) ∷ [];
    disk = disk;
    thrown = none;
  }
  after_writes p events paths (written, disk, _) false =
      undone events paths (roll_back o.restores 0 written disk)

  unfoldable pub commit_changes :
      Pass → List RunEvent → List (String × FileState) → List (String × String) → Applied
  unfolding after_writes write_all summary
  commit_changes p events [] disk = record {
    events = events ++ summary 0 (length p.skipped) ∷ [];
    disk = disk;
    thrown = none;
  }
  commit_changes p events (f ∷ fs) disk =
      let run = write_all o.writes 0 (f ∷ fs) disk in
      after_writes p events (map (λ (e : String × FileState). e.0) (f ∷ fs)) run
        (run.2 && o.commits)

  module _ (t : Texts) (run_id epic_id : String) (tickets : List EpicTicket)
      (dir : Option String) where
    unfoldable pub gated :
        Option String → AutonomyMode → List Edit → List (String × String) → Applied
    unfolding commit_changes mode_text ev skipped_event changed
    gated (some reason) mode edits disk = record {
      events =
          ev "backlog.refinement.apply-skipped"
            (("reason", str reason) ∷ ("mode", str (mode_text mode)) ∷ [])
          ∷ [];
      disk = disk;
      thrown = none;
    }
    gated none mode edits disk =
        let p = apply_edits t run_id epic_id tickets disk dir edits no_edits in
        commit_changes p (map skipped_event p.skipped) (changed p.files) disk

    unfoldable pub run_apply_refinement :
        AutonomyMode → Bool → BudgetVerdict → List Edit → List (String × String) → Applied
    unfolding gated gate
    run_apply_refinement mode killed verdict edits disk =
        gated (gate mode killed verdict) mode edits disk
