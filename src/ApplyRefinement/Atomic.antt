-- ===== src/ApplyRefinement/Atomic.antt =====
-- src/applyRefinement.ts: a pass is made as a whole, or not at all.
use jme_loop_public.Prelude.{
  String, ◌≡◌, refl, ap, subst, ◌∙◌, ◌⊎◌, inl, inr, Bool, true, false, ◌&&◌, ◌||◌, Option, none,
  some, List, [], ◌∷◌, ◌++◌, ◌==◌, any, get, map, and_left, and_right, length, Bool-cases, arith,
}
use jme_loop_public.RunState.{RunEvent}
use jme_loop_public.Budget.{BudgetVerdict, clear, tripped}
use jme_loop_public.Budget.Verdicts.{trip}
use jme_loop_public.Autonomy.{AutonomyMode, autopilot, review, may_edit_planning}
use jme_loop_public.ApplyRefinement.{
  Edit, EpicTicket, FileState, EditRecord, Pass, no_edits, Texts, apply_edits,
}
use jme_loop_public.ApplyRefinement.Commit.{
  Applied, gate, changed, write_all, roll_back, skipped_event, applied_event, triage_event, ev,
  summary, Outside, undone, after_writes, commit_changes, gated, run_apply_refinement,
}
use jme_loop_public.ApplyRefinement.Disk.{
  IsOriginal, is_torn, AllWrote, put_all, write_all-wrote, undone-elsewhere, keep-IsOriginal,
}
use jme_loop_public.ApplyRefinement.Edits.{apply_edits-IsSound}

-- The events that record an edit as made, or ask a human to wire it.
abbrev pub is_applied : RunEvent → Bool
is_applied e = e.type == "backlog.refinement.edit-applied" || e.type == "triage.item"

-- Nothing was done: the disk is as it was, but for a file whose write was broken off, and no event
-- records an edit as made.
pub record IsUndone (torn : String → Bool) (disk : List (String × String)) (r : Applied)
    : Type 0 where
  pub same : (path : String) → torn path ≡ false → get path r.disk ≡ get path disk
  pub silent : any is_applied r.events ≡ false

-- Everything was done: each changed file was written and the commit was made, the disk has their new
-- contents, and the events end with a record of each edit that was made, and the summary.
pub record IsMade (o : Outside) (p : Pass) (disk : List (String × String)) (r : Applied)
    : Type 0 where
  pub committed : o.commits ≡ true
  pub wrote_all : AllWrote o.writes 0 (changed p.files)
  pub contents : r.disk ≡ put_all (changed p.files) disk
  pub told :
      r.events
      ≡ map skipped_event p.skipped
        ++ map applied_event p.applied
        ++ map triage_event p.triage
        ++ summary (length p.applied) (length p.skipped) ∷ []

any-append :
    (p : RunEvent → Bool) (xs ys : List RunEvent) → any p (xs ++ ys) ≡ (any p xs || any p ys)
any-append p [] ys = refl
any-append p (x ∷ xs) ys = ground (arith, any-append p xs ys)

skipped_silent : (rs : List EditRecord) → any is_applied (map skipped_event rs) ≡ false
unfolding skipped_event ev
skipped_silent [] = refl
skipped_silent (r ∷ rs) = skipped_silent rs

changed-IsOriginal :
    (disk : List (String × String)) (files : List (String × FileState))
    → IsOriginal disk files
    → IsOriginal disk (changed files)
unfolding changed
changed-IsOriginal disk files h = keep-IsOriginal _ disk files h

module _ (o : Outside) where
  undone-IsUndone :
      (lost : String → Bool) (events : List RunEvent) (paths : List String)
      (end : List (String × String)) (done : Bool) (disk : List (String × String))
      → any is_applied events ≡ false
      → (done ≡ true → (path : String) → lost path ≡ false → get path end ≡ get path disk)
      → (undone o events paths (end, done)).thrown ≡ none
      → IsUndone lost disk (undone o events paths (end, done))
  unfolding undone ev
  undone-IsUndone lost events paths end true disk h k q = record {
    same = k refl;
    silent = any-append is_applied events _ ∙ (ground (arith, h));
  }
  undone-IsUndone lost events paths end false disk h k q = cc

  commit_changes-Made :
      (p : Pass) (events : List RunEvent) (fs : List (String × FileState))
      (disk : List (String × String))
      → events ≡ map skipped_event p.skipped
      → fs ≡ changed p.files
      → IsOriginal disk fs
      → (commit_changes o p events fs disk).thrown ≡ none
      → IsMade o p disk (commit_changes o p events fs disk)
        ⊎ IsUndone (is_torn o.writes 0 fs) disk (commit_changes o p events fs disk)
  unfolding commit_changes summary ev
  commit_changes-Made p events [] disk e c h q = inr (record {
    same = λ path l. refl;
    silent =
        any-append is_applied events _
        ∙ (ground (arith, ap (any is_applied) e ∙ skipped_silent p.skipped));
  })
  commit_changes-Made p events (f ∷ fs) disk e c k q =
      let run = write_all o.writes 0 (f ∷ fs) disk in
      let back = roll_back o.restores 0 run.0 run.1 in
      let paths = map (λ (e : String × FileState). e.0) (f ∷ fs) in
      elim (Bool-cases (run.2 && o.commits)) [
        | inl done ↦
            let (all, same) =
              write_all-wrote o.writes 0 (f ∷ fs) disk (and_left run.2 o.commits done) in
            inl (
              rw (done, after_writes)
                (record {
                  committed = and_right run.2 o.commits done;
                  wrote_all = subst (AllWrote o.writes 0) c all;
                  contents = same ∙ ap (λ l. put_all l disk) c;
                  told =
                      ap
                        (λ l.
                          l
                          ++ map applied_event p.applied
                          ++ map triage_event p.triage
                          ++ summary (length p.applied) (length p.skipped) ∷ [])
                        e;
                }))
        | inr fails ↦ inr (
            rw (fails, after_writes)
              (undone-IsUndone (is_torn o.writes 0 (f ∷ fs)) events paths back.0 back.1 disk
                (ap (any is_applied) e ∙ skipped_silent p.skipped)
                (undone-elsewhere o.writes o.restores (f ∷ fs) disk k)
                (rw (fails, after_writes) at q)))
      ]

  module _ (t : Texts) (run_id epic_id : String) (tickets : List EpicTicket)
      (dir : Option String) where
    -- The pass over the edits.
    abbrev pub made : List Edit → List (String × String) → Pass
    made edits disk = apply_edits t run_id epic_id tickets disk dir edits no_edits

    -- A write of the pass was broken off in the middle of the file.
    abbrev pub lost : List Edit → List (String × String) → String → Bool
    lost edits disk = is_torn o.writes 0 (changed (made edits disk).files)

    gated-Made :
        (why : Option String) (mode : AutonomyMode) (edits : List Edit)
        (disk : List (String × String))
        → (gated o t run_id epic_id tickets dir why mode edits disk).thrown ≡ none
        → ((why ≡ none)
            × IsMade o
                (made edits disk)
                disk
                (gated o t run_id epic_id tickets dir why mode edits disk))
          ⊎ IsUndone
              (lost edits disk)
              disk
              (gated o t run_id epic_id tickets dir why mode edits disk)
    unfolding gated ev
    gated-Made (some reason) mode edits disk q =
        inr (record { same = λ path l. refl; silent = refl })
    gated-Made none mode edits disk q =
        let p = made edits disk in
        let sound = apply_edits-IsSound t run_id epic_id tickets disk dir edits in
        elim (commit_changes-Made p (map skipped_event p.skipped) (changed p.files) disk refl refl
          (changed-IsOriginal disk p.files sound.originals) q) [
            | inl m ↦ inl (refl, m)
            | inr u ↦ inr u
          ]

    gate-autopilot :
        (mode : AutonomyMode) (killed : Bool) (verdict : BudgetVerdict)
        → gate mode killed verdict ≡ none
        → (mode ≡ autopilot) × (killed ≡ false) × (trip verdict ≡ none)
    unfolding gate may_edit_planning
    gate-autopilot review killed verdict h = cc
    gate-autopilot autopilot true verdict h = cc
    gate-autopilot autopilot false (clear m) h = (refl, refl, refl)
    gate-autopilot autopilot false (tripped state arm reason m) h = cc

    -- A pass over the backlog is made as a whole or not at all. Unless undoing it fails, which is
    -- thrown, either each changed file was written and the commit was made, the disk has their new
    -- contents and the events record each edit, in `autopilot`, with no kill switch and within the
    -- budget; or the disk is as it was, each file with its content, and no event records an edit as
    -- made. A file whose write was broken off after it was truncated is the exception: it is not
    -- given back what it held.
    pub run_apply_refinement_atomic :
        (mode : AutonomyMode) (killed : Bool) (verdict : BudgetVerdict) (edits : List Edit)
        (disk : List (String × String))
        → (run_apply_refinement o t run_id epic_id tickets dir mode killed verdict edits
            disk).thrown
          ≡ none
        → ((mode ≡ autopilot)
            × (killed ≡ false)
            × (trip verdict ≡ none)
            × IsMade o (made edits disk) disk (
                run_apply_refinement o t run_id epic_id tickets dir mode killed verdict edits disk))
          ⊎ IsUndone
              (lost edits disk)
              disk
              (run_apply_refinement o t run_id epic_id tickets dir mode killed verdict edits disk)
    unfolding run_apply_refinement
    run_apply_refinement_atomic mode killed verdict edits disk q =
        elim (gated-Made (gate mode killed verdict) mode edits disk q) [
          | inl (through, m) ↦
              let (a, b, c) = gate-autopilot mode killed verdict through in inl (a, b, c, m)
          | inr u ↦ inr u
        ]
