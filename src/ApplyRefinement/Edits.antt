-- ===== src/ApplyRefinement/Edits.antt =====
-- src/applyRefinement.ts: what the edits of a proposal make of the pass's variables.
use jme_loop_public.Prelude.{
  ◌+◌, ◌<◌, String, ◌≡◌, refl, ◌∙◌, false, Option, none, some, List, [], ◌∷◌, ◌==◌, get, leb,
  Bool-cases, Option-cases, inl, inr, ◌⊕◌, arith,
}
use jme_loop_public.ApplyRefinement.{
  Edit, add_dependency, sharpen_criteria, derive_ticket, split_ticket, EpicTicket, FileState, Pass,
  no_edits, structural_cap, applied_edit, sketched_paths, tickets_of, Texts, next_ids, derive,
  split, structural_edit, change, file_state, safe_at, safe_of, safe_edit, apply_edit, apply_edits,
}
use jme_loop_public.ApplyRefinement.Disk.{IsOriginal}
use jme_loop_public.ApplyRefinement.Structural.{
  is_structural, IsSound, set-IsOriginal, get-IsOriginal, skip_edit-IsSound, counted-append,
  derive-IsSound, split_of-IsSound,
}

module _ (t : Texts) (run_id epic_id : String) (tickets : List EpicTicket)
    (disk : List (String × String)) where
  structural_edit-IsSound :
      (kind label : String) (dir : Option String) (make : String → Pass → Pass) (p : Pass)
      → ((d : String) → p.structural < structural_cap → IsSound disk (make d p))
      → IsSound disk p
      → IsSound disk (structural_edit t run_id epic_id tickets disk kind label dir make p)
  unfolding structural_edit
  structural_edit-IsSound kind label none make p m s =
      elim (Bool-cases (leb structural_cap p.structural)) [
        | inl full ↦ rw full (skip_edit-IsSound disk kind label "structural-cap" none p s)
        | inr room ↦ rw room (skip_edit-IsSound disk kind label "unknown-ticket" none p s)
      ]
  structural_edit-IsSound kind label (some d) make p m s =
      elim (Bool-cases (leb structural_cap p.structural)) [
        | inl full ↦ rw full (skip_edit-IsSound disk kind label "structural-cap" none p s)
        | inr room ↦ rw room (m d (ground (arith, room)))
      ]

  change-IsSound :
      (kind id path : String) (st : FileState) (transform : String → String) (p : Pass)
      → is_structural (applied_edit kind id none) ≡ false
      → st.original ≡ get path disk
      → IsSound disk p
      → IsSound disk (change t run_id epic_id tickets disk kind id path st transform p)
  unfolding change
  change-IsSound kind id path st transform p plain e s =
      elim (Bool-cases (transform st.current == st.current)) [
        | inl same ↦ rw same (
            skip_edit-IsSound disk kind id "noop" none _ (record {
              originals = set-IsOriginal disk path st p.files e s.originals;
              counted = s.counted;
              within = s.within;
            }))
        | inr other ↦ rw other (record {
          originals = set-IsOriginal disk path _ p.files e s.originals;
          counted =
              counted-append p.applied (applied_edit kind id none)
              ∙ (ground (arith, s.counted, plain));
          within = s.within;
        })
      ]

  file_state-original :
      (path : String) (p : Pass) (st : FileState)
      → IsOriginal disk p.files
      → file_state t run_id epic_id tickets disk path p ≡ some st
      → st.original ≡ get path disk
  unfolding file_state
  file_state-original path p st h e = elim (Option-cases (get path p.files)) [
    | inr (known, q) ↦ get-IsOriginal disk path st p.files h (ground (arith, q, e))
    | inl new ↦ elim (Option-cases (get path disk)) [
      | inl gone ↦ absurd (ground (arith, new, gone, e))
      | inr (content, q) ↦ ground (arith, new, q, e)
    ]
  ]

  safe_at-IsSound :
      (kind id path : String) (transform : String → String) (o : Option FileState) (p : Pass)
      → is_structural (applied_edit kind id none) ≡ false
      → ((st : FileState) → o ≡ some st → st.original ≡ get path disk)
      → IsSound disk p
      → IsSound disk (safe_at t run_id epic_id tickets disk kind id path transform o p)
  unfolding safe_at
  safe_at-IsSound kind id path transform none p plain e s =
      skip_edit-IsSound disk kind id "read-failed" (some (t.read_error path)) p s
  safe_at-IsSound kind id path transform (some st) p plain e s =
      change-IsSound kind id path st transform p plain (e st refl) s

  safe_of-IsSound :
      (kind id : String) (transform : String → String) (paths : List String) (p : Pass)
      → is_structural (applied_edit kind id none) ≡ false
      → IsSound disk p
      → IsSound disk (safe_of t run_id epic_id tickets disk kind id transform paths p)
  unfolding safe_of
  safe_of-IsSound kind id transform [] p plain s =
      skip_edit-IsSound disk kind id "unknown-ticket" none p s
  safe_of-IsSound kind id transform (path ∷ []) p plain s =
      safe_at-IsSound kind id path transform (file_state t run_id epic_id tickets disk path p) p
        plain (λ st e. file_state-original path p st s.originals e) s
  safe_of-IsSound kind id transform (a ∷ b ∷ paths) p plain s =
      skip_edit-IsSound disk kind id "unknown-ticket" none p s

  module _ (dir : Option String) where
    apply_edit-IsSound :
        (e : Edit) (p : Pass)
        → IsSound disk p
        → IsSound disk (apply_edit t run_id epic_id tickets disk dir e p)
    unfolding apply_edit derive split safe_edit
    apply_edit-IsSound (derive_ticket title rationale deps) p s =
        structural_edit-IsSound "derive-ticket" ("(new) " ⊕ title) dir
          (λ d q. derive t run_id epic_id tickets disk d title rationale deps q) p
          (λ d room.
            derive-IsSound t run_id epic_id tickets disk d title rationale deps
              (next_ids t run_id epic_id tickets disk 1 p)
              (record p { allocated = p.allocated + 1 }) room
              (record { originals = s.originals; counted = s.counted; within = s.within }))
          s
    apply_edit-IsSound (split_ticket id into) p s =
        structural_edit-IsSound "split-ticket" id dir
          (λ d q. split t run_id epic_id tickets disk d id into q) p
          (λ d room.
            split_of-IsSound t run_id epic_id tickets disk d id into (tickets_of id tickets) p room
              s)
          s
    apply_edit-IsSound (add_dependency id dep) p s =
        safe_of-IsSound "add-dependency" id _ (sketched_paths id tickets) p refl s
    apply_edit-IsSound (sharpen_criteria id criteria) p s =
        safe_of-IsSound "sharpen-criteria" id _ (sketched_paths id tickets) p refl s

    edits-IsSound :
        (es : List Edit) (p : Pass)
        → IsSound disk p
        → IsSound disk (apply_edits t run_id epic_id tickets disk dir es p)
    unfolding apply_edits
    edits-IsSound [] p s = s
    edits-IsSound (e ∷ es) p s =
        edits-IsSound es (apply_edit t run_id epic_id tickets disk dir e p)
          (apply_edit-IsSound e p s)

    -- However many edits a proposal has: what the pass takes for a file's original is what the disk
    -- holds of it, so that a file that it creates does not exist; and at most two structural edits
    -- are applied.
    pub apply_edits-IsSound :
        (es : List Edit) → IsSound disk (apply_edits t run_id epic_id tickets disk dir es no_edits)
    apply_edits-IsSound es =
        edits-IsSound es no_edits (record { originals = tt; counted = refl; within = omega arith })
