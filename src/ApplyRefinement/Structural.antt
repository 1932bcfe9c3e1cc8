-- ===== src/ApplyRefinement/Structural.antt =====
-- src/applyRefinement.ts: what the edits that create tickets make of the pass's variables.
use jme_loop_public.Prelude.{
  ◌+◌, ◌≤◌, ◌<◌, String, ◌≡◌, sym, ◌∙◌, Bool, false, ◌||◌, Option, none, some, List, [], ◌∷◌, ◌++◌,
  ◌==◌, eq_iff, any, get, set, keep, keep-append, length, length-append, Bool-cases, Option-cases,
  inl, inr, if◌then◌else◌, arith,
}
use jme_loop_public.ApplyRefinement.{
  EpicTicket, FileState, EditRecord, Pass, structural_cap, skip_edit, applied_edit, Texts, exists,
  next_ids, stub_path, create, derive_at, derive_with, children, create_children, split_into,
  split_of,
}
use jme_loop_public.ApplyRefinement.Disk.{IsOriginal}

abbrev pub is_structural : EditRecord → Bool
is_structural r = r.kind == "derive-ticket" || r.kind == "split-ticket"

-- The originals are what the disk has, and the structural edits are counted and within their cap.
pub record IsSound (disk : List (String × String)) (p : Pass) : Type 0 where
  pub originals : IsOriginal disk p.files
  pub counted : length (keep is_structural p.applied) ≡ p.structural
  pub within : p.structural ≤ structural_cap

pub set-IsOriginal :
    (disk : List (String × String)) (path : String) (st : FileState)
    (files : List (String × FileState))
    → st.original ≡ get path disk
    → IsOriginal disk files
    → IsOriginal disk (set path st files)
set-IsOriginal disk path st [] e h = (e, tt)
set-IsOriginal disk path st (f ∷ files) e (q, h) = elim (Bool-cases (f.0 == path)) [
  | inl same ↦ rw same (e, h)
  | inr other ↦ rw other (q, set-IsOriginal disk path st files e h)
]

pub get-IsOriginal :
    (disk : List (String × String)) (path : String) (st : FileState)
    (files : List (String × FileState))
    → IsOriginal disk files
    → get path files ≡ some st
    → st.original ≡ get path disk
get-IsOriginal disk path st [] h e = cc
get-IsOriginal disk path st (f ∷ files) (q, h) e =
    ground (arith, eq_iff f.0 path, q, e, get-IsOriginal disk path st files h)

pub skip_edit-IsSound :
    (disk : List (String × String)) (kind id reason : String) (error : Option String) (p : Pass)
    → IsSound disk p
    → IsSound disk (skip_edit kind id reason error p)
unfolding skip_edit
skip_edit-IsSound disk kind id reason error p s = record {
  originals = s.originals;
  counted = s.counted;
  within = s.within;
}

pub counted-append :
    (rs : List EditRecord) (r : EditRecord)
    → length (keep is_structural (rs ++ r ∷ []))
      ≡ length (keep is_structural rs) + (if is_structural r then 1 else 0)
counted-append rs r = ground (
  arith,
  keep-append is_structural rs (r ∷ []),
  length-append (keep is_structural rs) (keep is_structural (r ∷ [])),
)

module _ (t : Texts) (run_id epic_id : String) (tickets : List EpicTicket)
    (disk : List (String × String)) where
  absent :
      (path : String) → exists t run_id epic_id tickets disk path ≡ false → get path disk ≡ none
  unfolding exists
  absent path h = elim (Option-cases (get path disk)) [
    | inl gone ↦ gone
    | inr (c, e) ↦ absurd (ground (arith, h, e))
  ]

  derive_at-IsSound :
      (path id title rationale : String) (deps : List String) (p : Pass)
      → p.structural < structural_cap
      → IsSound disk p
      → IsSound disk (derive_at t run_id epic_id tickets disk path id title rationale deps p)
  unfolding derive_at create
  derive_at-IsSound path id title rationale deps p room s =
      elim (Bool-cases (exists t run_id epic_id tickets disk path)) [
        | inl taken ↦ rw taken (skip_edit-IsSound disk "derive-ticket" id "id-collision" none p s)
        | inr free ↦ rw free (record {
          originals = set-IsOriginal disk path _ p.files (sym (absent path free)) s.originals;
          counted =
              counted-append p.applied (applied_edit "derive-ticket" id none)
              ∙ (omega (arith, s.counted));
          within = omega (arith, room);
        })
      ]

  pub derive-IsSound :
      (dir title rationale : String) (deps ids : List String) (p : Pass)
      → p.structural < structural_cap
      → IsSound disk p
      → IsSound disk (derive_with t run_id epic_id tickets disk dir title rationale deps ids p)
  unfolding derive_with
  derive-IsSound dir title rationale deps [] p room s = s
  derive-IsSound dir title rationale deps (id ∷ ids) p room s =
      derive_at-IsSound (stub_path t run_id epic_id tickets disk dir id title "derived-ticket") id
        title rationale deps p room s

  -- The children's files do not exist.
  create_children-IsOriginal :
      (source : String) (inherited : List String) (cs : List (String × String × String × String))
      (p : Pass)
      → any (λ (c : String × String × String × String). exists t run_id epic_id tickets disk c.0) cs
        ≡ false
      → IsOriginal disk p.files
      → IsOriginal disk (create_children t run_id epic_id tickets disk source inherited cs p).files
  unfolding create_children create
  create_children-IsOriginal source inherited [] p h k = k
  create_children-IsOriginal source inherited ((path, id, title, rationale) ∷ cs) p h k =
      create_children-IsOriginal source inherited cs _ (ground (arith, h))
        (set-IsOriginal disk path _ p.files (sym (absent path (ground (arith, h)))) k)

  split_into-IsSound :
      (source : String) (inherited ids : List String)
      (cs : List (String × String × String × String)) (p : Pass)
      → p.structural < structural_cap
      → IsSound disk p
      → IsSound disk (split_into t run_id epic_id tickets disk source inherited ids cs p)
  unfolding split_into
  split_into-IsSound source inherited ids cs p room s =
      elim (Bool-cases (
        any (λ (c : String × String × String × String). exists t run_id epic_id tickets disk c.0)
          cs)) [
            | inl taken ↦
                rw taken (skip_edit-IsSound disk "split-ticket" source "id-collision" none p s)
            | inr free ↦ rw free (record {
              originals = create_children-IsOriginal source inherited cs p free s.originals;
              counted =
                  counted-append p.applied (applied_edit "split-ticket" source (some ids))
                  ∙ (omega (arith, s.counted));
              within = omega (arith, room);
            })
          ]

  pub split_of-IsSound :
      (dir source : String) (into : List (String × String)) (es : List EpicTicket) (p : Pass)
      → p.structural < structural_cap
      → IsSound disk p
      → IsSound disk (split_of t run_id epic_id tickets disk dir source into es p)
  unfolding split_of
  split_of-IsSound dir source into [] p room s =
      skip_edit-IsSound disk "split-ticket" source "unknown-ticket" none p s
  split_of-IsSound dir source into (e ∷ []) p room s =
      let ids = next_ids t run_id epic_id tickets disk (length into) p in
      split_into-IsSound source e.ticket.depends_on ids
        (children t run_id epic_id tickets disk dir ids into)
        (record p { allocated = p.allocated + length into }) room
        (record { originals = s.originals; counted = s.counted; within = s.within })
  split_of-IsSound dir source into (e ∷ f ∷ es) p room s =
      skip_edit-IsSound disk "split-ticket" source "unknown-ticket" none p s
