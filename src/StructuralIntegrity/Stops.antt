-- ===== src/StructuralIntegrity/Stops.antt =====
-- src/structuralIntegrity.ts, `collectStructuralIntegrityReport`: when the report stops the loop.
use jme_loop_public.Prelude.{
  String, ◌≡◌, refl, ap, ◌∙◌, Bool, true, false, not, ◌||◌, List, [], ◌∷◌, ◌++◌, is_empty, any,
  keep, length, eqb, if◌then◌else◌, arith,
}
use jme_loop_public.StructuralIntegrity.{
  StructuralCheck, StructuralTicket, EpicEntry, Groups, with_id, group, several, sort_groups,
  duplicate_checks, is_missing, missing_checks, disagrees, mismatch_checks, edge_checks,
  all_edge_checks, is_malformed, malformed_check, status_checks, drift_parts, drift, epic_checks,
  or_pass, is_stop, structural_checks, collect_structural_integrity_report,
}
use jme_loop_public.StructuralIntegrity.Groups.{
  tickets_with, repeats, with_id-group, any-several-group,
}

-- The edge does not lead to exactly one ticket.
abbrev pub is_loose : List StructuralTicket → String → Bool
is_loose ts id = not (eqb (length (tickets_with id ts)) 1)

abbrev pub has_loose : List StructuralTicket → StructuralTicket → Bool
has_loose ts t = any (is_loose ts) t.depends_on || any (is_loose ts) t.impacts

-- What the integrity of the graph asks for.
abbrev pub is_broken : List StructuralTicket → Bool
is_broken ts =
    repeats ts
    || any (λ (t : StructuralTicket). is_missing t.declared_id) ts
    || any disagrees ts
    || any (has_loose ts) ts

stops-append :
    (xs ys : List StructuralCheck) → any is_stop (xs ++ ys) ≡ (any is_stop xs || any is_stop ys)
stops-append [] ys = refl
stops-append (x ∷ xs) ys = ground (arith, stops-append xs ys)

duplicate_checks-stops :
    (m : Groups)
    → any is_stop (duplicate_checks m) ≡ any (λ (g : String × List StructuralTicket). several g.1) m
unfolding duplicate_checks
duplicate_checks-stops [] = refl
duplicate_checks-stops (g ∷ m) = ground (arith, duplicate_checks-stops m)

missing_checks-stops :
    (ts : List StructuralTicket)
    → any is_stop (missing_checks ts) ≡ any (λ (t : StructuralTicket). is_missing t.declared_id) ts
unfolding missing_checks
missing_checks-stops [] = refl
missing_checks-stops (t ∷ ts) = ground (arith, missing_checks-stops ts)

mismatch_checks-stops :
    (ts : List StructuralTicket) → any is_stop (mismatch_checks ts) ≡ any disagrees ts
unfolding mismatch_checks
mismatch_checks-stops [] = refl
mismatch_checks-stops (t ∷ ts) = ground (arith, mismatch_checks-stops ts)

not_one : (ts : List StructuralTicket) → (is_empty ts || several ts) ≡ not (eqb (length ts) 1)
not_one [] = refl
not_one (t ∷ []) = refl
not_one (t ∷ u ∷ ts) = ground arith

module _ (ts : List StructuralTicket) where
  found : (id : String) → with_id id (group ts []) ≡ tickets_with id ts
  unfolding with_id
  found id = with_id-group id ts []

  edge_checks-stops :
      (t : StructuralTicket) (field : String) (ids : List String)
      → any is_stop (edge_checks (group ts []) t field ids) ≡ any (is_loose ts) ids
  unfolding edge_checks
  edge_checks-stops t field [] = refl
  edge_checks-stops t field (id ∷ ids) = ground (
    arith,
    edge_checks-stops t field ids,
    not_one (with_id id (group ts [])),
    ap (λ (l : List StructuralTicket). eqb (length l) 1) (found id),
  )

  all_edge_checks-stops :
      (us : List StructuralTicket)
      → any is_stop (all_edge_checks (group ts []) us) ≡ any (has_loose ts) us
  unfolding all_edge_checks
  all_edge_checks-stops [] = refl
  all_edge_checks-stops (u ∷ us) =
      let rest = all_edge_checks (group ts []) us in
      let impacts = edge_checks (group ts []) u "impacts" u.impacts in
      ground (
        arith,
        all_edge_checks-stops us,
        edge_checks-stops u "depends-on" u.depends_on,
        edge_checks-stops u "impacts" u.impacts,
        stops-append (edge_checks (group ts []) u "depends-on" u.depends_on) (impacts ++ rest),
        stops-append impacts rest,
      )

-- A check that may stand before others and stops nothing.
stops-skip :
    (b : Bool) (c : StructuralCheck) (rest : List StructuralCheck)
    → is_stop c ≡ false
    → any is_stop (if b then c ∷ rest else rest) ≡ any is_stop rest
stops-skip true c rest h = ground (arith, h)
stops-skip false c rest h = refl

malformed_check-stops : (t : StructuralTicket) → is_stop (malformed_check t) ≡ false
unfolding malformed_check
malformed_check-stops t = refl

status_checks-stops : (ts : List StructuralTicket) → any is_stop (status_checks ts) ≡ false
unfolding status_checks
status_checks-stops [] = refl
status_checks-stops (t ∷ ts) =
    stops-skip (is_malformed t.status) (malformed_check t) (status_checks ts)
      (malformed_check-stops t)
    ∙ status_checks-stops ts

drift-stops : (path : String) (ps : List String) → any is_stop (drift path ps) ≡ false
unfolding drift
drift-stops path [] = refl
drift-stops path (p ∷ ps) = refl

epic_checks-stops :
    (ts : List StructuralTicket) (es : List EpicEntry) → any is_stop (epic_checks ts es) ≡ false
unfolding epic_checks
epic_checks-stops ts [] = refl
epic_checks-stops ts (e ∷ es) = ground (
  arith,
  epic_checks-stops ts es,
  stops-append (drift e.epic_rel_path (drift_parts ts e)) (epic_checks ts es),
  drift-stops e.epic_rel_path (drift_parts ts e),
)

or_pass-stops : (cs : List StructuralCheck) → any is_stop (or_pass cs) ≡ any is_stop cs
unfolding or_pass
or_pass-stops [] = refl
or_pass-stops (c ∷ cs) = refl

no_stops : (cs : List StructuralCheck) → eqb (length (keep is_stop cs)) 0 ≡ not (any is_stop cs)
no_stops [] = refl
no_stops (c ∷ cs) = ground (arith, no_stops cs)

module _ (precedes : String → String → Bool) where
  structural_checks-stops :
      (ts : List StructuralTicket) (es : List EpicEntry)
      → any is_stop (structural_checks precedes ts es) ≡ is_broken ts
  unfolding structural_checks
  structural_checks-stops ts es =
      let m = group ts [] in
      let last = status_checks ts ++ epic_checks ts es in
      let edges = all_edge_checks m ts ++ last in
      let mismatches = mismatch_checks ts ++ edges in
      let missing = missing_checks ts ++ mismatches in
      ground (
        arith,
        stops-append (duplicate_checks (sort_groups precedes m)) missing,
        stops-append (missing_checks ts) mismatches,
        stops-append (mismatch_checks ts) edges,
        stops-append (all_edge_checks m ts) last,
        stops-append (status_checks ts) (epic_checks ts es),
        duplicate_checks-stops (sort_groups precedes m),
        any-several-group precedes ts,
        missing_checks-stops ts,
        mismatch_checks-stops ts,
        all_edge_checks-stops ts ts,
        status_checks-stops ts,
        epic_checks-stops ts es,
      )

  -- The report counts no stop exactly when every ticket declares an id, which its file's name does
  -- not contradict, no two tickets have the same id, and every edge of every ticket leads to
  -- exactly one ticket; the statuses and the epics' lists have no say in it.
  pub stop_count_iff :
      (root : String) (ts : List StructuralTicket) (es : List EpicEntry)
      → eqb (collect_structural_integrity_report precedes root ts es).stop_count 0
        ≡ not (is_broken ts)
  unfolding collect_structural_integrity_report
  stop_count_iff root ts es =
      let cs = structural_checks precedes ts es in
      ground (arith, no_stops (or_pass cs), or_pass-stops cs, structural_checks-stops ts es)
