-- ===== src/Budget/Progress.antt =====
-- src/budget.ts, `noProgress`: the index loops against a description of the log.
use jme_loop_public.Prelude.{
  ℕ, suc, ◌+◌, ◌≡◌, refl, ap, ◌∙◌, inl, inr, Bool, true, false, Option, none, some, List, [], ◌∷◌,
  ◌++◌, length, drop, get_elem?-append, any, arith, Bool-cases, if◌then◌else◌,
}
use mathlib.Core.Path.{ap₂}
use jme_loop_public.RunState.{RunEvent}
use jme_loop_public.Budget.{
  count_starts, last_index, is_progress_event, no_progress_signals, signals_from, time_of,
}

module _ (p : RunEvent → Bool) where
  last_index_of_none :
      (i : ℕ) (found : Option ℕ) (es : List RunEvent)
      → any p es ≡ false
      → last_index p i found es ≡ found
  unfolding last_index
  last_index_of_none i found [] h = refl
  last_index_of_none i found (e ∷ es) h = elim (Bool-cases (p e)) [
    | inl q ↦ ground (arith, q)
    | inr q ↦ rw q (last_index_of_none (suc i) found es (ground (arith, q)))
  ]

  last_index-append :
      (i : ℕ) (found : Option ℕ) (before : List RunEvent) (e : RunEvent) (rest : List RunEvent)
      → p e ≡ true
      → any p rest ≡ false
      → last_index p i found (before ++ e ∷ rest) ≡ some (i + length before)
  unfolding last_index
  last_index-append i found [] e rest q h =
      ap (λ b. last_index p (suc i) (if b then some i else found) rest) q
      ∙ last_index_of_none (suc i) (some i) rest h
      ∙ ap some (omega arith)
  last_index-append i found (x ∷ before) e rest q h =
      last_index-append (suc i) (if p x then some i else found) before e rest q h
      ∙ ap some (omega arith)

drop_past :
    (before : List RunEvent) (e : RunEvent) (rest : List RunEvent)
    → drop (suc (length before)) (before ++ e ∷ rest) ≡ rest
drop_past [] e rest = refl
drop_past (x ∷ before) e rest = drop_past before e rest

signals_at :
    (before : List RunEvent) (e : RunEvent) (rest : List RunEvent)
    → signals_from (some (0 + length before)) (before ++ e ∷ rest) ≡ (count_starts rest, some e.ts)
unfolding signals_from time_of
signals_at before e rest =
    ap (λ n. signals_from (some n) (before ++ e ∷ rest))
      (let z : 0 + length before ≡ length before = omega arith in z)
    ∙ ap₂ (λ es o. (count_starts es, time_of o)) (drop_past before e rest)
        (get_elem?-append before e rest)

-- With no progress event in the log every started ticket counts, and there is no time of progress.
pub no_progress_signals_without :
    (flags_count : Bool) (events : List RunEvent)
    → any (is_progress_event flags_count) events ≡ false
    → no_progress_signals events flags_count ≡ (count_starts events, none)
unfolding no_progress_signals
no_progress_signals_without flags_count events h =
    ap (λ o. signals_from o events)
      (last_index_of_none (is_progress_event flags_count) 0 none events h)

-- Of a log that is split at its last progress event, the tickets started after that event count, and
-- its time is the time of progress.
pub no_progress_signals_split :
    (flags_count : Bool) (before : List RunEvent) (e : RunEvent) (rest : List RunEvent)
    → is_progress_event flags_count e ≡ true
    → any (is_progress_event flags_count) rest ≡ false
    → no_progress_signals (before ++ e ∷ rest) flags_count ≡ (count_starts rest, some e.ts)
unfolding no_progress_signals
no_progress_signals_split flags_count before e rest q h =
    ap (λ o. signals_from o (before ++ e ∷ rest))
      (last_index-append (is_progress_event flags_count) 0 none before e rest q h)
    ∙ signals_at before e rest
