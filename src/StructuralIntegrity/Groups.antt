-- ===== src/StructuralIntegrity/Groups.antt =====
-- src/structuralIntegrity.ts, `collectStructuralIntegrityReport`: the tickets by their ids.
use jme_loop_public.Prelude.{
  String, ◌≡◌, refl, Bool, true, false, not, ◌||◌, List, [], ◌∷◌, ◌++◌, set, get-set, is_empty, any,
  keep, ◌==◌, eq_iff, if◌then◌else◌, ap, arith,
}
use jme_loop_public.StructuralIntegrity.{
  StructuralTicket, Groups, with_id, group, several, insert_group, sort_groups,
}

-- The tickets with an id, from the list of all.
abbrev pub tickets_with : String → List StructuralTicket → List StructuralTicket
tickets_with id ts = keep (λ (t : StructuralTicket). t.id == id) ts

-- Two tickets have the same id.
abbrev pub repeats : List StructuralTicket → Bool
repeats [] = false
repeats (t ∷ ts) = any (λ (u : StructuralTicket). u.id == t.id) ts || repeats ts

append_assoc :
    (xs : List StructuralTicket) (y : StructuralTicket) (ys : List StructuralTicket)
    → (xs ++ y ∷ []) ++ ys ≡ xs ++ y ∷ ys
append_assoc [] y ys = refl
append_assoc (x ∷ xs) y ys = ap (λ (l : List StructuralTicket). x ∷ l) (append_assoc xs y ys)

append_nil : (xs : List StructuralTicket) → xs ++ [] ≡ xs
append_nil [] = refl
append_nil (x ∷ xs) = ap (λ (l : List StructuralTicket). x ∷ l) (append_nil xs)

with_id-set :
    (at id : String) (ts : List StructuralTicket) (m : Groups)
    → with_id at (set id ts m) ≡ (if id == at then ts else with_id at m)
unfolding with_id
with_id-set at id ts m = ground (arith, get-set at id ts m)

pub with_id-group :
    (id : String) (ts : List StructuralTicket) (m : Groups)
    → with_id id (group ts m) ≡ with_id id m ++ tickets_with id ts
unfolding group
with_id-group id [] m = ground (arith, append_nil (with_id id m))
with_id-group id (t ∷ ts) m = ground (
  arith,
  with_id-group id ts (set t.id (with_id t.id m ++ t ∷ []) m),
  with_id-set id t.id (with_id t.id m ++ t ∷ []) m,
  append_assoc (with_id id m) t (tickets_with id ts),
  eq_iff t.id id,
  ap (λ k. with_id k m) {x = t.id} {y = id},
)

abbrev big : String × List StructuralTicket → Bool
big g = several g.1

several-append :
    (ts : List StructuralTicket) (t : StructuralTicket) → several (ts ++ t ∷ []) ≡ not (is_empty ts)
several-append [] t = refl
several-append (u ∷ []) t = refl
several-append (u ∷ v ∷ ts) t = ground arith

several-empty : (ts : List StructuralTicket) → is_empty ts ≡ true → several ts ≡ false
several-empty [] h = refl
several-empty (u ∷ ts) h = cc

is_empty-append :
    (ts : List StructuralTicket) (t : StructuralTicket) → is_empty (ts ++ t ∷ []) ≡ false
is_empty-append [] t = refl
is_empty-append (u ∷ ts) t = refl

any-big-set :
    (id : String) (t : StructuralTicket) (m : Groups)
    → any big (set id (with_id id m ++ t ∷ []) m) ≡ (any big m || not (is_empty (with_id id m)))
unfolding with_id
any-big-set id t [] = refl
any-big-set id t (g ∷ m) =
    ground (arith, any-big-set id t m, several-append g.1 t, several-empty g.1)

any-or :
    (p q : StructuralTicket → Bool) (ts : List StructuralTicket)
    → any (λ t. p t || q t) ts ≡ (any p ts || any q ts)
any-or p q [] = refl
any-or p q (t ∷ ts) = ground (arith, any-or p q ts)

abbrev held : Groups → StructuralTicket → Bool
held m t = not (is_empty (with_id t.id m))

held-set :
    (t : StructuralTicket) (m : Groups) (ts : List StructuralTicket)
    → any (held (set t.id (with_id t.id m ++ t ∷ []) m)) ts
      ≡ (any (λ (u : StructuralTicket). u.id == t.id) ts || any (held m) ts)
held-set t m [] = refl
held-set t m (u ∷ ts) = ground (
  arith,
  held-set t m ts,
  with_id-set u.id t.id (with_id t.id m ++ t ∷ []) m,
  ap (λ (l : List StructuralTicket). is_empty l)
      {x = with_id u.id (set t.id (with_id t.id m ++ t ∷ []) m)} {y = with_id u.id m},
  ap (λ (l : List StructuralTicket). is_empty l)
      {x = with_id u.id (set t.id (with_id t.id m ++ t ∷ []) m)} {y = with_id t.id m ++ t ∷ []},
  is_empty-append (with_id t.id m) t,
  eq_iff t.id u.id,
  eq_iff u.id t.id,
)

any-big-group :
    (ts : List StructuralTicket) (m : Groups)
    → any big (group ts m) ≡ (any big m || any (held m) ts || repeats ts)
unfolding group
any-big-group [] m = ground arith
any-big-group (t ∷ ts) m = ground (
  arith,
  any-big-group ts (set t.id (with_id t.id m ++ t ∷ []) m),
  any-big-set t.id t m,
  held-set t m ts,
)

none_held : (ts : List StructuralTicket) → any (held []) ts ≡ false
unfolding with_id
none_held [] = refl
none_held (t ∷ ts) = none_held ts

module _ (precedes : String → String → Bool) where
  any-big-insert :
      (g : String × List StructuralTicket) (gs : Groups)
      → any big (insert_group precedes g gs) ≡ (big g || any big gs)
  unfolding insert_group
  any-big-insert g [] = refl
  any-big-insert g (h ∷ gs) = ground (arith, any-big-insert g gs)

  any-big-sort : (gs : Groups) → any big (sort_groups precedes gs) ≡ any big gs
  unfolding sort_groups
  any-big-sort [] = refl
  any-big-sort (g ∷ gs) =
      ground (arith, any-big-sort gs, any-big-insert g (sort_groups precedes gs))

  -- Some group is large when two tickets have the same id.
  pub any-several-group :
      (ts : List StructuralTicket)
      → any (λ g. several g.1) (sort_groups precedes (group ts [])) ≡ repeats ts
  any-several-group ts =
      ground (arith, any-big-sort (group ts []), any-big-group ts [], none_held ts)
