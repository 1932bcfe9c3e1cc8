-- ===== src/Prelude/Sorting.antt =====
-- `sort()` on an array of texts: by their code points.
use Prim.Native.Nat.{Ordering}
use Prim.Native.String.{String, compare}
use mathlib.Core.List.{List, [], ◌∷◌}

unfoldable pub insert_text : String → List String → List String
insert_text a [] = a ∷ []
insert_text a (b ∷ bs) = elim (compare a b) [ Ordering.gt ↦ b ∷ insert_text a bs | _ ↦ a ∷ b ∷ bs ]

unfoldable pub sort_texts : List String → List String
unfolding insert_text
sort_texts [] = []
sort_texts (a ∷ bs) = insert_text a (sort_texts bs)
