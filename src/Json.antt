-- ===== src/Json.antt =====
-- JSON values, the `unknown` that the source narrows at its boundaries.
use jme_loop_public.Prelude.{String, Bool, List, [], ◌∷◌, Number, set}

mutual
  pub data Json : Type 0 where
    null : Json
    bool : Bool → Json
    num : Number → Json
    str : String → Json
    array : Items → Json
    object : Members → Json

  pub data Items : Type 0 where
    nil : Items
    cons : Json → Items → Items

  pub data Members : Type 0 where
    end : Members
    member : String → Json → Members → Members

-- `Record<string, unknown>`: the members of an object, in their order.
abbrev pub Fields : Type 0
Fields = List (String × Json)

abbrev pub items : Items → List Json
items nil = []
items (cons v vs) = v ∷ items vs

abbrev pub fields : Members → Fields
fields end = []
fields (member k v ms) = (k, v) ∷ fields ms

abbrev pub of_fields : Fields → Members
of_fields [] = end
of_fields ((k, v) ∷ fs) = member k v (of_fields fs)

abbrev pub of_texts : List String → Items
of_texts [] = nil
of_texts (t ∷ ts) = cons (str t) (of_texts ts)

-- `{ ...a, ...b }`: what `b` has, it has anew.
abbrev pub spread : Fields → Fields → Fields
spread a [] = a
spread a ((k, v) ∷ b) = spread (set k v a) b
