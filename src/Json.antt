-- ===== src/Json.antt =====
-- The values of a decoded frame (Python's `json.loads`). A float is kept by its `repr`.
pub mod Dumps
use deskhelm.Prelude.{ℕ, String, Bool, ◌≡◌, refl, ap, List, [], ◌∷◌}
use deskhelm.Dict.{Dict}

-- `negsuc n` is -(n + 1).
pub data ℤ : Type 0 where
  pos : ℕ → ℤ
  negsuc : ℕ → ℤ

mutual
  pub data Json : Type 0 where
    null : Json
    bool : Bool → Json
    int : ℤ → Json
    real : String → Json
    str : String → Json
    arr : Items → Json
    obj : Members → Json

  pub data Items : Type 0 where
    nil : Items
    cons : Json → Items → Items

  pub data Members : Type 0 where
    end : Members
    member : String → Json → Members → Members

unfoldable pub items : Items → List Json
items nil = []
items (cons x xs) = x ∷ items xs

unfoldable pub of_items : List Json → Items
of_items [] = nil
of_items (x ∷ xs) = cons x (of_items xs)

-- What the program does with a decoded object: `value.get(name)`, `name in value`.
abbrev pub Object : Type 0
Object = Dict String Json

unfoldable pub members : Members → Object
members end = []
members (member k v ms) = (k, v) ∷ members ms

unfoldable pub of_members : Object → Members
of_members [] = end
of_members ((k, v) ∷ ms) = member k v (of_members ms)

pub items-of_items : (xs : List Json) → items (of_items xs) ≡ xs
unfolding items of_items
items-of_items [] = refl
items-of_items (x ∷ xs) = ap (◌∷◌ x) (items-of_items xs)

pub members-of_members : (ms : Object) → members (of_members ms) ≡ ms
unfolding members of_members
members-of_members [] = refl
members-of_members ((k, v) ∷ ms) = ap (◌∷◌ (k, v)) (members-of_members ms)

-- The literals of a dict and of a list in the source.
abbrev pub object : Object → Json
object ms = obj (of_members ms)

abbrev pub array : List Json → Json
array xs = arr (of_items xs)
