-- ===== src/Core/Json.antt =====
-- Values as psycopg and PyYAML load them from JSON and YAML, and Python dicts of them. A float is
-- a finite double: its sign, and the numerator and the exponent of m / 2 ^ k.
pub mod Laws
use Prim.Native.Nat.{Ordering}
use Prim.Native.String.{compare}
use engraphy.Base.{
  ℕ, ℤ, String, Bool, true, false, Option, none, some, List, [], ◌∷◌, ◌==◌, string_eq,
  if◌then◌else◌,
}

mutual
  pub data Json : Type 0 where
    null : Json
    bool : Bool → Json
    int : ℤ → Json
    float : Bool → ℕ → ℕ → Json
    str : String → Json
    arr : Items → Json
    obj : Fields → Json

  pub data Items : Type 0 where
    nil : Items
    cons : Json → Items → Items

  pub data Fields : Type 0 where
    end : Fields
    field : String → Json → Fields → Fields

-- `d.get(k)`
unfoldable pub get : String → Fields → Option Json
get k end = none
get k (field j v d) = let rest = get k d in if j == k then some v else rest

-- `d[k] = v`
unfoldable pub put : String → Json → Fields → Fields
put k v end = field k v end
put k v (field j w d) = let rest = put k v d in if j == k then field j v d else field j w rest

-- `list(d)`
unfoldable pub keys : Fields → List String
keys end = []
keys (field k v d) = k ∷ keys d

-- `{k: v for k, v in d.items() if not p(k)}`
unfoldable pub without : (String → Bool) → Fields → Fields
without p end = end
without p (field k v d) = let rest = without p d in if p k then rest else field k v rest

-- `k in d`
unfoldable pub has : String → Fields → Bool
unfolding get
has k d = elim (get k d) [ none ↦ false | some _ ↦ true ]

-- The order of `sorted` on texts.
abbrev pub text_leb : String → String → Bool
text_leb s t = elim (compare s t) [ Ordering.gt ↦ false | _ ↦ true ]

unfoldable pub insert_text : String → List String → List String
insert_text s [] = s ∷ []
insert_text s (t ∷ ts) =
    let rest = insert_text s ts in if text_leb s t then s ∷ t ∷ ts else t ∷ rest

unfoldable pub sorted : List String → List String
unfolding insert_text
sorted [] = []
sorted (s ∷ ss) = insert_text s (sorted ss)

unfoldable pub items_append : Items → Json → Items
items_append nil v = cons v nil
items_append (cons w ws) v = cons w (items_append ws v)
