-- ===== src/Core/Json/Laws.antt =====
-- The laws of the dicts, and membership in a sorted list.
use engraphy.Base.{
  String, ◌≡◌, refl, Bool, true, not, ◌&&◌, ◌||◌, none, some, List, [], ◌∷◌, ◌==◌, contains,
  string_eq, if◌then◌else◌, arith, ==-eq,
}
use engraphy.Core.Json.{Json, Fields, end, field, get, put, keys, without, has, insert_text, sorted}

pub get-put :
    (j k : String) (v : Json) (d : Fields)
    → get j (put k v d) ≡ (if k == j then some v else get j d)
unfolding get put
get-put j k v end = refl
get-put j k v (field i w d) = ground (arith, get-put j k v d)

pub get-without :
    (p : String → Bool) (j : String) (d : Fields)
    → get j (without p d) ≡ (if p j then none else get j d)
unfolding get without
get-without p j end = ground arith
get-without p j (field i w d) = ground (arith, get-without p j d)

pub has-put : (j k : String) (v : Json) (d : Fields) → has j (put k v d) ≡ (k == j || has j d)
unfolding has
has-put j k v d = ground (arith, get-put j k v d)

pub has-without :
    (p : String → Bool) (j : String) (d : Fields) → has j (without p d) ≡ (not (p j) && has j d)
unfolding has
has-without p j d = ground (arith, get-without p j d)

pub contains-keys : (d : Fields) (k : String) → contains (keys d) k ≡ has k d
unfolding keys has
contains-keys end k = refl
contains-keys (field j v d) k = ground (arith, contains-keys d k)

contains-insert_text :
    (s k : String) (ts : List String) → contains (insert_text s ts) k ≡ (k == s || contains ts k)
unfolding insert_text
contains-insert_text s k [] = refl
contains-insert_text s k (t ∷ ts) = ground (arith, contains-insert_text s k ts)

-- Sorting keeps the elements.
pub contains-sorted : (ss : List String) (k : String) → contains (sorted ss) k ≡ contains ss k
unfolding sorted
contains-sorted [] k = refl
contains-sorted (s ∷ ss) k =
    ground (arith, contains-insert_text s k (sorted ss), contains-sorted ss k)

-- A key that is dropped may be written before.
pub without-put :
    (p : String → Bool) (k : String) (v : Json) (d : Fields)
    → p k ≡ true
    → without p (put k v d) ≡ without p d
unfolding put without
without-put p k v end h = ground arith
without-put p k v (field j w d) h = ground (arith, without-put p k v d h, ==-eq j k)
