-- ===== src/Base/Members.antt =====
-- The elements of a list, each with its place forgotten, and where the list functions take them from.
use Prim.Native.Nat.{ℕ, zero, suc}
use mathlib.Core.Path.{◌≡◌, refl, sym, ap, subst, ◌∙◌}
use mathlib.Core.Logic.{◌⊎◌, inl, inr}
use mathlib.Core.Bool.{Bool, true, false, ◌||◌}
use mathlib.Core.Option.{some}
use mathlib.Core.List.{List, [], ◌∷◌, ◌++◌, map}
use native.Mathlib.Omega.{arith}
use engraphy.Base.Equality.{Eq, contains, ◌==◌, Bool-cases, ==-eq}
use engraphy.Base.Lists.{All, keep, take, drop, find_first}
use engraphy.Base.Sorting.{insert_by, sort_by, Pairwise}

abbrev pub In : {A : Type 0} → A → List A → Type 0
In a [] = ⊥
In a (x ∷ xs) = (x ≡ a) ⊎ In a xs

module _ {A : Type 0} where
  pub In-keep : (p : A → Bool) (a : A) (xs : List A) → In a (keep p xs) → In a xs × (p a ≡ true)
  In-keep p a [] h = elim h [ ]
  In-keep p a (x ∷ xs) h = elim (Bool-cases (p x)) [
    | inl passed ↦ elim (rw passed at h) [
      | inl here ↦ (inl here, ground (arith, here, passed))
      | inr there ↦ let (m, q) = In-keep p a xs there in (inr m, q)
    ]
    | inr failed ↦ let (m, q) = In-keep p a xs (rw failed at h) in (inr m, q)
  ]

  pub keep-In : (p : A → Bool) (a : A) (xs : List A) → In a xs → p a ≡ true → In a (keep p xs)
  keep-In p a [] h q = elim h [ ]
  keep-In p a (x ∷ xs) (inl here) q =
      let e : p x ≡ true = ground (arith, here, q) in rw e (inl here)
  keep-In p a (x ∷ xs) (inr there) q = elim (Bool-cases (p x)) [
    | inl passed ↦ rw passed (inr (keep-In p a xs there q))
    | inr failed ↦ rw failed (keep-In p a xs there q)
  ]

  pub In-take : (n : ℕ) (a : A) (xs : List A) → In a (take n xs) → In a xs
  In-take zero a xs h = elim h [ ]
  In-take (suc n) a [] h = elim h [ ]
  In-take (suc n) a (x ∷ xs) (inl here) = inl here
  In-take (suc n) a (x ∷ xs) (inr there) = inr (In-take n a xs there)

  In-insert_by :
      (before : A → A → Bool) (a x : A) (xs : List A)
      → In a (insert_by before x xs)
      → (x ≡ a) ⊎ In a xs
  unfolding insert_by
  In-insert_by before a x [] h = h
  In-insert_by before a x (y ∷ xs) h = elim (Bool-cases (before x y)) [
    | inl first ↦ rw first at h
    | inr later ↦ elim (rw later at h) [
      | inl here ↦ inr (inl here)
      | inr there ↦ elim (In-insert_by before a x xs there) [
        | inl here ↦ inl here
        | inr rest ↦ inr (inr rest)
      ]
    ]
  ]

  pub In-sort_by :
      (before : A → A → Bool) (a : A) (xs : List A) → In a (sort_by before xs) → In a xs
  unfolding sort_by
  In-sort_by before a [] h = h
  In-sort_by before a (x ∷ xs) h = elim (In-insert_by before a x (sort_by before xs) h) [
    | inl here ↦ inl here
    | inr there ↦ inr (In-sort_by before a xs there)
  ]

  pub In-find_first :
      (p : A → Bool) (a : A) (xs : List A) → find_first p xs ≡ some a → In a xs × (p a ≡ true)
  In-find_first p a [] h = cc
  In-find_first p a (x ∷ xs) h = elim (Bool-cases (p x)) [
    | inl passed ↦ let e : x ≡ a = ground (arith, passed, h) in (inl e, ground (arith, e, passed))
    | inr failed ↦ let (m, q) = In-find_first p a xs (rw failed at h) in (inr m, q)
  ]

  -- What stands in the list is found, if not something before it.
  pub find_first-In :
      (p : A → Bool) (a : A) (xs : List A)
      → In a xs
      → p a ≡ true
      → (b : A) × (find_first p xs ≡ some b)
  find_first-In p a [] h q = elim h [ ]
  find_first-In p a (x ∷ xs) h q = elim (Bool-cases (p x)) [
    | inl passed ↦ (x, rw passed refl)
    | inr failed ↦ elim h [
      | inl here ↦ absurd (ground (arith, here, q, failed))
      | inr there ↦ let (b, e) = find_first-In p a xs there q in (b, rw failed e)
    ]
  ]

  pub All-In : (P : A → Type 0) (a : A) (xs : List A) → In a xs → All P xs → P a
  All-In P a [] h ps = elim h [ ]
  All-In P a (x ∷ xs) (inl here) (p, ps) = subst P here p
  All-In P a (x ∷ xs) (inr there) (p, ps) = All-In P a xs there ps

  pub In-All : (P : A → Type 0) (xs : List A) → ((a : A) → In a xs → P a) → All P xs
  In-All P [] h = tt
  In-All P (x ∷ xs) h = (h x (inl refl), In-All P xs (λ a m. h a (inr m)))

  pub In-drop : (n : ℕ) (a : A) (xs : List A) → In a (drop n xs) → In a xs
  In-drop zero a xs h = h
  In-drop (suc n) a [] h = h
  In-drop (suc n) a (x ∷ xs) h = inr (In-drop n a xs h)

  -- Two elements of a list are one, if a relation that holds between any two does not hold of them.
  pub In-same :
      (R : A → A → Type 0) (a b : A) (xs : List A)
      → ((x y : A) → R x y → R y x)
      → Pairwise R xs
      → In a xs
      → In b xs
      → ¬ (R a b)
      → a ≡ b
  In-same R a b [] flips pw h k n = elim h [ ]
  In-same R a b (x ∷ xs) flips (p, ps) (inl h) (inl k) n = sym h ∙ k
  In-same R a b (x ∷ xs) flips (p, ps) (inl h) (inr k) n =
      absurd (n (subst (λ z. R z b) h (All-In (R x) b xs k p)))
  In-same R a b (x ∷ xs) flips (p, ps) (inr h) (inl k) n =
      absurd (n (flips b a (subst (λ z. R z a) k (All-In (R x) a xs h p))))
  In-same R a b (x ∷ xs) flips (p, ps) (inr h) (inr k) n = In-same R a b xs flips ps h k n

module _ {A : Type 0} where
  pub In-append : (a : A) (xs ys : List A) → In a (xs ++ ys) → In a xs ⊎ In a ys
  In-append a [] ys h = inr h
  In-append a (x ∷ xs) ys (inl here) = inl (inl here)
  In-append a (x ∷ xs) ys (inr there) = elim (In-append a xs ys there) [
    | inl h ↦ inl (inr h)
    | inr h ↦ inr h
  ]

  pub append-In : (a : A) (xs ys : List A) → In a xs ⊎ In a ys → In a (xs ++ ys)
  append-In a [] ys (inl h) = elim h [ ]
  append-In a [] ys (inr h) = h
  append-In a (x ∷ xs) ys (inl (inl here)) = inl here
  append-In a (x ∷ xs) ys (inl (inr there)) = inr (append-In a xs ys (inl there))
  append-In a (x ∷ xs) ys (inr h) = inr (append-In a xs ys (inr h))

module _ {A B : Type 0} where
  pub map-In : (f : A → B) (a : A) (xs : List A) → In a xs → In (f a) (map f xs)
  map-In f a [] h = elim h [ ]
  map-In f a (x ∷ xs) (inl here) = inl (ap f here)
  map-In f a (x ∷ xs) (inr there) = inr (map-In f a xs there)

  pub In-map : (f : A → B) (b : B) (xs : List A) → In b (map f xs) → (a : A) × In a xs × (f a ≡ b)
  In-map f b [] h = elim h [ ]
  In-map f b (x ∷ xs) (inl here) = (x, inl refl, here)
  In-map f b (x ∷ xs) (inr there) = let (a, m, e) = In-map f b xs there in (a, inr m, e)

module _ {B : Type 0} ⦃e : Eq B⦄ where
  pub In-contains : (b : B) (xs : List B) → contains xs b ≡ true → In b xs
  In-contains b [] h = cc
  In-contains b (x ∷ xs) h = elim (Bool-cases (b == x)) [
    | inl here ↦ inl (sym (==-eq b x here))
    | inr other ↦ inr (In-contains b xs (ground (arith, h, other)))
  ]

  pub contains-In : (b : B) (xs : List B) → In b xs → contains xs b ≡ true
  contains-In b [] h = elim h [ ]
  contains-In b (x ∷ xs) (inl here) = ground (arith, here)
  contains-In b (x ∷ xs) (inr there) = ground (arith, contains-In b xs there)

  pub contains-append :
      (xs ys : List B) (b : B) → contains (xs ++ ys) b ≡ (contains xs b || contains ys b)
  contains-append [] ys b = refl
  contains-append (x ∷ xs) ys b = ground (arith, contains-append xs ys b)

pub or_true : (b : Bool) → (b || true) ≡ true
or_true true = refl
or_true false = refl
