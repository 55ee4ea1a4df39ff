-- ===== src/Base/Sorting.antt =====
-- Sorting by insertion, as `sorted` and ORDER BY give it, and what a sorted list keeps.
use Prim.Native.Nat.{ℕ, zero, suc}
use mathlib.Core.Path.{◌≡◌, refl}
use mathlib.Core.Logic.{inl, inr}
use mathlib.Core.Bool.{Bool, true, false, ◌||◌}
use mathlib.Core.List.{List, [], ◌∷◌, ◌++◌, map}
use native.Mathlib.Omega.{arith}
use engraphy.Base.Equality.{if◌then◌else◌, Bool-cases}
use engraphy.Base.Lists.{All, keep, take, any, length}

-- The relation holds of each element and each later one.
abbrev pub Pairwise {ℓ} : {A : Type ℓ} → (A → A → Type 0) → List A → Type 0
Pairwise R [] = Unit
Pairwise R (x ∷ xs) = All (R x) xs × Pairwise R xs

module _ {A : Type 0} (before : A → A → Bool) where
  unfoldable pub insert_by : A → List A → List A
  insert_by x [] = x ∷ []
  insert_by x (y ∷ ys) = let rest = insert_by x ys in if before x y then x ∷ y ∷ ys else y ∷ rest

  unfoldable pub sort_by : List A → List A
  unfolding insert_by
  sort_by [] = []
  sort_by (x ∷ xs) = insert_by x (sort_by xs)

module _ {A : Type 0} (P : A → Type 0) where
  All-insert_by :
      (before : A → A → Bool) (x : A) (ys : List A) → P x → All P ys → All P (insert_by before x ys)
  unfolding insert_by
  All-insert_by before x [] p ps = (p, tt)
  All-insert_by before x (y ∷ ys) p (q, qs) = elim (Bool-cases (before x y)) [
    | inl first ↦ rw first (p, (q, qs))
    | inr later ↦ rw later (q, All-insert_by before x ys p qs)
  ]

  pub All-sort_by : (before : A → A → Bool) (xs : List A) → All P xs → All P (sort_by before xs)
  unfolding sort_by
  All-sort_by before [] ps = tt
  All-sort_by before (x ∷ xs) (p, ps) = All-insert_by before x _ p (All-sort_by before xs ps)

  pub All-take : (n : ℕ) (xs : List A) → All P xs → All P (take n xs)
  All-take zero xs ps = tt
  All-take (suc n) [] ps = tt
  All-take (suc n) (x ∷ xs) (p, ps) = (p, All-take n xs ps)

pub All-keep :
    {A : Type 0} (test : A → Bool) (xs : List A) → All (λ x. test x ≡ true) (keep test xs)
All-keep test [] = tt
All-keep test (x ∷ xs) = elim (Bool-cases (test x)) [
  | inl passed ↦ rw passed (passed, All-keep test xs)
  | inr failed ↦ rw failed (All-keep test xs)
]

pub All-mono :
    {A : Type 0} {P Q : A → Type 0} (xs : List A) → ((x : A) → P x → Q x) → All P xs → All Q xs
All-mono [] h ps = tt
All-mono (x ∷ xs) h (p, ps) = (h x p, All-mono xs h ps)

pub All-map :
    {A B : Type 0} (P : B → Type 0) (f : A → B) (xs : List A)
    → All (λ x. P (f x)) xs
    → All P (map f xs)
All-map P f [] ps = tt
All-map P f (x ∷ xs) (p, ps) = (p, All-map P f xs ps)

pub Pairwise-map :
    {A B : Type 0} (R : B → B → Type 0) (f : A → B) (xs : List A)
    → Pairwise (λ x y. R (f x) (f y)) xs
    → Pairwise R (map f xs)
Pairwise-map R f [] ps = tt
Pairwise-map R f (x ∷ xs) (p, ps) = (All-map (R (f x)) f xs p, Pairwise-map R f xs ps)

module _ {A : Type 0} (P : A → Type 0) {R T : A → A → Type 0} where
  All-with :
      (x : A) (xs : List A)
      → ((x y : A) → P x → P y → R x y → T x y)
      → P x
      → All P xs
      → All (R x) xs
      → All (T x) xs
  All-with x [] h p ps rs = tt
  All-with x (y ∷ ys) h p (q, ps) (r, rs) = (h x y p q r, All-with x ys h p ps rs)

  -- One relation follows from another on the elements with `P`.
  pub Pairwise-with :
      (xs : List A)
      → ((x y : A) → P x → P y → R x y → T x y)
      → All P xs
      → Pairwise R xs
      → Pairwise T xs
  Pairwise-with [] h ps rs = tt
  Pairwise-with (x ∷ xs) h (p, ps) (r, rs) = (All-with x xs h p ps r, Pairwise-with xs h ps rs)

module _ {A : Type 0} (before : A → A → Bool) where
  any-insert_by :
      (p : A → Bool) (x : A) (ys : List A) → any p (insert_by before x ys) ≡ (p x || any p ys)
  unfolding insert_by
  any-insert_by p x [] = refl
  any-insert_by p x (y ∷ ys) = ground (arith, any-insert_by p x ys)

  -- Sorting keeps the elements.
  pub any-sort_by : (p : A → Bool) (xs : List A) → any p (sort_by before xs) ≡ any p xs
  unfolding sort_by
  any-sort_by p [] = refl
  any-sort_by p (x ∷ xs) = rw (any-insert_by p x (sort_by before xs)) (rw (any-sort_by p xs) refl)

  length-insert_by : (x : A) (ys : List A) → length (insert_by before x ys) ≡ suc (length ys)
  unfolding insert_by
  length-insert_by x [] = refl
  length-insert_by x (y ∷ ys) = ground (arith, length-insert_by x ys)

  pub length-sort_by : (xs : List A) → length (sort_by before xs) ≡ length xs
  unfolding sort_by
  length-sort_by [] = refl
  length-sort_by (x ∷ xs) = omega (arith, length-insert_by x (sort_by before xs), length-sort_by xs)

  -- A symmetric relation between all pairs.
  module _ (R : A → A → Type 0) (flips : (x y : A) → R x y → R y x) where
    Pairwise-insert_by :
        (x : A) (ys : List A) → All (R x) ys → Pairwise R ys → Pairwise R (insert_by before x ys)
    unfolding insert_by
    Pairwise-insert_by x [] h p = (tt, tt)
    Pairwise-insert_by x (y ∷ ys) (h, hs) (p, ps) = elim (Bool-cases (before x y)) [
      | inl first ↦ rw first ((h, hs), (p, ps))
      | inr later ↦
          rw later (All-insert_by (R y) before x ys (flips x y h) p, Pairwise-insert_by x ys hs ps)
    ]

    pub Pairwise-sort_by : (xs : List A) → Pairwise R xs → Pairwise R (sort_by before xs)
    unfolding sort_by
    Pairwise-sort_by [] p = tt
    Pairwise-sort_by (x ∷ xs) (p, ps) =
        Pairwise-insert_by x _ (All-sort_by (R x) before xs p) (Pairwise-sort_by xs ps)

  abbrev pub IsSorted : List A → Type 0
  IsSorted = Pairwise (λ x y. before x y ≡ true)

  module _ (total : (x y : A) → before x y ≡ false → before y x ≡ true)
      (trans : (x y z : A) → before x y ≡ true → before y z ≡ true → before x z ≡ true) where
    insert_by-IsSorted : (x : A) (ys : List A) → IsSorted ys → IsSorted (insert_by before x ys)
    unfolding insert_by
    insert_by-IsSorted x [] p = (tt, tt)
    insert_by-IsSorted x (y ∷ ys) (p, ps) = elim (Bool-cases (before x y)) [
      | inl first ↦ rw first ((first, All-mono ys (λ z h. trans x y z first h) p), (p, ps))
      | inr later ↦ rw later (
        All-insert_by (λ z. before y z ≡ true) before x ys (total x y later) p,
        insert_by-IsSorted x ys ps,
      )
    ]

    pub sort_by-IsSorted : (xs : List A) → IsSorted (sort_by before xs)
    unfolding sort_by
    sort_by-IsSorted [] = tt
    sort_by-IsSorted (x ∷ xs) = insert_by-IsSorted x _ (sort_by-IsSorted xs)

pub Pairwise-take :
    {A : Type 0} (R : A → A → Type 0) (n : ℕ) (xs : List A) → Pairwise R xs → Pairwise R (take n xs)
Pairwise-take R zero xs p = tt
Pairwise-take R (suc n) [] p = tt
Pairwise-take R (suc n) (x ∷ xs) (p, ps) = (All-take (R x) n xs p, Pairwise-take R n xs ps)

pub All-append :
    {A : Type 0} (P : A → Type 0) (xs ys : List A) → All P xs → All P ys → All P (xs ++ ys)
All-append P [] ys ps qs = qs
All-append P (x ∷ xs) ys (p, ps) qs = (p, All-append P xs ys ps qs)

-- One more element, to which each of the others is related.
pub Pairwise-snoc :
    {A : Type 0} (R : A → A → Type 0) (xs : List A) (y : A)
    → Pairwise R xs
    → All (λ x. R x y) xs
    → Pairwise R (xs ++ y ∷ [])
Pairwise-snoc R [] y ps hs = (tt, tt)
Pairwise-snoc R (x ∷ xs) y (p, ps) (h, hs) =
    (All-append (R x) xs (y ∷ []) p (h, tt), Pairwise-snoc R xs y ps hs)
