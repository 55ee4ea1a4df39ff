-- ===== src/Core/Search/Collapse.antt =====
-- engraphy/core/search.py `_collapse_by_pairs`: near duplicates leave a ranked list.
use engraphy.Base.{
  ℕ, ◌≡◌, Bool, true, false, ◌&&◌, ◌||◌, List, [], ◌∷◌, ◌++◌, any, ◌==◌, contains, nat_eq,
  if◌then◌else◌, arith, All, All-mono, ==_self, Pairwise, Bool-cases, inl, inr, ◌⊎◌,
}
use engraphy.Core.Search.Fuse.{Scores}
use engraphy.Core.Search.Fuse.Laws.{holds}

-- `adj.get(a)` holds `b`, for the two-element sets `near_pairs`
unfoldable pub near : List (ℕ × ℕ) → ℕ → ℕ → Bool
near pairs a b = any (λ (x, y). (a == x && b == y) || (a == y && b == x)) pairs

-- The walk in rank order, from the entries kept so far.
unfoldable pub collapse_from : List (ℕ × ℕ) → List ℕ → Scores → Scores
unfolding near
collapse_from pairs kept [] = []
collapse_from pairs kept ((id, score) ∷ rest) =
    let without_it = collapse_from pairs kept rest in
    let with_it = (id, score) ∷ collapse_from pairs (id ∷ kept) rest in
    if any (near pairs id) kept then without_it else with_it

unfoldable pub collapse_by_pairs : Scores → List (ℕ × ℕ) → Scores
unfolding collapse_from
collapse_by_pairs fused near_pairs = collapse_from near_pairs [] fused

-- `xs` is a part of `ys`, in its order.
pub data Sublist : Scores → Scores → Type 0 where
  nothing : Sublist [] []
  same : {xs ys : Scores} (e : ℕ × ℕ) → Sublist xs ys → Sublist (e ∷ xs) (e ∷ ys)
  skip : {xs ys : Scores} (e : ℕ × ℕ) → Sublist xs ys → Sublist xs (e ∷ ys)

collapse_from-Sublist :
    (pairs : List (ℕ × ℕ)) (kept : List ℕ) (fused : Scores)
    → Sublist (collapse_from pairs kept fused) fused
unfolding collapse_from
collapse_from-Sublist pairs kept [] = Sublist.nothing
collapse_from-Sublist pairs kept ((id, score) ∷ rest) =
    elim (Bool-cases (any (near pairs id) kept)) [
      | inl close ↦ rw close (Sublist.skip (id, score) (collapse_from-Sublist pairs kept rest))
      | inr clear ↦
          rw clear (Sublist.same (id, score) (collapse_from-Sublist pairs (id ∷ kept) rest))
    ]

-- No entry is near one that was kept before.
collapse_from-clear :
    (pairs : List (ℕ × ℕ)) (kept : List ℕ) (fused : Scores)
    → All (λ e. any (near pairs e.0) kept ≡ false) (collapse_from pairs kept fused)
unfolding collapse_from
collapse_from-clear pairs kept [] = tt
collapse_from-clear pairs kept ((id, score) ∷ rest) = elim (Bool-cases (any (near pairs id) kept)) [
  | inl close ↦ rw close (collapse_from-clear pairs kept rest)
  | inr clear ↦
      rw clear
        (clear, All-mono _ (λ e h. ground (arith, h)) (collapse_from-clear pairs (id ∷ kept) rest))
]

collapse_from-apart :
    (pairs : List (ℕ × ℕ)) (kept : List ℕ) (fused : Scores)
    → Pairwise (λ d e. near pairs e.0 d.0 ≡ false) (collapse_from pairs kept fused)
unfolding collapse_from
collapse_from-apart pairs kept [] = tt
collapse_from-apart pairs kept ((id, score) ∷ rest) = elim (Bool-cases (any (near pairs id) kept)) [
  | inl close ↦ rw close (collapse_from-apart pairs kept rest)
  | inr clear ↦ rw clear (
    All-mono _ (λ e h. ground (arith, h)) (collapse_from-clear pairs (id ∷ kept) rest),
    collapse_from-apart pairs (id ∷ kept) rest,
  )
]

a_near_one :
    (pairs : List (ℕ × ℕ)) (id : ℕ) (kept : List ℕ)
    → any (near pairs id) kept ≡ true
    → (k : ℕ) × (contains kept k ≡ true) × (near pairs id k ≡ true)
a_near_one pairs id [] h = cc
a_near_one pairs id (x ∷ kept) h = elim (Bool-cases (near pairs id x)) [
  | inl here ↦ (x, ground (arith, ==_self x), here)
  | inr there ↦
      let (k, among, close) = a_near_one pairs id kept (ground arith) in
      (k, ground (arith, among), close)
]

-- An entry of the list is kept, or near one that was kept before it.
abbrev pub Explained : List (ℕ × ℕ) → List ℕ → Scores → Scores → ℕ → Type 0
Explained pairs kept earlier out id =
    (holds out id ≡ true)
    ⊎ ((k : ℕ) × ((contains kept k || (holds earlier k && holds out k)) ≡ true)
        × (near pairs id k ≡ true))

collapse_from-Explained :
    (pairs : List (ℕ × ℕ)) (kept : List ℕ) (earlier : Scores) (id score : ℕ) (later : Scores)
    → Explained pairs kept earlier (collapse_from pairs kept (earlier ++ (id, score) ∷ later)) id
unfolding collapse_from
collapse_from-Explained pairs kept [] id score later =
    elim (Bool-cases (any (near pairs id) kept)) [
      | inl close ↦
          let (k, among, n) = a_near_one pairs id kept close in inr (k, ground (arith, among), n)
      | inr clear ↦ rw clear (inl (ground (arith, ==_self id)))
    ]
collapse_from-Explained pairs kept ((x, s) ∷ earlier) id score later =
    elim (Bool-cases (any (near pairs x) kept)) [
      | inl close ↦ rw close (elim (collapse_from-Explained pairs kept earlier id score later) [
        | inl there ↦ inl there
        | inr (k, among, n) ↦ inr (k, ground (arith, among), n)
      ])
      | inr clear ↦
          rw clear (elim (collapse_from-Explained pairs (x ∷ kept) earlier id score later) [
            | inl there ↦ inl (ground (arith, there))
            | inr (k, among, n) ↦ inr (k, ground (arith, among), n)
          ])
    ]

-- What is left of a ranked list.
pub record Collapsed (pairs : List (ℕ × ℕ)) (fused out : Scores) : Type 0 where
  pub part : Sublist out fused
  pub apart : Pairwise (λ d e. near pairs e.0 d.0 ≡ false) out
  pub explained :
      (earlier later : Scores) (id score : ℕ)
      → fused ≡ earlier ++ (id, score) ∷ later
      → (holds out id ≡ true)
        ⊎ ((k : ℕ) × ((holds earlier k && holds out k) ≡ true) × (near pairs id k ≡ true))

-- Collapsing leaves a part of the ranked list in its order, in which no entry is near one ranked
-- before it; and each entry of the list is kept, or near an entry that is ranked before it and kept.
pub collapse_by_pairs-Collapsed :
    (fused : Scores) (pairs : List (ℕ × ℕ)) → Collapsed pairs fused (collapse_by_pairs fused pairs)
unfolding collapse_by_pairs
collapse_by_pairs-Collapsed fused pairs = record {
  part = collapse_from-Sublist pairs [] fused;
  apart = collapse_from-apart pairs [] fused;
  explained =
      λ earlier later id score e. rw e (collapse_from-Explained pairs [] earlier id score later);
}
