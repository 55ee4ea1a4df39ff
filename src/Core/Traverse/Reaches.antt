-- ===== src/Core/Traverse/Reaches.antt =====
-- engraphy/core/traverse.py: the guard against cycles keeps every node from the walk that it can reach.
use mathlib.Core.Path.{subst}
use engraphy.Base.{
  ℕ, suc, ◌+◌, ◌-◌, ◌∙◌, ◌≤◌, ◌<◌, ◌≡◌, refl, sym, ap, ◌⊎◌, inl, inr, true, false, not, ◌&&◌, [],
  ◌∷◌, ltb, contains, nat_eq, In, map-In, keep-In, In-append, In-contains, arith, Bool-cases,
}
use engraphy.Core.Store.{Db, Session, Edge}
use engraphy.Core.Traverse.{
  Steps, Walked, other_end, crosses, first_row, first_rows, next_row, next_of, rounds, walk,
}
use engraphy.Core.Traverse.Walk.{Reaches, at_start, hop, rounds-level, rounds-next, rounds-up}

-- The rows of the query if no depth is asked for.
data IsRow (s : Session) (q : Steps) (db : Db) : Walked → Type 0 where
  first :
      (e : Edge)
      → In e db.edges
      → crosses s q db q.start e ≡ true
      → IsRow s q db (first_row q.start e)
  next :
      {w : Walked}
      → IsRow s q db w
      → (e : Edge) → In e db.edges
      → crosses s q db w.node e ≡ true
      → contains w.path (other_end e w.node) ≡ false
      → IsRow s q db (next_row w e)

module _ (s : Session) (q : Steps) (db : Db) where
  row-rounds :
      (w : Walked)
      → IsRow s q db w
      → w.depth ≤ q.max_depth
      → In w (rounds s q db w.depth (first_rows s q db))
  unfolding first_rows first_row next_of next_row
  row-rounds w (first e here passed) d =
      rounds-level s q db 1 _ _ (map-In (first_row q.start) e _ (keep-In _ e db.edges here passed))
  row-rounds w (next {w = x} before e here passed fresh) d =
      let room : x.depth < q.max_depth = omega arith in
      let same : suc x.depth ≡ x.depth + 1 = omega arith in
      let may : (ltb x.depth q.max_depth
            && (crosses s q db x.node e && not (contains x.path (other_end e x.node))))
          ≡ true =
        ground (arith, room, passed, fresh) in
      subst (λ k. In (next_row x e) (rounds s q db k (first_rows s q db))) same
        (rounds-next s q db x.depth x (next_row x e) (first_rows s q db)
          (row-rounds x before (omega arith))
          (map-In (next_row x) e _ (keep-In _ e db.edges here may)))

  row-walk : (w : Walked) → IsRow s q db w → w.depth ≤ q.max_depth → In w (walk s q db)
  unfolding walk
  row-walk w row d =
      rounds-up s q db (q.max_depth - w.depth) w.depth q.max_depth w _ (omega arith)
        (row-rounds w row d)

  -- A row for the node, no deeper than so many hops.
  RowWithin : ℕ → ℕ → Type 0
  RowWithin n k = (w : Walked) × IsRow s q db w × (w.node ≡ n) × (w.depth ≤ k)

  path-row :
      (w : Walked) (x : ℕ) → IsRow s q db w → In x w.path → (q.start ≡ x) ⊎ RowWithin x w.depth
  unfolding RowWithin first_row next_row
  path-row w x (first e here passed) (inl at) = inl at
  path-row w x (first e here passed) (inr (inl at)) =
      inr (first_row q.start e, first e here passed, at, omega arith)
  path-row w x (first e here passed) (inr (inr none_left)) = elim none_left [ ]
  path-row w x (next {w = v} before e here passed fresh) m =
      elim (In-append x v.path (other_end e v.node ∷ []) m) [
        | inl earlier ↦ elim (path-row v x before earlier) [
          | inl at ↦ inl at
          | inr (y, row, at, d) ↦ inr (y, row, at, omega arith)
        ]
        | inr (inl at) ↦ inr (next_row v e, next before e here passed fresh, at, omega arith)
        | inr (inr none_left) ↦ elim none_left [ ]
      ]

  Reaches-row : (n k : ℕ) → Reaches s q db n k → (q.start ≡ n) ⊎ RowWithin n k
  unfolding RowWithin first_row next_row
  Reaches-row n k at_start = inl refl
  Reaches-row n k (hop {n = x} {k = j} before e here passed) = elim (Reaches-row x j before) [
    | inl at ↦ inr (
      first_row q.start e,
      first e here (subst (λ y. crosses s q db y e ≡ true) (sym at) passed),
      ap (other_end e) at,
      omega arith,
    )
    | inr (w, row, at, d) ↦ elim (Bool-cases (contains w.path (other_end e w.node))) [
      | inl again ↦ elim (path-row w _ row (In-contains _ w.path again)) [
        | inl back ↦ inl (back ∙ ap (other_end e) at)
        | inr (y, earlier, there, c) ↦ inr (y, earlier, there ∙ ap (other_end e) at, omega arith)
      ]
      | inr fresh ↦ inr (
        next_row w e,
        next row e here (subst (λ y. crosses s q db y e ≡ true) (sym at) passed) fresh,
        ap (other_end e) at,
        omega arith,
      )
    ]
  ]

  -- A node other than the start that can be reached in `k` hops, and no more of them than the walk may
  -- take, has a row whose depth is at most `k`.
  pub Reaches-walk :
      (n k : ℕ)
      → k ≤ q.max_depth
      → ¬ (q.start ≡ n)
      → Reaches s q db n k
      → (w : Walked) × In w (walk s q db) × (w.node ≡ n) × (w.depth ≤ k)
  unfolding RowWithin
  Reaches-walk n k within other reached = elim (Reaches-row n k reached) [
    | inl at ↦ absurd (other at)
    | inr (w, row, at, d) ↦ (w, row-walk w row (omega arith), at, d)
  ]
